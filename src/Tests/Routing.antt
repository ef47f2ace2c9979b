-- ===== src/Tests/Routing.antt =====
-- internal/config and the routing of internal/smtpd at concrete inputs.
use mailschleuse.Base.{ok, ◌≡◌, refl, Bool, List, [], ◌∷◌, codes, Bytes, All, str_eq}
use mailschleuse.Config.Types.{Route}
use mailschleuse.Config.Routes.{parse_routes}
use mailschleuse.Config.Routes.Rules.{IsUsable, parse_routes-IsUsable}
use mailschleuse.Store.Queries.{has}
use mailschleuse.Smtpd.Routing.{resolve_mailboxes}
use mailschleuse.Smtpd.Routing.Targets.{IsResolved, resolve_mailboxes-IsResolved}
use mailschleuse.Tests.Fixtures.{empty_store, smtp_options, inbox}

abbrev recipients : List Bytes
recipients = codes "bob@example.org" ∷ codes "eve@example.org" ∷ []

resolve_mailboxes-IsResolved_example :
    IsResolved
      (has empty_store)
      smtp_options
      (resolve_mailboxes (has empty_store) smtp_options (codes "ann") (codes "Hello") recipients)
resolve_mailboxes-IsResolved_example =
    resolve_mailboxes-IsResolved (has empty_store) smtp_options (codes "ann") (codes "Hello")
      recipients

-- The only mailbox is the inbox.
abbrev is_inbox : Bytes → Bool
is_inbox m = str_eq m inbox

abbrev rule : Bytes
rule = codes "*@a = Inbox"

abbrev read : List Route
read = record { pattern = codes "*@a"; mailboxes = inbox ∷ [] } ∷ []

parse_routes-rule : parse_routes is_inbox rule ≡ ok read
unfolding parse_routes str_eq
parse_routes-rule = refl

parse_routes-IsUsable_example : All (IsUsable is_inbox) read
parse_routes-IsUsable_example = parse_routes-IsUsable is_inbox rule parse_routes-rule
