-- ===== src/Tests/Startup.antt =====
-- internal/config and cmd/mailschleuse at concrete inputs.
use mailschleuse.Base.{
  ◌≡◌, refl, true, false, [], ◌∷◌, Option, none, some, Bytes, codes, All, str_eq, ℤ, pos, ok,
  if◌then◌else◌,
}
use mailschleuse.Store.Queries.{has}
use mailschleuse.Store.Ops.{new, deliver, delete}
use mailschleuse.Store.Steps.{
  start, next, delivering, deleting, subscribing, IsKept, Reaches-IsKept,
}
use mailschleuse.Store.State.{Store, subscribe}
use mailschleuse.Config.Types.{auth_optional, tls_auto}
use mailschleuse.Config.Settings.{Env}
use mailschleuse.Config.Load.{Config, load}
use mailschleuse.Config.Load.Valid.{IsValid, load-IsValid}
use mailschleuse.Smtpd.Routing.{resolve_mailboxes}
use mailschleuse.Main.{open_store, smtp_options}
use mailschleuse.Main.Wired.{load-resolves}
use mailschleuse.Tests.Fixtures.{plain_text, stamps, stamps-IsFresh, inbox, sender, tag}

-- The environment of a server with its own mailboxes and a route.
abbrev vars : Env
vars key =
    if str_eq key (codes "MS_MAILBOXES")
    then some (codes "inbox, Sent")
    else if str_eq key (codes "MS_SMTP_MAILBOX")
    then some (codes "sent")
    else if str_eq key (codes "MS_SMTP_ROUTES")
    then some (codes "*@a=inbox")
    else if str_eq key (codes "MS_MAX_MESSAGE_SIZE")
    then some (codes "2 kb")
    else none

abbrev no_duration : Bytes → Option ℤ
no_duration raw = none

abbrev pub config : Config
config = record {
  hostname = codes "mailschleuse.local";
  public_host = codes "localhost";
  mailboxes = inbox ∷ codes "sent" ∷ [];
  data_dir = [];
  max_messages = pos 500;
  max_size_bytes = pos 2048;
  http_addr = codes ":8080";
  web_username = [];
  web_password = [];
  base_path = codes "/";
  cors_origin = [];
  read_only_mode = false;
  smtp_addr = codes ":1025";
  smtp_tls_addr = [];
  smtp_auth = auth_optional;
  smtp_username = [];
  smtp_password = [];
  smtp_mailbox = codes "sent";
  smtp_user_routing = false;
  smtp_header_route = true;
  smtp_routes = record { pattern = codes "*@a"; mailboxes = inbox ∷ [] } ∷ [];
  smtp_add_received = true;
  smtp_max_rcpt = pos 100;
  pop3_addr = codes ":1110";
  pop3_tls_addr = [];
  pop3_username = [];
  pop3_password = [];
  pop3_mailbox = inbox;
  pop3_user_routing = false;
  pop3_lock = true;
  tls_mode = tls_auto;
  tls_cert_file = [];
  tls_key_file = [];
  idle_timeout = pos 300000000000;
  log_level = codes "info";
  log_format = codes "text";
}

load-config : load no_duration vars ≡ ok config
unfolding load str_eq
load-config = refl

load-IsValid_example : IsValid config
load-IsValid_example = load-IsValid no_duration vars {c = config} load-config

load-resolves_example :
    All
      (λ m. has (open_store config) m ≡ true)
      (resolve_mailboxes
        (has (open_store config))
        (smtp_options config)
        (codes "ann")
        (codes "X-Mailschleuse-Mailbox: trash\r\n\r\nHello")
        (codes "bob@a" ∷ codes "eve@b" ∷ []))
    × (has (open_store config) config.pop3_mailbox ≡ true)
load-resolves_example =
    load-resolves no_duration vars (codes "ann")
      (codes "X-Mailschleuse-Mailbox: trash\r\n\r\nHello") (codes "bob@a" ∷ codes "eve@b" ∷ [])
      {c = config} load-config

abbrev fresh_store : Store
fresh_store = new (inbox ∷ []) 1 4096 none

abbrev one_stored : Store
one_stored =
    (deliver plain_text (stamps fresh_store.cells) inbox (codes "smtp") sender (codes "Hello")
      fresh_store).0

-- A listener, a message, and its deletion.
Reaches-IsKept_example : IsKept stamps (delete (tag 0) (subscribe one_stored).0).0
Reaches-IsKept_example = Reaches-IsKept plain_text stamps stamps-IsFresh (inbox ∷ []) 1 4096 none (
    next
      (next (next start (delivering inbox (codes "smtp") sender (codes "Hello") fresh_store))
        (subscribing one_stored))
      (deleting (tag 0) (subscribe one_stored).0))
