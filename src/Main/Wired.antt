-- ===== src/Main/Wired.antt =====
-- cmd/mailschleuse/main.go: the servers of a valid configuration fit the store.
use mailschleuse.Base.{
  ◌≡◌, refl, sym, ap, ◌∙◌, ◌⊎◌, inl, inr, true, false, ◌||◌, List, [], ◌∷◌, Option, none, some, All,
  Bytes, arith, str_eq, Bool-cases, contains, update, Dict, ℤ,
}
use mailschleuse.Store.Types.{Message}
use mailschleuse.Store.Ops.{new, new_boxes}
use mailschleuse.Store.Disk.{is_some}
use mailschleuse.Store.Queries.{has}
use mailschleuse.Config.Settings.{Env, has_mailbox}
use mailschleuse.Config.Load.{Config, load}
use mailschleuse.Config.Load.Valid.{load-IsValid, has_mailbox-contains}
use mailschleuse.Base.{ok}
use mailschleuse.Smtpd.Routing.{resolve_mailboxes}
use mailschleuse.Smtpd.Routing.Targets.{resolve_mailboxes-IsResolved}
use mailschleuse.Main.{open_store, smtp_options}

-- A mailbox of a new store has a name that is given, or stood there before.
has-new_boxes :
    (names : List Bytes) (boxes : Dict (List Message)) (k : Bytes)
    → is_some (new_boxes names boxes k) ≡ (contains names k || is_some (boxes k))
unfolding new_boxes contains
has-new_boxes [] boxes k = refl
has-new_boxes (n ∷ names) boxes k =
    has-new_boxes names (update boxes n (some [])) k ∙ cases (Bool-cases (str_eq n k))
  where
    cases :
        (str_eq n k ≡ true) ⊎ (str_eq n k ≡ false)
        → (contains names k || is_some (update boxes n (some []) k))
          ≡ ((str_eq n k || contains names k) || is_some (boxes k))
    cases (inl t) = ground (arith, t)
    cases (inr f) = ground (arith, f)

-- The new store has exactly the mailboxes of the configuration.
pub has-open_store :
    (c : Config) (name : Bytes) → has (open_store c) name ≡ has_mailbox c.mailboxes name
unfolding open_store has new
has-open_store c name =
    has-new_boxes c.mailboxes (λ k. none) name
    ∙ (or_false ∙ sym (has_mailbox-contains c.mailboxes name))
  where
    or_false : (contains c.mailboxes name || false) ≡ contains c.mailboxes name
    or_false = ground arith

default_known :
    (c : Config) (ms : List Bytes)
    → has_mailbox c.mailboxes c.smtp_mailbox ≡ true
    → All (λ m. (has (open_store c) m ≡ true) ⊎ (m ≡ c.smtp_mailbox)) ms
    → All (λ m. has (open_store c) m ≡ true) ms
default_known c [] known h = tt
default_known c (m ∷ ms) known h = (
  (elim h.0 [
    | inl there ↦ there
    | inr e ↦ ap (has (open_store c)) e ∙ has-open_store c c.smtp_mailbox ∙ known
  ]),
  default_known c ms known h.1,
)

-- With a configuration that Load accepts, the SMTP server stores each message in mailboxes of the
-- store that the program opens, without a data directory, and in no other, and the POP3 server's default mailbox is one of them, so that no delivery fails for a
-- mailbox that does not exist.
pub load-resolves :
    (parse_duration : Bytes → Option ℤ) (vars : Env) (username body : Bytes)
    (recipients : List Bytes) {c : Config}
    → load parse_duration vars ≡ ok c
    → All
        (λ m. has (open_store c) m ≡ true)
        (resolve_mailboxes (has (open_store c)) (smtp_options c) username body recipients)
      × (has (open_store c) c.pop3_mailbox ≡ true)
unfolding smtp_options
load-resolves parse_duration vars username body recipients {c} e =
    let valid = load-IsValid parse_duration vars {c = c} e in
    (
      default_known c _ valid.checked.smtp_known
          (resolve_mailboxes-IsResolved (has (open_store c)) (smtp_options c) username body
            recipients).known,
      has-open_store c c.pop3_mailbox ∙ valid.checked.pop3_known,
    )
