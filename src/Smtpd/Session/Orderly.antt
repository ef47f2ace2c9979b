-- ===== src/Smtpd/Session/Orderly.antt =====
-- internal/smtpd/server.go: what holds of a connection between two commands.
pub mod Handlers
pub mod Auth
pub mod Run
use mailschleuse.Base.{ℕ, ◌≤◌, ◌≡◌, ◌⊎◌, Bool, true, false, List, [], length}
use mailschleuse.Smtpd.Routing.{Options}
use mailschleuse.Smtpd.Session.State.{Session, is_required}

-- Without an open transaction there is no sender and no recipient; the recipients are within their
-- limit; where AUTH is required, a transaction is open only after one; and only an authenticated
-- session has a user name.
pub record IsOrderly (o : Options) (s : Session) : Type 0 where
  pub closed : (s.in_mail ≡ true) ⊎ ((s.rcpts ≡ []) × (s.from ≡ []))
  pub bounded : length s.rcpts ≤ o.max_recipients
  pub authorized : (is_required o.auth ≡ false) ⊎ ((s.in_mail ≡ false) ⊎ (s.authenticated ≡ true))
  pub named : (s.authenticated ≡ true) ⊎ (s.username ≡ [])
