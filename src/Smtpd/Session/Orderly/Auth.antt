-- ===== src/Smtpd/Session/Orderly/Auth.antt =====
-- internal/smtpd/server.go: AUTH keeps a session orderly.
use mailschleuse.Base.{ℕ, List, Bytes, arith}
use mailschleuse.Smtpd.Data.{LeftOver}
use mailschleuse.Smtpd.Routing.{Options}
use mailschleuse.Smtpd.Session.State.{Session, reply, Arg}
use mailschleuse.Smtpd.Session.Auth.{handle_auth}
use mailschleuse.Smtpd.Session.Preserve.{handle_auth-Keeps}
use mailschleuse.Smtpd.Session.Orderly.{IsOrderly}

pub reply-IsOrderly :
    (o : Options) (code : ℕ) (format : Bytes) (args : List Arg) (s : Session)
    → IsOrderly o s
    → IsOrderly o (reply code format args s)
unfolding reply
reply-IsOrderly o code format args s h = record {
  closed = h.closed;
  bounded = h.bounded;
  authorized = h.authorized;
  named = h.named;
}

pub input-IsOrderly :
    (o : Options) (rest : List Bytes) (s : Session)
    → IsOrderly o s
    → IsOrderly o (record s { input = rest })
input-IsOrderly o rest s h = record {
  closed = h.closed;
  bounded = h.bounded;
  authorized = h.authorized;
  named = h.named;
}

pub handle_auth-IsOrderly :
    (left_over : LeftOver) (o : Options) (args : Bytes) (s : Session)
    → IsOrderly o s
    → IsOrderly o (handle_auth left_over o args s)
handle_auth-IsOrderly left_over o =
    handle_auth-Keeps o left_over (IsOrderly o) (reply-IsOrderly o)
      (λ username s h. ground (arith, h)) (λ s l rest e. input-IsOrderly o rest s)
      (λ s rest e. input-IsOrderly o rest s)
