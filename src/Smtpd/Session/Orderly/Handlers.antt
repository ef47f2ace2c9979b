-- ===== src/Smtpd/Session/Orderly/Handlers.antt =====
-- internal/smtpd/server.go: each handler keeps a session orderly.
use mailschleuse.Base.{
  ◌≡◌, ◌⊎◌, Bool, true, false, [], ◌∷◌, length-append, Bytes, arith, inl, inr, Option-cases,
  Bool-cases, codes,
}
use mailschleuse.Smtpd.Routing.{Options}
use mailschleuse.Smtpd.Command.{Params, cut_prefix_fold, parse_path}
use mailschleuse.Smtpd.Session.State.{Session, is_required, handle_ehlo, handle_start_tls}
use mailschleuse.Smtpd.Session.Mail.{
  handle_mail, mail_path, accept_mail, handle_rcpt, rcpt_path, accept_rcpt,
}
use mailschleuse.Smtpd.Session.Orderly.{IsOrderly}

pub handle_ehlo-IsOrderly :
    (o : Options) (args : Bytes) (extended : Bool) (s : Session)
    → IsOrderly o s
    → IsOrderly o (handle_ehlo o args extended s)
unfolding handle_ehlo
handle_ehlo-IsOrderly o args extended s h = ground arith

pub handle_start_tls-IsOrderly :
    (o : Options) (s : Session) → IsOrderly o s → IsOrderly o (handle_start_tls o s).0
unfolding handle_start_tls
handle_start_tls-IsOrderly o s h = ground arith

accept_rcpt-IsOrderly :
    (o : Options) (addr : Bytes) (s : Session)
    → s.in_mail ≡ true
    → IsOrderly o s
    → IsOrderly o (accept_rcpt o addr s)
unfolding accept_rcpt
accept_rcpt-IsOrderly o addr s m h = ground (arith, length-append s.rcpts (addr ∷ []))

rcpt_path-IsOrderly :
    (o : Options) (rest : Bytes) (s : Session)
    → s.in_mail ≡ true
    → IsOrderly o s
    → IsOrderly o (rcpt_path o rest s)
unfolding rcpt_path
rcpt_path-IsOrderly o rest s m h = elim (Option-cases (parse_path rest)) [
  | inl e ↦ rw (e, rcpt_path) (ground arith)
  | inr (p, e) ↦ rw (e, rcpt_path) (accept_rcpt-IsOrderly o p.0 s m h)
]

pub handle_rcpt-IsOrderly :
    (o : Options) (args : Bytes) (s : Session) → IsOrderly o s → IsOrderly o (handle_rcpt o args s)
unfolding handle_rcpt
handle_rcpt-IsOrderly o args s h = elim (Bool-cases s.in_mail) [
  | inr e ↦ rw e (ground arith)
  | inl e ↦ elim (Option-cases (cut_prefix_fold args (codes "TO:"))) [
    | inl f ↦ rw (e, f) (ground arith)
    | inr (rest, f) ↦ rw (e, f) (rcpt_path-IsOrderly o rest s e h)
  ]
]

accept_mail-IsOrderly :
    (o : Options) (path : Bytes × Params) (s : Session)
    → (is_required o.auth ≡ false) ⊎ (s.authenticated ≡ true)
    → IsOrderly o s
    → IsOrderly o (accept_mail o path s)
unfolding accept_mail
accept_mail-IsOrderly o (addr, params) s a h = ground arith

mail_path-IsOrderly :
    (o : Options) (rest : Bytes) (s : Session)
    → (is_required o.auth ≡ false) ⊎ (s.authenticated ≡ true)
    → IsOrderly o s
    → IsOrderly o (mail_path o rest s)
unfolding mail_path
mail_path-IsOrderly o rest s a h = elim (Option-cases (parse_path rest)) [
  | inl e ↦ rw (e, mail_path) (ground arith)
  | inr (p, e) ↦ rw (e, mail_path) (accept_mail-IsOrderly o p s a h)
]

pub handle_mail-IsOrderly :
    (o : Options) (args : Bytes) (s : Session) → IsOrderly o s → IsOrderly o (handle_mail o args s)
unfolding handle_mail
handle_mail-IsOrderly o args s h = elim (Option-cases (cut_prefix_fold args (codes "FROM:"))) [
  | inl f ↦ rw f (ground arith)
  | inr (rest, f) ↦ rw f (ground (arith, mail_path-IsOrderly o rest s))
]
