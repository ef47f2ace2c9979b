-- ===== src/Smtpd/Session/Ends/Handlers.antt =====
-- internal/smtpd/server.go: no handler gives lines back to the connection.
use mailschleuse.Base.{
  ℕ, ◌≤◌, Bool, false, not, List, [], ◌∷◌, ◌++◌, arith, length, Bytes, codes, if_intro, is_nil, inl,
  inr, Bool-cases, Option-cases,
}
use mailschleuse.Store.Types.{Envelope}
use mailschleuse.Store.State.{Store}
use mailschleuse.Store.Ops.{
  Delivery, DeliverError, stored, refused, deliver, too_large, no_such_mailbox, not_persisted,
}
use mailschleuse.Store.Disk.{body_failed, metadata_failed}
use mailschleuse.Smtpd.Data.{LeftOver, DataRead, failed, done, read_data}
use mailschleuse.Smtpd.Command.{cut_prefix_fold, parse_path, Params}
use mailschleuse.Smtpd.Routing.{Options}
use mailschleuse.Smtpd.Session.State.{Session, reset_transaction, handle_ehlo, handle_start_tls}
use mailschleuse.Smtpd.Session.Mail.{
  handle_mail, mail_path, accept_mail, handle_rcpt, rcpt_path, accept_rcpt,
}
use mailschleuse.Smtpd.Session.Deliver.{
  World, deliver_each, accept_data, finish_data, handle_data, refusal, queued_as,
}
use mailschleuse.Smtpd.Session.Preserve.{handle_auth-Keeps}
use mailschleuse.Smtpd.Session.Auth.{handle_auth}
use mailschleuse.Smtpd.Session.Ends.{
  IsShort, AtMost, reply-AtMost, read_line-shorter, read_line-cut, Remains, read_payload-Remains,
}

pub handle_ehlo-AtMost :
    (n : ℕ) (o : Options) (args : Bytes) (extended : Bool) (s : Session)
    → AtMost n s
    → AtMost n (handle_ehlo o args extended s)
unfolding handle_ehlo
handle_ehlo-AtMost n o args extended s h = ground arith

pub handle_start_tls-AtMost :
    (n : ℕ) (o : Options) (s : Session) → AtMost n s → AtMost n (handle_start_tls o s).0
unfolding handle_start_tls
handle_start_tls-AtMost n o s h = ground arith

rcpt_path-AtMost :
    (n : ℕ) (o : Options) (rest : Bytes) (s : Session) → AtMost n s → AtMost n (rcpt_path o rest s)
unfolding rcpt_path accept_rcpt
rcpt_path-AtMost n o rest s h = elim (Option-cases (parse_path rest)) [
  | inl e ↦ rw (e, rcpt_path) (ground arith)
  | inr (p, e) ↦ rw (e, rcpt_path) (ground arith)
]

pub handle_rcpt-AtMost :
    (n : ℕ) (o : Options) (args : Bytes) (s : Session)
    → AtMost n s
    → AtMost n (handle_rcpt o args s)
unfolding handle_rcpt
handle_rcpt-AtMost n o args s h = elim (Option-cases (cut_prefix_fold args (codes "TO:"))) [
  | inl f ↦ rw f (ground arith)
  | inr (rest, f) ↦ rw f (ground (arith, rcpt_path-AtMost n o rest s))
]

accept_mail-AtMost :
    (n : ℕ) (o : Options) (path : Bytes × Params) (s : Session)
    → AtMost n s
    → AtMost n (accept_mail o path s)
unfolding accept_mail
accept_mail-AtMost n o (addr, params) s h = ground arith

mail_path-AtMost :
    (n : ℕ) (o : Options) (rest : Bytes) (s : Session) → AtMost n s → AtMost n (mail_path o rest s)
unfolding mail_path
mail_path-AtMost n o rest s h = elim (Option-cases (parse_path rest)) [
  | inl e ↦ rw (e, mail_path) (ground arith)
  | inr (p, e) ↦ rw (e, mail_path) (accept_mail-AtMost n o p s h)
]

pub handle_mail-AtMost :
    (n : ℕ) (o : Options) (args : Bytes) (s : Session)
    → AtMost n s
    → AtMost n (handle_mail o args s)
unfolding handle_mail
handle_mail-AtMost n o args s h = elim (Option-cases (cut_prefix_fold args (codes "FROM:"))) [
  | inl f ↦ rw f (ground arith)
  | inr (rest, f) ↦ rw f (ground (arith, mail_path-AtMost n o rest s))
]

pub handle_auth-AtMost :
    (n : ℕ) (left_over : LeftOver) (o : Options) (args : Bytes) (s : Session)
    → IsShort left_over
    → AtMost n s
    → AtMost n (handle_auth left_over o args s)
handle_auth-AtMost n left_over o args s short =
    handle_auth-Keeps o left_over (AtMost n) (reply-AtMost n)
      (λ username s h. record { bound = h.bound })
      (λ s l rest e h. record {
        bound = omega (arith, h.bound, read_line-shorter left_over s.input l rest e);
      })
      (λ s rest e h. record {
        bound = omega (arith, h.bound, read_line-cut left_over s.input rest short e);
      })
      args s

pub reset-AtMost : (n : ℕ) (s : Session) → AtMost n s → AtMost n (reset_transaction s)
unfolding reset_transaction
reset-AtMost n s h = record { bound = h.bound }

refusal-AtMost :
    (n : ℕ) (o : Options) (e : DeliverError) (s : Session) → AtMost n s → AtMost n (refusal o e s)
unfolding refusal
refusal-AtMost n o too_large s h = reply-AtMost n _ _ _ s h
refusal-AtMost n o (no_such_mailbox name) s h = reply-AtMost n _ _ _ s h
refusal-AtMost n o (not_persisted body_failed) s h = reply-AtMost n _ _ _ s h
refusal-AtMost n o (not_persisted metadata_failed) s h = reply-AtMost n _ _ _ s h

deliver_each-AtMost :
    (n : ℕ) (w : World) (o : Options) (env : Envelope) (body : Bytes) (names queued : List Bytes)
    (s : Session) (store : Store)
    → AtMost n s
    → AtMost n (deliver_each w o env body names queued s store).0
unfolding deliver_each
deliver_each-AtMost n w o env body [] queued s store h = reply-AtMost n _ _ _ s h
deliver_each-AtMost n w o env body (name ∷ names) queued s store h =
    cases (deliver w.parse (w.stamp store.cells) name (codes "smtp") env body store)
      (λ queued' store'. deliver_each-AtMost n w o env body names queued' s store' h)
  where
    cases :
        (r : Store × Delivery)
        → ((queued' : List Bytes) (store' : Store)
            → AtMost n (deliver_each w o env body names queued' s store').0)
        → AtMost n
            (elim r.1 as (λ x. Session × Store) [
              | stored msg ↦
                  deliver_each w o env body names (queued ++ queued_as msg name ∷ []) s r.0
              | refused e ↦ (refusal o e s, r.0)
            ]).0
    cases (store', refused e) next = refusal-AtMost n o e s h
    cases (store', stored msg) next = next (queued ++ queued_as msg name ∷ []) store'

pub input-AtMost :
    (n : ℕ) (rest : List Bytes) (s : Session)
    → length rest ≤ length s.input
    → AtMost n s
    → AtMost n (record s { input = rest })
input-AtMost n rest s le h = record { bound = omega (arith, le, h.bound) }

finish_data-AtMost :
    (n : ℕ) (w : World) (o : Options) (r : DataRead) (s : Session) (store : Store)
    → Remains (length s.input) r
    → AtMost n s
    → AtMost n (finish_data w o r s store).0
unfolding finish_data
finish_data-AtMost n w o (failed rest) s store le h = input-AtMost n rest s le h
finish_data-AtMost n w o (done p) s store le h = elim (Bool-cases p.too_large) [
  | inl e ↦ rw e (reply-AtMost n _ _ _ _ (reset-AtMost n _ (input-AtMost n p.rest s le h)))
  | inr e ↦ rw e (
      unfold accept_data in
      deliver_each-AtMost n w o _ _ _ [] _ store (reset-AtMost n _ (input-AtMost n p.rest s le h)))
]

pub handle_data-AtMost :
    (n : ℕ) (w : World) (o : Options) (s : Session) (store : Store)
    → IsShort w.left_over
    → AtMost n s
    → AtMost n (handle_data w o s store).0
unfolding handle_data read_data
handle_data-AtMost n w o s store short h =
    if_intro (λ (r : Session × Store). AtMost n r.0) (not s.in_mail) (reply-AtMost n _ _ _ s h)
      (if_intro (λ (r : Session × Store). AtMost n r.0) (is_nil s.rcpts) (reply-AtMost n _ _ _ s h)
        (finish_data-AtMost n w o _ _ store
          (read_payload-Remains w.left_over o.max_size s.input [] false short (length s.input)
            (omega arith))
          (reply-AtMost n _ _ _ s h)))
