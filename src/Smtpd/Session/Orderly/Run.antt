-- ===== src/Smtpd/Session/Orderly/Run.antt =====
-- internal/smtpd/server.go: DATA, each round of the loop and whole sessions keep a session orderly.
use mailschleuse.Base.{
  if_intro, not, some_injective, subst, ℕ, zero, suc, ◌≡◌, Bool, true, false, List, [], ◌∷◌, ◌++◌,
  Bytes, codes, arith, inl, inr, some, Bool-cases, is_nil,
}
use mailschleuse.Store.Types.{Envelope}
use mailschleuse.Store.State.{Store}
use mailschleuse.Store.Ops.{
  Delivery, stored, refused, DeliverError, too_large, no_such_mailbox, not_persisted, deliver,
}
use mailschleuse.Store.Disk.{body_failed, metadata_failed}
use mailschleuse.Smtpd.Data.{
  LineRead, ended, overlong, line_read, read_line, DataRead, failed, done,
}
use mailschleuse.Smtpd.Command.{split_command}
use mailschleuse.Smtpd.Routing.{Options}
use mailschleuse.Smtpd.Session.State.{Session, reset_transaction}
use mailschleuse.Smtpd.Session.Deliver.{
  World, queued_as, refusal, deliver_each, accept_data, finish_data, handle_data,
}
use mailschleuse.Smtpd.Session.Loop.{
  Verb, ehlo, helo, starttls, auth, mail, rcpt, data_verb, rset, State, dispatch, command, verb_of,
  step, loop,
}
use mailschleuse.Smtpd.Session.Orderly.{IsOrderly}
use mailschleuse.Smtpd.Session.Orderly.Handlers.{
  handle_ehlo-IsOrderly, handle_start_tls-IsOrderly, handle_mail-IsOrderly, handle_rcpt-IsOrderly,
}
use mailschleuse.Smtpd.Session.Orderly.Auth.{
  reply-IsOrderly, input-IsOrderly, handle_auth-IsOrderly,
}

refusal-IsOrderly :
    (o : Options) (e : DeliverError) (s : Session) → IsOrderly o s → IsOrderly o (refusal o e s)
unfolding refusal
refusal-IsOrderly o too_large s h = reply-IsOrderly o _ _ _ s h
refusal-IsOrderly o (no_such_mailbox name) s h = reply-IsOrderly o _ _ _ s h
refusal-IsOrderly o (not_persisted body_failed) s h = reply-IsOrderly o _ _ _ s h
refusal-IsOrderly o (not_persisted metadata_failed) s h = reply-IsOrderly o _ _ _ s h

reset-IsOrderly : (o : Options) (s : Session) → IsOrderly o s → IsOrderly o (reset_transaction s)
unfolding reset_transaction
reset-IsOrderly o s h = ground arith

deliver_each-IsOrderly :
    (w : World) (o : Options) (env : Envelope) (body : Bytes) (names queued : List Bytes)
    (s : Session) (store : Store)
    → IsOrderly o s
    → IsOrderly o (deliver_each w o env body names queued s store).0
unfolding deliver_each
deliver_each-IsOrderly w o env body [] queued s store h = reply-IsOrderly o _ _ _ s h
deliver_each-IsOrderly w o env body (name ∷ names) queued s store h =
    cases (deliver w.parse (w.stamp store.cells) name (codes "smtp") env body store)
      (λ queued' store'. deliver_each-IsOrderly w o env body names queued' s store' h)
  where
    cases :
        (r : Store × Delivery)
        → ((queued' : List Bytes) (store' : Store)
            → IsOrderly o (deliver_each w o env body names queued' s store').0)
        → IsOrderly o
            (elim r.1 as (λ x. Session × Store) [
              | stored msg ↦
                  deliver_each w o env body names (queued ++ queued_as msg name ∷ []) s r.0
              | refused e ↦ (refusal o e s, r.0)
            ]).0
    cases (store', refused e) next = refusal-IsOrderly o e s h
    cases (store', stored msg) next = next (queued ++ queued_as msg name ∷ []) store'

finish_data-IsOrderly :
    (w : World) (o : Options) (r : DataRead) (s : Session) (store : Store)
    → IsOrderly o s
    → IsOrderly o (finish_data w o r s store).0
unfolding finish_data
finish_data-IsOrderly w o (failed rest) s store h = input-IsOrderly o rest s h
finish_data-IsOrderly w o (done p) s store h = elim (Bool-cases p.too_large) [
  | inl e ↦ rw e (reply-IsOrderly o _ _ _ _ (reset-IsOrderly o _ (input-IsOrderly o p.rest s h)))
  | inr e ↦ rw e (
      unfold accept_data in
      deliver_each-IsOrderly w o _ _ _ [] _ store
        (reset-IsOrderly o _ (input-IsOrderly o p.rest s h)))
]

handle_data-IsOrderly :
    (w : World) (o : Options) (s : Session) (store : Store)
    → IsOrderly o s
    → IsOrderly o (handle_data w o s store).0
unfolding handle_data
handle_data-IsOrderly w o s store h =
    if_intro (λ (r : Session × Store). IsOrderly o r.0) (not s.in_mail)
      (reply-IsOrderly o _ _ _ s h)
      (if_intro (λ (r : Session × Store). IsOrderly o r.0) (is_nil s.rcpts)
        (reply-IsOrderly o _ _ _ s h)
        (finish_data-IsOrderly w o _ _ store (reply-IsOrderly o _ _ _ s h)))

dispatch-IsOrderly :
    (w : World) (o : Options) (v : Verb) (args : Bytes) (st : State)
    → IsOrderly o st.session
    → IsOrderly o (dispatch w o v args st).0.session
unfolding dispatch
dispatch-IsOrderly w o ehlo args st h = handle_ehlo-IsOrderly o args true st.session h
dispatch-IsOrderly w o helo args st h = handle_ehlo-IsOrderly o args false st.session h
dispatch-IsOrderly w o starttls args st h = handle_start_tls-IsOrderly o st.session h
dispatch-IsOrderly w o auth args st h = handle_auth-IsOrderly w.left_over o args st.session h
dispatch-IsOrderly w o mail args st h = handle_mail-IsOrderly o args st.session h
dispatch-IsOrderly w o rcpt args st h = handle_rcpt-IsOrderly o args st.session h
dispatch-IsOrderly w o data_verb args st h = handle_data-IsOrderly w o st.session st.store h
dispatch-IsOrderly w o rset args st h = reply-IsOrderly o _ _ _ _ (reset-IsOrderly o st.session h)
dispatch-IsOrderly w o _ args st h = reply-IsOrderly o _ _ _ st.session h

-- Each round of the command loop keeps the session orderly, whatever the client sends.
pub step-IsOrderly :
    (w : World) (o : Options) (st : State)
    → IsOrderly o st.session
    → IsOrderly o (step w o st).0.session
unfolding step command
step-IsOrderly w o st h = rounds (read_line w.left_over st.session.input)
  where
    rounds :
        (r : LineRead)
        → IsOrderly o
            (elim r as (λ x. State × Bool) [
              | ended ↦ (st, false)
              | overlong rest ↦
                  (record st { session = record (st.session) { input = rest } }, false)
              | line_read l rest ↦
                  command w o l (record st { session = record (st.session) { input = rest } })
            ]).0.session
    rounds ended = h
    rounds (overlong rest) = input-IsOrderly o rest st.session h
    rounds (line_read l rest) =
        dispatch-IsOrderly w o (verb_of (split_command l).0) (split_command l).1 _
          (input-IsOrderly o rest st.session h)

-- The command loop leaves a session orderly that was so at its start, whatever the client sends.
pub loop-IsOrderly :
    (w : World) (o : Options) (fuel : ℕ) (st : State) {end : State}
    → IsOrderly o st.session
    → loop w o fuel st ≡ some end
    → IsOrderly o end.session
unfolding loop
loop-IsOrderly w o zero st h e = cc
loop-IsOrderly w o (suc fuel) st {end} h e = elim (Bool-cases (step w o st).1) [
  | inl t ↦
      loop-IsOrderly w o fuel (step w o st).0 {end = end} (step-IsOrderly w o st h)
        (rw (t, loop) at e)
  | inr f ↦
      subst (λ t. IsOrderly o t.session) (some_injective (rw (f, loop) at e))
        (step-IsOrderly w o st h)
]
