-- ===== src/Smtpd/Session/Keeps.antt =====
-- internal/smtpd/server.go: a session changes the store by deliveries only.
use mailschleuse.Base.{Bool, List, [], ◌∷◌, Bytes, if_intro, ◌++◌, codes, not, is_nil, false}
use mailschleuse.Store.Types.{Envelope}
use mailschleuse.Store.State.{Store}
use mailschleuse.Store.Ops.{Delivery, stored, refused, deliver}
use mailschleuse.Smtpd.Data.{
  DataRead, failed, done, LineRead, ended, overlong, line_read, read_line,
}
use mailschleuse.Smtpd.Command.{split_command}
use mailschleuse.Smtpd.Routing.{Options}
use mailschleuse.Smtpd.Session.State.{Session}
use mailschleuse.Smtpd.Session.Deliver.{
  World, deliver_each, accept_data, finish_data, handle_data, queued_as, refusal,
}
use mailschleuse.Smtpd.Session.Loop.{State, Verb, dispatch, command, step, data_verb, verb_of}

-- A property of stores that a delivery preserves.
module _ (w : World) (P : Store → Type 0)
    (kept : (name : Bytes) (env : Envelope) (body : Bytes) (store : Store)
      → P store
      → P (deliver w.parse (w.stamp store.cells) name (codes "smtp") env body store).0) where
  deliver_each-Keeps :
      (o : Options) (env : Envelope) (body : Bytes) (names queued : List Bytes) (s : Session)
      (store : Store)
      → P store
      → P (deliver_each w o env body names queued s store).1
  unfolding deliver_each
  deliver_each-Keeps o env body [] queued s store h = h
  deliver_each-Keeps o env body (name ∷ names) queued s store h =
      cases (deliver w.parse (w.stamp store.cells) name (codes "smtp") env body store)
        (kept name env body store h)
        (λ queued' store' h'. deliver_each-Keeps o env body names queued' s store' h')
    where
      cases :
          (r : Store × Delivery)
          → P r.0
          → ((queued' : List Bytes) (store' : Store)
              → P store'
              → P (deliver_each w o env body names queued' s store').1)
          → P
              (elim r.1 as (λ x. Session × Store) [
                | stored msg ↦
                    deliver_each w o env body names (queued ++ queued_as msg name ∷ []) s r.0
                | refused e ↦ (refusal o e s, r.0)
              ]).1
      cases (store', refused e) h' next = h'
      cases (store', stored msg) h' next = next (queued ++ queued_as msg name ∷ []) store' h'

  finish_data-Keeps :
      (o : Options) (r : DataRead) (s : Session) (store : Store)
      → P store
      → P (finish_data w o r s store).1
  unfolding finish_data accept_data
  finish_data-Keeps o (failed rest) s store h = h
  finish_data-Keeps o (done p) s store h =
      if_intro (λ (r : Session × Store). P r.1) p.too_large h
        (deliver_each-Keeps o _ _ _ [] _ store h)

  handle_data-Keeps :
      (o : Options) (s : Session) (store : Store) → P store → P (handle_data w o s store).1
  unfolding handle_data
  handle_data-Keeps o s store h =
      if_intro (λ (r : Session × Store). P r.1) (not s.in_mail) h
        (if_intro (λ (r : Session × Store). P r.1) (is_nil s.rcpts) h
          (finish_data-Keeps o _ _ store h))

  dispatch-Keeps :
      (o : Options) (v : Verb) (args : Bytes) (st : State)
      → P st.store
      → P (dispatch w o v args st).0.store
  unfolding dispatch
  dispatch-Keeps o data_verb args st h = handle_data-Keeps o st.session st.store h
  dispatch-Keeps o _ args st h = h

  pub step-Keeps : (o : Options) (st : State) → P st.store → P (step w o st).0.store
  unfolding step command
  step-Keeps o st h = rounds (read_line w.left_over st.session.input)
    where
      rounds :
          (r : LineRead)
          → P
              (elim r as (λ x. State × Bool) [
                | ended ↦ (st, false)
                | overlong rest ↦
                    (record st { session = record (st.session) { input = rest } }, false)
                | line_read l rest ↦
                    command w o l (record st { session = record (st.session) { input = rest } })
              ]).0.store
      rounds ended = h
      rounds (overlong rest) = h
      rounds (line_read l rest) =
          dispatch-Keeps o (verb_of (split_command l).0) (split_command l).1 _ h
