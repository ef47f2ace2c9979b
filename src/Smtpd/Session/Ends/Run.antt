-- ===== src/Smtpd/Session/Ends/Run.antt =====
-- internal/smtpd/server.go: the command loop comes to its end.
use mailschleuse.Base.{
  ℕ, zero, suc, ◌<◌, ◌≡◌, refl, Bool, true, false, some, arith, Bytes, inl, inr, Bool-cases,
}
use mailschleuse.Smtpd.Data.{LineRead, ended, overlong, line_read, read_line}
use mailschleuse.Smtpd.Command.{split_command}
use mailschleuse.Smtpd.Routing.{Options}
use mailschleuse.Smtpd.Session.Deliver.{World}
use mailschleuse.Smtpd.Session.Loop.{
  State, Verb, ehlo, helo, starttls, auth, mail, rcpt, data_verb, rset, dispatch, command, verb_of,
  step, loop,
}
use mailschleuse.Smtpd.Session.Ends.{IsShort, weight, AtMost, reply-AtMost, read_line-shorter}
use mailschleuse.Smtpd.Session.Ends.Handlers.{
  handle_ehlo-AtMost, handle_start_tls-AtMost, handle_rcpt-AtMost, handle_mail-AtMost,
  handle_auth-AtMost, reset-AtMost, handle_data-AtMost,
}

dispatch-AtMost :
    (n : ℕ) (w : World) (o : Options) (v : Verb) (args : Bytes) (st : State)
    → IsShort w.left_over
    → AtMost n st.session
    → AtMost n (dispatch w o v args st).0.session
unfolding dispatch
dispatch-AtMost n w o ehlo args st short h = handle_ehlo-AtMost n o args true st.session h
dispatch-AtMost n w o helo args st short h = handle_ehlo-AtMost n o args false st.session h
dispatch-AtMost n w o starttls args st short h = handle_start_tls-AtMost n o st.session h
dispatch-AtMost n w o auth args st short h =
    handle_auth-AtMost n w.left_over o args st.session short h
dispatch-AtMost n w o mail args st short h = handle_mail-AtMost n o args st.session h
dispatch-AtMost n w o rcpt args st short h = handle_rcpt-AtMost n o args st.session h
dispatch-AtMost n w o data_verb args st short h =
    handle_data-AtMost n w o st.session st.store short h
dispatch-AtMost n w o rset args st short h = reply-AtMost n _ _ _ _ (reset-AtMost n st.session h)
dispatch-AtMost n w o _ args st short h = reply-AtMost n _ _ _ st.session h

-- A round that the loop goes on after has taken a line.
step_lighter :
    (w : World) (o : Options) (st : State)
    → IsShort w.left_over
    → (step w o st).1 ≡ true
    → weight (step w o st).0.session < weight st.session
unfolding step command
step_lighter w o st short = rounds (read_line w.left_over st.session.input) refl
  where
    rounds :
        (r : LineRead)
        → read_line w.left_over st.session.input ≡ r
        → (elim r as (λ x. State × Bool) [
          | ended ↦ (st, false)
          | overlong rest ↦ (record st { session = record (st.session) { input = rest } }, false)
          | line_read l rest ↦
              command w o l (record st { session = record (st.session) { input = rest } })
        ]).1
          ≡ true
        → weight
            (elim r as (λ x. State × Bool) [
              | ended ↦ (st, false)
              | overlong rest ↦
                  (record st { session = record (st.session) { input = rest } }, false)
              | line_read l rest ↦
                  command w o l (record st { session = record (st.session) { input = rest } })
            ]).0.session
          < weight st.session
    rounds ended e on = cc
    rounds (overlong rest) e on = cc
    rounds (line_read l rest) e on =
        let st' : State = record st { session = record (st.session) { input = rest } } in
        let kept =
          dispatch-AtMost (weight st'.session) w o (verb_of (split_command l).0) (split_command l).1
            st' short (record { bound = omega arith }) in
        omega (arith, kept.bound, read_line-shorter w.left_over st.session.input l rest e)

-- The command loop ends within one round more than there are lines to read, on the connection and
-- behind STARTTLS: with fuel for these it gives the final state, whatever the lines are, where at
-- most one line is left of one that is too long.
pub loop_returns :
    (w : World) (o : Options) (fuel : ℕ) (st : State)
    → IsShort w.left_over
    → weight st.session < fuel
    → (end : State) × (loop w o fuel st ≡ some end)
unfolding loop
loop_returns w o zero st short h = absurd (omega (arith, h))
loop_returns w o (suc fuel) st short h = elim (Bool-cases (step w o st).1) [
  | inl t ↦
      let (end, e) =
        loop_returns w o fuel (step w o st).0 short (omega (arith, step_lighter w o st short t)) in
      (end, rw (t, loop) e)
  | inr f ↦ ((step w o st).0, rw (f, loop) refl)
]
