-- ===== src/Pop3d/Session/Ends.antt =====
-- internal/pop3d/server.go: the command loop comes to its end.
use mailschleuse.Base.{
  ◌≤◌, ◌<◌, arith, length, zero, suc, ℕ, some, Bool-cases, inl, inr, ◌≡◌, refl, true, List, [], ◌∷◌,
  Bytes, ap,
}
use mailschleuse.Pop3d.Session.State.{Options, State, with_session, split_command, release}
use mailschleuse.Pop3d.Session.Loop.{Verb, quit, dispatch, verb_of, step, command, loop}
use mailschleuse.Pop3d.Session.View.{weight, dispatch-SameStore}

dispatch_lighter :
    (o : Options) (v : Verb) (args : Bytes) (st : State)
    → (dispatch o v args st).1 ≡ true
    → weight (dispatch o v args st).0.session ≤ weight st.session
dispatch_lighter o quit args st e = unfold dispatch in cc
dispatch_lighter o v args st e = (dispatch-SameStore o v args st (λ e'. cc)).lighter

-- A round that the loop goes on after has taken a line.
step_lighter :
    (o : Options) (st : State)
    → (step o st.session.input st).1 ≡ true
    → weight (step o st.session.input st).0.session < weight st.session
step_lighter o st = taken st.session.input refl
  where
    taken :
        (lines : List Bytes)
        → st.session.input ≡ lines
        → (step o lines st).1 ≡ true
        → weight (step o lines st).0.session < weight st.session
    taken [] is e = unfold step in cc
    taken (l ∷ rest) is e =
        let st' : State = with_session st (record (st.session) { input = rest }) in
        let (v, args) = split_command l in
        unfold step command in
        omega (arith, ap length is, dispatch_lighter o (verb_of v) args st' e)

-- The command loop ends within one round more than there are lines to read, on the connection and
-- behind STLS: with fuel for these it gives the final state, whatever the lines are.
pub loop_ends :
    (o : Options) (fuel : ℕ) (st : State)
    → weight st.session < fuel
    → (end : State) × (loop o fuel st ≡ some end)
unfolding loop
loop_ends o (suc fuel) st h = elim (Bool-cases (step o st.session.input st).1) [
  | inl t ↦
      let (end, e) =
        loop_ends o fuel (step o st.session.input st).0 (omega (arith, step_lighter o st t)) in
      (end, rw (t, loop) e)
  | inr f ↦ (release o (step o st.session.input st).0, rw (f, loop) refl)
]
loop_ends o zero st h = absurd (omega (arith, h))
