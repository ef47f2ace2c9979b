-- ===== src/Pop3d/Session/Sound.antt =====
-- internal/pop3d/server.go: what a session does to the store's mailboxes and index.
use mailschleuse.Base.{zero, suc, ℕ, some, some_injective, Bool-cases, inl, inr, ◌≡◌, subst}
use mailschleuse.Store.Consistency.Frame.{IsSound}
use mailschleuse.Store.Consistency.Preserved.{delete-IsSound}
use mailschleuse.Pop3d.Session.State.{Options, State}
use mailschleuse.Pop3d.Session.Loop.{step, loop}
use mailschleuse.Pop3d.Session.Keeps.{step-Keeps, SameStore-Keeps}
use mailschleuse.Pop3d.Session.View.{release-KeepsStore}

-- From a store whose mailboxes and index agree, with no mailbox above its maximum, a whole session,
-- whatever the client sends, leaves such a store.
pub loop-IsSound :
    (o : Options) (fuel : ℕ) (st : State) {end : State}
    → IsSound st.store
    → loop o fuel st ≡ some end
    → IsSound end.store
unfolding loop
loop-IsSound o zero st h e = cc
loop-IsSound o (suc fuel) st {end} h e =
    let sound = step-Keeps IsSound delete-IsSound o st.session.input st h in
    elim (Bool-cases (step o st.session.input st).1) [
      | inl t ↦
          loop-IsSound o fuel (step o st.session.input st).0 {end = end} sound (rw (t, loop) at e)
      | inr f ↦
          subst (λ t. IsSound t.store) (some_injective (rw (f, loop) at e))
            (SameStore-Keeps IsSound delete-IsSound (step o st.session.input st).0 _
              (release-KeepsStore o (step o st.session.input st).0) sound)
    ]
