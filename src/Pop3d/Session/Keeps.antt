-- ===== src/Pop3d/Session/Keeps.antt =====
-- internal/pop3d/server.go: a session changes the store by deletions only.
use mailschleuse.Base.{ℕ, sym, subst, List, [], ◌∷◌, if◌then◌else◌, Bytes, if_intro}
use mailschleuse.Store.State.{Store}
use mailschleuse.Store.Ops.{delete}
use mailschleuse.Pop3d.Session.State.{Options, Entry, State, with_session, split_command}
use mailschleuse.Pop3d.Session.Transaction.{remove_marked, handle_quit}
use mailschleuse.Pop3d.Session.Loop.{Verb, quit, dispatch, verb_of, step, command}
use mailschleuse.Pop3d.Session.View.{SameStore, dispatch-SameStore, release-KeepsStore}

-- A property of stores that a deletion preserves.
module _ (P : Store → Type 0) (kept : (id : Bytes) (s : Store) → P s → P (delete id s).0) where
  remove_marked-Keeps : (es : List Entry) (s : Store) → P s → P (remove_marked es s).0
  unfolding remove_marked
  remove_marked-Keeps [] s h = h
  remove_marked-Keeps (e ∷ es) s h =
      remove_marked-Keeps es (if e.deleted then (delete e.msg.id s).0 else s)
        (if_intro P e.deleted (kept e.msg.id s h) h)

  pub SameStore-Keeps : (st r : State) → SameStore st r → P st.store → P r.store
  SameStore-Keeps st r e h = subst P (sym e.same) h

  handle_quit-Keeps : (o : Options) (st : State) → P st.store → P (handle_quit o st).store
  unfolding handle_quit
  handle_quit-Keeps o st h =
      let left =
        if st.session.transaction
        then remove_marked st.session.entries st.store
        else (st.store, 0) in
      SameStore-Keeps (record st { store = left.0 }) _
        (release-KeepsStore o (record st { store = left.0 }))
        (if_intro (λ (r : Store × ℕ). P r.0) st.session.transaction
          (remove_marked-Keeps st.session.entries st.store h) h)

  dispatch-Keeps :
      (o : Options) (v : Verb) (args : Bytes) (st : State)
      → P st.store
      → P (dispatch o v args st).0.store
  dispatch-Keeps o quit args st h = unfold dispatch in handle_quit-Keeps o st h
  dispatch-Keeps o v args st h = SameStore-Keeps st _ (dispatch-SameStore o v args st (λ e. cc)) h

  pub step-Keeps :
      (o : Options) (lines : List Bytes) (st : State) → P st.store → P (step o lines st).0.store
  unfolding step command
  step-Keeps o [] st h = h
  step-Keeps o (l ∷ rest) st h =
      dispatch-Keeps o (verb_of (split_command l).0) (split_command l).1
        (with_session st (record (st.session) { input = rest })) h
