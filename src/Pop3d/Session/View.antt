-- ===== src/Pop3d/Session/View.antt =====
-- internal/pop3d/server.go: the session's view of the mailbox, and the store behind it.
use mailschleuse.Base.{
  ◌+◌, ◌≤◌, arith, length, ℕ, ◌≡◌, ◌≢◌, refl, true, not, List, [], ◌∷◌, map, Option, none, some,
  if_intro, is_nil, Bytes, codes, trim_space,
}
use mailschleuse.Store.Types.{Message}
use mailschleuse.Store.Queries.{snapshot}
use mailschleuse.Pop3d.Session.State.{
  Options, State, Output, release, say, with_session, lock, err, text, Locks, Session,
}
use mailschleuse.Pop3d.Session.Login.{
  handle_stls, handle_user, handle_pass, enter, open_mailbox, credentials_valid, announce_open,
  fresh_entry, admitted, refused, resolve_mailbox,
}
use mailschleuse.Pop3d.Session.Preserve.{dispatch-Keeps}
use mailschleuse.Pop3d.Session.Loop.{Verb, stls, user, pass, quit, dispatch}

abbrev tls_lines : Option (List Bytes) → ℕ
tls_lines none = 0
tls_lines (some lines) = length lines

-- The number of lines that a session can still read, on the connection and on the one over TLS.
abbrev pub weight : Session → ℕ
weight s = length s.input + tls_lines s.tls_input

-- The second state has the store of the first, and no more lines to read.
pub record SameStore (st r : State) : Type 0 where
  pub same : r.store ≡ st.store
  pub lighter : weight r.session ≤ weight st.session

unchanged :
    {st r : State} → r.store ≡ st.store → weight r.session ≤ weight st.session → SameStore st r
unchanged e l = record { same = e; lighter = l }

-- A handler that leaves the store alone.
abbrev pub KeepsStore : (State → State) → Type 0
KeepsStore f = (st : State) → SameStore st (f st)

say-KeepsStore : (out : Output) → KeepsStore (say out)
unfolding say
say-KeepsStore out st = (unchanged refl (omega arith))

pub release-KeepsStore : (o : Options) → KeepsStore (release o)
unfolding release
release-KeepsStore o st = unchanged (ground arith) (ground arith)

handle_stls-KeepsStore : (o : Options) (st : State) → SameStore st (handle_stls o st).0
unfolding handle_stls
handle_stls-KeepsStore o st = unchanged (ground arith) (ground arith)

handle_user-KeepsStore : (args : Bytes) → KeepsStore (handle_user args)
unfolding handle_user
handle_user-KeepsStore args st =
    if_intro (SameStore st) st.session.transaction (unchanged refl (omega arith)) (
      if_intro (SameStore st) (is_nil (trim_space args)) (unchanged refl (omega arith))
        (unchanged refl (omega arith)))

open_mailbox-KeepsStore : (o : Options) → KeepsStore (open_mailbox o)
unfolding open_mailbox
open_mailbox-KeepsStore o st = cases (snapshot st.store st.session.mailbox)
  where
    cases :
        (r : Option (List Message))
        → SameStore st (elim r as (λ x. State) [
          | none ↦
              say
                (err (codes "cannot open mailbox %s") (text st.session.mailbox ∷ []))
                (release o st)
          | some messages ↦ announce_open (
              with_session st
                (record (st.session) { entries = map fresh_entry messages; transaction = true }))
        ])
    cases none = unchanged (release-KeepsStore o st).same (release-KeepsStore o st).lighter
    cases (some ms) = (unchanged refl (omega arith))

admitted-KeepsStore : (o : Options) (name : Bytes) (l : Locks) → KeepsStore (admitted o name l)
unfolding admitted
admitted-KeepsStore o name l st =
    unchanged
      (open_mailbox-KeepsStore o (record st {
        locks = l;
        session = record (st.session) { mailbox = name; locked = true };
      })).same
      (open_mailbox-KeepsStore o (record st {
        locks = l;
        session = record (st.session) { mailbox = name; locked = true };
      })).lighter

refused-KeepsStore : (name : Bytes) → KeepsStore (refused name)
unfolding refused
refused-KeepsStore name st = unchanged refl (omega arith)

enter-KeepsStore : (o : Options) (name : Bytes) → KeepsStore (enter o name)
unfolding enter
enter-KeepsStore o name st =
    if_intro (SameStore st) (lock o name st.locks).1
      (admitted-KeepsStore o name (lock o name st.locks).0 st) (refused-KeepsStore name st)

handle_pass-KeepsStore : (o : Options) (args : Bytes) → KeepsStore (handle_pass o args)
unfolding handle_pass
handle_pass-KeepsStore o args st =
    if_intro (SameStore st) st.session.transaction (unchanged refl (omega arith)) (
      if_intro (SameStore st) (is_nil st.session.username) (unchanged refl (omega arith)) (
        if_intro (SameStore st) (not (credentials_valid o st.session.username args))
          (unchanged refl (omega arith))
          (enter-KeepsStore o (resolve_mailbox o st.store st.session.username) st)))

-- No command but QUIT changes the store, nor does any such command add to the lines that the session
-- can still read.
pub dispatch-SameStore :
    (o : Options) (v : Verb) (args : Bytes) (st : State)
    → v ≢ quit
    → SameStore st (dispatch o v args st).0
unfolding dispatch
dispatch-SameStore o stls args st h = handle_stls-KeepsStore o st
dispatch-SameStore o user args st h = handle_user-KeepsStore args st
dispatch-SameStore o pass args st h = handle_pass-KeepsStore o args st
dispatch-SameStore o quit args st h = elim (h refl) [ ]
dispatch-SameStore o v args st h =
    dispatch-Keeps (SameStore st) (λ out t k. unchanged k.same k.lighter)
      (λ es t k. unchanged k.same k.lighter) o v args st refl (unchanged refl (omega arith))
