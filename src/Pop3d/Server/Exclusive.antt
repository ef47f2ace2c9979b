-- ===== src/Pop3d/Server/Exclusive.antt =====
-- internal/pop3d/server.go: with exclusive locks, no two connections are in one mailbox.
use mailschleuse.Base.{
  ℕ, ◌≡◌, ◌≢◌, refl, sym, ap, ◌∙◌, Bool, true, false, List, Option, arith, Bytes, ◌==◌, str_eq,
  str_eq_refl, eq_of_str_eq, inl, inr, Bool-cases,
}
use mailschleuse.Pop3d.Session.State.{Options, Session, Locks, State, set_lock, release}
use mailschleuse.Pop3d.Session.Transaction.{handle_quit}
use mailschleuse.Pop3d.Server.{
  Server, new_session, view, seat, with_turn, Turn, commanded, signed_off, broken_off, Reaches,
  here, then_turn,
}
use mailschleuse.Pop3d.Server.Steps.{
  IsKept, IsAcquired, dispatch-LockStep, if_split, unlock_exclusive,
}

-- A session is in its transaction while it holds a lock, a lock that a session holds is taken, and no
-- two sessions hold locks of one mailbox.
pub record IsExclusive (s : Server) : Type 0 where
  pub seated : (i : ℕ) → (s.sessions i).locked ≡ (s.sessions i).transaction
  pub held : (i : ℕ) → (s.sessions i).locked ≡ true → s.locks (s.sessions i).mailbox ≡ true
  pub alone :
      (i j : ℕ)
      → (s.sessions i).locked ≡ true
      → (s.sessions j).locked ≡ true
      → (s.sessions i).mailbox ≡ (s.sessions j).mailbox
      → i ≡ j

-- The state of connection i fits beside the other connections.
record IsSeatable (i : ℕ) (r : State) (s : Server) : Type 0 where
  pub seated : r.session.locked ≡ r.session.transaction
  pub own : r.session.locked ≡ true → r.locks r.session.mailbox ≡ true
  pub others :
      (j : ℕ)
      → (i == j) ≡ false
      → (s.sessions j).locked ≡ true
      → r.locks (s.sessions j).mailbox ≡ true
  pub apart :
      (j : ℕ)
      → (i == j) ≡ false
      → r.session.locked ≡ true
      → (s.sessions j).locked ≡ true
      → r.session.mailbox ≢ (s.sessions j).mailbox

same_number : (i j k : ℕ) → (i == j) ≡ true → (i == k) ≡ true → j ≡ k
same_number i j k ij ik = ground (arith, ij, ik)

with_turn-IsExclusive :
    (i : ℕ) (r : State) (s : Server)
    → IsExclusive s
    → IsSeatable i r s
    → IsExclusive (with_turn i r s)
with_turn-IsExclusive i r s h f = record {
  seated = λ j.
      if_split (λ (x : Session). x.locked ≡ x.transaction) (i == j) (λ is. f.seated)
        (λ ne. h.seated j);
  held = λ j.
      if_split (λ (x : Session). x.locked ≡ true → r.locks x.mailbox ≡ true) (i == j) (λ is. f.own)
        (f.others j);
  alone = λ j k.
      if_split
        (λ (x : Session).
          x.locked ≡ true
          → (seat i r.session s.sessions k).locked ≡ true
          → x.mailbox ≡ (seat i r.session s.sessions k).mailbox
          → j ≡ k)
        (i == j)
        (λ ij.
          if_split
            (λ (y : Session).
              r.session.locked ≡ true → y.locked ≡ true → r.session.mailbox ≡ y.mailbox → j ≡ k)
            (i == k) (λ ik l m e. same_number i j k ij ik)
            (λ ik l m e. absurd (f.apart k ik l m e)))
        (λ ij.
          if_split
            (λ (y : Session).
              (s.sessions j).locked ≡ true
              → y.locked ≡ true
              → (s.sessions j).mailbox ≡ y.mailbox
              → j ≡ k)
            (i == k) (λ ik l m e. absurd (f.apart j ij m l (sym e))) (λ ik. h.alone j k));
}

different : (i j : ℕ) → (i == j) ≡ false → i ≢ j
different i j ne is = ground (arith, ne, is)

kept-IsSeatable :
    (i : ℕ) (r : State) (s : Server) → IsExclusive s → IsKept (view i s) r → IsSeatable i r s
kept-IsSeatable i r s h k = record {
  seated = k.same_locked ∙ h.seated i ∙ sym k.same_transaction;
  own = λ l.
      let before = sym k.same_locked ∙ l in
      k.same_locks r.session.mailbox ∙ ap s.locks (k.same_mailbox before) ∙ h.held i before;
  others = λ j ne l. k.same_locks (s.sessions j).mailbox ∙ h.held j l;
  apart = λ j ne l m e.
      let before = sym k.same_locked ∙ l in
      different i j ne (h.alone i j before m (sym (k.same_mailbox before) ∙ e));
}

set_lock_self : (locks : Locks) (name : Bytes) (b : Bool) → set_lock locks name b name ≡ b
set_lock_self locks name b = rw (str_eq_refl name) refl

set_lock_kept :
    (locks : Locks) (name m : Bytes) → locks m ≡ true → set_lock locks name true m ≡ true
set_lock_kept locks name m l = elim (Bool-cases (str_eq name m)) [
  | inl same ↦ rw same refl
  | inr other ↦ rw other l
]

acquired-IsSeatable :
    (i : ℕ) (r : State) (s : Server) → IsExclusive s → IsAcquired (view i s) r → IsSeatable i r s
acquired-IsSeatable i r s h a = record {
  seated = a.now_locked ∙ sym a.now_open;
  own = λ l. a.now_held r.session.mailbox ∙ set_lock_self s.locks r.session.mailbox true;
  others = λ j ne l.
      a.now_held (s.sessions j).mailbox
      ∙ set_lock_kept s.locks r.session.mailbox (s.sessions j).mailbox (h.held j l);
  apart = λ j ne l m e. ground (arith, sym a.was_free ∙ ap s.locks e ∙ h.held j m);
}

-- The lock of another mailbox stays when one is given back.
set_lock_other :
    (locks : Locks) (name m : Bytes)
    → name ≢ m
    → locks m ≡ true
    → set_lock locks name false m ≡ true
set_lock_other locks name m n l = elim (Bool-cases (str_eq name m)) [
  | inl same ↦ absurd (n (eq_of_str_eq name m same))
  | inr other ↦ rw other l
]

-- What `release` leaves of the locks for the other connections.
release_others :
    (o : Options) (i j : ℕ) (s : Server)
    → o.exclusive_lock ≡ true
    → IsExclusive s
    → (i == j) ≡ false
    → (s.sessions j).locked ≡ true
    → (release o (view i s)).locks (s.sessions j).mailbox ≡ true
unfolding release
release_others o i j s exclusive h ne l =
    if_split (λ (r : State). r.locks (s.sessions j).mailbox ≡ true) (s.sessions i).locked
      (λ held.
        ap (λ f. f (s.sessions j).mailbox)
          (unlock_exclusive o (s.sessions i).mailbox s.locks exclusive)
        ∙ set_lock_other s.locks (s.sessions i).mailbox (s.sessions j).mailbox
            (λ e. different i j ne (h.alone i j held l e)) (h.held j l))
      (λ unheld. h.held j l)

closed-IsSeatable :
    (o : Options) (i : ℕ) (tls : Bool) (input : List Bytes) (tls_input : Option (List Bytes))
    (r : State) (s : Server)
    → o.exclusive_lock ≡ true
    → IsExclusive s
    → r.locks ≡ (release o (view i s)).locks
    → IsSeatable i (record r { session = new_session tls input tls_input }) s
unfolding new_session
closed-IsSeatable o i tls input tls_input r s exclusive h is = record {
  seated = refl;
  own = λ l. cc;
  others =
      λ j ne l. ap (λ f. f (s.sessions j).mailbox) is ∙ release_others o i j s exclusive h ne l;
  apart = λ j ne l m e. cc;
}

release_twice :
    (o : Options) (st : State) → (release o (handle_quit o st)).locks ≡ (release o st).locks
unfolding release handle_quit
release_twice o st = ground arith

-- A turn of any connection keeps the connections apart.
pub Turn-IsExclusive :
    (o : Options) {s t : Server}
    → o.exclusive_lock ≡ true
    → IsExclusive s
    → Turn o s t
    → IsExclusive t
Turn-IsExclusive o {s} exclusive h (commanded i v args other) =
    with_turn-IsExclusive i _ s h
      (elim (dispatch-LockStep o v args (view i s) exclusive other (h.seated i)) [
        | inl k ↦ kept-IsSeatable i _ s h k
        | inr a ↦ acquired-IsSeatable i _ s h a
      ])
Turn-IsExclusive o {s} exclusive h (signed_off i tls input tls_input) =
    with_turn-IsExclusive i _ s h (
      closed-IsSeatable o i tls input tls_input (release o (handle_quit o (view i s))) s exclusive h
        (release_twice o (view i s)))
Turn-IsExclusive o {s} exclusive h (broken_off i tls input tls_input) =
    with_turn-IsExclusive i _ s h
      (closed-IsSeatable o i tls input tls_input (release o (view i s)) s exclusive h refl)

along :
    (o : Options) {s t : Server}
    → o.exclusive_lock ≡ true
    → IsExclusive s
    → Reaches o s t
    → IsExclusive t
along o exclusive h here = h
along o exclusive h (then_turn r turn) = Turn-IsExclusive o exclusive (along o exclusive h r) turn

-- With exclusive locks, however the connections take turns, no two of them are in a transaction on
-- one mailbox, where at the start a session was in its transaction exactly if it held a lock, and no
-- two held locks of one mailbox.
pub Reaches-IsExclusive :
    (o : Options) {s t : Server} (i j : ℕ)
    → o.exclusive_lock ≡ true
    → IsExclusive s
    → Reaches o s t
    → (t.sessions i).transaction ≡ true
    → (t.sessions j).transaction ≡ true
    → (t.sessions i).mailbox ≡ (t.sessions j).mailbox
    → i ≡ j
Reaches-IsExclusive o {s} {t} i j exclusive h r x y e =
    let kept = along o exclusive h r in kept.alone i j (kept.seated i ∙ x) (kept.seated j ∙ y) e
