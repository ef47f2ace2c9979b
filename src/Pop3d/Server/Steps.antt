-- ===== src/Pop3d/Server/Steps.antt =====
-- internal/pop3d/server.go: what a command does to the locks.
use mailschleuse.Base.{
  ◌≡◌, ◌≢◌, refl, sym, ap, ◌∙◌, Bool, true, false, not, List, [], ◌∷◌, Option, none, some, map,
  arith, Bytes, codes, if◌then◌else◌, if_intro, is_nil, trim_space, str_eq, eq_of_str_eq, inl, inr,
  Bool-cases, ◌⊎◌,
}
use mailschleuse.Store.Types.{Message}
use mailschleuse.Store.Queries.{snapshot}
use mailschleuse.Pop3d.Session.State.{
  Options, Locks, State, Output, lock, unlock, set_lock, release, say, with_session, err, text,
}
use mailschleuse.Pop3d.Session.Login.{
  handle_stls, handle_user, handle_pass, enter, admitted, refused, open_mailbox, announce_open,
  fresh_entry, credentials_valid, resolve_mailbox,
}
use mailschleuse.Pop3d.Session.Loop.{Verb, stls, user, pass, quit, dispatch}
use mailschleuse.Pop3d.Session.Preserve.{dispatch-Keeps}

-- The locks and the place of the session stay, and its mailbox if it holds one.
pub record IsKept (st r : State) : Type 0 where
  pub same_locks : (m : Bytes) → r.locks m ≡ st.locks m
  pub same_locked : r.session.locked ≡ st.session.locked
  pub same_transaction : r.session.transaction ≡ st.session.transaction
  pub same_mailbox : st.session.locked ≡ true → r.session.mailbox ≡ st.session.mailbox

-- The session takes the lock of a mailbox that was free, and enters its transaction.
pub record IsAcquired (st r : State) : Type 0 where
  pub was_free : st.locks r.session.mailbox ≡ false
  pub now_held : (m : Bytes) → r.locks m ≡ set_lock st.locks r.session.mailbox true m
  pub now_locked : r.session.locked ≡ true
  pub now_open : r.session.transaction ≡ true

abbrev pub LockStep : State → State → Type 0
LockStep st r = IsKept st r ⊎ IsAcquired st r

still :
    {st r : State}
    → r.locks ≡ st.locks
    → r.session.locked ≡ st.session.locked
    → r.session.transaction ≡ st.session.transaction
    → r.session.mailbox ≡ st.session.mailbox
    → IsKept st r
still l d t m = record {
  same_locks = λ name. ap (λ f. f name) l;
  same_locked = d;
  same_transaction = t;
  same_mailbox = λ held. m;
}

say-IsKept : {st : State} (out : Output) (r : State) → IsKept st r → IsKept st (say out r)
unfolding say
say-IsKept out r h = record {
  same_locks = h.same_locks;
  same_locked = h.same_locked;
  same_transaction = h.same_transaction;
  same_mailbox = h.same_mailbox;
}

handle_user-IsKept : (args : Bytes) (st : State) → IsKept st (handle_user args st)
unfolding handle_user
handle_user-IsKept args st =
    if_intro (IsKept st) st.session.transaction (still refl refl refl refl) (
      if_intro (IsKept st) (is_nil (trim_space args)) (still refl refl refl refl)
        (still refl refl refl refl))

handle_stls-IsKept : (o : Options) (st : State) → IsKept st (handle_stls o st).0
unfolding handle_stls
handle_stls-IsKept o st = still (ground arith) (ground arith) (ground arith) (ground arith)

-- What holds of each branch under its condition holds of the conditional.
pub if_split {ℓ κ} :
    {A : Type ℓ} (P : A → Type κ) (b : Bool) {x y : A}
    → (b ≡ true → P x)
    → (b ≡ false → P y)
    → P (if b then x else y)
if_split P true px py = px refl
if_split P false px py = py refl

lock-granted :
    (o : Options) (name : Bytes) (locks : Locks)
    → o.exclusive_lock ≡ true
    → (lock o name locks).1 ≡ true
    → (locks name ≡ false) × ((lock o name locks).0 ≡ set_lock locks name true)
unfolding lock
lock-granted o name locks exclusive granted = elim (Bool-cases (locks name)) [
  | inl held ↦ absurd (ground arith)
  | inr free ↦ (free, rw (exclusive, free) refl)
]

-- A lock that was free is taken and given back.
set_lock_twice :
    (locks : Locks) (name m : Bytes)
    → locks name ≡ false
    → set_lock (set_lock locks name true) name false m ≡ locks m
set_lock_twice locks name m free = elim (Bool-cases (str_eq name m)) [
  | inl same ↦ rw (same, sym (eq_of_str_eq name m same)) (sym free)
  | inr other ↦ rw other refl
]

pub unlock_exclusive :
    (o : Options) (name : Bytes) (locks : Locks)
    → o.exclusive_lock ≡ true
    → unlock o name locks ≡ set_lock locks name false
unfolding unlock
unlock_exclusive o name locks exclusive = rw exclusive refl

admitted-LockStep :
    (o : Options) (name : Bytes) (locks : Locks) (st : State)
    → o.exclusive_lock ≡ true
    → st.session.locked ≡ false
    → st.session.transaction ≡ false
    → st.locks name ≡ false
    → locks ≡ set_lock st.locks name true
    → LockStep st (admitted o name locks st)
unfolding admitted open_mailbox release
admitted-LockStep o name locks st exclusive unlocked closed free is = cases (snapshot st.store name)
  where
    locked : State
    locked = record st {
      locks = locks;
      session = record (st.session) { mailbox = name; locked = true };
    }

    cases :
        (r : Option (List Message))
        → LockStep st (elim r as (λ x. State) [
          | none ↦ say (err (codes "cannot open mailbox %s") (text name ∷ [])) (release o locked)
          | some messages ↦ announce_open (
              with_session locked (record (locked.session) {
                entries = map fresh_entry messages;
                transaction = true;
              }))
        ])
    cases none = inl (record {
      same_locks = λ m.
          ap (λ f. f m) (unlock_exclusive o name locks exclusive)
          ∙ ap (λ l. set_lock l name false m) is
          ∙ set_lock_twice st.locks name m free;
      same_locked = sym unlocked;
      same_transaction = refl;
      same_mailbox = λ held. cc;
    })
    cases (some ms) = inr (record {
      was_free = free;
      now_held = λ m. ap (λ f. f m) is;
      now_locked = refl;
      now_open = refl;
    })

handle_pass-LockStep :
    (o : Options) (args : Bytes) (st : State)
    → o.exclusive_lock ≡ true
    → st.session.locked ≡ st.session.transaction
    → LockStep st (handle_pass o args st)
unfolding handle_pass enter refused
handle_pass-LockStep o args st exclusive seated =
    if_split (LockStep st) st.session.transaction (λ entered. inl (still refl refl refl refl))
      λ closed.
        if_intro (LockStep st) (is_nil st.session.username) (inl (still refl refl refl refl)) (
          if_intro (LockStep st) (not (credentials_valid o st.session.username args))
            (inl (still refl refl refl refl))
            (let name = resolve_mailbox o st.store st.session.username in
              if_split (LockStep st) (lock o name st.locks).1
                (λ granted.
                  let (free, is) = lock-granted o name st.locks exclusive granted in
                  admitted-LockStep o name (lock o name st.locks).0 st exclusive (seated ∙ closed)
                    closed free is)
                (λ taken. inl (record {
                  same_locks = λ m. refl;
                  same_locked = refl;
                  same_transaction = refl;
                  same_mailbox = λ held. cc;
                }))))

-- A command other than QUIT keeps the session's place, or takes a lock that was free.
pub dispatch-LockStep :
    (o : Options) (v : Verb) (args : Bytes) (st : State)
    → o.exclusive_lock ≡ true
    → v ≢ quit
    → st.session.locked ≡ st.session.transaction
    → LockStep st (dispatch o v args st).0
unfolding dispatch
dispatch-LockStep o stls args st exclusive other seated = inl (handle_stls-IsKept o st)
dispatch-LockStep o user args st exclusive other seated = inl (handle_user-IsKept args st)
dispatch-LockStep o pass args st exclusive other seated =
    handle_pass-LockStep o args st exclusive seated
dispatch-LockStep o quit args st exclusive other seated = elim (other refl) [ ]
dispatch-LockStep o v args st exclusive other seated = inl (
    dispatch-Keeps (IsKept st) say-IsKept
      (λ es r k. record {
        same_locks = k.same_locks;
        same_locked = k.same_locked;
        same_transaction = k.same_transaction;
        same_mailbox = k.same_mailbox;
      })
      o v args st refl (still refl refl refl refl))
