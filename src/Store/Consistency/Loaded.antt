-- ===== src/Store/Consistency/Loaded.antt =====
-- internal/store/persist.go: a store that is loaded from the data directory.
use mailschleuse.Base.{
  ℕ, ◌+◌, ◌≡◌, ◌≢◌, Dict, refl, sym, ap, ◌∙◌, subst, inl, inr, List, [], ◌∷◌, ◌++◌, Option, none,
  some, Bool, Option-cases, drop, take, Bytes, update, update_self, update_ne, update_twice, All,
  Unique, Unique-after,
}
use mailschleuse.Mailparse.Types.{Mail}
use mailschleuse.Store.Types.{Message}
use mailschleuse.Store.State.{Store, erase_all, surplus, evict, set_flag}
use mailschleuse.Store.Disk.{Disk}
use mailschleuse.Store.Load.{message_of, read, load_ids, load_box, load, new_on, metadata}
use mailschleuse.Store.Ops.{new}
use mailschleuse.Store.Queries.{messages_of}
use mailschleuse.Store.Consistency.Parts.{stay, take-drop-Interleave, Distinct}
use mailschleuse.Store.Consistency.Index.{Boxes, IsConsistent, erase_all-some, IsFiled}
use mailschleuse.Store.Consistency.Updates.{update-cases, remove-IsConsistent, insert-IsConsistent}
use mailschleuse.Store.Consistency.Frame.{IsBounded, IsSound}
use mailschleuse.Store.Consistency.Preserved.{surplus_bound, update-IsBounded}
use mailschleuse.Store.Consistency.Created.{new-IsSound}

-- The index has none of the ids.
abbrev Unused : Dict Message → List Bytes → Type 0
Unused index ids = All (λ id. index id ≡ none) ids

Unused-after :
    (index : Dict Message) (ns ms : List Bytes) → Unused index (ns ++ ms) → Unused index ms
Unused-after index [] ms u = u
Unused-after index (n ∷ ns) ms u = Unused-after index ns ms u.1

Unused-none : (ids : List Bytes) → Unused (λ k. none) ids
Unused-none [] = tt
Unused-none (id ∷ ids) = (refl, Unused-none ids)

Unused-update :
    (index : Dict Message) (id : Bytes) (o : Option Message) (ids : List Bytes)
    → All (λ j. j ≢ id) ids
    → Unused index ids
    → Unused (update index id o) ids
Unused-update index id o [] apart u = tt
Unused-update index id o (j ∷ ids) apart u =
    (update_ne index id j o (λ e. apart.0 (sym e)) ∙ u.0, Unused-update index id o ids apart.1 u.1)

Unused-erase_all :
    (index : Dict Message) (out : List Message) (ids : List Bytes)
    → Unused index ids
    → Unused (erase_all out index) ids
Unused-erase_all index out [] u = tt
Unused-erase_all index out (j ∷ ids) u = (
  elim (Option-cases (erase_all out index j)) [
    | inl gone ↦ gone
    | inr (m, found) ↦ absurd (cc ((erase_all-some out index j {m = m} found).0, u.0))
  ],
  Unused-erase_all index out ids u.1,
)

-- A mailbox that is made without messages.
empty-IsConsistent :
    (name : Bytes) (boxes : Boxes) (index : Dict Message)
    → boxes name ≡ none
    → IsConsistent boxes index
    → IsConsistent (update boxes name (some [])) index
empty-IsConsistent name boxes index missing c = record {
  filed = λ n ms e. elim (update-cases boxes name n [] e) [
    | inl (same, is) ↦ subst (All (IsFiled n index)) is tt
    | inr (other, old) ↦ c.filed n ms old
  ];
  distinct = λ n ms e. elim (update-cases boxes name n [] e) [
    | inl (same, is) ↦ subst Distinct is tt
    | inr (other, old) ↦ c.distinct n ms old
  ];
  placed = λ id m e.
      let (own, ms, at, member) = c.placed id m e in
      (
        own,
        ms,
        update_ne boxes name m.mailbox (some []) (λ same. cc (ap boxes same, at, missing)) ∙ at,
        member,
      );
}

-- A mailbox that is looked up, and put back as it is.
messages_of-IsConsistent :
    (name : Bytes) (s : Store)
    → IsConsistent s.boxes s.by_id
    → IsConsistent (update s.boxes name (some (messages_of s name))) s.by_id
unfolding erase_all
messages_of-IsConsistent name s c = elim (Option-cases (s.boxes name)) [
  | inl missing ↦ rw (missing, messages_of) (empty-IsConsistent name s.boxes s.by_id missing c)
  | inr (ms, there) ↦
      rw (there, messages_of) (remove-IsConsistent s.boxes s.by_id name c there (stay ms))
]

evict-IsSound :
    (name : Bytes) (ms : List Message) (s : Store)
    → IsConsistent (update s.boxes name (some ms)) s.by_id
    → IsBounded s.max_messages s.boxes
    → IsSound (evict name ms s).0
unfolding evict
evict-IsSound name ms s c b =
    let n = surplus s.max_messages ms in
    record {
      consistent =
          subst (λ boxes. IsConsistent boxes (erase_all (take n ms) s.by_id))
            (update_twice s.boxes name (some ms) (some (drop n ms)))
            (remove-IsConsistent (update s.boxes name (some ms)) s.by_id name c
              (update_self s.boxes name (some ms)) (take-drop-Interleave n ms));
      bounded =
          update-IsBounded s.max_messages s.boxes name (drop n ms) b
            (surplus_bound s.max_messages ms);
    }

-- The ids of one directory have been read: the messages go with the index, which has no later id.
record IsLoaded (name : Bytes) (later : List Bytes) (boxes : Boxes) (max_messages : ℕ)
    (r : List Message × Store) : Type 0 where
  consistent : IsConsistent (update boxes name (some r.0)) r.1.by_id
  same_boxes : r.1.boxes ≡ boxes
  same_max : r.1.max_messages ≡ max_messages
  unused : Unused r.1.by_id later

-- All ids that the directories of these mailboxes list.
abbrev pub all_ids : (Bytes → List Bytes) → List Bytes → List Bytes
all_ids listing [] = []
all_ids listing (name ∷ names) = listing name ++ all_ids listing names

-- The store with a message that `load` has read.
abbrev filed : Message → Bool → Store → Store
filed msg flag s = record s {
  by_id = update s.by_id msg.id (some msg);
  reads = set_flag s.reads s.cells flag;
  cells = s.cells + 1;
}

module _ (parse : Bytes → Mail) where
  load_ids-IsLoaded :
      (d : Disk) (name : Bytes) (ids later : List Bytes) (ms : List Message) (s : Store)
      → IsConsistent (update s.boxes name (some ms)) s.by_id
      → Unique (ids ++ later)
      → Unused s.by_id (ids ++ later)
      → IsLoaded name later s.boxes s.max_messages (load_ids parse d name ids ms s)
  unfolding load_ids read message_of
  load_ids-IsLoaded d name [] later ms s c distinct unused = record {
    consistent = c;
    same_boxes = refl;
    same_max = refl;
    unused = unused;
  }
  load_ids-IsLoaded d name (id ∷ ids) later ms s c distinct unused =
      elim (Option-cases (metadata d name id)) [
        | inl damaged ↦
            rw (damaged, load_ids, read)
              (load_ids-IsLoaded d name ids later ms s c distinct.1 unused.1)
        | inr (meta, there) ↦ elim (Option-cases (d.eml name id)) [
          | inl damaged ↦
              rw (there, damaged, load_ids, read)
                (load_ids-IsLoaded d name ids later ms s c distinct.1 unused.1)
          | inr (raw, text) ↦
              let msg = message_of parse name id meta raw s.cells in
              let s' = filed msg meta.read s in
              rw (there, text, load_ids, read)
                (load_ids-IsLoaded d name ids later (ms ++ msg ∷ []) s'
                  (subst (λ boxes. IsConsistent boxes s'.by_id)
                    (update_twice s.boxes name (some ms) (some (ms ++ msg ∷ [])))
                    (insert-IsConsistent (update s.boxes name (some ms)) s.by_id msg c
                      (update_self s.boxes name (some ms)) unused.0))
                  distinct.1
                  (Unused-update s.by_id id (some msg) (ids ++ later) distinct.0 unused.1))
        ]
      ]

  load_box-IsSound :
      (name : Bytes) (ids later : List Bytes) (s : Store)
      → IsSound s
      → Unique (ids ++ later)
      → Unused s.by_id (ids ++ later)
      → IsSound (load_box parse name ids s) × Unused (load_box parse name ids s).by_id later
  unfolding load_box evict
  load_box-IsSound name ids later s h distinct unused = elim (Option-cases s.persist) [
    | inl memory ↦ rw (memory, load_box) (h, Unused-after s.by_id ids later unused)
    | inr (d, there) ↦
        let r = load_ids parse d name ids (messages_of s name) s in
        let l =
          load_ids-IsLoaded d name ids later (messages_of s name) s
            (messages_of-IsConsistent name s h.consistent) distinct unused in
        let e =
          evict-IsSound name r.0 r.1
            (subst (λ boxes. IsConsistent (update boxes name (some r.0)) r.1.by_id)
              (sym l.same_boxes) l.consistent)
            (subst (λ n. IsBounded n r.1.boxes) (sym l.same_max)
              (subst (IsBounded s.max_messages) (sym l.same_boxes) h.bounded)) in
        rw (there, load_box)
          (
            record { consistent = e.consistent; bounded = e.bounded },
            Unused-erase_all r.1.by_id (take (surplus r.1.max_messages r.0) r.0) later l.unused,
          )
  ]

  load-IsSound :
      (listing : Bytes → List Bytes) (names : List Bytes) (s : Store)
      → IsSound s
      → Unique (all_ids listing names)
      → Unused s.by_id (all_ids listing names)
      → IsSound (load parse listing names s)
  unfolding load
  load-IsSound listing [] s h distinct unused = h
  load-IsSound listing (name ∷ names) s h distinct unused =
      let later = all_ids listing names in
      let (sound, unused') = load_box-IsSound name (listing name) later s h distinct unused in
      load-IsSound listing names (load_box parse name (listing name) s) sound
        (Unique-after (listing name) later distinct) unused'

  -- A store that `New` loads from a data directory whose files have ids of their own, damaged ones
  -- among them, has every message of its mailboxes in the index and no other, and no mailbox above
  -- the maximum.
  pub new_on-IsSound :
      (listing : Bytes → List Bytes) (names : List Bytes) (max_messages max_size : ℕ) (d : Disk)
      → Unique (all_ids listing names)
      → IsSound (new_on parse listing names max_messages max_size d)
  unfolding new_on new
  new_on-IsSound listing names max_messages max_size d distinct =
      load-IsSound listing names (new names max_messages max_size (some d))
        (new-IsSound names max_messages max_size (some d)) distinct
        (Unused-none (all_ids listing names))
