-- ===== src/Store/Newest.antt =====
-- internal/store/store.go: the newest message of a mailbox after a delivery.
use mailschleuse.Base.{
  ◌≤◌, ◌≡◌, ◌≢◌, refl, sym, ap, ◌∙◌, List, [], ◌∷◌, ◌++◌, some, Bytes, length, drop, drop-append,
  update, update_twice, update_self, update_ne, ltb, Bool-cases, inl, inr, subst, Option-cases, ℕ,
  none, true, false, arith,
}
use mailschleuse.Mailparse.Types.{Mail}
use mailschleuse.Store.Queries.{has}
use mailschleuse.Store.Types.{Envelope, Message}
use mailschleuse.Store.State.{Store, evict, surplus, all_deleted, deleted, publish}
use mailschleuse.Store.Ops.{
  Stamp, stored, persisted, new_message, insert, settle, deliver, settled, announce, Delivery,
}
use mailschleuse.Store.Lookups.{surplus_last}
use mailschleuse.Store.Consistency.Index.{Boxes}
use mailschleuse.Store.Consistency.Preserved.{settled-SameMail}

-- The last message of the mailbox has this text and this envelope.
abbrev pub IsNewest : Boxes → Envelope → Bytes → Bytes → Type 0
IsNewest boxes env raw name =
    (ms : List Message) × (m : Message) × (boxes name ≡ some (ms ++ m ∷ []))
    × (m.raw ≡ raw)
    × (m.envelope ≡ env)

-- The mailbox got the message, and no other mailbox changed.
pub record IsPut (boxes boxes' : Boxes) (env : Envelope) (raw name : Bytes) : Type 0 where
  pub newest : IsNewest boxes' env raw name
  pub others : (j : Bytes) → name ≢ j → boxes' j ≡ boxes j

insert-boxes :
    (msg : Message) (ms : List Message) (s : Store)
    → (insert msg ms s).0.boxes
      ≡ update s.boxes msg.mailbox
          (some (drop (surplus s.max_messages (ms ++ msg ∷ [])) ms ++ msg ∷ []))
unfolding insert evict
insert-boxes msg ms s =
    let full = ms ++ msg ∷ [] in
    let n = surplus s.max_messages full in
    update_twice s.boxes msg.mailbox (some full) (some (drop n full))
    ∙ ap (λ l. update s.boxes msg.mailbox (some l))
        (drop-append n ms (msg ∷ []) (surplus_last s.max_messages msg ms))

update-IsPut :
    (boxes : Boxes) (ms : List Message) (msg : Message)
    → IsPut boxes
        (update boxes msg.mailbox (some (ms ++ msg ∷ [])))
        msg.envelope
        msg.raw
        msg.mailbox
update-IsPut boxes ms msg = record {
  newest = (ms, msg, update_self boxes msg.mailbox (some (ms ++ msg ∷ [])), refl, refl);
  others = λ j other. update_ne boxes msg.mailbox j (some (ms ++ msg ∷ [])) other;
}

settle-boxes : (msg : Message) (r : Store × List Message) → (settle msg r).0.boxes ≡ r.0.boxes
unfolding settle
settle-boxes msg (s, evicted) =
    (settled-SameMail msg s evicted
      (persisted s.persist msg (s.reads msg.read_cell) evicted)).same_boxes

module _ (parse : Bytes → Mail) (stamp : Stamp) (name source : Bytes) (env : Envelope) (raw : Bytes)
    (s : Store) where
  -- A message that `Deliver` stores is the newest one of its mailbox.
  pub deliver-IsPut :
      {m : Message}
      → (deliver parse stamp name source env raw s).1 ≡ stored m
      → IsPut s.boxes (deliver parse stamp name source env raw s).0.boxes env raw name
  unfolding deliver new_message
  deliver-IsPut e =
      let msg = new_message parse stamp name source env raw s.cells in
      elim (Bool-cases (ltb s.max_size (length raw))) [
        | inl large ↦ absurd (cc (rw (large, deliver) at e))
        | inr small ↦ elim (Option-cases (s.boxes name)) [
          | inl missing ↦ absurd (cc (rw (small, missing, deliver) at e))
          | inr (ms, there) ↦
              rw (small, there, deliver)
                (subst (λ boxes. IsPut s.boxes boxes env raw name)
                  (sym (settle-boxes msg (insert msg ms s) ∙ insert-boxes msg ms s))
                  (update-IsPut s.boxes (drop (surplus s.max_messages (ms ++ msg ∷ [])) ms) msg))
        ]
      ]

-- The store has no files, and takes messages up to this size.
pub record IsMemory (max_size : ℕ) (s : Store) : Type 0 where
  pub in_memory : s.persist ≡ none
  pub same_size : s.max_size ≡ max_size

all_deleted-IsMemory :
    (max_size : ℕ) (ms : List Message) (s : Store)
    → IsMemory max_size s
    → IsMemory max_size (all_deleted ms s)
unfolding all_deleted deleted publish
all_deleted-IsMemory max_size [] s h = h
all_deleted-IsMemory max_size (m ∷ ms) s h =
    all_deleted-IsMemory max_size ms (deleted m s)
      (record { in_memory = h.in_memory; same_size = h.same_size })

-- What a store in memory does with a message.
pub record IsTaken (max_size : ℕ) (msg : Message) (r : Store × Delivery) : Type 0 where
  pub outcome : r.1 ≡ stored msg
  pub memory : IsMemory max_size r.0

settle-IsTaken :
    (max_size : ℕ) (msg : Message) (r : Store × List Message)
    → IsMemory max_size r.0
    → IsTaken max_size msg (settle msg r)
unfolding settle settled persisted announce publish
settle-IsTaken max_size msg (s, evicted) h =
    let m =
      all_deleted-IsMemory max_size evicted (record s { persist = none })
        (record { in_memory = refl; same_size = h.same_size }) in
    rw (h.in_memory, settle, persisted)
      (record {
        outcome = refl;
        memory = record { in_memory = m.in_memory; same_size = m.same_size };
      })

pub deliver-IsTaken :
    (parse : Bytes → Mail) (stamp : Stamp) (name source : Bytes) (env : Envelope) (raw : Bytes)
    (max_size : ℕ) (s : Store)
    → IsMemory max_size s
    → length raw ≤ max_size
    → has s name ≡ true
    → IsTaken max_size
        (new_message parse stamp name source env raw s.cells)
        (deliver parse stamp name source env raw s)
unfolding deliver has insert evict
deliver-IsTaken parse stamp name source env raw max_size s h fits there =
    let msg = new_message parse stamp name source env raw s.cells in
    let small : ltb s.max_size (length raw) ≡ false = ground (arith, h.same_size) in
    elim (Option-cases (s.boxes name)) [
      | inl missing ↦ absurd (cc (rw missing at there))
      | inr (ms, known) ↦
          rw (small, known, deliver)
            (settle-IsTaken max_size msg (insert msg ms s)
              (record { in_memory = h.in_memory; same_size = h.same_size }))
    ]
