-- ===== src/Store/Lookups.antt =====
-- internal/store/store.go: what Get finds after a delivery and after a deletion.
use mailschleuse.Base.{
  Option, ℕ, zero, suc, ◌≤◌, ◌≡◌, ◌≢◌, refl, sym, ap, ◌∙◌, subst, List, [], ◌∷◌, ◌++◌, none, some,
  inl, inr, Option-cases, Bool-cases, Bytes, All, arith, length, take, length-append, update,
  update_self, update_ne, ltb,
}
use mailschleuse.Mailparse.Types.{Mail}
use mailschleuse.Store.Types.{Envelope, Message}
use mailschleuse.Store.State.{Store, evict, surplus}
use mailschleuse.Store.Ops.{
  persisted, Stamp, stored, new_message, insert, settle, settled, deliver, delete,
}
use mailschleuse.Store.Queries.{get}
use mailschleuse.Store.Disk.{Disk, WriteError}
use mailschleuse.Store.Consistency.Index.{IsFiled, erase_all_ne}
use mailschleuse.Store.Consistency.Frame.{IsSound}
use mailschleuse.Store.Consistency.Preserved.{settled-SameMail}

-- A message is taken from the store, or every other one stays.
pub delete-get_self : (id : Bytes) (s : Store) → get (delete id s).0 id ≡ none
unfolding delete get
delete-get_self id s = elim (Option-cases (s.by_id id)) [
  | inl e ↦ rw (e, delete) e
  | inr (m, e) ↦ rw (e, delete) (update_self s.by_id id none)
]

pub delete-get_ne : (id j : Bytes) (s : Store) → id ≢ j → get (delete id s).0 j ≡ get s j
unfolding delete get
delete-get_ne id j s n = elim (Option-cases (s.by_id id)) [
  | inl e ↦ rw (e, delete) refl
  | inr (m, e) ↦ rw (e, delete) (update_ne s.by_id id j none n)
]

take-ids :
    (n : ℕ) (s : Store) (name : Bytes) (msg : Message) (ms : List Message)
    → n ≤ length ms
    → s.by_id msg.id ≡ none
    → All (IsFiled name s.by_id) ms
    → All (λ y. y.id ≢ msg.id) (take n (ms ++ msg ∷ []))
take-ids zero s name msg ms l new h = tt
take-ids (suc n) s name msg [] l new h = absurd (omega (arith, l))
take-ids (suc n) s name msg (x ∷ ms) l new h =
    ((λ e. cc (h.0.1, new, ap s.by_id e)), take-ids n s name msg ms (omega (arith, l)) new h.1)

pub surplus_last :
    (max_messages : ℕ) (msg : Message) (ms : List Message)
    → surplus max_messages (ms ++ msg ∷ []) ≤ length ms
unfolding surplus
surplus_last max_messages msg ms = ground (arith, length-append ms (msg ∷ []))

-- The new message is the last of its mailbox, so that it is not evicted.
insert-get :
    (msg : Message) (ms : List Message) (s : Store)
    → IsSound s
    → s.boxes msg.mailbox ≡ some ms
    → s.by_id msg.id ≡ none
    → (insert msg ms s).0.by_id msg.id ≡ some msg
unfolding insert evict
insert-get msg ms s h there new =
    let full = ms ++ msg ∷ [] in
    erase_all_ne (take (surplus s.max_messages full) full) (update s.by_id msg.id (some msg)) msg.id
      (take-ids (surplus s.max_messages full) s msg.mailbox msg ms
        (surplus_last s.max_messages msg ms) new (h.consistent.filed msg.mailbox ms there))
    ∙ update_self s.by_id msg.id (some msg)

settled-stored :
    (msg : Message) (s : Store) (evicted : List Message) (o : Option Disk × Option WriteError)
    {m : Message}
    → (settled msg s evicted o).1 ≡ stored m
    → m ≡ msg
unfolding settled
settled-stored msg s evicted (d, none) e = cc
settled-stored msg s evicted (d, some f) e = cc

settle-stored :
    (msg : Message) (r : Store × List Message) {m : Message} → (settle msg r).1 ≡ stored m → m ≡ msg
unfolding settle
settle-stored msg (s, evicted) {m} e =
    settled-stored msg s evicted (persisted s.persist msg (s.reads msg.read_cell) evicted) {m = m} e

settle-index : (msg : Message) (r : Store × List Message) → (settle msg r).0.by_id ≡ r.0.by_id
unfolding settle
settle-index msg (s, evicted) =
    (settled-SameMail msg s evicted
      (persisted s.persist msg (s.reads msg.read_cell) evicted)).same_index

-- A message that Deliver stores is the one that it was given, and Get finds it under its id.
pub deliver-get :
    (parse : Bytes → Mail) (stamp : Stamp) (name source : Bytes) (env : Envelope) (raw : Bytes)
    (s : Store) {m : Message}
    → IsSound s
    → s.by_id stamp.id ≡ none
    → (deliver parse stamp name source env raw s).1 ≡ stored m
    → (m ≡ new_message parse stamp name source env raw s.cells)
      × (get (deliver parse stamp name source env raw s).0 m.id ≡ some m)
unfolding deliver get new_message
deliver-get parse stamp name source env raw s {m} h new e =
    let msg = new_message parse stamp name source env raw s.cells in
    elim (Bool-cases (ltb s.max_size (length raw))) [
      | inl large ↦ absurd (cc (rw (large, deliver) at e))
      | inr small ↦ elim (Option-cases (s.boxes name)) [
        | inl missing ↦ absurd (cc (rw (small, missing, deliver) at e))
        | inr (ms, there) ↦
            let r = insert msg ms s in
            let same : m ≡ msg = settle-stored msg r {m = m} (rw (small, there, deliver) at e) in
            (
              same,
              rw (small, there, deliver)
                  (subst (λ x. (settle msg r).0.by_id x.id ≡ some x) (sym same)
                    (ap (λ (f : Bytes → Option Message). f msg.id) (settle-index msg r)
                      ∙ insert-get msg ms s h there new)),
            )
      ]
    ]
