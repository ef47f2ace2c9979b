-- ===== src/Store/Consistency/Preserved.antt =====
-- internal/store/store.go: every operation keeps a store sound.
use mailschleuse.Base.{
  ℕ, ◌≤◌, ◌<◌, ◌≡◌, ◌≢◌, Dict, refl, sym, ap, ◌∙◌, subst, inl, inr, List, [], ◌∷◌, ◌++◌, Option,
  none, some, arith, true, false, Bool, Bool-cases, Option-cases, length, length-drop, drop, Bytes,
  update, update_self, ltb, if◌then◌else◌, str_eq, str_eq_iff, eq_of_str_eq,
}
use mailschleuse.Mailparse.Types.{Mail}
use mailschleuse.Store.Types.{Envelope, Message}
use mailschleuse.Store.State.{Store, erase_all, surplus, evict}
use mailschleuse.Store.Disk.{Disk, WriteError}
use mailschleuse.Store.Ops.{
  Stamp, new_message, insert, settle, settled, deliver, mark_read, mark_all_read, read_all,
  remove_id, delete, clear,
}
use mailschleuse.Store.Consistency.Parts.{
  Interleave, taken, kept, stay, leave, take-drop-Interleave, Member, Distinct, All-member,
}
use mailschleuse.Store.Consistency.Index.{Boxes, IsConsistent}
use mailschleuse.Store.Consistency.Updates.{update-cases, remove-IsConsistent, insert-IsConsistent}
use mailschleuse.Store.Consistency.Frame.{
  IsBounded, IsSound, SameMail, SameMail-IsSound, SameMail-trans, announce-SameMail,
  update_all-SameMail,
}

pub surplus_bound :
    (max_messages : ℕ) (ms : List Message)
    → 0 < max_messages
    → length (drop (surplus max_messages ms) ms) ≤ max_messages
unfolding surplus
surplus_bound max_messages ms h = ground (arith, length-drop (surplus max_messages ms) ms)

-- A mailbox that is set to a list within the bound.
pub update-IsBounded :
    (max_messages : ℕ) (boxes : Boxes) (name : Bytes) (ms : List Message)
    → IsBounded max_messages boxes
    → (0 < max_messages → length ms ≤ max_messages)
    → IsBounded max_messages (update boxes name (some ms))
update-IsBounded max_messages boxes name ms b fits pos name' ms' e =
    elim (update-cases boxes name name' ms e) [
      | inl (same, is) ↦ subst (λ l. length l ≤ max_messages) is (fits pos)
      | inr (other, old) ↦ b pos name' ms' old
    ]

insert-IsSound :
    (msg : Message) (ms : List Message) (s : Store)
    → IsSound s
    → s.boxes msg.mailbox ≡ some ms
    → s.by_id msg.id ≡ none
    → IsSound (insert msg ms s).0
unfolding insert evict
insert-IsSound msg ms s h there new =
    let full = ms ++ msg ∷ [] in
    let n = surplus s.max_messages full in
    record {
      consistent =
          remove-IsConsistent (update s.boxes msg.mailbox (some full)) _ msg.mailbox
            (insert-IsConsistent s.boxes s.by_id msg h.consistent there new)
            (update_self s.boxes msg.mailbox (some full)) (take-drop-Interleave n full);
      bounded = λ pos name ms' e.
          elim (update-cases (update s.boxes msg.mailbox (some full)) msg.mailbox name (drop n full)
            e) [
              | inl (same, is) ↦
                  subst (λ l. length l ≤ s.max_messages) is (surplus_bound s.max_messages full pos)
              | inr (other, old) ↦ elim (update-cases s.boxes msg.mailbox name full old) [
                | inl (same, is) ↦ absurd (other same)
                | inr (other', older) ↦ h.bounded pos name ms' older
              ]
            ];
    }

pub settled-SameMail :
    (msg : Message) (s : Store) (evicted : List Message) (o : Option Disk × Option WriteError)
    → SameMail s (settled msg s evicted o).0
unfolding settled
settled-SameMail msg s evicted (d, none) =
    SameMail-trans
      (record { same_boxes = refl; same_index = refl; same_max = refl; same_cells = refl })
      (announce-SameMail msg evicted (record s { persist = d }))
settled-SameMail msg s evicted (d, some e) = record {
  same_boxes = refl;
  same_index = refl;
  same_max = refl;
  same_cells = refl;
}

-- The outcome of the writes changes neither mailbox nor index.
settle-IsSound : (msg : Message) (r : Store × List Message) → IsSound r.0 → IsSound (settle msg r).0
unfolding settle
settle-IsSound msg (s, evicted) h = SameMail-IsSound (settled-SameMail msg s evicted _) h

-- A delivery under a fresh id, whatever its outcome, keeps the mailboxes and the index in step and no
-- mailbox above the maximum of messages.
pub deliver-IsSound :
    (parse : Bytes → Mail) (stamp : Stamp) (name source : Bytes) (env : Envelope) (raw : Bytes)
    (s : Store)
    → IsSound s
    → s.by_id stamp.id ≡ none
    → IsSound (deliver parse stamp name source env raw s).0
unfolding deliver
deliver-IsSound parse stamp name source env raw s h new =
    let msg = new_message parse stamp name source env raw s.cells in
    elim (Bool-cases (ltb s.max_size (length raw))) [
      | inl large ↦ rw large h
      | inr small ↦ elim (Option-cases (s.boxes name)) [
        | inl missing ↦ rw (small, missing, deliver) h
        | inr (ms, there) ↦
            rw (small, there, deliver)
              (settle-IsSound msg (insert msg ms s) (insert-IsSound msg ms s h there new))
      ]
    ]

remove_id-Interleave :
    (m : Message) (id : Bytes) (ms : List Message)
    → m.id ≡ id
    → Member m ms
    → Distinct ms
    → Interleave (m ∷ []) (remove_id id ms) ms
unfolding remove_id
remove_id-Interleave m id [] own i d = absurd i
remove_id-Interleave m id (x ∷ xs) own (inl e) d =
    rw ((str_eq_iff x.id id).1 (ap (λ y. y.id) e ∙ own))
      (subst (λ y. Interleave (m ∷ []) xs (y ∷ xs)) (sym e) (taken (stay xs)))
remove_id-Interleave m id (x ∷ xs) own (inr i) d = elim (Bool-cases (str_eq x.id id)) [
  | inl t ↦ absurd (All-member (λ y. y.id ≢ x.id) m xs d.0 i (own ∙ sym (eq_of_str_eq x.id id t)))
  | inr f ↦ rw f (kept (remove_id-Interleave m id xs own i d.1))
]

delete-IsConsistent :
    (boxes : Boxes) (index : Dict Message) (id : Bytes) (m : Message) (ms : List Message)
    → IsConsistent boxes index
    → m.id ≡ id
    → boxes m.mailbox ≡ some ms
    → Member m ms
    → IsConsistent (update boxes m.mailbox (some (remove_id id ms))) (update index id none)
unfolding erase_all
delete-IsConsistent boxes index id m ms c own there i =
    let parts = remove_id-Interleave m id ms own i (c.distinct m.mailbox ms there) in
    subst
      (λ k. IsConsistent (update boxes m.mailbox (some (remove_id id ms))) (update index k none))
      own (remove-IsConsistent boxes index m.mailbox c there parts)

length-remove_id : (id : Bytes) (ms : List Message) → length (remove_id id ms) ≤ length ms
unfolding remove_id
length-remove_id id [] = omega arith
length-remove_id id (x ∷ xs) = ground (arith, length-remove_id id xs)

-- Deleting a message, also one that is not there, keeps the store sound.
pub delete-IsSound : (id : Bytes) (s : Store) → IsSound s → IsSound (delete id s).0
unfolding delete
delete-IsSound id s h = elim (Option-cases (s.by_id id)) [
  | inl missing ↦ rw (missing, delete) h
  | inr (m, found) ↦
      let (own, ms, there, member) = h.consistent.placed id m found in
      rw (found, delete)
        (rw there (record {
          consistent = delete-IsConsistent s.boxes s.by_id id m ms h.consistent own there member;
          bounded =
              update-IsBounded s.max_messages s.boxes m.mailbox (remove_id id ms) h.bounded
                (λ pos. omega (arith, length-remove_id id ms, h.bounded pos m.mailbox ms there));
        }))
]

-- Clearing a mailbox, also one that does not exist, keeps the store sound.
pub clear-IsSound : (name : Bytes) (s : Store) → IsSound s → IsSound (clear name s).0
unfolding clear
clear-IsSound name s h = elim (Option-cases (s.boxes name)) [
  | inl missing ↦ rw (missing, clear) h
  | inr (ms, there) ↦
      rw (there, clear)
        (record {
          consistent = remove-IsConsistent s.boxes s.by_id name h.consistent there (leave ms);
          bounded = update-IsBounded s.max_messages s.boxes name [] h.bounded (λ pos. omega arith);
        })
]

IsSound-if : (b : Bool) {s t : Store} → IsSound s → IsSound t → IsSound (if b then s else t)
IsSound-if true hs ht = hs
IsSound-if false hs ht = ht

-- Marking one message keeps the store sound.
pub mark_read-IsSound :
    (id : Bytes) (read : Bool) (s : Store) → IsSound s → IsSound (mark_read id read s).0
unfolding mark_read
mark_read-IsSound id read s h = elim (Option-cases (s.by_id id)) [
  | inl missing ↦ rw (missing, mark_read) h
  | inr (m, found) ↦
      rw (found, mark_read)
        (IsSound-if _ (record { consistent = h.consistent; bounded = h.bounded })
          (record { consistent = h.consistent; bounded = h.bounded }))
]

-- Marking a whole mailbox keeps the store sound.
pub mark_all_read-IsSound :
    (name : Bytes) (s : Store) → IsSound s → IsSound (mark_all_read name s).0
unfolding mark_all_read
mark_all_read-IsSound name s h = elim (Option-cases (s.boxes name)) [
  | inl missing ↦ rw (missing, mark_all_read) h
  | inr (ms, there) ↦
      rw (there, mark_all_read)
        (SameMail-IsSound (update_all-SameMail (read_all ms s.reads).0 _)
          (record { consistent = h.consistent; bounded = h.bounded }))
]
