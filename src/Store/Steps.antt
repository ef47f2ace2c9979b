-- ===== src/Store/Steps.antt =====
-- internal/store/store.go: the operations of a store in any order.
use mailschleuse.Base.{
  ℕ, ◌≡◌, refl, Bool, inl, inr, Option-cases, List, Option, none, some, Bytes, arith, update,
}
use mailschleuse.Mailparse.Types.{Mail}
use mailschleuse.Store.Types.{Envelope, Message}
use mailschleuse.Store.Disk.{Disk}
use mailschleuse.Store.State.{Store, subscribe, unsubscribe, updated, rewrite_file}
use mailschleuse.Store.Ops.{read_all, Stamp, new, deliver, mark_read, mark_all_read, delete, clear}
use mailschleuse.Store.Consistency.Index.{erase_all-some}
use mailschleuse.Store.Consistency.Frame.{
  IsSound, SameMail, SameMail-IsSound, SameMail-trans, update_all-SameMail,
}
use mailschleuse.Store.Consistency.Preserved.{deliver-IsSound, delete-IsSound, clear-IsSound}
use mailschleuse.Store.Consistency.Numbered.{
  IsFresh, IsNumbered, SameMail-IsNumbered, next_id_unused, deliver-IsNumbered,
}
use mailschleuse.Store.Consistency.Created.{new-IsSound, new-IsNumbered}

-- One operation on a store: none at all, or one that a server calls. A delivery takes the next id.
pub data StoreStep (parse : Bytes → Mail) (stamp : ℕ → Stamp) : Store → Store → Type 0 where
  idle : (s : Store) → StoreStep parse stamp s s
  delivering :
      (name source : Bytes) (env : Envelope) (raw : Bytes) (s : Store)
      → StoreStep parse stamp s (deliver parse (stamp s.cells) name source env raw s).0
  marking : (id : Bytes) (read : Bool) (s : Store) → StoreStep parse stamp s (mark_read id read s).0
  marking_all : (name : Bytes) (s : Store) → StoreStep parse stamp s (mark_all_read name s).0
  deleting : (id : Bytes) (s : Store) → StoreStep parse stamp s (delete id s).0
  clearing : (name : Bytes) (s : Store) → StoreStep parse stamp s (clear name s).0
  subscribing : (s : Store) → StoreStep parse stamp s (subscribe s).0
  unsubscribing : (key : ℕ) (s : Store) → StoreStep parse stamp s (unsubscribe key s)

-- Any number of operations.
pub data Reaches (parse : Bytes → Mail) (stamp : ℕ → Stamp) (s : Store) : Store → Type 0 where
  start : Reaches parse stamp s s
  next :
      {t u : Store} → Reaches parse stamp s t → StoreStep parse stamp t u → Reaches parse stamp s u

-- Mailboxes and index agree, no mailbox is above the maximum, and each message has the id that it
-- was given.
pub record IsKept (stamp : ℕ → Stamp) (s : Store) : Type 0 where
  pub sound : IsSound s
  pub numbered : IsNumbered stamp s

SameMail-IsKept : (stamp : ℕ → Stamp) {s t : Store} → SameMail s t → IsKept stamp s → IsKept stamp t
SameMail-IsKept stamp e h = record {
  sound = SameMail-IsSound e h.sound;
  numbered = SameMail-IsNumbered stamp e h.numbered;
}

mark_read-SameMail : (id : Bytes) (read : Bool) (s : Store) → SameMail s (mark_read id read s).0
unfolding mark_read updated rewrite_file
mark_read-SameMail id read s = record {
  same_boxes = ground arith;
  same_index = ground arith;
  same_max = ground arith;
  same_cells = ground arith;
}

mark_all_read-SameMail : (name : Bytes) (s : Store) → SameMail s (mark_all_read name s).0
unfolding mark_all_read
mark_all_read-SameMail name s = elim (Option-cases (s.boxes name)) [
  | inl missing ↦
      rw (missing, mark_all_read)
        (record { same_boxes = refl; same_index = refl; same_max = refl; same_cells = refl })
  | inr (ms, there) ↦
      rw (there, mark_all_read)
        (let (changed, reads) = read_all ms s.reads in
          SameMail-trans {t = record s { reads = reads }}
            (record { same_boxes = refl; same_index = refl; same_max = refl; same_cells = refl })
            (update_all-SameMail changed (record s { reads = reads })))
]

update-some :
    (index : Bytes → Option Message) (id j : Bytes) {m : Message}
    → update index id none j ≡ some m
    → index j ≡ some m
update-some index id j e = ground arith

delete-IsNumbered :
    (stamp : ℕ → Stamp) (id : Bytes) (s : Store)
    → IsNumbered stamp s
    → IsNumbered stamp (delete id s).0
unfolding delete
delete-IsNumbered stamp id s h = elim (Option-cases (s.by_id id)) [
  | inl missing ↦ rw (missing, delete) h
  | inr (m, there) ↦
      rw (there, delete)
        (record { numbered = λ j x e. h.numbered j x (update-some s.by_id id j {m = x} e) })
]

clear-IsNumbered :
    (stamp : ℕ → Stamp) (name : Bytes) (s : Store)
    → IsNumbered stamp s
    → IsNumbered stamp (clear name s).0
unfolding clear
clear-IsNumbered stamp name s h = elim (Option-cases (s.boxes name)) [
  | inl missing ↦ rw (missing, clear) h
  | inr (ms, there) ↦
      rw (there, clear)
        (record { numbered = λ j x e. h.numbered j x (erase_all-some ms s.by_id j {m = x} e).0 })
]

module _ (parse : Bytes → Mail) (stamp : ℕ → Stamp) (fresh : IsFresh stamp) where
  pub StoreStep-IsKept : {s t : Store} → StoreStep parse stamp s t → IsKept stamp s → IsKept stamp t
  unfolding subscribe unsubscribe
  StoreStep-IsKept (idle s) h = h
  StoreStep-IsKept (delivering name source env raw s) h = record {
    sound =
        deliver-IsSound parse (stamp s.cells) name source env raw s h.sound
          (next_id_unused stamp s fresh h.numbered);
    numbered = deliver-IsNumbered stamp parse name source env raw s h.numbered;
  }
  StoreStep-IsKept (marking id read s) h = SameMail-IsKept stamp (mark_read-SameMail id read s) h
  StoreStep-IsKept (marking_all name s) h = SameMail-IsKept stamp (mark_all_read-SameMail name s) h
  StoreStep-IsKept (deleting id s) h = record {
    sound = delete-IsSound id s h.sound;
    numbered = delete-IsNumbered stamp id s h.numbered;
  }
  StoreStep-IsKept (clearing name s) h = record {
    sound = clear-IsSound name s h.sound;
    numbered = clear-IsNumbered stamp name s h.numbered;
  }
  StoreStep-IsKept (subscribing s) h =
      SameMail-IsKept stamp
        (record { same_boxes = refl; same_index = refl; same_max = refl; same_cells = refl }) h
  StoreStep-IsKept (unsubscribing key s) h =
      SameMail-IsKept stamp
        (record { same_boxes = refl; same_index = refl; same_max = refl; same_cells = refl }) h

  -- Whatever operations run on a new store, and in whatever order, its mailboxes and its index hold
  -- the same messages, no mailbox is above the maximum, and each message has the id that it was
  -- given, where `NewID` gives no id twice.
  pub Reaches-IsKept :
      (names : List Bytes) (max_messages max_size : ℕ) (persist : Option Disk) {t : Store}
      → Reaches parse stamp (new names max_messages max_size persist) t
      → IsKept stamp t
  Reaches-IsKept names max_messages max_size persist start = record {
    sound = new-IsSound names max_messages max_size persist;
    numbered = new-IsNumbered stamp names max_messages max_size persist;
  }
  Reaches-IsKept names max_messages max_size persist (next before step) =
      StoreStep-IsKept step (Reaches-IsKept names max_messages max_size persist before)
