-- ===== src/Store/Ops.antt =====
-- internal/store/store.go: the operations that change the store.
use mailschleuse.Base.{
  ℕ, ◌+◌, Bool, true, false, not, List, [], ◌∷◌, ◌++◌, Option, none, some, ltb, if◌then◌else◌,
  length, Bytes, str_eq, Dict, update,
}
use mailschleuse.Mailparse.Types.{Mail}
use mailschleuse.Store.Types.{Envelope, Message, message_new, mailbox_cleared}
use mailschleuse.Store.Summaries.{summary}
use mailschleuse.Store.Disk.{Disk, WriteError, write, remove_all}
use mailschleuse.Store.State.{
  Store, publish, updated, deleted, all_deleted, erase_all, evict, rewrite_file, set_flag,
}

pub data DeliverError : Type 0 where
  too_large : DeliverError
  no_such_mailbox : Bytes → DeliverError
  not_persisted : WriteError → DeliverError

pub data Delivery : Type 0 where
  stored : Message → Delivery
  refused : DeliverError → Delivery

-- What `NewID` and the clock give to one delivery.
pub record Stamp : Type 0 where
  pub id : Bytes
  pub time : ℕ

-- `New` with no data directory.
unfoldable pub new_boxes : List Bytes → Dict (List Message) → Dict (List Message)
new_boxes [] boxes = boxes
new_boxes (name ∷ names) boxes = new_boxes names (update boxes name (some []))

unfoldable pub new : List Bytes → ℕ → ℕ → Option Disk → Store
unfolding new_boxes
new names max_messages max_size persist = record {
  boxes = new_boxes names (λ k. none);
  order = names;
  by_id = λ k. none;
  max_messages = max_messages;
  max_size = max_size;
  persist = persist;
  reads = λ i. false;
  cells = 0;
  subs = [];
  next_sub = 0;
}

-- The parser of message bodies, `mailparse.Parse`.
module _ (parse : Bytes → Mail) where
  unfoldable pub new_message : Stamp → Bytes → Bytes → Envelope → Bytes → ℕ → Message
  new_message stamp name source env raw cell = record {
    id = stamp.id;
    mailbox = name;
    received_at = stamp.time;
    source = source;
    envelope = env;
    size = length raw;
    read_cell = cell;
    raw = raw;
    parsed = parse raw;
  }

-- The new message is put into the mailbox and the index, and the mailbox is trimmed.
unfoldable pub insert : Message → List Message → Store → Store × List Message
unfolding evict
insert msg ms s =
    let full = ms ++ msg ∷ [] in
    evict msg.mailbox full (record s {
      boxes = update s.boxes msg.mailbox (some full);
      by_id = update s.by_id msg.id (some msg);
      reads = set_flag s.reads s.cells false;
      cells = s.cells + 1;
    })

-- The files of the new message and of the evicted ones.
unfoldable pub persisted :
    Option Disk → Message → Bool → List Message → Option Disk × Option WriteError
unfolding write remove_all
persisted none msg read evicted = (none, none)
persisted (some d) msg read evicted =
    let (d', failure) = write d msg read in
    elim failure [ none ↦ (some (remove_all d' evicted), none) | some e ↦ (some d', some e) ]

unfoldable pub announce : Message → List Message → Store → Store
unfolding all_deleted publish
announce msg evicted s =
    publish
      (record {
        type = message_new;
        mailbox = msg.mailbox;
        id = msg.id;
        summary = some (summary msg (s.reads msg.read_cell));
      })
      (all_deleted evicted s)

unfoldable pub settled :
    Message → Store → List Message → Option Disk × Option WriteError → Store × Delivery
unfolding announce
settled msg s evicted (d, some e) = (record s { persist = d }, refused (not_persisted e))
settled msg s evicted (d, none) = (announce msg evicted (record s { persist = d }), stored msg)

-- The part of `Deliver` behind its critical section.
unfoldable pub settle : Message → Store × List Message → Store × Delivery
unfolding settled persisted
settle msg (s, evicted) =
    settled msg s evicted (persisted s.persist msg (s.reads msg.read_cell) evicted)

unfoldable pub deliver :
    (Bytes → Mail) → Stamp → Bytes → Bytes → Envelope → Bytes → Store → Store × Delivery
unfolding new_message insert settle
deliver parse stamp name source env raw s =
    let msg = new_message parse stamp name source env raw s.cells in
    if ltb s.max_size (length raw) then (s, refused too_large) else elim (s.boxes name) [
      | none ↦ (s, refused (no_such_mailbox name))
      | some ms ↦ settle msg (insert msg ms s)
    ]

abbrev same_bool : Bool → Bool → Bool
same_bool true b = b
same_bool false b = not b

-- `MarkRead`: false for an unknown id.
unfoldable pub mark_read : Bytes → Bool → Store → Store × Bool
unfolding rewrite_file updated
mark_read id read s = elim (s.by_id id) [
  | none ↦ (s, false)
  | some m ↦
      let s' : Store = record s { reads = set_flag s.reads m.read_cell read } in
      (if same_bool (s.reads m.read_cell) read then s' else updated m (rewrite_file m s'), true)
]

-- The loop of `MarkAllRead` over the mailbox: the messages that were unread, and the flags.
unfoldable pub read_all : List Message → (ℕ → Bool) → List Message × (ℕ → Bool)
read_all [] reads = ([], reads)
read_all (m ∷ ms) reads =
    let (changed, reads') = read_all ms (set_flag reads m.read_cell true) in
    (if reads m.read_cell then changed else m ∷ changed, reads')

unfoldable pub update_all : List Message → Store → Store
unfolding rewrite_file updated
update_all [] s = s
update_all (m ∷ ms) s = update_all ms (updated m (rewrite_file m s))

-- `MarkAllRead`: none for an unknown mailbox.
unfoldable pub mark_all_read : Bytes → Store → Store × Option ℕ
unfolding read_all update_all
mark_all_read name s = elim (s.boxes name) [
  | none ↦ (s, none)
  | some ms ↦
      let (changed, reads) = read_all ms s.reads in
      (update_all changed (record s { reads = reads }), some (length changed))
]

-- The mailbox without its first message of this id.
unfoldable pub remove_id : Bytes → List Message → List Message
unfolding str_eq
remove_id id [] = []
remove_id id (m ∷ ms) = let rest = remove_id id ms in if str_eq m.id id then ms else m ∷ rest

abbrev pub removed_on : Option Disk → List Message → Option Disk
removed_on none ms = none
removed_on (some d) ms = some (remove_all d ms)

abbrev pub without : Bytes → Option (List Message) → Option (List Message)
without id none = none
without id (some ms) = some (remove_id id ms)

-- `Delete`: false for an unknown id.
unfoldable pub delete : Bytes → Store → Store × Bool
unfolding remove_id remove_all deleted
delete id s = elim (s.by_id id) [
  | none ↦ (s, false)
  | some m ↦ (
    deleted (record m { id = id })
        (record s {
          by_id = update s.by_id id none;
          boxes = update s.boxes m.mailbox (without id (s.boxes m.mailbox));
          persist = removed_on s.persist (m ∷ []);
        }),
    true,
  )
]

-- `Clear`: none for an unknown mailbox.
unfoldable pub clear : Bytes → Store → Store × Option ℕ
unfolding erase_all remove_all publish
clear name s = elim (s.boxes name) [
  | none ↦ (s, none)
  | some ms ↦ (
    publish (record { type = mailbox_cleared; mailbox = name; id = []; summary = none })
        (record s {
          boxes = update s.boxes name (some []);
          by_id = erase_all ms s.by_id;
          persist = removed_on s.persist ms;
        }),
    some (length ms),
  )
]
