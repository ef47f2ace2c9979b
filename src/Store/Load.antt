-- ===== src/Store/Load.antt =====
-- internal/store/persist.go: the mailboxes from the data directory.
use mailschleuse.Base.{ℕ, ◌+◌, Bool, List, [], ◌∷◌, ◌++◌, Option, none, some, length, Bytes, update}
use mailschleuse.Mailparse.Types.{Mail}
use mailschleuse.Store.Types.{Message}
use mailschleuse.Store.Disk.{Disk, MetaFile, remove_all}
use mailschleuse.Store.State.{Store, evict, set_flag}
use mailschleuse.Store.Ops.{new, removed_on}
use mailschleuse.Store.Queries.{messages_of}

abbrev evicted : Store × List Message → Store
evicted (s, old) = record s { persist = removed_on s.persist old }

-- The metadata in the .json file of a message.
unfoldable pub metadata : Disk → Bytes → Bytes → Option MetaFile
metadata d name id = elim (d.json name id) [ none ↦ none | some text ↦ d.unmarshal text ]

-- `persistence.read`, with the read flag, for a message whose flag has this address. A list has no
-- nil, so that the recipients need no second look.
module _ (parse : Bytes → Mail) where
  unfoldable pub message_of : Bytes → Bytes → MetaFile → Bytes → ℕ → Message
  message_of name id meta raw cell = record {
    id = id;
    mailbox = name;
    received_at = meta.received_at;
    source = meta.source;
    envelope = meta.envelope;
    size = length raw;
    read_cell = cell;
    raw = raw;
    parsed = parse raw;
  }

  unfoldable pub read : Disk → Bytes → Bytes → ℕ → Option (Message × Bool)
  unfolding message_of metadata
  read d name id cell = elim (metadata d name id) [
    | none ↦ none
    | some meta ↦ elim (d.eml name id) [
      | none ↦ none
      | some raw ↦ some (message_of name id meta raw cell, meta.read)
    ]
  ]

  -- The loop of `load` over the ids of one directory, which skips a damaged message.
  unfoldable pub load_ids : Disk → Bytes → List Bytes → List Message → Store → List Message × Store
  unfolding read
  load_ids d name [] ms s = (ms, s)
  load_ids d name (id ∷ ids) ms s = elim (read d name id s.cells) [
    | none ↦ load_ids d name ids ms s
    | some (msg, flag) ↦ load_ids d name ids (ms ++ msg ∷ []) (record s {
      by_id = update s.by_id msg.id (some msg);
      reads = set_flag s.reads s.cells flag;
      cells = s.cells + 1;
    })
  ]

  -- One mailbox: its oldest messages above the maximum are dropped, from the disk too.
  unfoldable pub load_box : Bytes → List Bytes → Store → Store
  unfolding load_ids evict remove_all
  load_box name ids s = elim s.persist [
    | none ↦ s
    | some d ↦
        let (ms, loaded) = load_ids d name ids (messages_of s name) s in
        evicted (evict name ms loaded)
  ]

  -- `load`, where the directory of each mailbox lists these ids, in order.
  unfoldable pub load : (Bytes → List Bytes) → List Bytes → Store → Store
  unfolding load_box
  load listing [] s = s
  load listing (name ∷ names) s = load listing names (load_box name (listing name) s)

  -- `New` with a data directory.
  unfoldable pub new_on : (Bytes → List Bytes) → List Bytes → ℕ → ℕ → Disk → Store
  unfolding new load
  new_on listing names max_messages max_size d =
      load listing names (new names max_messages max_size (some d))
