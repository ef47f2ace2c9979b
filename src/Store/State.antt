-- ===== src/Store/State.antt =====
-- internal/store/store.go: the state of the store, its listeners, and the parts of its operations.
use mailschleuse.Base.{
  ℕ, ◌+◌, ◌-◌, Bool, ◌||◌, List, [], ◌∷◌, ◌++◌, Option, none, some, leb, ltb, ◌==◌, if◌then◌else◌,
  length, take, drop, Bytes, Dict, update,
}
use mailschleuse.Store.Types.{Message, Event, message_updated, message_deleted}
use mailschleuse.Store.Summaries.{summary}
use mailschleuse.Store.Disk.{Disk, write}

-- `boxes` holds each mailbox under its name, with the messages in order of arrival; `reads` is the
-- heap of the read flags, and `cells` the address of the next one. The maximum of messages is a
-- natural number: zero stands for the values that the source reads as no limit.
pub record Store : Type 0 where
  pub boxes : Dict (List Message)
  pub order : List Bytes
  pub by_id : Dict Message
  pub max_messages : ℕ
  pub max_size : ℕ
  pub persist : Option Disk
  pub reads : ℕ → Bool
  pub cells : ℕ
  pub subs : List (ℕ × List Event)
  pub next_sub : ℕ

-- The capacity of a listener's channel.
abbrev pub buffer : ℕ
buffer = 64

unfoldable pub offer : Event → List (ℕ × List Event) → List (ℕ × List Event)
offer ev [] = []
offer ev ((key, queue) ∷ subs) =
    (key, if ltb (length queue) buffer then queue ++ ev ∷ [] else queue) ∷ offer ev subs

-- `publish`: an event for a listener whose channel is full is dropped.
unfoldable pub publish : Event → Store → Store
unfolding offer
publish ev s = record s { subs = offer ev s.subs }

-- `Subscribe` gives the key of the new channel, which is empty.
unfoldable pub subscribe : Store → Store × ℕ
subscribe s = (record s { subs = (s.next_sub, []) ∷ s.subs; next_sub = s.next_sub + 1 }, s.next_sub)

unfoldable pub drop_sub : ℕ → List (ℕ × List Event) → List (ℕ × List Event)
drop_sub key [] = []
drop_sub key ((k, queue) ∷ subs) =
    let rest = drop_sub key subs in if k == key then rest else (k, queue) ∷ rest

-- What the function that `Subscribe` returns does.
unfoldable pub unsubscribe : ℕ → Store → Store
unfolding drop_sub
unsubscribe key s = record s { subs = drop_sub key s.subs }

unfoldable pub updated : Message → Store → Store
unfolding publish
updated m s =
    publish
      (record {
        type = message_updated;
        mailbox = m.mailbox;
        id = m.id;
        summary = some (summary m (s.reads m.read_cell));
      })
      s

unfoldable pub deleted : Message → Store → Store
unfolding publish
deleted m s =
    publish (record { type = message_deleted; mailbox = m.mailbox; id = m.id; summary = none }) s

unfoldable pub all_deleted : List Message → Store → Store
unfolding deleted
all_deleted [] s = s
all_deleted (m ∷ ms) s = all_deleted ms (deleted m s)

-- The loop over `delete(s.byID, m.ID)`.
unfoldable pub erase_all : List Message → Dict Message → Dict Message
erase_all [] index = index
erase_all (m ∷ ms) index = erase_all ms (update index m.id none)

-- How many messages `evictLocked` drops of a mailbox.
unfoldable pub surplus : ℕ → List Message → ℕ
surplus max_messages ms =
    if max_messages == 0 || leb (length ms) max_messages then 0 else length ms - max_messages

-- `evictLocked` on the named mailbox, whose messages are given, with the evicted messages.
unfoldable pub evict : Bytes → List Message → Store → Store × List Message
unfolding surplus erase_all
evict name ms s =
    let n = surplus s.max_messages ms in
    (
      record s {
        boxes = update s.boxes name (some (drop n ms));
        by_id = erase_all (take n ms) s.by_id;
      },
      take n ms,
    )

-- A write of metadata whose error is ignored.
abbrev pub rewrite_on : Option Disk → Message → Bool → Option Disk
rewrite_on none m read = none
rewrite_on (some d) m read = some (write d m read).0

unfoldable pub rewrite_file : Message → Store → Store
unfolding write
rewrite_file m s = record s { persist = rewrite_on s.persist m (s.reads m.read_cell) }

-- `m.read.Swap(value)`, without the old value.
abbrev pub set_flag : (ℕ → Bool) → ℕ → Bool → ℕ → Bool
set_flag reads cell value i = if cell == i then value else reads i
