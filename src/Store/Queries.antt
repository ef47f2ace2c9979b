-- ===== src/Store/Queries.antt =====
-- internal/store/store.go: the operations that only read the store.
use mailschleuse.Base.{
  ℕ, zero, suc, ◌+◌, ◌-◌, Bool, true, false, not, ◌&&◌, ◌||◌, List, [], ◌∷◌, ◌++◌, Option, none,
  some, ltb, ◌==◌, if◌then◌else◌, is_nil, length, get_elem?, Bytes, to_lower, trim_space,
}
use mailschleuse.Store.Types.{Message, Summary, MailboxStats}
use mailschleuse.Store.Summaries.{summary, matches}
use mailschleuse.Store.State.{Store}
use mailschleuse.Store.Disk.{is_some}

-- `Has`.
unfoldable pub has : Store → Bytes → Bool
has s name = is_some (s.boxes name)

-- `Get`.
unfoldable pub get : Store → Bytes → Option Message
get s id = s.by_id id

-- `Snapshot`: none for an unknown mailbox.
unfoldable pub snapshot : Store → Bytes → Option (List Message)
snapshot s name = s.boxes name

-- The source reads `s.boxes[name].messages` of every name in `order`, which are in the map.
abbrev pub messages_of : Store → Bytes → List Message
messages_of s name = elim (s.boxes name) [ none ↦ [] | some ms ↦ ms ]

-- The loop of `Stats` over one mailbox.
unfoldable pub tally : (ℕ → Bool) → List Message → MailboxStats → MailboxStats
tally reads [] st = st
tally reads (m ∷ ms) st = tally reads ms (record st {
  unread = if reads m.read_cell then st.unread else st.unread + 1;
  bytes = st.bytes + m.size;
})

unfoldable pub box_stats : Store → Bytes → MailboxStats
unfolding tally
box_stats s name =
    let ms = messages_of s name in
    tally s.reads ms (record { name = name; total = length ms; unread = 0; bytes = 0 })

unfoldable pub stats_of : Store → List Bytes → List MailboxStats
unfolding box_stats
stats_of s [] = []
stats_of s (name ∷ names) = box_stats s name ∷ stats_of s names

-- `Stats`.
unfoldable pub stats : Store → List MailboxStats
unfolding stats_of
stats s = stats_of s s.order

-- `a < b` on strings.
unfoldable pub str_lt : Bytes → Bytes → Bool
str_lt s [] = false
str_lt [] (d ∷ t) = true
str_lt (c ∷ s) (d ∷ t) = ltb c d || (c == d && str_lt s t)

-- `sort.SliceStable` by id.
unfoldable pub insert_sorted : Message → List Message → List Message
unfolding str_lt
insert_sorted m [] = m ∷ []
insert_sorted m (x ∷ xs) =
    let later = insert_sorted m xs in if str_lt x.id m.id then x ∷ later else m ∷ x ∷ xs

unfoldable pub sort_by_id : List Message → List Message
unfolding insert_sorted
sort_by_id [] = []
sort_by_id (m ∷ ms) = insert_sorted m (sort_by_id ms)

unfoldable pub all_messages : Store → List Bytes → List Message
all_messages s [] = []
all_messages s (name ∷ names) = messages_of s name ++ all_messages s names

pub record ListOptions : Type 0 where
  pub mailbox : Bytes
  pub search : Bytes
  pub limit : ℕ
  pub offset : ℕ
  pub unread : Bool

-- The tests of the loop of `List` over the pool.
unfoldable pub is_listed : (ℕ → Bool) → Bool → Bytes → Message → Bool
unfolding matches
is_listed reads unread needle m =
    not (unread && reads m.read_cell) && (is_nil needle || matches m needle)

unfoldable pub select : (ℕ → Bool) → Bool → Bytes → List Message → List Message
unfolding is_listed
select reads unread needle [] = []
select reads unread needle (m ∷ ms) =
    let rest = select reads unread needle ms in
    if is_listed reads unread needle m then m ∷ rest else rest

unfoldable pub pool : Store → Bytes → Option (List Message)
unfolding sort_by_id all_messages
pool s name = if is_nil name then some (sort_by_id (all_messages s s.order)) else s.boxes name

unfoldable pub page_limit : ℕ → ℕ
page_limit limit = if limit == 0 || ltb 500 limit then 50 else limit

-- The loop of `List` that walks backwards: `n` is the index i plus one, and `room` is what the limit
-- leaves.
unfoldable pub walk_back : (ℕ → Bool) → List Message → ℕ → ℕ → List Summary
unfolding summary
walk_back reads found zero room = []
walk_back reads found (suc i) zero = []
walk_back reads found (suc i) (suc room) = elim (get_elem? found i) [
  | none ↦ []
  | some m ↦ summary m (reads m.read_cell) ∷ walk_back reads found i room
]

-- `List`: none for an unknown mailbox. The offset is not negative, which the source requires of its
-- callers too.
unfoldable pub list : Store → ListOptions → Option (List Summary × ℕ)
unfolding pool select walk_back page_limit
list s opts =
    let needle = to_lower (trim_space opts.search) in
    elim (pool s opts.mailbox) [
      | none ↦ none
      | some ms ↦
          let found = select s.reads opts.unread needle ms in
          some (
            walk_back s.reads found (length found - opts.offset) (page_limit opts.limit),
            length found,
          )
    ]
