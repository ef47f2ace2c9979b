-- ===== src/Store/Listing/Page.antt =====
-- internal/store/store.go: what List gives, described apart from its loops.
use mailschleuse.Base.{
  ◌||◌, some_injective, subst, sym, ap, ℕ, ◌≤◌, ◌<◌, ◌≡◌, refl, ◌⊎◌, inl, inr, Bool, true, false,
  Option, none, some, List, [], ◌∷◌, ◌++◌, map, take, drop, length, Bytes, to_lower, trim_space,
  is_nil, Bool-cases, Option-cases, arith, All, ltb, ◌==◌,
}
use mathlib.Core.List.{Perm, flatten}
use mailschleuse.Store.Types.{Message, Summary}
use mailschleuse.Store.Summaries.{matches}
use mailschleuse.Store.State.{Store}
use mailschleuse.Store.Queries.{
  ListOptions, is_listed, select, pool, page_limit, list, all_messages, messages_of, sort_by_id,
}
use mailschleuse.Store.Consistency.Parts.{Interleave, nothing, taken, kept}
use mailschleuse.Store.Listing.{newest_first, summary_of, list-selected}
use mailschleuse.Store.Listing.Order.{IsAscending, sort_by_id-perm, sort_by_id-IsAscending}

-- The messages that are looked through: those of the mailbox that is named, in its order, or those of
-- all mailboxes, in the order of their ids.
abbrev pub IsPool : Store → Bytes → List Message → Type 0
IsPool s name ms =
    ((is_nil name ≡ false) × (s.boxes name ≡ some ms))
    ⊎ ((name ≡ []) × Perm ms (flatten (map (messages_of s) s.order)) × IsAscending ms)

-- The message is unread, if only those are wanted, and holds the text that is searched for, if there
-- is one.
abbrev pub IsWanted : (ℕ → Bool) → Bool → Bytes → Message → Type 0
IsWanted reads unread needle m =
    (unread ≡ true → reads m.read_cell ≡ false) × ((needle ≡ []) ⊎ (matches m needle ≡ true))

-- A limit from 1 to 500 is kept, and every other one is 50.
abbrev pub IsLimit : ℕ → ℕ → Type 0
IsLimit limit n =
    ((1 ≤ limit) × (limit ≤ 500) × (n ≡ limit)) ⊎ (((limit ≡ 0) ⊎ (500 < limit)) × (n ≡ 50))

-- The messages that are found are those of the pool that are wanted, in its order; the page has them from the newest on,
-- from the offset on, and as many as the limit allows.
pub record IsPage (s : Store) (opts : ListOptions) (page : List Summary) (total : ℕ) : Type 0 where
  pub among : List Message
  pub found : List Message
  pub others : List Message
  pub limit : ℕ
  pub pooled : IsPool s opts.mailbox among
  pub parted : Interleave others found among
  pub wanted : All (IsWanted s.reads opts.unread (to_lower (trim_space opts.search))) found
  pub unwanted :
      All (λ m. ¬ IsWanted s.reads opts.unread (to_lower (trim_space opts.search)) m) others
  pub limited : IsLimit opts.limit limit
  pub summaries :
      page ≡ map (summary_of s.reads) (take limit (drop opts.offset (newest_first found)))
  pub counted : total ≡ length found

is_listed-IsWanted :
    (reads : ℕ → Bool) (unread : Bool) (needle : Bytes) (m : Message)
    → is_listed reads unread needle m ≡ true
    → IsWanted reads unread needle m
unfolding is_listed
is_listed-IsWanted reads unread [] m h = ((λ e. ground (arith, h, e)), inl refl)
is_listed-IsWanted reads unread (c ∷ needle) m h =
    ((λ e. ground (arith, h, e)), inr (ground (arith, h)))

unlisted-IsWanted :
    (reads : ℕ → Bool) (unread : Bool) (needle : Bytes) (m : Message)
    → is_listed reads unread needle m ≡ false
    → ¬ IsWanted reads unread needle m
unfolding is_listed
unlisted-IsWanted reads unread [] m h w = ground (arith, h, w.0)
unlisted-IsWanted reads unread (c ∷ needle) m h (new, inl e) = cc
unlisted-IsWanted reads unread (c ∷ needle) m h (new, inr e) = ground (arith, h, new, e)

-- The messages that are left out, and what is known of both parts.
select-parts :
    (reads : ℕ → Bool) (unread : Bool) (needle : Bytes) (ms : List Message)
    → (others : List Message) × Interleave others (select reads unread needle ms) ms
      × All (IsWanted reads unread needle) (select reads unread needle ms)
      × All (λ m. ¬ IsWanted reads unread needle m) others
unfolding select
select-parts reads unread needle [] = ([], nothing, tt, tt)
select-parts reads unread needle (m ∷ ms) =
    let (others, parts, wanted, unwanted) = select-parts reads unread needle ms in
    elim (Bool-cases (is_listed reads unread needle m)) [
      | inl t ↦
          rw t (others, kept parts, (is_listed-IsWanted reads unread needle m t, wanted), unwanted)
      | inr f ↦
          rw f
            (m ∷ others, taken parts, wanted, (unlisted-IsWanted reads unread needle m f, unwanted))
    ]

page_limit-IsLimit : (limit : ℕ) → IsLimit limit (page_limit limit)
unfolding page_limit
page_limit-IsLimit limit = elim (Bool-cases (limit == 0 || ltb 500 limit)) [
  | inl t ↦ inr (ground (arith, t), rw t refl)
  | inr f ↦ inl (ground (arith, f), ground (arith, f), rw f refl)
]

all_messages-flatten :
    (s : Store) (names : List Bytes) → all_messages s names ≡ flatten (map (messages_of s) names)
unfolding all_messages flatten
all_messages-flatten s [] = refl
all_messages-flatten s (name ∷ names) =
    ap (λ l. messages_of s name ++ l) (all_messages-flatten s names)

pool-IsPool :
    (s : Store) (name : Bytes) {ms : List Message} → pool s name ≡ some ms → IsPool s name ms
unfolding pool
pool-IsPool s [] {ms} e =
    let same : sort_by_id (all_messages s s.order) ≡ ms = some_injective e in
    inr (
      refl,
      subst (λ l. Perm l (flatten (map (messages_of s) s.order))) same
          (subst (Perm (sort_by_id (all_messages s s.order))) (all_messages-flatten s s.order)
            (sort_by_id-perm (all_messages s s.order))),
      subst IsAscending same (sort_by_id-IsAscending (all_messages s s.order)),
    )
pool-IsPool s (c ∷ name) e = inl (refl, e)

pool-none :
    (s : Store) (name : Bytes) → pool s name ≡ none → (is_nil name ≡ false) × (s.boxes name ≡ none)
unfolding pool
pool-none s [] e = cc
pool-none s (c ∷ name) e = (refl, e)

-- The mailbox is named and does not exist.
abbrev pub IsListed : Store → ListOptions → Option (List Summary × ℕ) → Type 0
IsListed s opts none = (is_nil opts.mailbox ≡ false) × (s.boxes opts.mailbox ≡ none)
IsListed s opts (some (page, total)) = IsPage s opts page total

-- List refuses a mailbox that is named and does not exist. Otherwise it looks through the messages of
-- the named mailbox, or, if none is named, those of all mailboxes in ascending order of their ids,
-- and finds exactly those that are unread, if only unread ones are wanted, and that hold the search
-- text, if there is one. The total is their number, and the page has their summaries from the last
-- to the first, from the offset on, as many as the limit says, where a limit outside of 1 to 500 is
-- 50.
pub list-IsListed : (s : Store) (opts : ListOptions) → IsListed s opts (list s opts)
unfolding list
list-IsListed s opts = elim (Option-cases (pool s opts.mailbox)) [
  | inl missing ↦ rw (missing, list) (pool-none s opts.mailbox missing)
  | inr (ms, there) ↦
      let (others, parts, wanted, unwanted) =
        select-parts s.reads opts.unread (to_lower (trim_space opts.search)) ms in
      subst (IsListed s opts) (sym (list-selected s opts ms there)) (record {
        among = ms;
        found = select s.reads opts.unread (to_lower (trim_space opts.search)) ms;
        others = others;
        limit = page_limit opts.limit;
        pooled = pool-IsPool s opts.mailbox {ms = ms} there;
        parted = parts;
        wanted = wanted;
        unwanted = unwanted;
        limited = page_limit-IsLimit opts.limit;
        summaries = refl;
        counted = refl;
      })
]
