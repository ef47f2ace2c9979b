-- ===== src/Store/Listing.antt =====
-- internal/store/store.go: the page that List gives.
pub mod Order
pub mod Page
use mailschleuse.Base.{
  drop-append, ℕ, zero, suc, ◌+◌, ◌-◌, ◌≤◌, ◌<◌, ◌≡◌, refl, sym, ap, ◌∙◌, inl, inr, Bool, List, [],
  ◌∷◌, ◌++◌, map, some, arith, length, length-append, take, drop, get_elem?, to_lower, trim_space,
  Bool-cases, leb,
}
use mailschleuse.Store.Types.{Message, Summary}
use mailschleuse.Store.Summaries.{summary}
use mailschleuse.Store.State.{Store}
use mailschleuse.Store.Queries.{ListOptions, select, pool, page_limit, walk_back, list}

-- The messages from the last to the first.
unfoldable pub newest_first : List Message → List Message
newest_first [] = []
newest_first (m ∷ ms) = newest_first ms ++ m ∷ []

length-newest_first : (ms : List Message) → length (newest_first ms) ≡ length ms
unfolding newest_first
length-newest_first [] = refl
length-newest_first (m ∷ ms) =
    omega (arith, length-newest_first ms, length-append (newest_first ms) (m ∷ []))

newest_first-append :
    (ms : List Message) (m : Message) → newest_first (ms ++ m ∷ []) ≡ m ∷ newest_first ms
unfolding newest_first
newest_first-append [] m = refl
newest_first-append (x ∷ ms) m = ap (λ t. t ++ x ∷ []) (newest_first-append ms m)

take-suc :
    (i : ℕ) (ms : List Message) {m : Message}
    → get_elem? ms i ≡ some m
    → take (suc i) ms ≡ take i ms ++ m ∷ []
take-suc i [] e = cc
take-suc zero (x ∷ ms) e = cc
take-suc (suc i) (x ∷ ms) {m} e = ap (λ t. x ∷ t) (take-suc i ms {m = m} e)

get_elem?-below :
    (i : ℕ) (ms : List Message) → i < length ms → (m : Message) × (get_elem? ms i ≡ some m)
get_elem?-below i [] h = absurd (omega (arith, h))
get_elem?-below zero (x ∷ ms) h = (x, refl)
get_elem?-below (suc i) (x ∷ ms) h = get_elem?-below i ms (omega (arith, h))

abbrev pub summary_of : (ℕ → Bool) → Message → Summary
summary_of reads m = summary m (reads m.read_cell)

walk_back-take :
    (reads : ℕ → Bool) (found : List Message) (n room : ℕ)
    → n ≤ length found
    → walk_back reads found n room
      ≡ map (summary_of reads) (take room (newest_first (take n found)))
unfolding walk_back newest_first
walk_back-take reads found zero zero h = refl
walk_back-take reads found zero (suc room) h = refl
walk_back-take reads found (suc i) zero h = refl
walk_back-take reads found (suc i) (suc room) h =
    let (m, there) = get_elem?-below i found (omega (arith, h)) in
    rw (there, walk_back, take-suc i found {m = m} there, newest_first-append (take i found) m)
      (ap (λ t. summary_of reads m ∷ t) (walk_back-take reads found i room (omega (arith, h))))

drop_all : (n : ℕ) (ms : List Message) → length ms ≤ n → drop n ms ≡ []
drop_all zero [] h = refl
drop_all zero (x ∷ ms) h = absurd (omega (arith, h))
drop_all (suc n) [] h = refl
drop_all (suc n) (x ∷ ms) h = drop_all n ms (omega (arith, h))

newest_first-take :
    (n k : ℕ) (ms : List Message)
    → n + k ≡ length ms
    → newest_first (take n ms) ≡ drop k (newest_first ms)
unfolding newest_first
newest_first-take zero k ms e =
    sym (drop_all k (newest_first ms) (omega (arith, e, length-newest_first ms)))
newest_first-take (suc n) k [] e = absurd (omega (arith, e))
newest_first-take (suc n) k (x ∷ ms) e =
    ap (λ t. t ++ x ∷ []) (newest_first-take n k ms (omega (arith, e)))
    ∙ sym (drop-append k (newest_first ms) (x ∷ []) (omega (arith, e, length-newest_first ms)))

take_before :
    (offset : ℕ) (ms : List Message)
    → newest_first (take (length ms - offset) ms) ≡ drop offset (newest_first ms)
unfolding newest_first
take_before offset ms = elim (Bool-cases (leb offset (length ms))) [
  | inl within ↦ newest_first-take (length ms - offset) offset ms (ground (arith, within))
  | inr past ↦
      let none_left : length ms - offset ≡ 0 = ground (arith, past) in
      ap (λ n. newest_first (take n ms)) none_left
      ∙ sym (drop_all offset (newest_first ms) (ground (arith, past, length-newest_first ms)))
]

-- The page in terms of the messages that are selected.
pub list-selected :
    (s : Store) (opts : ListOptions) (ms : List Message)
    → pool s opts.mailbox ≡ some ms
    → (let found = select s.reads opts.unread (to_lower (trim_space opts.search)) ms in
        list s opts
        ≡ some (
          map
              (summary_of s.reads)
              (take (page_limit opts.limit) (drop opts.offset (newest_first found))),
          length found,
        ))
unfolding list
list-selected s opts ms there =
    let found = select s.reads opts.unread (to_lower (trim_space opts.search)) ms in
    rw (there, list)
      (ap (λ page. some (page, length found))
        (walk_back-take s.reads found (length found - opts.offset) (page_limit opts.limit)
            (omega arith)
          ∙ ap (λ t. map (summary_of s.reads) (take (page_limit opts.limit) t))
              (take_before opts.offset found)))
