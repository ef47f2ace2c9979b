-- ===== src/Store/Listing/Order.antt =====
-- internal/store/store.go: the messages of all mailboxes in the order of their ids.
use mailschleuse.Base.{◌≡◌, refl, true, false, List, [], ◌∷◌, Bytes, arith, inl, inr, Bool-cases}
use mathlib.Core.List.{Perm}
use mathlib.Core.List.Perm
use mailschleuse.Store.Types.{Message}
use mailschleuse.Store.Queries.{str_lt, insert_sorted, sort_by_id}

-- No message has a smaller id than the one in front of it.
abbrev pub IsAscending : List Message → Type 0
IsAscending [] = Unit
IsAscending (m ∷ []) = Unit
IsAscending (m ∷ n ∷ ms) = (str_lt n.id m.id ≡ false) × IsAscending (n ∷ ms)

str_lt_asym : (s t : Bytes) → str_lt s t ≡ true → str_lt t s ≡ false
unfolding str_lt
str_lt_asym s [] h = cc
str_lt_asym [] (d ∷ t) h = refl
str_lt_asym (c ∷ s) (d ∷ t) h = ground (arith, h, str_lt_asym s t)

insert_sorted-perm : (m : Message) (ms : List Message) → Perm (insert_sorted m ms) (m ∷ ms)
unfolding insert_sorted
insert_sorted-perm m [] = Perm.rfl
insert_sorted-perm m (x ∷ xs) = elim (Bool-cases (str_lt x.id m.id)) [
  | inl t ↦ rw t (Perm.trans (Perm.cons x (insert_sorted-perm m xs)) (Perm.swap m x xs))
  | inr f ↦ rw f Perm.rfl
]

pub sort_by_id-perm : (ms : List Message) → Perm (sort_by_id ms) ms
unfolding sort_by_id
sort_by_id-perm [] = Perm.rfl
sort_by_id-perm (m ∷ ms) =
    Perm.trans (insert_sorted-perm m (sort_by_id ms)) (Perm.cons m (sort_by_id-perm ms))

-- Behind a message with a smaller id, and in front of no smaller one.
insert_sorted-IsAscending :
    (m : Message) (ms : List Message) → IsAscending ms → IsAscending (insert_sorted m ms)
unfolding insert_sorted
insert_sorted-IsAscending m [] h = tt
insert_sorted-IsAscending m (x ∷ []) h = elim (Bool-cases (str_lt x.id m.id)) [
  | inl t ↦ rw t (str_lt_asym x.id m.id t, tt)
  | inr f ↦ rw f (f, tt)
]
insert_sorted-IsAscending m (x ∷ y ∷ ys) h = elim (Bool-cases (str_lt x.id m.id)) [
  | inr f ↦ rw f (f, h)
  | inl t ↦ rw t (elim (Bool-cases (str_lt y.id m.id)) [
    | inl u ↦ rw u (h.0, rw u at (insert_sorted-IsAscending m (y ∷ ys) h.1))
    | inr f ↦ rw f (str_lt_asym x.id m.id t, (f, h.1))
  ])
]

pub sort_by_id-IsAscending : (ms : List Message) → IsAscending (sort_by_id ms)
unfolding sort_by_id
sort_by_id-IsAscending [] = tt
sort_by_id-IsAscending (m ∷ ms) =
    insert_sorted-IsAscending m (sort_by_id ms) (sort_by_id-IsAscending ms)
