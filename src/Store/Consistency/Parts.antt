-- ===== src/Store/Consistency/Parts.antt =====
-- internal/store/store.go: a mailbox that is taken apart into the messages that leave it and those
-- that stay.
use mailschleuse.Base.{
  ℕ, suc, ◌≤◌, ◌≡◌, ◌≢◌, refl, sym, ◌⊎◌, inl, inr, List, [], ◌∷◌, ◌++◌, arith, length, take, drop,
  zero, All, All-append, subst,
}
use mailschleuse.Store.Types.{Message}

abbrev pub Member : Message → List Message → Type 0
Member m [] = ⊥
Member m (x ∷ xs) = (x ≡ m) ⊎ Member m xs

-- The third list holds the messages of the first and of the second, each list in its order.
pub data Interleave : List Message → List Message → List Message → Type 0 where
  nothing : Interleave [] [] []
  taken :
      {m : Message} {out rest all : List Message}
      → Interleave out rest all
      → Interleave (m ∷ out) rest (m ∷ all)
  kept :
      {m : Message} {out rest all : List Message}
      → Interleave out rest all
      → Interleave out (m ∷ rest) (m ∷ all)

-- No two messages of the list have one id.
abbrev pub Distinct : List Message → Type 0
Distinct [] = Unit
Distinct (m ∷ ms) = All (λ x. x.id ≢ m.id) ms × Distinct ms

pub All-member {ℓ} :
    (P : Message → Type ℓ) (m : Message) (ms : List Message) → All P ms → Member m ms → P m
All-member P m [] h i = absurd i
All-member P m (x ∷ xs) h (inl e) = subst P e h.0
All-member P m (x ∷ xs) h (inr i) = All-member P m xs h.1 i

pub All-out {ℓ} :
    (P : Message → Type ℓ) {out rest all : List Message}
    → Interleave out rest all
    → All P all
    → All P out
All-out P nothing h = tt
All-out P (taken i) h = (h.0, All-out P i h.1)
All-out P (kept i) h = All-out P i h.1

pub All-rest {ℓ} :
    (P : Message → Type ℓ) {out rest all : List Message}
    → Interleave out rest all
    → All P all
    → All P rest
All-rest P nothing h = tt
All-rest P (taken i) h = All-rest P i h.1
All-rest P (kept i) h = (h.0, All-rest P i h.1)

pub Distinct-rest :
    {out rest all : List Message} → Interleave out rest all → Distinct all → Distinct rest
Distinct-rest nothing h = tt
Distinct-rest (taken i) h = Distinct-rest i h.1
Distinct-rest (kept i) h = (All-rest _ i h.0, Distinct-rest i h.1)

-- No id that leaves is an id that stays.
abbrev pub Apart : List Message → List Message → Type 0
Apart out rest = All (λ x. All (λ y. y.id ≢ x.id) out) rest

Apart-taken :
    (m : Message) (out rest : List Message)
    → All (λ x. x.id ≢ m.id) rest
    → Apart out rest
    → Apart (m ∷ out) rest
Apart-taken m out [] h a = tt
Apart-taken m out (x ∷ rest) h a = ((λ e. h.0 (sym e), a.0), Apart-taken m out rest h.1 a.1)

pub Distinct-Apart :
    {out rest all : List Message} → Interleave out rest all → Distinct all → Apart out rest
Distinct-Apart nothing h = tt
Distinct-Apart (taken {m} {out} {rest} i) h =
    Apart-taken m out rest (All-rest _ i h.0) (Distinct-Apart i h.1)
Distinct-Apart (kept i) h = (All-out _ i h.0, Distinct-Apart i h.1)

pub Member-split :
    (m : Message) {out rest all : List Message}
    → Interleave out rest all
    → Member m all
    → Member m out ⊎ Member m rest
Member-split m nothing i = absurd i
Member-split m (taken p) (inl e) = inl (inl e)
Member-split m (taken p) (inr i) = elim (Member-split m p i) [ inl o ↦ inl (inr o) | inr r ↦ inr r ]
Member-split m (kept p) (inl e) = inr (inl e)
Member-split m (kept p) (inr i) = elim (Member-split m p i) [ inl o ↦ inl o | inr r ↦ inr (inr r) ]

pub Member-rest :
    (m : Message) {out rest all : List Message}
    → Interleave out rest all
    → Member m rest
    → Member m all
Member-rest m nothing i = i
Member-rest m (taken p) i = inr (Member-rest m p i)
Member-rest m (kept p) (inl e) = inl e
Member-rest m (kept p) (inr i) = inr (Member-rest m p i)

pub length-rest : {out rest all : List Message} → Interleave out rest all → length rest ≤ length all
length-rest nothing = omega arith
length-rest (taken i) = omega (arith, length-rest i)
length-rest (kept i) = omega (arith, length-rest i)

pub stay : (ms : List Message) → Interleave [] ms ms
stay [] = nothing
stay (m ∷ ms) = kept (stay ms)

pub leave : (ms : List Message) → Interleave ms [] ms
leave [] = nothing
leave (m ∷ ms) = taken (leave ms)

pub take-drop-Interleave : (n : ℕ) (ms : List Message) → Interleave (take n ms) (drop n ms) ms
take-drop-Interleave zero ms = stay ms
take-drop-Interleave (suc n) [] = nothing
take-drop-Interleave (suc n) (m ∷ ms) = taken (take-drop-Interleave n ms)

pub Member-last : (m : Message) (ms : List Message) → Member m (ms ++ m ∷ [])
Member-last m [] = inl refl
Member-last m (x ∷ xs) = inr (Member-last m xs)

pub Member-append : (m : Message) (ms ns : List Message) → Member m ms → Member m (ms ++ ns)
Member-append m (x ∷ xs) ns (inl e) = inl e
Member-append m (x ∷ xs) ns (inr i) = inr (Member-append m xs ns i)
Member-append m [] ns i = absurd i

pub Distinct-append :
    (m : Message) (ms : List Message)
    → All (λ x. x.id ≢ m.id) ms
    → Distinct ms
    → Distinct (ms ++ m ∷ [])
Distinct-append m [] h d = (tt, tt)
Distinct-append m (x ∷ xs) h d =
    (All-append _ xs (m ∷ []) d.0 ((λ e. h.0 (sym e)), tt), Distinct-append m xs h.1 d.1)
