-- ===== src/Base/Uniqueness.antt =====
-- Lists of strings in which no string stands twice.
use mathlib.Core.Path.{◌≡◌, sym, ap}
use mathlib.Core.Logic.{◌≢◌, inl, inr}
use mathlib.Core.Bool.{false}
use mathlib.Core.List.{List, [], ◌∷◌, ◌++◌}
use native.Mathlib.Omega.{arith}
use mailschleuse.Base.Tests.{Bool-cases}
use mailschleuse.Base.Lists.{All, All-append}
use mailschleuse.Base.Text.{Bytes, str_eq, str_eq_refl, contains}

-- No name stands twice in the list.
abbrev pub Unique : List Bytes → Type 0
Unique [] = Unit
Unique (n ∷ ns) = All (λ x. x ≢ n) ns × Unique ns

pub contains-All : (ns : List Bytes) (m : Bytes) → contains ns m ≡ false → All (λ x. x ≢ m) ns
unfolding contains
contains-All [] m e = tt
contains-All (n ∷ ns) m e = elim (Bool-cases (str_eq n m)) [
  | inl t ↦ absurd (ground arith)
  | inr f ↦
      ((λ same. ground (arith, ap (str_eq n) same, str_eq_refl n)), contains-All ns m (rw f at e))
]

pub Unique-append :
    (ns : List Bytes) (m : Bytes) → Unique ns → All (λ x. x ≢ m) ns → Unique (ns ++ m ∷ [])
Unique-append [] m u a = (tt, tt)
Unique-append (n ∷ ns) m u a =
    (All-append (λ x. x ≢ n) ns (m ∷ []) u.0 ((λ e. a.0 (sym e)), tt), Unique-append ns m u.1 a.1)

pub Unique-after : (ns ms : List Bytes) → Unique (ns ++ ms) → Unique ms
Unique-after [] ms u = u
Unique-after (n ∷ ns) ms u = Unique-after ns ms u.1
