-- ===== src/Base/Results.antt =====
-- Results with an error, and what holds of each result that is not one.
use mathlib.Core.Path.{◌≡◌, refl}
use mathlib.Core.Bool.{Bool, true, false}

pub data Result (E A : Type 0) : Type 0 where
  ok : A → Result E A
  err : E → Result E A

infixl 5 ◌>>=◌ ◌>>◌
abbrev pub ◌>>=◌ : {E A B : Type 0} → Result E A → (A → Result E B) → Result E B
ok a >>= f = f a
err e >>= f = err e

abbrev pub ◌>>◌ : {E B : Type 0} → Result E (Unit {0}) → Result E B → Result E B
m >> k = m >>= λ _. k

-- A guard: the error, if the condition holds.
abbrev pub refuse : {E : Type 0} → Bool → E → Result E (Unit {0})
refuse true e = err e
refuse false e = ok tt

-- The property holds of a result, if there is one.
abbrev pub Ensures : {E A : Type 0} → (A → Type 0) → Result E A → Type 0
Ensures P (ok x) = P x
Ensures P (err e) = Unit

pub bind-Ensures :
    {E A B : Type 0} (P : A → Type 0) (Q : B → Type 0) (m : Result E A) (k : A → Result E B)
    → Ensures P m
    → ((x : A) → P x → Ensures Q (k x))
    → Ensures Q (m >>= k)
bind-Ensures P Q (ok x) k h next = next x h
bind-Ensures P Q (err e) k h next = tt

pub any-Ensures :
    {E A B : Type 0} (Q : B → Type 0) (m : Result E A) (k : A → Result E B)
    → ((x : A) → Ensures Q (k x))
    → Ensures Q (m >>= k)
any-Ensures Q (ok x) k next = next x
any-Ensures Q (err e) k next = tt

pub refuse-Ensures :
    {E B : Type 0} (Q : B → Type 0) (b : Bool) (e : E) (k : Result E B)
    → (b ≡ false → Ensures Q k)
    → Ensures Q (refuse b e >> k)
refuse-Ensures Q true e k next = tt
refuse-Ensures Q false e k next = next refl
