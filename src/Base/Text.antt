-- ===== src/Base/Text.antt =====
-- Byte strings, and what the program uses of Go's packages strings, bytes and strconv. Letters and
-- white space are those of ASCII: a byte from 128 on is neither, so it is kept as it stands.
use Prim.Native.Nat.{ℕ, ◌+◌, ◌-◌}
use Prim.Native.Char.{code}
use Prim.Native.String.{String}
use mathlib.Core.Path.{◌≡◌, refl, sym, ap, ◌∙◌}
use mathlib.Core.Logic.{◌↔◌}
use mathlib.Core.Bool.{Bool, true, false, ◌&&◌, ◌||◌}
use mathlib.Core.List.{List, [], ◌∷◌, ◌++◌, map, reverse}
use mathlib.Core.Option.{Option, none, some}
use native.Mathlib.Omega.{arith}
use mailschleuse.Base.Tests.{leb, ◌==◌, if◌then◌else◌}
use mailschleuse.Base.Lists.{length, drop, is_nil}

abbrev pub Bytes : Type 0
Bytes = List ℕ

-- The bytes of an ASCII literal.
abbrev pub codes : String → Bytes
codes String.[] = []
codes (String.◌∷◌ c s) = code c ∷ codes s

abbrev pub crlf : Bytes
crlf = b'\r' ∷ b'\n' ∷ []

-- `a == b` on strings.
unfoldable pub str_eq : Bytes → Bytes → Bool
str_eq [] [] = true
str_eq [] (d ∷ t) = false
str_eq (c ∷ s) [] = false
str_eq (c ∷ s) (d ∷ t) = c == d && str_eq s t

pub str_eq_refl : (s : Bytes) → str_eq s s ≡ true
unfolding str_eq
str_eq_refl [] = refl
str_eq_refl (c ∷ s) = ground (arith, str_eq_refl s)

pub eq_of_str_eq : (s t : Bytes) → str_eq s t ≡ true → s ≡ t
unfolding str_eq
eq_of_str_eq [] [] h = refl
eq_of_str_eq [] (d ∷ t) h = cc
eq_of_str_eq (c ∷ s) [] h = cc
eq_of_str_eq (c ∷ s) (d ∷ t) h = ground (arith, eq_of_str_eq s t)

pub str_eq_iff : (s t : Bytes) → (str_eq s t ≡ true) ↔ (s ≡ t)
str_eq_iff s t = (eq_of_str_eq s t, λ e. ap (str_eq s) (sym e) ∙ str_eq_refl s)

-- `strings.HasPrefix`.
unfoldable pub has_prefix : Bytes → Bytes → Bool
has_prefix s [] = true
has_prefix [] (p ∷ ps) = false
has_prefix (c ∷ s) (p ∷ ps) = c == p && has_prefix s ps

-- `strings.HasSuffix`.
unfoldable pub has_suffix : Bytes → Bytes → Bool
unfolding has_prefix
has_suffix s p = has_prefix (reverse s) (reverse p)

-- `strings.TrimSuffix` by a one byte suffix.
unfoldable pub trim_suffix_byte : ℕ → Bytes → Bytes
trim_suffix_byte b [] = []
trim_suffix_byte b (c ∷ []) = if c == b then [] else c ∷ []
trim_suffix_byte b (c ∷ d ∷ s) = c ∷ trim_suffix_byte b (d ∷ s)

unfoldable pub is_space : ℕ → Bool
is_space c = c == b' ' || leb 9 c && leb c 13

unfoldable pub trim_left : Bytes → Bytes
unfolding is_space
trim_left [] = []
trim_left (c ∷ s) = let rest = trim_left s in if is_space c then rest else c ∷ s

-- `strings.TrimSpace`.
unfoldable pub trim_space : Bytes → Bytes
unfolding trim_left
trim_space s = reverse (trim_left (reverse (trim_left s)))

unfoldable pub lower : ℕ → ℕ
lower c = if leb b'A' c && leb c b'Z' then c + 32 else c

unfoldable pub upper : ℕ → ℕ
upper c = if leb b'a' c && leb c b'z' then c - 32 else c

-- `strings.ToLower` and `strings.ToUpper`.
unfoldable pub to_lower : Bytes → Bytes
unfolding lower
to_lower = map lower

unfoldable pub to_upper : Bytes → Bytes
unfolding upper
to_upper = map upper

abbrev pub push_head : ℕ → List Bytes → List Bytes
push_head c [] = (c ∷ []) ∷ []
push_head c (p ∷ ps) = (c ∷ p) ∷ ps

-- `strings.Split` and `bytes.Split` at a one byte separator.
unfoldable pub split : Bytes → ℕ → List Bytes
split [] sep = [] ∷ []
split (c ∷ s) sep = let rest = split s sep in if c == sep then [] ∷ rest else push_head c rest

abbrev pub Cut : Type 0
Cut = Bytes × Bytes × Bool

abbrev cons_before : ℕ → Cut → Cut
cons_before c (before, after, found) = (c ∷ before, after, found)

-- `strings.Cut` at a one byte separator.
unfoldable pub cut : Bytes → ℕ → Cut
cut [] sep = ([], [], false)
cut (c ∷ s) sep = let rest = cut s sep in if c == sep then ([], s, true) else cons_before c rest

abbrev pub prepend : ℕ → Option (Bytes × Bytes) → Option (Bytes × Bytes)
prepend c none = none
prepend c (some (before, after)) = some (c ∷ before, after)

-- `strings.Index`, with the text before the first occurrence and the text after it.
unfoldable pub cut_at : Bytes → Bytes → Option (Bytes × Bytes)
unfolding has_prefix
cut_at [] sub = if is_nil sub then some ([], []) else none
cut_at (c ∷ s) sub =
    let rest = cut_at s sub in
    if has_prefix (c ∷ s) sub then some ([], drop (length sub) (c ∷ s)) else prepend c rest

-- `strings.Fields`: the last argument is the field that is being read.
unfoldable pub fields_from : Bytes → Bytes → List Bytes
unfolding is_space
fields_from [] cur = if is_nil cur then [] else cur ∷ []
fields_from (c ∷ s) cur =
    let next = fields_from s [] in
    let more = fields_from s (cur ++ c ∷ []) in
    if is_space c then (if is_nil cur then next else cur ∷ next) else more

unfoldable pub fields : Bytes → List Bytes
unfolding fields_from
fields s = fields_from s []

-- `strings.Join`.
unfoldable pub join : List Bytes → Bytes → Bytes
join [] sep = []
join (p ∷ []) sep = p
join (p ∷ q ∷ ps) sep = p ++ (sep ++ join (q ∷ ps) sep)

-- Membership of a string in a list, as a Go map from strings to true answers it.
unfoldable pub contains : List Bytes → Bytes → Bool
unfolding str_eq
contains [] a = false
contains (x ∷ xs) a = str_eq x a || contains xs a
