-- ===== src/Base/Numbers.antt =====
-- Decimal numbers as Go's packages strconv and fmt read and write them, and base64.
use Prim.Native.Nat.{ℕ, zero, suc, ◌+◌, ◌-◌, ◌*◌, ◌/◌, ◌%◌, ◌^◌}
use mathlib.Core.Path.{◌≡◌, refl}
use mathlib.Core.Bool.{Bool, not, ◌&&◌, ◌||◌}
use mathlib.Core.List.{[], ◌∷◌, ◌++◌}
use mathlib.Core.Option.{Option, none, some}
use mailschleuse.Base.Tests.{ltb, leb, ◌==◌, if◌then◌else◌}
use mailschleuse.Base.Lists.{is_nil, length}
use mailschleuse.Base.Text.{Bytes, codes}

-- `negsuc n` is -(n + 1).
pub data ℤ : Type 0 where
  pos : ℕ → ℤ
  negsuc : ℕ → ℤ

unfoldable pub negate : ℕ → ℤ
negate zero = pos 0
negate (suc n) = negsuc n

unfoldable pub is_digit : ℕ → Bool
is_digit c = leb b'0' c && leb c b'9'

-- The number that digits spell behind n; none where a byte is no digit.
unfoldable pub digits_value : Bytes → ℕ → Option ℕ
unfolding is_digit
digits_value [] n = some n
digits_value (c ∷ s) n =
    let rest = digits_value s (n * 10 + (c - b'0')) in if is_digit c then rest else none

unfoldable pub unsigned : Bytes → Option ℕ
unfolding digits_value
unsigned [] = none
unsigned (c ∷ s) = digits_value (c ∷ s) 0

abbrev positive : Option ℕ → Option ℤ
positive none = none
positive (some n) = if ltb n (2 ^ 63) then some (pos n) else none

abbrev negative : Option ℕ → Option ℤ
negative none = none
negative (some n) = if leb n (2 ^ 63) then some (negate n) else none

-- `strconv.ParseInt` in base 10 at 64 bits, and so `strconv.Atoi`.
unfoldable pub parse_int : Bytes → Option ℤ
unfolding unsigned negate
parse_int [] = none
parse_int (c ∷ s) =
    if c == b'-'
    then negative (unsigned s)
    else if c == b'+'
    then positive (unsigned s)
    else positive (unsigned (c ∷ s))

unfoldable pub leading_digits : Bytes → Bytes
unfolding is_digit
leading_digits [] = []
leading_digits (c ∷ s) = let rest = leading_digits s in if is_digit c then c ∷ rest else []

-- `fmt.Sscanf` of "%d" on a text with no white space.
unfoldable pub scan_int : Bytes → Option ℤ
unfolding parse_int leading_digits
scan_int [] = none
scan_int (c ∷ s) =
    if c == b'-' || c == b'+'
    then parse_int (c ∷ leading_digits s)
    else parse_int (leading_digits (c ∷ s))

abbrev clamped : Bytes → Option ℕ → ℕ
clamped s none = 0
clamped s (some n) =
    if leb (2 ^ 64) n
    then 2 ^ 63 - 1
    else if not (length (leading_digits s) == length s)
    then 0
    else if leb (2 ^ 63) n
    then 2 ^ 63 - 1
    else n

-- What `strconv.Atoi` gives beside its error, where a negative number is as good as zero: a number
-- that is too large becomes the largest one.
unfoldable pub number_or_zero : Bytes → ℕ
unfolding unsigned leading_digits
number_or_zero [] = 0
number_or_zero (c ∷ s) =
    if c == b'-'
    then 0
    else if c == b'+'
    then clamped s (unsigned (leading_digits s))
    else clamped (c ∷ s) (unsigned (leading_digits (c ∷ s)))

unfoldable pub sextet : ℕ → Option ℕ
sextet c =
    if leb b'A' c && leb c b'Z'
    then some (c - 65)
    else if leb b'a' c && leb c b'z'
    then some (c - 71)
    else if leb b'0' c && leb c b'9'
    then some (c + 4)
    else if c == b'+'
    then some 62
    else if c == b'/'
    then some 63
    else none

unfoldable pub without_newlines : Bytes → Bytes
without_newlines [] = []
without_newlines (c ∷ s) =
    let rest = without_newlines s in if c == b'\r' || c == b'\n' then rest else c ∷ rest

infixl 5 ◌>>=◌
abbrev ◌>>=◌ : {A B : Type 0} → Option A → (A → Option B) → Option B
none >>= f = none
some a >>= f = f a

unfoldable pub one_byte : ℕ → ℕ → Option Bytes
unfolding sextet
one_byte a b = do u ← sextet a; v ← sextet b; some ((u * 4 + v / 16) ∷ [])

unfoldable pub two_bytes : ℕ → ℕ → ℕ → Option Bytes
unfolding sextet
two_bytes a b c = do
  u ← sextet a
  v ← sextet b
  w ← sextet c
  some ((u * 4 + v / 16) ∷ (v % 16 * 16 + w / 4) ∷ [])

unfoldable pub three_bytes : ℕ → ℕ → ℕ → ℕ → Option Bytes
unfolding sextet
three_bytes a b c d = do
  u ← sextet a
  v ← sextet b
  w ← sextet c
  x ← sextet d
  some ((u * 4 + v / 16) ∷ (v % 16 * 16 + w / 4) ∷ (w % 4 * 64 + x) ∷ [])

-- One group of four; the last one may be padded.
unfoldable pub group : ℕ → ℕ → ℕ → ℕ → Bool → Option Bytes
unfolding one_byte two_bytes three_bytes
group a b c d last =
    if d == b'=' && last
    then (if c == b'=' then one_byte a b else two_bytes a b c)
    else three_bytes a b c d

unfoldable pub decode_groups : Bytes → Option Bytes
unfolding group
decode_groups [] = some []
decode_groups (a ∷ b ∷ c ∷ d ∷ rest) = do
  head ← group a b c d (is_nil rest)
  tail ← decode_groups rest
  some (head ++ tail)
decode_groups _ = none

-- `base64.StdEncoding.DecodeString`.
unfoldable pub decode_base64 : Bytes → Option Bytes
unfolding decode_groups without_newlines
decode_base64 s = decode_groups (without_newlines s)

decodes : decode_base64 (codes "VXNlcm5hbWU6") ≡ some (codes "Username:")
unfolding decode_base64
decodes = refl

decodes_padded : decode_base64 (codes "YQ==") ≡ some (codes "a")
unfolding decode_base64
decodes_padded = refl

parses : parse_int (codes "-12") ≡ some (negsuc 11)
unfolding parse_int
parses = refl
