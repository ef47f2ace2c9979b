-- ===== src/Web/Compose/Base64.antt =====
-- internal/web/compose.go: base64, its digits and its padding.
use mailschleuse.Base.{
  if◌then◌else◌, ℕ, suc, ◌+◌, ◌*◌, ◌/◌, ◌%◌, ◌<◌, ◌≤◌, ◌≡◌, refl, ap, ap₂, ◌∙◌, Bool, false, [],
  ◌∷◌, ◌++◌, some, All, arith, length, is_nil, ◌==◌, Bytes, codes, decode_groups, group, one_byte,
  two_bytes, three_bytes, sextet,
}
use mailschleuse.Web.Compose.Lines.{sextet_digit, encode_base64}
use mailschleuse.Mailparse.Decoding.{padding}

-- A character of base64: neither white space nor "=".
abbrev pub IsDigit : ℕ → Type 0
IsDigit c = (33 ≤ c) × ((c == b'=') ≡ false)

sextet_digit-IsDigit : (n : ℕ) → n < 64 → IsDigit (sextet_digit n)
unfolding sextet_digit
sextet_digit-IsDigit n h = (ground (arith, h), ground (arith, h))

sextet-sextet_digit : (n : ℕ) → n < 64 → sextet (sextet_digit n) ≡ some n
unfolding sextet sextet_digit
sextet-sextet_digit n h = ground (arith, h)

-- The digits of a text, without the padding, and the padding.
unfoldable pub digits : Bytes → Bytes
unfolding sextet_digit
digits [] = []
digits (a ∷ []) = sextet_digit (a / 4) ∷ sextet_digit (a % 4 * 16) ∷ []
digits (a ∷ b ∷ []) =
    sextet_digit (a / 4) ∷ sextet_digit (a % 4 * 16 + b / 16) ∷ sextet_digit (b % 16 * 4) ∷ []
digits (a ∷ b ∷ c ∷ rest) =
    sextet_digit (a / 4)
    ∷ sextet_digit (a % 4 * 16 + b / 16)
    ∷ sextet_digit (b % 16 * 4 + c / 64)
    ∷ sextet_digit (c % 64)
    ∷ digits rest

unfoldable pub pads : Bytes → Bytes
pads [] = []
pads (a ∷ []) = codes "=="
pads (a ∷ b ∷ []) = codes "="
pads (a ∷ b ∷ c ∷ rest) = pads rest

pub encode-digits : (s : Bytes) → encode_base64 s ≡ digits s ++ pads s
unfolding encode_base64 digits pads
encode-digits [] = refl
encode-digits (a ∷ []) = refl
encode-digits (a ∷ b ∷ []) = refl
encode-digits (a ∷ b ∷ c ∷ rest) =
    ap
      (λ t.
        sextet_digit (a / 4)
        ∷ sextet_digit (a % 4 * 16 + b / 16)
        ∷ sextet_digit (b % 16 * 4 + c / 64)
        ∷ sextet_digit (c % 64)
        ∷ t)
      (encode-digits rest)

abbrev pub AreBytes : Bytes → Type 0
AreBytes s = All (λ c. c < 256) s

pub digits-IsDigit : (s : Bytes) → AreBytes s → All IsDigit (digits s)
unfolding digits
digits-IsDigit [] h = tt
digits-IsDigit (a ∷ []) h = (
  sextet_digit-IsDigit (a / 4) (omega (arith, h.0)),
  (sextet_digit-IsDigit (a % 4 * 16) (omega (arith, h.0)), tt),
)
digits-IsDigit (a ∷ b ∷ []) h = (
  sextet_digit-IsDigit (a / 4) (omega (arith, h.0)),
  (
    sextet_digit-IsDigit (a % 4 * 16 + b / 16) (omega (arith, h.0, h.1.0)),
    (sextet_digit-IsDigit (b % 16 * 4) (omega (arith, h.1.0)), tt),
  ),
)
digits-IsDigit (a ∷ b ∷ c ∷ rest) h = (
  sextet_digit-IsDigit (a / 4) (omega (arith, h.0)),
  (
    sextet_digit-IsDigit (a % 4 * 16 + b / 16) (omega (arith, h.0, h.1.0)),
    (
      sextet_digit-IsDigit (b % 16 * 4 + c / 64) (omega (arith, h.1.0, h.1.1.0)),
      (sextet_digit-IsDigit (c % 64) (omega arith), digits-IsDigit rest h.1.1.1),
    ),
  ),
)

pub padding-digits : (s : Bytes) → padding (digits s) ≡ pads s
unfolding digits pads
padding-digits [] = refl
padding-digits (a ∷ []) = refl
padding-digits (a ∷ b ∷ []) = refl
padding-digits (a ∷ b ∷ c ∷ rest) = turn (length (digits rest)) ∙ padding-digits rest
  where
    turn :
        (n : ℕ)
        → (if suc (suc (suc (suc n))) % 4 == 2
            then codes "=="
            else if suc (suc (suc (suc n))) % 4 == 3
            then codes "="
            else [])
          ≡ (if n % 4 == 2 then codes "==" else if n % 4 == 3 then codes "=" else [])
    turn n =
        ap (λ m. if m == 2 then codes "==" else if m == 3 then codes "=" else [])
          {x = suc (suc (suc (suc n))) % 4} {y = n % 4} (omega arith)

group-full :
    (a b c : ℕ) (last : Bool)
    → a < 256
    → b < 256
    → c < 256
    → group
        (sextet_digit (a / 4))
        (sextet_digit (a % 4 * 16 + b / 16))
        (sextet_digit (b % 16 * 4 + c / 64))
        (sextet_digit (c % 64))
        last
      ≡ some (a ∷ b ∷ c ∷ [])
unfolding group three_bytes
group-full a b c last ha hb hc =
    rw
      (
        (sextet_digit-IsDigit (c % 64) (omega arith)).1,
        sextet-sextet_digit (a / 4) (omega (arith, ha)),
        sextet-sextet_digit (a % 4 * 16 + b / 16) (omega (arith, ha, hb)),
        sextet-sextet_digit (b % 16 * 4 + c / 64) (omega (arith, hb, hc)),
        sextet-sextet_digit (c % 64) (omega arith),
      )
      (ap some (three (omega (arith, ha, hb)) (omega (arith, ha, hb, hc)) (omega (arith, hb, hc))))
  where
    three : {x y z : ℕ} → x ≡ a → y ≡ b → z ≡ c → (x ∷ y ∷ z ∷ []) ≡ a ∷ b ∷ c ∷ []
    three e f g = cc

one_last :
    (a : ℕ)
    → a < 256
    → decode_groups (sextet_digit (a / 4) ∷ sextet_digit (a % 4 * 16) ∷ b'=' ∷ b'=' ∷ [])
      ≡ some (a ∷ [])
unfolding decode_groups group one_byte
one_last a ha =
    rw
      (
        sextet-sextet_digit (a / 4) (omega (arith, ha)),
        sextet-sextet_digit (a % 4 * 16) (omega arith),
      )
      (ap (λ x. some (x ∷ [])) (omega (arith, ha)))

two_last :
    (a b : ℕ)
    → a < 256
    → b < 256
    → decode_groups (
        sextet_digit (a / 4)
        ∷ sextet_digit (a % 4 * 16 + b / 16)
        ∷ sextet_digit (b % 16 * 4)
        ∷ b'='
        ∷ [])
      ≡ some (a ∷ b ∷ [])
unfolding decode_groups group two_bytes
two_last a b ha hb =
    rw
      (
        (sextet_digit-IsDigit (b % 16 * 4) (omega arith)).1,
        sextet-sextet_digit (a / 4) (omega (arith, ha)),
        sextet-sextet_digit (a % 4 * 16 + b / 16) (omega (arith, ha, hb)),
        sextet-sextet_digit (b % 16 * 4) (omega arith),
      )
      (ap₂ (λ x y. some (x ∷ y ∷ [])) (omega (arith, ha, hb)) (omega (arith, hb)))

pub decode-encode : (s : Bytes) → AreBytes s → decode_groups (digits s ++ pads s) ≡ some s
unfolding digits pads decode_groups
decode-encode [] h = refl
decode-encode (a ∷ []) h = one_last a h.0
decode-encode (a ∷ b ∷ []) h = two_last a b h.0 h.1.0
decode-encode (a ∷ b ∷ c ∷ rest) h =
    rw
      (
        group-full a b c (is_nil (digits rest ++ pads rest)) h.0 h.1.0 h.1.1.0,
        decode-encode rest h.1.1.1,
      )
      refl
