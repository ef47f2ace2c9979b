-- ===== src/Mailparse/Charset/Valid.antt =====
-- internal/mailparse/mailparse.go: what toUTF8 gives is UTF-8.
use mailschleuse.Base.{
  codes, cut_at, ap₂, ℕ, zero, suc, ◌+◌, ◌-◌, ◌/◌, ◌%◌, ◌<◌, ◌≤◌, ◌≡◌, refl, ap, ◌∙◌, ◌⊎◌, inl, inr,
  Bool, true, false, ◌&&◌, List, [], ◌∷◌, ◌++◌, All, arith, ltb, leb, ◌==◌, Bytes, Bool-cases,
  if◌then◌else◌, if_intro, to_lower, trim_space, contains,
}
use mailschleuse.Mailparse.Charset.{
  byte_at, is_tail, two_bytes, three_bytes, four_bytes, rune_len, valid_from, utf8_valid,
  valid_text, cp1252_high, write_rune, latin_rune, decode_latin, to_utf8, unicode_names,
  latin_names, is_some,
}

-- The bytes that are copied are those of the text.
byte_at-valid_text :
    (skip : ℕ) (in_run : Bool) (s : Bytes) (i : ℕ)
    → i < skip
    → byte_at (valid_text skip in_run s) i ≡ byte_at s i
unfolding valid_text
byte_at-valid_text skip in_run [] i l = refl
byte_at-valid_text zero in_run (c ∷ s) i l = absurd (omega (arith, l))
byte_at-valid_text (suc skip) in_run (c ∷ s) zero l = refl
byte_at-valid_text (suc skip) in_run (c ∷ s) (suc i) l =
    byte_at-valid_text skip false s i (omega (arith, l))

-- Where the texts agree on the further bytes of the character, it has the same length.
abbrev Agree : Bytes → Bytes → ℕ → ℕ → Type 0
Agree s t n m = ((i : ℕ) → i + 1 < n → byte_at t i ≡ byte_at s i) → (n == 0) ≡ false → m ≡ n

if_intro₂ :
    (P : ℕ → ℕ → Type 0) (b : Bool) {x y x' y' : ℕ}
    → P x x'
    → P y y'
    → P (if b then x else y) (if b then x' else y')
if_intro₂ P true px py = px
if_intro₂ P false px py = py

two-Agree : (s t : Bytes) → Agree s t (two_bytes (byte_at s 0)) (two_bytes (byte_at t 0))
unfolding two_bytes is_tail
two-Agree s t h e = ground (arith, h 0, e)

-- The bytes are compared only where the test of the character holds.
tested-Agree :
    (s t : Bytes) (n : ℕ) (p q : Bool)
    → (((i : ℕ) → i + 1 < n → byte_at t i ≡ byte_at s i) → q ≡ p)
    → Agree s t (if p then n else 0) (if q then n else 0)
tested-Agree s t n true q same h e = ap (λ b. if b then n else 0) (same h)
tested-Agree s t n false q same h e = cc

three-Agree :
    (a : ℕ) (s t : Bytes)
    → Agree s t
        (three_bytes a (byte_at s 0) (byte_at s 1))
        (three_bytes a (byte_at t 0) (byte_at t 1))
unfolding three_bytes
three-Agree a s t = tested-Agree s t 3 _ _ λ h.
    ap₂
      (λ b c.
        leb (if a == 224 then 160 else 128) b
        && (ltb b (if a == 237 then 160 else 192) && is_tail c))
      (h 0 (omega arith)) (h 1 (omega arith))

four-Agree :
    (a : ℕ) (s t : Bytes)
    → Agree s t
        (four_bytes a (byte_at s 0) (byte_at s 1) (byte_at s 2))
        (four_bytes a (byte_at t 0) (byte_at t 1) (byte_at t 2))
unfolding four_bytes
four-Agree a s t = tested-Agree s t 4 _ _ λ h.
    ap₂
      (λ b tails.
        leb (if a == 240 then 144 else 128) b && (ltb b (if a == 244 then 144 else 192) && tails))
      (h 0 (omega arith))
      (ap₂ (λ c d. is_tail c && is_tail d) (h 1 (omega arith)) (h 2 (omega arith)))

rune_len-Agree : (c : ℕ) (s t : Bytes) → Agree s t (rune_len (c ∷ s)) (rune_len (c ∷ t))
unfolding rune_len
rune_len-Agree c s t =
    let P : ℕ → ℕ → Type 0 = Agree s t in
    if_intro₂ P (ltb c 128) (λ h e. refl)
      (if_intro₂ P (ltb c 194) (λ h e. refl)
        (if_intro₂ P (ltb c 224) (two-Agree s t) (
          if_intro₂ P (ltb c 240) (three-Agree c s t)
            (if_intro₂ P (ltb c 245) (four-Agree c s t) (λ h e. refl)))))

valid_from-valid_text :
    (skip : ℕ) (in_run : Bool) (s : Bytes) → valid_from skip (valid_text skip in_run s) ≡ true
unfolding valid_from valid_text
valid_from-valid_text skip in_run [] = refl
valid_from-valid_text (suc skip) in_run (c ∷ s) = valid_from-valid_text skip false s
valid_from-valid_text zero in_run (c ∷ s) = elim (Bool-cases (rune_len (c ∷ s) == 0)) [
  | inl t ↦ rw t (
      if_intro (λ x. valid_from 0 x ≡ true) in_run (valid_from-valid_text 0 true s)
        (valid_from-valid_text 0 true s))
  | inr f ↦
      let n = rune_len (c ∷ s) in
      let same : rune_len (c ∷ valid_text (n - 1) false s) ≡ n =
        rune_len-Agree c s (valid_text (n - 1) false s)
          (λ i l. byte_at-valid_text (n - 1) false s i (omega (arith, l))) f in
      rw (f, same, f) (valid_from-valid_text (n - 1) false s)
]

-- The characters that are written: below the surrogates, or the replacement character.
abbrev IsRune : ℕ → Type 0
IsRune r = (r < 55296) ⊎ (r ≡ 65533)

valid_one : (a : ℕ) (t : Bytes) → a < 128 → valid_from 0 (a ∷ t) ≡ valid_from 0 t
unfolding valid_from rune_len
valid_one a t h = ground (arith, h)

valid_two :
    (a b : ℕ) (t : Bytes)
    → 194 ≤ a
    → a < 224
    → 128 ≤ b
    → b < 192
    → valid_from 0 (a ∷ b ∷ t) ≡ valid_from 0 t
unfolding valid_from rune_len two_bytes is_tail
valid_two a b t ha ka hb kb = ground (arith, ha, ka, hb, kb)

three_bytes-valid :
    (a b c : ℕ)
    → (a ≡ 224 → 160 ≤ b)
    → (a ≡ 237 → b < 160)
    → 128 ≤ b
    → b < 192
    → 128 ≤ c
    → c < 192
    → three_bytes a b c ≡ 3
unfolding three_bytes is_tail
three_bytes-valid a b c low high hb kb hc kc = ground (arith, low, high, hb, kb, hc, kc)

valid_three :
    (a b c : ℕ) (t : Bytes)
    → 224 ≤ a
    → a < 240
    → three_bytes a b c ≡ 3
    → valid_from 0 (a ∷ b ∷ c ∷ t) ≡ valid_from 0 t
unfolding valid_from rune_len
valid_three a b c t ha ka e = ground (arith, ha, ka, e)

write_rune-valid :
    (r : ℕ) (t : Bytes) → IsRune r → valid_from 0 (write_rune r ++ t) ≡ valid_from 0 t
unfolding write_rune
write_rune-valid r t h = elim (Bool-cases (ltb r 128)) [
  | inl one ↦ rw one (valid_one r t (ground (arith, one)))
  | inr more ↦ elim (Bool-cases (ltb r 2048)) [
    | inl two ↦
        let low : 128 ≤ r = ground (arith, more) in
        let high : r < 2048 = ground (arith, two) in
        rw (more, two)
          (valid_two (192 + r / 64) (128 + r % 64) t (omega (arith, low)) (omega (arith, high))
            (omega arith) (omega arith))
    | inr three ↦
        let low : 2048 ≤ r = ground (arith, three) in
        let high : r < 65536 = elim h [ inl l ↦ omega (arith, l) | inr e ↦ omega (arith, e) ] in
        rw (more, three)
          (valid_three (224 + r / 4096) (128 + r / 64 % 64) (128 + r % 64) t (omega arith)
            (omega (arith, high))
            (three_bytes-valid _ _ _ (λ e. omega (arith, low, e))
              (λ e. elim h [ inl l ↦ omega (arith, l, e) | inr is ↦ absurd (omega (arith, is, e)) ])
              (omega arith) (omega arith) (omega arith) (omega arith)))
  ]
]

All-byte_at : (rs : List ℕ) (i : ℕ) → All IsRune rs → IsRune (byte_at rs i)
All-byte_at [] i h = inl (omega arith)
All-byte_at (r ∷ rs) zero h = h.0
All-byte_at (r ∷ rs) (suc i) h = All-byte_at rs i h.1

cp1252_high-IsRune : All IsRune cp1252_high
cp1252_high-IsRune = ground arith

latin_rune-IsRune : (windows : Bool) (c : ℕ) → c < 256 → IsRune (latin_rune windows c)
unfolding latin_rune
latin_rune-IsRune windows c l =
    if_intro IsRune (windows && (leb 128 c && leb c 159))
      (All-byte_at cp1252_high (c - 128) cp1252_high-IsRune) (inl (omega (arith, l)))

valid_nil : valid_from 0 [] ≡ true
unfolding valid_from
valid_nil = refl

decode_latin-valid :
    (windows : Bool) (s : Bytes)
    → All (λ c. c < 256) s
    → valid_from 0 (decode_latin windows s) ≡ true
unfolding decode_latin
decode_latin-valid windows [] h = valid_nil
decode_latin-valid windows (c ∷ s) h =
    write_rune-valid (latin_rune windows c) (decode_latin windows s)
      (latin_rune-IsRune windows c h.0)
    ∙ decode_latin-valid windows s h.1

kept_valid : (s t : Bytes) → utf8_valid t ≡ true → utf8_valid (if utf8_valid s then s else t) ≡ true
kept_valid s t h = elim (Bool-cases (utf8_valid s)) [ inl e ↦ rw e e | inr f ↦ rw f h ]

-- Whatever bytes a part has, and whatever charset it names, the text that is shown is valid UTF-8.
pub to_utf8-valid :
    (body charset : Bytes) → All (λ c. c < 256) body → utf8_valid (to_utf8 body charset) ≡ true
unfolding to_utf8 utf8_valid
to_utf8-valid body charset h =
    let P : Bytes → Type 0 = λ t. utf8_valid t ≡ true in
    if_intro P (contains unicode_names (to_lower (trim_space charset)))
      (kept_valid body (valid_text 0 false body) (valid_from-valid_text 0 false body))
      (if_intro P (contains latin_names (to_lower (trim_space charset)))
        (decode_latin-valid (is_some (cut_at (to_lower charset) (codes "1252"))) body h)
        (kept_valid body (decode_latin false body) (decode_latin-valid false body h)))
