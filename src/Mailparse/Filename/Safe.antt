-- ===== src/Mailparse/Filename/Safe.antt =====
-- internal/mailparse/mailparse.go: what a sanitized name of a file can hold.
use mailschleuse.Base.{
  Bool, drop, ◌&&◌, leb, if_intro, true, ◌-◌, ◌∷◌, ◌==◌, if◌then◌else◌, All-trim_space, All-take, ℕ,
  zero, suc, ◌≤◌, ◌≡◌, refl, false, ◌||◌, [], All, arith, is_nil, length, take, ltb, Bytes,
  trim_space, trim_of, inl, inr, Bool-cases,
}
use mailschleuse.Mailparse.Charset.{rune_len, byte_at, is_tail, two_bytes, three_bytes, four_bytes}
use mailschleuse.Mailparse.Filename.{is_control, is_separator, map_name, sanitize_filename}

-- No separator of a path, no control character and no colon.
abbrev pub IsNameByte : ℕ → Type 0
IsNameByte c = (is_control c ≡ false) × (is_separator c ≡ false)

-- The next bytes continue a character.
abbrev AreTails : ℕ → Bytes → Type 0
AreTails zero s = Unit
AreTails (suc n) [] = Unit
AreTails (suc n) (c ∷ s) = (is_tail c ≡ true) × AreTails n s

one-AreTails : (s : Bytes) → is_tail (byte_at s 0) ≡ true → AreTails 1 s
one-AreTails [] h = tt
one-AreTails (b ∷ s) h = (h, tt)

next-AreTails :
    (n : ℕ) (s : Bytes) → is_tail (byte_at s 0) ≡ true → AreTails n (drop 1 s) → AreTails (suc n) s
next-AreTails n [] h k = tt
next-AreTails n (b ∷ s) h k = (h, k)

byte_at-drop : (s : Bytes) (i : ℕ) → byte_at (drop 1 s) i ≡ byte_at s (suc i)
byte_at-drop [] i = refl
byte_at-drop (c ∷ s) i = refl

-- A test of a conditional may be used in its first branch.
if_true : (P : ℕ → Type 0) (b : Bool) {x y : ℕ} → (b ≡ true → P x) → P y → P (if b then x else y)
if_true P true px py = px refl
if_true P false px py = py

two_bytes-AreTails : (s : Bytes) → AreTails (two_bytes (byte_at s 0) - 1) s
unfolding two_bytes
two_bytes-AreTails s = if_true (λ n. AreTails (n - 1) s) (is_tail (byte_at s 0)) (one-AreTails s) tt

three_tails :
    (a b c : ℕ)
    → (leb (if a == 224 then 160 else 128) b
        && (ltb b (if a == 237 then 160 else 192) && is_tail c))
      ≡ true
    → (is_tail b ≡ true) × (is_tail c ≡ true)
unfolding is_tail
three_tails a b c h = (ground (arith, h), ground (arith, h))

four_tails :
    (a b c d : ℕ)
    → (leb (if a == 240 then 144 else 128) b
        && (ltb b (if a == 244 then 144 else 192) && (is_tail c && is_tail d)))
      ≡ true
    → (is_tail b ≡ true) × ((is_tail c ≡ true) × (is_tail d ≡ true))
unfolding is_tail
four_tails a b c d h = (ground (arith, h), (ground (arith, h), ground (arith, h)))

three_bytes-AreTails :
    (a : ℕ) (s : Bytes) → AreTails (three_bytes a (byte_at s 0) (byte_at s 1) - 1) s
unfolding three_bytes
three_bytes-AreTails a s =
    if_true (λ n. AreTails (n - 1) s) _
      (λ h.
        let (b, c) = three_tails a (byte_at s 0) (byte_at s 1) h in
        next-AreTails 1 s b (one-AreTails (drop 1 s) (rw (byte_at-drop s 0) c)))
      tt

four_bytes-AreTails :
    (a : ℕ) (s : Bytes) → AreTails (four_bytes a (byte_at s 0) (byte_at s 1) (byte_at s 2) - 1) s
unfolding four_bytes
four_bytes-AreTails a s =
    if_true (λ n. AreTails (n - 1) s) _
      (λ h.
        let (b, (c, d)) = four_tails a (byte_at s 0) (byte_at s 1) (byte_at s 2) h in
        next-AreTails 2 s b (
          next-AreTails 1 (drop 1 s) (rw (byte_at-drop s 0) c) (
            one-AreTails (drop 1 (drop 1 s)) (rw (byte_at-drop (drop 1 s) 0, byte_at-drop s 1) d))))
      tt

-- The bytes behind the first of a character continue it.
rune_len-AreTails : (a : ℕ) (s : Bytes) → AreTails (rune_len (a ∷ s) - 1) s
unfolding rune_len
rune_len-AreTails a s =
    let P : ℕ → Type 0 = λ n. AreTails (n - 1) s in
    if_intro P (ltb a 128) tt (
      if_intro P (ltb a 194) tt (
        if_intro P (ltb a 224) (two_bytes-AreTails s) (
          if_intro P (ltb a 240) (three_bytes-AreTails a s)
            (if_intro P (ltb a 245) (four_bytes-AreTails a s) tt))))

is_tail-IsNameByte : (c : ℕ) → is_tail c ≡ true → IsNameByte c
unfolding is_tail is_control is_separator
is_tail-IsNameByte c h = (ground (arith, h), ground (arith, h))

map_name-IsNameByte : (skip : ℕ) (s : Bytes) → AreTails skip s → All IsNameByte (map_name skip s)
unfolding map_name is_control is_separator
map_name-IsNameByte zero [] h = tt
map_name-IsNameByte (suc skip) [] h = tt
map_name-IsNameByte (suc skip) (c ∷ s) h =
    (is_tail-IsNameByte c h.0, map_name-IsNameByte skip s h.1)
map_name-IsNameByte zero (c ∷ s) h =
    let next = map_name-IsNameByte 0 s tt in
    let rest = map_name-IsNameByte (rune_len (c ∷ s) - 1) s (rune_len-AreTails c s) in
    if_intro (All IsNameByte) (rune_len (c ∷ s) == 0)
      ((refl, refl), ((refl, refl), ((refl, refl), next)))
      (elim (Bool-cases (is_control c)) [
        | inl t ↦ rw t next
        | inr f ↦ rw f (elim (Bool-cases (is_separator c)) [
          | inl t ↦ rw t ((refl, refl), rest)
          | inr g ↦ rw g ((f, g), rest)
        ])
      ])

length-take : (n : ℕ) (s : Bytes) → length (take n s) ≤ n
length-take zero s = omega arith
length-take (suc n) [] = omega arith
length-take (suc n) (c ∷ s) = omega (arith, length-take n s)

is_nil-take : (n : ℕ) (s : Bytes) → is_nil s ≡ false → is_nil (take (suc n) s) ≡ false
is_nil-take n [] e = cc
is_nil-take n (c ∷ s) e = refl

-- A name that can stand in a header and as a file.
pub record IsSafe (name : Bytes) : Type 0 where
  pub given : is_nil name ≡ false
  pub short : length name ≤ 200
  pub plain : All IsNameByte name

-- Whatever name a message gives to an attachment, the sanitized one is not empty, has 200 bytes at
-- most, and holds no control character, no separator of a path and no colon.
pub sanitize_filename-IsSafe : (raw : Bytes) → IsSafe (sanitize_filename raw)
unfolding sanitize_filename is_control is_separator
sanitize_filename-IsSafe raw =
    let name = trim_space (map_name 0 raw) in
    let plain : All IsNameByte name =
      All-trim_space IsNameByte (map_name 0 raw) (map_name-IsNameByte 0 raw tt) in
    elim (Bool-cases (is_nil name || is_nil (trim_of (λ c. c == b'.') name))) [
      | inl t ↦ rw t (record { given = refl; short = omega arith; plain = ground arith })
      | inr f ↦ elim (Bool-cases (ltb 200 (length name))) [
        | inl long ↦
            rw (f, long)
              (record {
                given = is_nil-take 199 name (ground (arith, f));
                short = length-take 200 name;
                plain = All-take IsNameByte 200 name plain;
              })
        | inr fits ↦
            rw (f, fits)
              (record { given = ground (arith, f); short = ground (arith, fits); plain = plain })
      ]
    ]
