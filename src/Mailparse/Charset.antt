-- ===== src/Mailparse/Charset.antt =====
-- internal/mailparse/mailparse.go: toUTF8, and UTF-8 as Go's package unicode/utf8 reads it.
pub mod Valid
use mailschleuse.Base.{
  ℕ, zero, suc, ◌+◌, ◌-◌, ◌/◌, ◌%◌, Bool, true, false, ◌&&◌, ◌||◌, List, [], ◌∷◌, ◌++◌, Option,
  none, some, if◌then◌else◌, ltb, leb, ◌==◌, Bytes, codes, to_lower, trim_space, cut_at, contains,
}
use mailschleuse.Store.Disk.{is_some}

-- The byte at an index, and zero past the end, which begins and continues no longer character.
abbrev pub byte_at : Bytes → ℕ → ℕ
byte_at [] i = 0
byte_at (c ∷ s) zero = c
byte_at (c ∷ s) (suc i) = byte_at s i

unfoldable pub is_tail : ℕ → Bool
is_tail c = leb 128 c && ltb c 192

-- The number of bytes of a character of two, three or four bytes, by its bytes, and zero where they
-- are none.
unfoldable pub two_bytes : ℕ → ℕ
unfolding is_tail
two_bytes b = if is_tail b then 2 else 0

unfoldable pub three_bytes : ℕ → ℕ → ℕ → ℕ
unfolding is_tail
three_bytes a b c =
    if leb (if a == 224 then 160 else 128) b && (ltb b (if a == 237 then 160 else 192) && is_tail c)
    then 3
    else 0

unfoldable pub four_bytes : ℕ → ℕ → ℕ → ℕ → ℕ
unfolding is_tail
four_bytes a b c d =
    if leb (if a == 240 then 144 else 128) b
      && (ltb b (if a == 244 then 144 else 192) && (is_tail c && is_tail d))
    then 4
    else 0

-- The number of bytes of the character in front, and zero where there is none.
unfoldable pub rune_len : Bytes → ℕ
unfolding two_bytes three_bytes four_bytes
rune_len [] = 0
rune_len (a ∷ s) =
    let b = byte_at s 0 in
    let c = byte_at s 1 in
    let d = byte_at s 2 in
    if ltb a 128
    then 1
    else if ltb a 194
    then 0
    else if ltb a 224
    then two_bytes b
    else if ltb a 240
    then three_bytes a b c
    else if ltb a 245
    then four_bytes a b c d
    else 0

-- `utf8.Valid`, behind `skip` bytes of a character that is read.
unfoldable pub valid_from : ℕ → Bytes → Bool
unfolding rune_len
valid_from skip [] = true
valid_from (suc skip) (c ∷ s) = valid_from skip s
valid_from zero (c ∷ s) =
    let n = rune_len (c ∷ s) in let rest = valid_from (n - 1) s in if n == 0 then false else rest

unfoldable pub utf8_valid : Bytes → Bool
unfolding valid_from
utf8_valid s = valid_from 0 s

abbrev pub replacement : Bytes
replacement = 239 ∷ 191 ∷ 189 ∷ []

-- `strings.ToValidUTF8`: each run of bytes that are no characters becomes one replacement character.
-- `in_run` is set inside such a run.
unfoldable pub valid_text : ℕ → Bool → Bytes → Bytes
unfolding rune_len
valid_text skip in_run [] = []
valid_text (suc skip) in_run (c ∷ s) = c ∷ valid_text skip false s
valid_text zero in_run (c ∷ s) =
    let n = rune_len (c ∷ s) in
    let run = valid_text zero true s in
    let rest = valid_text (n - 1) false s in
    if n == 0 then (if in_run then run else replacement ++ run) else c ∷ rest

-- `cp1252High`.
abbrev pub cp1252_high : List ℕ
cp1252_high =
    8364 ∷ 65533 ∷ 8218 ∷ 402 ∷ 8222 ∷ 8230 ∷ 8224 ∷ 8225 ∷ 710 ∷ 8240 ∷ 352 ∷ 8249 ∷ 338 ∷ 65533
    ∷ 381 ∷ 65533 ∷ 65533 ∷ 8216 ∷ 8217 ∷ 8220 ∷ 8221 ∷ 8226 ∷ 8211 ∷ 8212 ∷ 732 ∷ 8482 ∷ 353 ∷ 8250
    ∷ 339 ∷ 65533 ∷ 382 ∷ 376 ∷ []

-- `WriteRune` of a character below 65536 that is no surrogate.
unfoldable pub write_rune : ℕ → Bytes
write_rune r =
    if ltb r 128
    then r ∷ []
    else if ltb r 2048
    then (192 + r / 64) ∷ (128 + r % 64) ∷ []
    else (224 + r / 4096) ∷ (128 + r / 64 % 64) ∷ (128 + r % 64) ∷ []

unfoldable pub latin_rune : Bool → ℕ → ℕ
latin_rune windows c =
    if windows && (leb 128 c && leb c 159) then byte_at cp1252_high (c - 128) else c

-- `decodeLatin`.
unfoldable pub decode_latin : Bool → Bytes → Bytes
unfolding write_rune latin_rune
decode_latin windows [] = []
decode_latin windows (c ∷ s) = write_rune (latin_rune windows c) ++ decode_latin windows s

abbrev pub unicode_names : List Bytes
unicode_names = [] ∷ codes "utf-8" ∷ codes "utf8" ∷ codes "us-ascii" ∷ codes "ascii" ∷ []

abbrev pub latin_names : List Bytes
latin_names =
    codes "iso-8859-1"
    ∷ codes "latin1"
    ∷ codes "iso8859-1"
    ∷ codes "iso-8859-15"
    ∷ codes "cp1252"
    ∷ codes "windows-1252"
    ∷ []

-- `toUTF8`.
unfoldable pub to_utf8 : Bytes → Bytes → Bytes
unfolding utf8_valid valid_text decode_latin contains to_lower trim_space cut_at
to_utf8 body charset =
    let name = to_lower (trim_space charset) in
    if contains unicode_names name
    then (if utf8_valid body then body else valid_text 0 false body)
    else if contains latin_names name
    then decode_latin (is_some (cut_at (to_lower charset) (codes "1252"))) body
    else if utf8_valid body
    then body
    else decode_latin false body
