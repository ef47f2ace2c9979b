-- ===== src/Mailparse/Filename.antt =====
-- internal/mailparse/mailparse.go: SanitizeFilename.
pub mod Safe
use mailschleuse.Base.{
  ℕ, Bool, true, false, not, ◌&&◌, ◌||◌, [], ◌∷◌, if◌then◌else◌, is_nil, length, take, ltb, ◌==◌,
  Bytes, codes, trim_space, trim_of, zero, suc, ◌-◌, ◌++◌,
}
use mailschleuse.Mailparse.Charset.{rune_len, replacement}

-- A control character, which is taken out.
unfoldable pub is_control : ℕ → Bool
is_control c = ltb c 32 || c == 127

-- A separator of a path, which becomes "_".
unfoldable pub is_separator : ℕ → Bool
is_separator c = c == b'/' || (c == b'\\' || c == b':')

-- `strings.Map` behind `skip` bytes of a character that is kept: a byte that begins no character
-- becomes the replacement character.
unfoldable pub map_name : ℕ → Bytes → Bytes
unfolding is_control is_separator rune_len
map_name skip [] = []
map_name (suc skip) (c ∷ s) = c ∷ map_name skip s
map_name zero (c ∷ s) =
    let n = rune_len (c ∷ s) in
    let next = map_name 0 s in
    let rest = map_name (n - 1) s in
    if n == 0
    then replacement ++ next
    else if is_control c
    then next
    else (if is_separator c then b'_' else c) ∷ rest

-- `SanitizeFilename`.
unfoldable pub sanitize_filename : Bytes → Bytes
unfolding map_name trim_space trim_of
sanitize_filename raw =
    let name = trim_space (map_name 0 raw) in
    if is_nil name || is_nil (trim_of (λ c. c == b'.') name)
    then codes "attachment.bin"
    else if ltb 200 (length name)
    then take 200 name
    else name
