-- ===== src/Pop3d/Wire.antt =====
-- internal/pop3d/server.go: a message body in POP3 multi-line form.
pub mod Retr
pub mod Top
use mailschleuse.Base.{
  ℕ, suc, ◌+◌, Bool, true, false, not, ◌&&◌, List, [], ◌∷◌, ◌++◌, map, Option, none, some, leb,
  ◌==◌, if◌then◌else◌, is_nil, length, Bytes, codes, crlf, has_prefix, trim_suffix_byte, split,
}

-- Splits on LF and drops one trailing CR of each line.
unfoldable pub split_lines : Bytes → List Bytes
split_lines [] = []
split_lines (c ∷ s) =
    let trimmed = trim_suffix_byte b'\r' (trim_suffix_byte b'\n' (c ∷ s)) in
    map (trim_suffix_byte b'\r') (split trimmed b'\n')

abbrev pub dot : Bytes
dot = b'.' ∷ []

unfoldable pub write_line : Bytes → Bytes
unfolding has_prefix
write_line line = if has_prefix line dot then b'.' ∷ (line ++ crlf) else line ++ crlf

unfoldable pub line_size : Bytes → ℕ
unfolding has_prefix
line_size line = let size = length line + 2 in if has_prefix line dot then size + 1 else size

-- The loop of `crlfSize` over the lines.
unfoldable pub sum_sizes : List Bytes → ℕ → ℕ
unfolding line_size
sum_sizes [] total = total
sum_sizes (line ∷ lines) total = sum_sizes lines (total + line_size line)

unfoldable pub crlf_size : Bytes → ℕ
unfolding sum_sizes split_lines
crlf_size raw = sum_sizes (split_lines raw) 0

-- The limit of `writeDotStuffed`: `none` for -1, which RETR passes, and a count for TOP.
abbrev pub Limit : Type 0
Limit = Option ℕ

abbrev pub is_limited : Limit → Bool
is_limited none = false
is_limited (some n) = true

-- `n <= emitted`, where there is a limit n.
abbrev pub reached : Limit → ℕ → Bool
reached none emitted = false
reached (some n) emitted = leb n emitted

abbrev pub is_zero : Limit → Bool
is_zero none = false
is_zero (some n) = n == 0

-- The loop of `writeDotStuffed` over the lines; a `break` ends the recursion.
unfoldable pub write_lines : Limit → Bool → ℕ → List Bytes → Bytes
unfolding write_line
write_lines limit in_headers emitted [] = []
write_lines limit in_headers emitted (line ∷ lines) =
    let blank =
      write_line [] ++ (if is_zero limit then [] else write_lines limit false emitted lines) in
    let body = write_line line ++ write_lines limit in_headers (emitted + 1) lines in
    let plain = write_line line ++ write_lines limit in_headers emitted lines in
    if in_headers && is_nil line
    then blank
    else if not in_headers && is_limited limit
    then (if reached limit emitted then [] else body)
    else plain

unfoldable pub write_dot_stuffed : Bytes → Limit → Bytes
unfolding write_lines split_lines
write_dot_stuffed raw limit =
    write_lines limit (is_limited limit) 0 (split_lines raw) ++ (dot ++ crlf)
