-- ===== src/Pop3d/Wire/Retr.antt =====
-- internal/pop3d/server.go: what RETR sends, against the size that STAT and LIST announce.
use mailschleuse.Base.{
  ℕ, ◌+◌, ◌≡◌, refl, ap, false, List, [], ◌∷◌, ◌++◌, none, arith, length, length-append, Bytes,
  crlf,
}
use mailschleuse.Pop3d.Wire.{
  split_lines, write_line, line_size, sum_sizes, crlf_size, write_lines, write_dot_stuffed, dot,
}

-- What a whole message is on the wire, with no limit on its lines.
unfoldable pub stuffed : List Bytes → Bytes
stuffed [] = []
stuffed (line ∷ lines) = write_line line ++ stuffed lines

pub write_lines-stuffed :
    (emitted : ℕ) (lines : List Bytes) → write_lines none false emitted lines ≡ stuffed lines
unfolding write_lines stuffed
write_lines-stuffed emitted [] = refl
write_lines-stuffed emitted (line ∷ lines) =
    ap (◌++◌ (write_line line)) (write_lines-stuffed emitted lines)

length-write_line : (line : Bytes) → length (write_line line) ≡ line_size line
unfolding write_line line_size
length-write_line line = ground (arith, length-append line crlf)

sum_sizes-stuffed :
    (lines : List Bytes) (total : ℕ) → sum_sizes lines total ≡ total + length (stuffed lines)
unfolding sum_sizes stuffed
sum_sizes-stuffed [] total = omega arith
sum_sizes-stuffed (line ∷ lines) total = omega (
  arith,
  sum_sizes-stuffed lines (total + line_size line),
  length-write_line line,
  length-append (write_line line) (stuffed lines),
)

-- The octets that STAT and LIST announce for a message are the octets that RETR sends for it, less
-- the three of the closing dot line.
pub length-write_dot_stuffed :
    (raw : Bytes) → length (write_dot_stuffed raw none) ≡ crlf_size raw + 3
unfolding write_dot_stuffed crlf_size
length-write_dot_stuffed raw =
    let lines = split_lines raw in
    omega (
      arith,
      ap length (write_lines-stuffed 0 lines),
      length-append (write_lines none false 0 lines) (dot ++ crlf),
      sum_sizes-stuffed lines 0,
    )
