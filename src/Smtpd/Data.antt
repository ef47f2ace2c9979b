-- ===== src/Smtpd/Data.antt =====
-- internal/smtpd/server.go: reading lines and the DATA payload.
pub mod Stuffing
pub mod Transfer
pub mod Delivery
use mailschleuse.Base.{
  ℕ, ◌+◌, ◌^◌, Bool, true, false, ◌&&◌, List, [], ◌∷◌, ◌++◌, Option, none, some, ltb, ◌==◌,
  if◌then◌else◌, length, drop, Bytes, codes, crlf, str_eq, has_prefix,
}

abbrev pub max_line_bytes : ℕ
max_line_bytes = 2 ^ 20

abbrev pub dot : Bytes
dot = b'.' ∷ []

abbrev pub push_line : ℕ → List Bytes → List Bytes
push_line c [] = (c ∷ []) ∷ []
push_line c (line ∷ lines) = (c ∷ line) ∷ lines

-- The lines that `bufio.Reader.ReadLine` gives of a stream until it ends: a line ends at LF, the CR
-- right before it is dropped, and what stands behind the last LF is a line of its own.
unfoldable pub wire_lines : Bytes → List Bytes
unfolding has_prefix
wire_lines [] = []
wire_lines (c ∷ s) =
    let rest = wire_lines s in
    if c == b'\n'
    then [] ∷ rest
    else if c == b'\r' && has_prefix s (b'\n' ∷ [])
    then rest
    else push_line c rest

pub data LineRead : Type 0 where
  ended : LineRead
  overlong : List Bytes → LineRead
  line_read : Bytes → List Bytes → LineRead

-- What `bufio` leaves of a line that is longer than `maxLineBytes`: the reader has taken the part up
-- to the first chunk that goes over the limit. How the line falls into chunks is a parameter.
abbrev pub LeftOver : Type 0
LeftOver = Bytes → List Bytes

-- `readLine` on the lines that are left: it fails at the end of the stream and on an overlong line.
unfoldable pub read_line : LeftOver → List Bytes → LineRead
read_line left_over [] = ended
read_line left_over (line ∷ rest) =
    if ltb max_line_bytes (length line)
    then overlong (left_over line ++ rest)
    else line_read line rest

pub record Payload : Type 0 where
  pub body : Bytes
  pub too_large : Bool
  pub rest : List Bytes

-- The result of `readData`: a failed read leaves the lines behind the failure.
pub data DataRead : Type 0 where
  failed : List Bytes → DataRead
  done : Payload → DataRead

-- Dot-stuffing undone on one line.
unfoldable pub unstuff : Bytes → Bytes
unfolding has_prefix
unstuff line = if has_prefix line dot then drop 1 line else line

-- The loop of `readData`, with its variables `buf` and `tooLarge`.
unfoldable pub read_payload : LeftOver → ℕ → List Bytes → Bytes → Bool → DataRead
unfolding unstuff str_eq
read_payload left_over max_size [] buf too_large = failed []
read_payload left_over max_size (line ∷ rest) buf too_large =
    let text = unstuff line in
    let skip = read_payload left_over max_size rest buf true in
    let keep = read_payload left_over max_size rest (buf ++ (text ++ crlf)) false in
    if ltb max_line_bytes (length line)
    then failed (left_over line ++ rest)
    else if str_eq line dot
    then done (record { body = buf; too_large = too_large; rest = rest })
    else if ltb max_size (length buf + length text + 2)
    then skip
    else if too_large
    then skip
    else keep

unfoldable pub read_data : LeftOver → ℕ → List Bytes → DataRead
unfolding read_payload
read_data left_over max_size lines = read_payload left_over max_size lines [] false
