-- ===== src/Smtpd/Data/Stuffing.antt =====
-- internal/smtpd/server.go: the DATA payload that a client sends is the body that is read.
use mailschleuse.Base.{
  ℕ, ◌+◌, ◌≤◌, ◌<◌, ◌≡◌, refl, ap, ◌∙◌, Bool, true, false, List, [], ◌∷◌, ◌++◌, map, append-nil,
  append_assoc, arith, ltb, if◌then◌else◌, length, length-append, All, Bytes, crlf, has_prefix,
  str_eq, Bool-cases, inl, inr,
}
use mailschleuse.Smtpd.Data.{
  max_line_bytes, dot, LeftOver, Payload, DataRead, done, unstuff, read_payload, read_data,
}

-- What a client does to a line of the body (RFC 5321, section 4.5.2): it doubles a leading dot.
unfoldable pub stuff : Bytes → Bytes
unfolding has_prefix
stuff line = if has_prefix line dot then b'.' ∷ line else line

-- The body whose lines these are, each ended by CRLF.
unfoldable pub unlines : List Bytes → Bytes
unlines [] = []
unlines (line ∷ lines) = line ++ (crlf ++ unlines lines)

abbrev pub Fits : Bytes → Type 0
Fits line = length (stuff line) ≤ max_line_bytes

unstuff-stuff : (line : Bytes) → unstuff (stuff line) ≡ line
unfolding unstuff stuff has_prefix
unstuff-stuff [] = refl
unstuff-stuff (c ∷ s) = ground arith

str_eq-stuff : (line : Bytes) → str_eq (stuff line) dot ≡ false
unfolding stuff str_eq has_prefix
str_eq-stuff [] = refl
str_eq-stuff (c ∷ []) = ground arith
str_eq-stuff (c ∷ d ∷ s) = ground arith

-- One round of the loop on a line of the body.
read_payload_step :
    (left_over : LeftOver) (max_size : ℕ) (line : Bytes) (rest : List Bytes) (buf : Bytes)
    (too_large : Bool)
    → Fits line
    → read_payload left_over max_size (stuff line ∷ rest) buf too_large ≡ (
        if ltb max_size (length buf + length line + 2)
        then read_payload left_over max_size rest buf true
        else if too_large
        then read_payload left_over max_size rest buf true
        else read_payload left_over max_size rest (buf ++ (line ++ crlf)) false)
unfolding read_payload
read_payload_step left_over max_size line rest buf too_large fits =
    rw (str_eq-stuff line, unstuff-stuff line) (ground arith)

-- The closing dot line ends the payload.
read_payload_end :
    (left_over : LeftOver) (max_size : ℕ) (rest : List Bytes) (buf : Bytes) (too_large : Bool)
    → read_payload left_over max_size (dot ∷ rest) buf too_large
      ≡ done (record { body = buf; too_large = too_large; rest = rest })
unfolding read_payload str_eq
read_payload_end left_over max_size rest buf too_large = refl

-- Once the body is too large, the payload is read to its end and dropped.
read_payload_drained :
    (left_over : LeftOver) (max_size : ℕ) (lines rest : List Bytes) (buf : Bytes)
    → All Fits lines
    → read_payload left_over max_size (map stuff lines ++ dot ∷ rest) buf true
      ≡ done (record { body = buf; too_large = true; rest = rest })
read_payload_drained left_over max_size [] rest buf h =
    read_payload_end left_over max_size rest buf true
read_payload_drained left_over max_size (line ∷ lines) rest buf h = ground (
  arith,
  read_payload_step left_over max_size line (map stuff lines ++ dot ∷ rest) buf true h.0,
  read_payload_drained left_over max_size lines rest buf h.1,
)

length-unlines :
    (buf line : Bytes) (lines : List Bytes)
    → length buf + length (unlines (line ∷ lines))
      ≡ length (buf ++ (line ++ crlf)) + length (unlines lines)
unfolding unlines
length-unlines buf line lines = omega (
  arith,
  length-append buf (line ++ crlf),
  length-append line crlf,
  length-append line (crlf ++ unlines lines),
)

read_payload_kept :
    (left_over : LeftOver) (max_size : ℕ) (lines rest : List Bytes) (buf : Bytes)
    → All Fits lines
    → length buf + length (unlines lines) ≤ max_size
    → read_payload left_over max_size (map stuff lines ++ dot ∷ rest) buf false
      ≡ done (record { body = buf ++ unlines lines; too_large = false; rest = rest })
unfolding unlines
read_payload_kept left_over max_size [] rest buf h fits =
    rw append-nil (read_payload_end left_over max_size rest buf false)
read_payload_kept left_over max_size (line ∷ lines) rest buf h fits =
    let more = map stuff lines ++ dot ∷ rest in
    let small : ltb max_size (length buf + length line + 2) ≡ false =
      ground (arith, length-append line (crlf ++ unlines lines)) in
    rw (read_payload_step left_over max_size line more buf false h.0, small)
      (read_payload_kept left_over max_size lines rest (buf ++ (line ++ crlf)) h.1
          (omega (arith, length-unlines buf line lines))
        ∙ ap (λ b. done (record { body = b; too_large = false; rest = rest })) (simp append_assoc))

-- A body within the size limit is read as the client wrote it: the dots are undone, every line ends
-- in CRLF, and what follows the closing dot is left for the next command. Each line, stuffed, is
-- within the limit on a line.
pub read_data-stuff :
    (left_over : LeftOver) (max_size : ℕ) (lines rest : List Bytes)
    → All Fits lines
    → length (unlines lines) ≤ max_size
    → read_data left_over max_size (map stuff lines ++ dot ∷ rest)
      ≡ done (record { body = unlines lines; too_large = false; rest = rest })
unfolding read_data
read_data-stuff left_over max_size lines rest h fits =
    read_payload_kept left_over max_size lines rest [] h (omega arith)

abbrev pub Overflows : ℕ → List Bytes → DataRead → Type 0
Overflows max_size rest r =
    (b : Bytes) × (r ≡ done (record { body = b; too_large = true; rest = rest }))

read_payload_overflow :
    (left_over : LeftOver) (max_size : ℕ) (lines rest : List Bytes) (buf : Bytes)
    → All Fits lines
    → length buf ≤ max_size
    → max_size < length buf + length (unlines lines)
    → Overflows max_size rest
        (read_payload left_over max_size (map stuff lines ++ dot ∷ rest) buf false)
unfolding unlines
read_payload_overflow left_over max_size [] rest buf h small large = absurd (omega arith)
read_payload_overflow left_over max_size (line ∷ lines) rest buf h small large =
    let more = map stuff lines ++ dot ∷ rest in
    elim (Bool-cases (ltb max_size (length buf + length line + 2))) [
      | inl e ↦ (
        buf,
        rw (read_payload_step left_over max_size line more buf false h.0, e)
            (read_payload_drained left_over max_size lines rest buf h.1),
      )
      | inr e ↦
          rw (read_payload_step left_over max_size line more buf false h.0, e)
            (read_payload_overflow left_over max_size lines rest (buf ++ (line ++ crlf)) h.1
              (ground (arith, length-append buf (line ++ crlf), length-append line crlf))
              (omega (arith, length-unlines buf line lines)))
    ]

-- A body over the size limit is reported as too large, and it is read up to its closing dot, so that
-- the session stays in step with the client, where each line, stuffed, is within the limit on a
-- line.
pub read_data_overflow :
    (left_over : LeftOver) (max_size : ℕ) (lines rest : List Bytes)
    → All Fits lines
    → max_size < length (unlines lines)
    → Overflows max_size rest (read_data left_over max_size (map stuff lines ++ dot ∷ rest))
unfolding read_data
read_data_overflow left_over max_size lines rest h large =
    read_payload_overflow left_over max_size lines rest [] h (omega arith) (omega arith)

read_payload_bound :
    (left_over : LeftOver) (max_size : ℕ) (lines : List Bytes) (buf : Bytes) (too_large : Bool)
    {p : Payload}
    → length buf ≤ max_size
    → read_payload left_over max_size lines buf too_large ≡ done p
    → length p.body ≤ max_size
unfolding read_payload
read_payload_bound left_over max_size [] buf too_large fits e = cc
read_payload_bound left_over max_size (line ∷ rest) buf too_large {p} fits e = ground (
  arith,
  read_payload_bound left_over max_size rest buf true {p = p} fits,
  read_payload_bound left_over max_size rest (buf ++ (unstuff line ++ crlf)) false {p = p},
  length-append buf (unstuff line ++ crlf),
  length-append (unstuff line) crlf,
)

-- Whatever a client sends, the body that is kept never exceeds the size limit.
pub read_data_bound :
    (left_over : LeftOver) (max_size : ℕ) (lines : List Bytes) {p : Payload}
    → read_data left_over max_size lines ≡ done p
    → length p.body ≤ max_size
unfolding read_data
read_data_bound left_over max_size lines {p} e =
    read_payload_bound left_over max_size lines [] false {p = p} (omega arith) e
