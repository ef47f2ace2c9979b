-- ===== src/Smtpd/Data/Delivery.antt =====
-- internal/smtpd/server.go and internal/pop3d/server.go: a body as SMTP reads it, and the lines that
-- POP3 cuts it into.
use mailschleuse.Base.{
  sym, append-nil, ap₂, ℕ, ◌≤◌, ◌≡◌, ◌≢◌, refl, ap, ◌∙◌, List, [], ◌∷◌, ◌++◌, map, append_assoc,
  none, false, arith, length, All, Bytes, crlf, split, trim_suffix_byte,
}
use mailschleuse.Pop3d.Wire.{split_lines, write_dot_stuffed}
use mailschleuse.Smtpd.Data.{wire_lines, dot, read_data, LeftOver, done}
use mailschleuse.Smtpd.Data.Stuffing.{stuff, unlines, Fits, read_data-stuff}
use mailschleuse.Smtpd.Data.Transfer.{HasNoLf, wire_lines-write_dot_stuffed}

trim_suffix_byte_end : (b : ℕ) (s : Bytes) → trim_suffix_byte b (s ++ b ∷ []) ≡ s
unfolding trim_suffix_byte
trim_suffix_byte_end b [] = ground arith
trim_suffix_byte_end b (c ∷ []) = ground arith
trim_suffix_byte_end b (c ∷ d ∷ s) = ap (λ t. c ∷ t) (trim_suffix_byte_end b (d ∷ s))

-- The body without its last CRLF.
joined : Bytes → List Bytes → Bytes
joined line [] = line
joined line (next ∷ lines) = line ++ (crlf ++ joined next lines)

unlines-joined :
    (line : Bytes) (lines : List Bytes)
    → unlines (line ∷ lines) ≡ (joined line lines ++ b'\r' ∷ []) ++ b'\n' ∷ []
unfolding unlines joined
unlines-joined line [] = simp append_assoc
unlines-joined line (next ∷ lines) =
    ap (λ t. line ++ (crlf ++ t)) (unlines-joined next lines) ∙ simp append_assoc

split-lf : (line s : Bytes) → HasNoLf line → split (line ++ b'\n' ∷ s) b'\n' ≡ line ∷ split s b'\n'
unfolding split
split-lf [] s h = refl
split-lf (c ∷ line) s h = ground (arith, split-lf line s h.1)

split-HasNoLf : (line : Bytes) → HasNoLf line → split line b'\n' ≡ line ∷ []
unfolding split
split-HasNoLf [] h = refl
split-HasNoLf (c ∷ line) h = ground (arith, split-HasNoLf line h.1)

HasNoLf-cr : (line : Bytes) → HasNoLf line → HasNoLf (line ++ b'\r' ∷ [])
HasNoLf-cr [] h = omega arith
HasNoLf-cr (c ∷ line) h = (h.0, HasNoLf-cr line h.1)

-- The line does not end in CR.
abbrev pub EndsPlain : Bytes → Type 0
EndsPlain line = trim_suffix_byte b'\r' line ≡ line

split-joined :
    (line : Bytes) (lines : List Bytes)
    → All HasNoLf (line ∷ lines)
    → All EndsPlain (line ∷ lines)
    → map (trim_suffix_byte b'\r') (split (joined line lines) b'\n') ≡ line ∷ lines
unfolding joined
split-joined line [] h p = rw (split-HasNoLf line h.0, p.0)
split-joined line (next ∷ lines) h p =
    ap (λ t. map (trim_suffix_byte b'\r') (split t b'\n')) (simp append_assoc)
    ∙ ap (map (trim_suffix_byte b'\r'))
        (split-lf (line ++ b'\r' ∷ []) (joined next lines) (HasNoLf-cr line h.0))
    ∙ ap₂ ◌∷◌ (trim_suffix_byte_end b'\r' line) (split-joined next lines h.1 p.1)

split_lines_of :
    (s : Bytes)
    → s ≢ []
    → split_lines s
      ≡ map
          (trim_suffix_byte b'\r')
          (split (trim_suffix_byte b'\r' (trim_suffix_byte b'\n' s)) b'\n')
unfolding split_lines
split_lines_of [] h = absurd (h refl)
split_lines_of (c ∷ s) h = refl

unlines-ne-nil : (line : Bytes) (lines : List Bytes) → unlines (line ∷ lines) ≢ []
unfolding unlines
unlines-ne-nil [] lines e = cc
unlines-ne-nil (c ∷ line) lines e = cc

-- POP3 sees the lines that the client put into the body over SMTP, where no line holds an LF or
-- ends in CR.
pub split_lines-unlines :
    (lines : List Bytes)
    → All HasNoLf lines
    → All EndsPlain lines
    → split_lines (unlines lines) ≡ lines
split_lines-unlines [] h p = unfold split_lines unlines in refl
split_lines-unlines (line ∷ lines) h p =
    rw (split_lines_of (unlines (line ∷ lines)) (unlines-ne-nil line lines)) (
      rw (unlines-joined line lines, trim_suffix_byte_end b'\n', trim_suffix_byte_end b'\r')
        (split-joined line lines h p))

-- A message that was stored with these lines is read by a POP3 client as the stuffed lines that the
-- SMTP client had sent, and the closing dot, where no line holds an LF or ends in CR.
pub retr-submitted :
    (lines : List Bytes)
    → All HasNoLf lines
    → All EndsPlain lines
    → wire_lines (write_dot_stuffed (unlines lines) none) ≡ map stuff lines ++ dot ∷ []
unfolding wire_lines
retr-submitted lines h p =
    ap wire_lines (sym (append-nil (write_dot_stuffed (unlines lines) none)))
    ∙ wire_lines-write_dot_stuffed (unlines lines) []
    ∙ ap (λ ls. map stuff ls ++ dot ∷ []) (split_lines-unlines lines h p)

-- A client may submit over SMTP what it has fetched over POP3: the body is then that of the message
-- with every line ended by CRLF, where this body is within the size limit and each of its lines,
-- stuffed, within the limit on a line.
pub resubmit :
    (left_over : LeftOver) (max_size : ℕ) (raw rest : Bytes)
    → All Fits (split_lines raw)
    → length (unlines (split_lines raw)) ≤ max_size
    → read_data left_over max_size (wire_lines (write_dot_stuffed raw none ++ rest))
      ≡ done
          (record { body = unlines (split_lines raw); too_large = false; rest = wire_lines rest })
resubmit left_over max_size raw rest h fits =
    ap (read_data left_over max_size) (wire_lines-write_dot_stuffed raw rest)
    ∙ read_data-stuff left_over max_size (split_lines raw) (wire_lines rest) h fits
