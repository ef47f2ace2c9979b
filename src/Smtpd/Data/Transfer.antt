-- ===== src/Smtpd/Data/Transfer.antt =====
-- internal/pop3d/server.go and internal/smtpd/server.go: what POP3 sends of a message, a reader of
-- lines undoes; and a message that was submitted over SMTP comes back over POP3 line by line.
use mailschleuse.Base.{
  ◌==◌, ℕ, ◌≡◌, ◌≢◌, refl, ap, ◌∙◌, List, [], ◌∷◌, ◌++◌, map, append_assoc, none, arith, All, Bytes,
  crlf, has_prefix, split, trim_suffix_byte, Bool-cases, push_head, inl, inr,
}
use mailschleuse.Smtpd.Data.{wire_lines, dot}
use mailschleuse.Smtpd.Data.Stuffing.{stuff}
use mailschleuse.Pop3d.Wire.{split_lines, write_line, write_dot_stuffed}
use mailschleuse.Pop3d.Wire.Retr.{stuffed, write_lines-stuffed}

abbrev pub HasNoLf : Bytes → Type 0
HasNoLf = All (λ c. c ≢ b'\n')

wire_lines-crlf :
    (line rest : Bytes)
    → HasNoLf line
    → wire_lines (line ++ (crlf ++ rest)) ≡ line ∷ wire_lines rest
unfolding wire_lines has_prefix
wire_lines-crlf [] rest h = refl
wire_lines-crlf (c ∷ []) rest h = ground (arith, wire_lines-crlf [] rest tt)
wire_lines-crlf (c ∷ d ∷ line) rest h = ground (arith, wire_lines-crlf (d ∷ line) rest h.1)

stuff-HasNoLf : (line : Bytes) → HasNoLf line → HasNoLf (stuff line)
unfolding stuff has_prefix
stuff-HasNoLf [] h = tt
stuff-HasNoLf (c ∷ s) h = ground arith

write_line-stuff : (line : Bytes) → write_line line ≡ stuff line ++ crlf
unfolding write_line stuff
write_line-stuff line = ground arith

wire_lines-stuffed :
    (lines : List Bytes) (rest : Bytes)
    → All HasNoLf lines
    → wire_lines (stuffed lines ++ rest) ≡ map stuff lines ++ wire_lines rest
unfolding stuffed
wire_lines-stuffed [] rest h = refl
wire_lines-stuffed (line ∷ lines) rest h = rw (write_line-stuff line) (
    simp append_assoc (
      wire_lines-crlf (stuff line) (stuffed lines ++ rest) (stuff-HasNoLf line h.0)
      ∙ ap (λ ls. stuff line ∷ ls) (wire_lines-stuffed lines rest h.1)))

push_head-HasNoLf :
    (c : ℕ) (ls : List Bytes) → c ≢ b'\n' → All HasNoLf ls → All HasNoLf (push_head c ls)
push_head-HasNoLf c [] n h = ((n, tt), tt)
push_head-HasNoLf c (l ∷ ls) n h = ((n, h.0), h.1)

split-HasNoLf : (s : Bytes) → All HasNoLf (split s b'\n')
unfolding split
split-HasNoLf [] = (tt, tt)
split-HasNoLf (c ∷ s) = elim (Bool-cases (c == b'\n')) [
  | inl e ↦ rw e (tt, split-HasNoLf s)
  | inr e ↦ rw e (push_head-HasNoLf c (split s b'\n') (ground arith) (split-HasNoLf s))
]

trim_suffix_byte-HasNoLf : (b : ℕ) (s : Bytes) → HasNoLf s → HasNoLf (trim_suffix_byte b s)
unfolding trim_suffix_byte
trim_suffix_byte-HasNoLf b [] h = tt
trim_suffix_byte-HasNoLf b (c ∷ []) h = ground arith
trim_suffix_byte-HasNoLf b (c ∷ d ∷ s) h = (h.0, trim_suffix_byte-HasNoLf b (d ∷ s) h.1)

trimmed-HasNoLf : (ls : List Bytes) → All HasNoLf ls → All HasNoLf (map (trim_suffix_byte b'\r') ls)
trimmed-HasNoLf [] h = tt
trimmed-HasNoLf (l ∷ ls) h = (trim_suffix_byte-HasNoLf b'\r' l h.0, trimmed-HasNoLf ls h.1)

split_lines-HasNoLf : (raw : Bytes) → All HasNoLf (split_lines raw)
unfolding split_lines
split_lines-HasNoLf [] = tt
split_lines-HasNoLf (c ∷ s) = trimmed-HasNoLf _ (split-HasNoLf _)

-- A client that reads what RETR sends line by line gets the lines of the message, each with a
-- leading dot doubled, then the dot line alone, and then what the server sends next.
pub wire_lines-write_dot_stuffed :
    (raw rest : Bytes)
    → wire_lines (write_dot_stuffed raw none ++ rest)
      ≡ map stuff (split_lines raw) ++ dot ∷ wire_lines rest
unfolding write_dot_stuffed
wire_lines-write_dot_stuffed raw rest =
    rw (write_lines-stuffed 0 (split_lines raw), append_assoc)
      (wire_lines-stuffed (split_lines raw) _ (split_lines-HasNoLf raw)
        ∙ ap (◌++◌ (map stuff (split_lines raw))) (wire_lines-crlf dot rest (omega arith)))
