-- ===== src/Pop3d/Wire/Top.antt =====
-- internal/pop3d/server.go: what TOP sends, against the header block and the first lines of the
-- body.
use mailschleuse.Base.{
  ℕ, zero, suc, ◌+◌, ◌≡◌, refl, ap, true, false, List, [], ◌∷◌, ◌++◌, some, arith, take, Bytes,
  crlf,
}
use mailschleuse.Pop3d.Wire.{split_lines, write_line, write_lines, write_dot_stuffed, dot}
use mailschleuse.Pop3d.Wire.Retr.{stuffed}

-- The lines of a message as RFC 1939 counts them for TOP: those of the header block, the blank
-- line, and the first n lines of the body. A message with no blank line is all header.
pub top_lines : ℕ → List Bytes → List Bytes
top_lines n [] = []
top_lines n ([] ∷ lines) = [] ∷ take n lines
top_lines n ((c ∷ s) ∷ lines) = (c ∷ s) ∷ top_lines n lines

-- Past the blank line, `emitted` body lines have been sent.
write_body :
    (n emitted k : ℕ) (lines : List Bytes)
    → emitted + k ≡ n
    → write_lines (some n) false emitted lines ≡ stuffed (take k lines)
unfolding write_lines stuffed
write_body n emitted zero [] e = refl
write_body n emitted (suc k) [] e = refl
write_body n emitted zero (line ∷ lines) e = ground arith
write_body n emitted (suc k) (line ∷ lines) e =
    ground (arith, write_body n (emitted + 1) k lines (omega arith))

write_top :
    (n : ℕ) (lines : List Bytes) → write_lines (some n) true 0 lines ≡ stuffed (top_lines n lines)
unfolding write_lines stuffed top_lines
write_top n [] = refl
write_top zero ([] ∷ lines) = refl
write_top (suc n) ([] ∷ lines) = ground (arith, write_body (suc n) 0 (suc n) lines (omega arith))
write_top n ((c ∷ s) ∷ lines) = ap (◌++◌ (write_line (c ∷ s))) (write_top n lines)

-- TOP with a count of n sends, each line in multi-line form, the header block, the blank line and
-- the first n lines of the body, and then the closing dot line; a message with no blank line is
-- sent whole.
pub write_dot_stuffed-top :
    (raw : Bytes) (n : ℕ)
    → write_dot_stuffed raw (some n) ≡ stuffed (top_lines n (split_lines raw)) ++ (dot ++ crlf)
unfolding write_dot_stuffed
write_dot_stuffed-top raw n = ap (λ out. out ++ (dot ++ crlf)) (write_top n (split_lines raw))
