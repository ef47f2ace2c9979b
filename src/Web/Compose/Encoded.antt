-- ===== src/Web/Compose/Encoded.antt =====
-- internal/web/compose.go and internal/mailparse/mailparse.go: base64 that is written and read back.
use mailschleuse.Base.{
  ℕ, zero, suc, ◌<◌, ◌≡◌, refl, sym, ap, ap₂, ◌∙◌, inl, inr, Bool, true, [], ◌∷◌, ◌++◌, some, All,
  All-reverse_aux, arith, length, take, drop, take-append-drop, ltb, ◌==◌, Bool-cases, Bytes, codes,
  crlf, str_eq, to_lower, trim_space, trim_left_of, trim_right_of, decode_base64, decode_groups,
  without_newlines,
}
use mathlib.Core.List.{reverse, reverse-append, reverse-reverse}
use mailschleuse.Web.Compose.Lines.{encode_base64, wrap_lines, wrap_base64}
use mailschleuse.Mailparse.Decoding.{Codec, cleaned, decode_unpadded, decode_transfer}
use mailschleuse.Web.Compose.Base64.{
  IsDigit, digits, pads, encode-digits, AreBytes, digits-IsDigit, padding-digits, decode-encode,
}

-- Digits are not what cleaning and trimming take out.
cleaned-IsDigit : (d : Bytes) → All IsDigit d → cleaned d ≡ d
unfolding cleaned
cleaned-IsDigit [] h = refl
cleaned-IsDigit (c ∷ d) h = ground (arith, h.0.0, cleaned-IsDigit d h.1)

cleaned-append : (d e : Bytes) → cleaned (d ++ e) ≡ cleaned d ++ cleaned e
unfolding cleaned
cleaned-append [] e = refl
cleaned-append (c ∷ d) e = ground (arith, cleaned-append d e)

-- Taking the line breaks out again undoes the wrapping.
cleaned-wrap_lines : (fuel : ℕ) (e : Bytes) → cleaned (wrap_lines fuel e) ≡ cleaned e
unfolding wrap_lines cleaned
cleaned-wrap_lines zero e = refl
cleaned-wrap_lines (suc fuel) e = elim (Bool-cases (ltb 76 (length e))) [
  | inl long ↦ rw long (
      cleaned-append (take 76 e) (crlf ++ wrap_lines fuel (drop 76 e))
      ∙ ap (λ t. cleaned (take 76 e) ++ t) (cleaned-wrap_lines fuel (drop 76 e))
      ∙ sym (cleaned-append (take 76 e) (drop 76 e))
      ∙ ap cleaned (take-append-drop 76 e))
  | inr short ↦ rw short refl
]

abbrev is_pad : ℕ → Bool
is_pad c = c == b'='

trim_left-pads :
    (p d : Bytes) → All (λ c. is_pad c ≡ true) p → All IsDigit d → trim_left_of is_pad (p ++ d) ≡ d
unfolding trim_left_of
trim_left-pads [] [] hp hd = refl
trim_left-pads [] (c ∷ d) hp hd = rw (hd.0.1) refl
trim_left-pads (c ∷ p) d hp hd = rw (hp.0) (trim_left-pads p d hp.1 hd)

pads-is_pad : (s : Bytes) → All (λ c. is_pad c ≡ true) (pads s)
unfolding pads
pads-is_pad [] = tt
pads-is_pad (a ∷ []) = (refl, (refl, tt))
pads-is_pad (a ∷ b ∷ []) = (refl, tt)
pads-is_pad (a ∷ b ∷ c ∷ rest) = pads-is_pad rest

trim_right-pads :
    (d p : Bytes) → All (λ c. is_pad c ≡ true) p → All IsDigit d → trim_right_of is_pad (d ++ p) ≡ d
unfolding trim_right_of
trim_right-pads d p hp hd =
    ap (λ t. reverse (trim_left_of is_pad t)) (reverse-append d p)
    ∙ ap reverse (
        trim_left-pads (reverse p) (reverse d) (All-reverse_aux (λ c. is_pad c ≡ true) p [] hp tt)
          (All-reverse_aux IsDigit d [] hd tt))
    ∙ reverse-reverse d

cleaned-pads : (s : Bytes) → cleaned (pads s) ≡ pads s
unfolding cleaned pads
cleaned-pads [] = refl
cleaned-pads (a ∷ []) = refl
cleaned-pads (a ∷ b ∷ []) = refl
cleaned-pads (a ∷ b ∷ c ∷ rest) = cleaned-pads rest

newlines-digits :
    (d p : Bytes) → All IsDigit d → without_newlines (d ++ p) ≡ d ++ without_newlines p
unfolding without_newlines
newlines-digits [] p h = refl
newlines-digits (c ∷ d) p h = ground (arith, h.0.0, newlines-digits d p h.1)

newlines-pads : (s : Bytes) → without_newlines (pads s) ≡ pads s
unfolding without_newlines pads
newlines-pads [] = refl
newlines-pads (a ∷ []) = refl
newlines-pads (a ∷ b ∷ []) = refl
newlines-pads (a ∷ b ∷ c ∷ rest) = newlines-pads rest

cleaned-encode : (s : Bytes) → AreBytes s → cleaned (wrap_base64 s) ≡ digits s ++ pads s
unfolding wrap_base64
cleaned-encode s h =
    cleaned-wrap_lines (length (encode_base64 s)) (encode_base64 s)
    ∙ ap cleaned (encode-digits s)
    ∙ cleaned-append (digits s) (pads s)
    ∙ ap₂ (λ d p. d ++ p) (cleaned-IsDigit (digits s) (digits-IsDigit s h)) (cleaned-pads s)

decode_unpadded-digits : (s : Bytes) → AreBytes s → decode_unpadded (digits s) ≡ some s
unfolding decode_unpadded decode_base64
decode_unpadded-digits s h =
    ap (λ p. decode_groups (without_newlines (digits s ++ p))) (padding-digits s)
    ∙ ap decode_groups (
        newlines-digits (digits s) (pads s) (digits-IsDigit s h)
        ∙ ap (λ p. digits s ++ p) (newlines-pads s))
    ∙ decode-encode s h

-- The content of an attachment, as the composer encodes and wraps it, is decoded by the parser to the
-- bytes that it was.
pub decode_transfer-wrap_base64 :
    (codec : Codec) (content : Bytes)
    → All (λ c. c < 256) content
    → decode_transfer codec (wrap_base64 content) (codes "base64") ≡ some content
unfolding decode_transfer str_eq to_lower trim_space
decode_transfer-wrap_base64 codec content h =
    ap (λ t. decode_unpadded (trim_right_of is_pad t)) (cleaned-encode content h)
    ∙ ap decode_unpadded (
        trim_right-pads (digits content) (pads content) (pads-is_pad content)
          (digits-IsDigit content h))
    ∙ decode_unpadded-digits content h
