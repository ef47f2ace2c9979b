-- ===== src/Mailparse/Headers/Written.antt =====
-- internal/mailparse/mailparse.go and internal/web/compose.go: headers that are written and read back.
use mailschleuse.Base.{
  ℕ, ◌≡◌, ◌≢◌, refl, sym, ap, ◌∙◌, true, false, List, [], ◌∷◌, ◌++◌, append_assoc, append-nil, map,
  some, All, All-reverse_aux, arith, is_nil, Bytes, codes, crlf, is_space, trim_left, trim_space,
  push_head, split, cut, cut_at, crlf_to_lf, ap₂,
}
use mathlib.Core.List.{reverse, reverse-reverse}
use mailschleuse.Mailparse.Types.{Header}
use mailschleuse.Mailparse.Headers.{split_message, is_folded, parse_lines, parse_headers}
use mailschleuse.Web.Compose.Headers.{HeaderPair, write_headers}
use mailschleuse.Web.Compose.Clean.{AreUnbroken}
use mailschleuse.Mailparse.Headers.Block.{
  IsFieldByte, IsField, line_of, line-AreUnbroken, head_text, blank, cut_at-written,
}

crlf_to_lf-cons : (c : ℕ) (s : Bytes) → c ≢ b'\r' → crlf_to_lf (c ∷ s) ≡ c ∷ crlf_to_lf s
unfolding crlf_to_lf
crlf_to_lf-cons c [] n = refl
crlf_to_lf-cons c (d ∷ s) n = ground (arith, n)

crlf_to_lf-line : (l s : Bytes) → AreUnbroken l → crlf_to_lf (l ++ s) ≡ l ++ crlf_to_lf s
crlf_to_lf-line [] s h = refl
crlf_to_lf-line (c ∷ l) s h =
    crlf_to_lf-cons c (l ++ s) h.0.0 ∙ ap (λ t. c ∷ t) (crlf_to_lf-line l s h.1)

split-cons : (c : ℕ) (s : Bytes) → c ≢ b'\n' → split (c ∷ s) b'\n' ≡ push_head c (split s b'\n')
unfolding split
split-cons c s n = ground (arith, n)

split-line : (l s : Bytes) → AreUnbroken l → split (l ++ b'\n' ∷ s) b'\n' ≡ l ∷ split s b'\n'
unfolding split
split-line [] s h = refl
split-line (c ∷ l) s h = split-cons c (l ++ b'\n' ∷ s) h.0.1 ∙ ap (push_head c) (split-line l s h.1)

split-last : (l : Bytes) → AreUnbroken l → split l b'\n' ≡ l ∷ []
unfolding split
split-last [] h = refl
split-last (c ∷ l) h = split-cons c l h.0.1 ∙ ap (push_head c) (split-last l h.1)

head_lines :
    (h : HeaderPair) (hs : List HeaderPair)
    → All IsField (h ∷ hs)
    → split (crlf_to_lf (head_text h hs)) b'\n' ≡ map line_of (h ∷ hs)
unfolding crlf_to_lf
head_lines h [] f =
    ap (λ t. split t b'\n')
      (ap crlf_to_lf (sym (append-nil (line_of h)))
        ∙ crlf_to_lf-line (line_of h) [] (line-AreUnbroken h f.0)
        ∙ append-nil (line_of h))
    ∙ split-last (line_of h) (line-AreUnbroken h f.0)
head_lines h (g ∷ hs) f =
    ap (λ t. split t b'\n')
      (crlf_to_lf-line (line_of h) (crlf ++ head_text g hs) (line-AreUnbroken h f.0))
    ∙ split-line (line_of h) (crlf_to_lf (head_text g hs)) (line-AreUnbroken h f.0)
    ∙ ap (λ ls. line_of h ∷ ls) (head_lines g hs f.1)

trim_left-plain : (s : Bytes) → All IsFieldByte s → trim_left s ≡ s
unfolding trim_left
trim_left-plain [] h = refl
trim_left-plain (c ∷ s) h = rw (h.0.0) refl

trim_space-plain : (s : Bytes) → All IsFieldByte s → trim_space s ≡ s
unfolding trim_space
trim_space-plain s h =
    ap (λ t. reverse (trim_left (reverse t))) (trim_left-plain s h)
    ∙ ap reverse (trim_left-plain (reverse s) (All-reverse_aux IsFieldByte s [] h tt))
    ∙ reverse-reverse s

cut-name : (s value : Bytes) → All IsFieldByte s → cut (s ++ b':' ∷ value) b':' ≡ (s, value, true)
unfolding cut
cut-name [] value h = refl
cut-name (c ∷ s) value h = ground (arith, h.0.1, cut-name s value h.1)

abbrev pub to_header : HeaderPair → Header
to_header h = record { name = h.name; value = h.value }

line_kind :
    (s t : Bytes)
    → is_nil s ≡ false
    → All IsFieldByte s
    → (is_nil (s ++ t) ≡ false) × (is_folded (s ++ t) ≡ false)
unfolding is_folded is_space
line_kind [] t e h = cc
line_kind (c ∷ s) t e h = (refl, ground (arith, h.0.0))

parse_lines-line :
    (h : HeaderPair) (ls : List Bytes) (headers : List Header)
    → IsField h
    → parse_lines (line_of h ∷ ls) headers ≡ parse_lines ls (headers ++ to_header h ∷ [])
unfolding parse_lines trim_space
parse_lines-line h ls headers f =
    let (full, flat) = line_kind h.name (codes ": " ++ h.value) f.named f.name_plain in
    rw (full, flat, cut-name h.name (b' ' ∷ h.value) f.name_plain)
      (ap₂ (λ name value. parse_lines ls (headers ++ record { name = name; value = value } ∷ []))
        (trim_space-plain h.name f.name_plain) f.value_trimmed)

parse_lines-fields :
    (hs : List HeaderPair) (headers : List Header)
    → All IsField hs
    → parse_lines (map line_of hs) headers ≡ headers ++ map to_header hs
unfolding parse_lines
parse_lines-fields [] headers f = sym (append-nil headers)
parse_lines-fields (h ∷ hs) headers f =
    parse_lines-line h (map line_of hs) headers f.0
    ∙ parse_lines-fields hs (headers ++ to_header h ∷ []) f.1
    ∙ append_assoc headers (to_header h ∷ []) (map to_header hs)

split_message-some :
    (raw : Bytes) {parts : Bytes × Bytes}
    → cut_at raw blank ≡ some parts
    → split_message raw ≡ parts
unfolding split_message
split_message-some raw e = rw (e, split_message) refl

-- Header fields that have a name without white space and colons, and a value on one line without
-- white space around it, are read back: the block that the composer writes for them, with an empty
-- line and a body behind it, is taken apart into this body and the same fields in the same order.
pub split_message-written :
    (h : HeaderPair) (hs : List HeaderPair) (body : Bytes)
    → All IsField (h ∷ hs)
    → (let parts = split_message (write_headers (h ∷ hs) ++ (crlf ++ body)) in
        (parts.1 ≡ body) × (parse_headers parts.0 ≡ map to_header (h ∷ hs)))
unfolding parse_headers
split_message-written h hs body f =
    let parts =
      split_message-some (write_headers (h ∷ hs) ++ (crlf ++ body)) {parts = (head_text h hs, body)}
        (cut_at-written body h hs f) in
    (
      ap (λ x. x.1) parts,
      ap (λ x. parse_headers x.0) parts
          ∙ ap (λ ls. parse_lines ls []) (head_lines h hs f)
          ∙ parse_lines-fields (h ∷ hs) [] f,
    )
