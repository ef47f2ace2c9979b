-- ===== src/Mailparse/Headers/Block.antt =====
-- internal/web/compose.go: where the header block that is written ends.
use mailschleuse.Base.{
  ℕ, ◌≡◌, ◌≢◌, refl, sym, ap, ◌∙◌, subst, false, List, [], ◌∷◌, ◌++◌, append_assoc, append-nil,
  Option, none, some, All, All-append, arith, is_nil, Bytes, codes, crlf, is_space, trim_space,
  cut_at, prepend, has_prefix,
}
use mailschleuse.Web.Compose.Headers.{HeaderPair, write_header, write_headers}
use mailschleuse.Web.Compose.Clean.{IsUnbroken, AreUnbroken}

-- A byte of the name of a field.
abbrev pub IsFieldByte : ℕ → Type 0
IsFieldByte c = (is_space c ≡ false) × (c ≢ b':')

-- A name without white space and colons, and a value on one line without white space around it.
pub record IsField (h : HeaderPair) : Type 0 where
  pub named : is_nil h.name ≡ false
  pub name_plain : All IsFieldByte h.name
  pub value_unbroken : AreUnbroken h.value
  pub value_trimmed : trim_space h.value ≡ h.value

abbrev pub line_of : HeaderPair → Bytes
line_of h = h.name ++ (codes ": " ++ h.value)

field_byte-IsUnbroken : (c : ℕ) → IsFieldByte c → IsUnbroken c
unfolding is_space
field_byte-IsUnbroken c h = ((λ e. ground (arith, e, h.0)), (λ e. ground (arith, e, h.0)))

name-AreUnbroken : (s : Bytes) → All IsFieldByte s → AreUnbroken s
name-AreUnbroken [] h = tt
name-AreUnbroken (c ∷ s) h = (field_byte-IsUnbroken c h.0, name-AreUnbroken s h.1)

separator-AreUnbroken : AreUnbroken (codes ": ")
separator-AreUnbroken = ground arith

pub line-AreUnbroken : (h : HeaderPair) → IsField h → AreUnbroken (line_of h)
line-AreUnbroken h f =
    All-append IsUnbroken h.name _ (name-AreUnbroken h.name f.name_plain)
      (All-append IsUnbroken (codes ": ") h.value separator-AreUnbroken f.value_unbroken)

-- The lines with CRLF between them.
abbrev pub head_text : HeaderPair → List HeaderPair → Bytes
head_text h [] = line_of h
head_text h (g ∷ hs) = line_of h ++ (crlf ++ head_text g hs)

written_line :
    (h : HeaderPair) (hs : List HeaderPair) (t : Bytes)
    → write_headers (h ∷ hs) ++ t ≡ line_of h ++ (crlf ++ (write_headers hs ++ t))
unfolding write_headers write_header
written_line h hs t = simp append_assoc

abbrev pub blank : Bytes
blank = codes "\r\n\r\n"

abbrev behind : Bytes → Option (Bytes × Bytes) → Option (Bytes × Bytes)
behind l none = none
behind l (some (before, after)) = some (l ++ before, after)

behind_nil : (o : Option (Bytes × Bytes)) → o ≡ behind [] o
behind_nil none = refl
behind_nil (some (before, after)) = refl

prepend-behind :
    (c : ℕ) (l : Bytes) (o : Option (Bytes × Bytes)) → prepend c (behind l o) ≡ behind (c ∷ l) o
prepend-behind c l none = refl
prepend-behind c l (some (before, after)) = refl

cut_at-cons : (c : ℕ) (s : Bytes) → c ≢ b'\r' → cut_at (c ∷ s) blank ≡ prepend c (cut_at s blank)
unfolding cut_at has_prefix
cut_at-cons c s n = ground (arith, n)

cut_at-line : (l s : Bytes) → AreUnbroken l → cut_at (l ++ s) blank ≡ behind l (cut_at s blank)
cut_at-line [] s h = behind_nil (cut_at s blank)
cut_at-line (c ∷ l) s h =
    cut_at-cons c (l ++ s) h.0.0
    ∙ ap (prepend c) (cut_at-line l s h.1)
    ∙ prepend-behind c l (cut_at s blank)

cut_at-crlf :
    (l s : Bytes)
    → is_nil l ≡ false
    → AreUnbroken l
    → cut_at (crlf ++ (l ++ s)) blank ≡ behind crlf (cut_at (l ++ s) blank)
unfolding cut_at has_prefix
cut_at-crlf [] s e h = cc
cut_at-crlf (d ∷ l) s e h = ground (arith, h.0.0)

module _ (body : Bytes) where
  pub cut_at-written :
      (h : HeaderPair) (hs : List HeaderPair)
      → All IsField (h ∷ hs)
      → cut_at (write_headers (h ∷ hs) ++ (crlf ++ body)) blank ≡ some (head_text h hs, body)
  unfolding cut_at write_headers
  cut_at-written h [] f =
      ap (λ t. cut_at t blank) (written_line h [] (crlf ++ body))
      ∙ cut_at-line (line_of h) _ (line-AreUnbroken h f.0)
      ∙ last
    where
      last :
          behind (line_of h) (cut_at (crlf ++ (write_headers [] ++ (crlf ++ body))) blank)
          ≡ some (line_of h, body)
      last = ap (λ t. some (t, body)) (append-nil (line_of h))
  cut_at-written h (g ∷ hs) f =
      let rest = write_headers (g ∷ hs) ++ (crlf ++ body) in
      ap (λ t. cut_at t blank) (written_line h (g ∷ hs) (crlf ++ body))
      ∙ cut_at-line (line_of h) (crlf ++ rest) (line-AreUnbroken h f.0)
      ∙ ap (behind (line_of h)) (
          subst (λ t. cut_at (crlf ++ t) blank ≡ behind crlf (cut_at t blank))
            (sym (written_line g hs (crlf ++ body) ∙ append_assoc g.name (codes ": " ++ g.value) _))
            (cut_at-crlf g.name _ f.1.0.named (name-AreUnbroken g.name f.1.0.name_plain))
          ∙ ap (behind crlf) (cut_at-written g hs f.1))
