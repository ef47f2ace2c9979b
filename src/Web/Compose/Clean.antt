-- ===== src/Web/Compose/Clean.antt =====
-- internal/web/compose.go: values and addresses without line breaks.
use mailschleuse.Base.{
  ℕ, ◌≡◌, ◌≢◌, inl, inr, false, List, [], ◌∷◌, map, All, All-append, All-trim_space, arith, is_nil,
  Bool-cases, ◌==◌, Bytes, trim_space, split, push_head,
}
use mailschleuse.Web.Compose.Headers.{unbroken, sanitize_header_value, clean_parts, clean_list}

-- Neither CR nor LF.
abbrev pub IsUnbroken : ℕ → Type 0
IsUnbroken c = (c ≢ b'\r') × (c ≢ b'\n')

abbrev pub AreUnbroken : Bytes → Type 0
AreUnbroken s = All IsUnbroken s

unbroken-IsUnbroken : (c : ℕ) → IsUnbroken (unbroken c)
unfolding unbroken
unbroken-IsUnbroken c = ((λ e. ground (arith, e)), (λ e. ground (arith, e)))

map_unbroken : (s : Bytes) → AreUnbroken (map unbroken s)
map_unbroken [] = tt
map_unbroken (c ∷ s) = (unbroken-IsUnbroken c, map_unbroken s)

pub sanitize-AreUnbroken : (value : Bytes) → AreUnbroken (sanitize_header_value value)
unfolding sanitize_header_value
sanitize-AreUnbroken value = All-trim_space IsUnbroken (map unbroken value) (map_unbroken value)

-- An address of a list: not empty, with no comma and no line break.
abbrev pub IsCleanByte : ℕ → Type 0
IsCleanByte c = (c ≢ b',') × IsUnbroken c

abbrev pub IsCleanEntry : Bytes → Type 0
IsCleanEntry s = (is_nil s ≡ false) × All IsCleanByte s

map_clean : (s : Bytes) → All (λ c. c ≢ b',') s → All IsCleanByte (map unbroken s)
unfolding unbroken
map_clean [] h = tt
map_clean (c ∷ s) h = ((λ e. h.0 (ground (arith, e)), unbroken-IsUnbroken c), map_clean s h.1)

clean_parts-IsCleanEntry :
    (ss : List Bytes) → All (λ s. All (λ c. c ≢ b',') s) ss → All IsCleanEntry (clean_parts ss)
unfolding clean_parts sanitize_header_value
clean_parts-IsCleanEntry [] h = tt
clean_parts-IsCleanEntry (s ∷ ss) h = elim (Bool-cases (is_nil (trim_space (map unbroken s)))) [
  | inl t ↦ rw t (clean_parts-IsCleanEntry ss h.1)
  | inr f ↦ rw f (
    (f, All-trim_space IsCleanByte (map unbroken s) (map_clean s h.0)),
    clean_parts-IsCleanEntry ss h.1,
  )
]

push_head_apart :
    (c sep : ℕ) (ps : List Bytes)
    → c ≢ sep
    → All (λ p. All (λ d. d ≢ sep) p) ps
    → All (λ p. All (λ d. d ≢ sep) p) (push_head c ps)
push_head_apart c sep [] n h = ((n, tt), tt)
push_head_apart c sep (p ∷ ps) n h = ((n, h.0), h.1)

split_apart : (s : Bytes) (sep : ℕ) → All (λ p. All (λ c. c ≢ sep) p) (split s sep)
unfolding split
split_apart [] sep = (tt, tt)
split_apart (c ∷ s) sep = elim (Bool-cases (c == sep)) [
  | inl t ↦ rw t (tt, split_apart s sep)
  | inr f ↦
      rw f (push_head_apart c sep (split s sep) (λ e. ground (arith, e, f)) (split_apart s sep))
]

-- Each entry that cleanList gives is a single address: it is not empty, and holds neither a comma nor
-- a line break.
pub clean_list-IsCleanEntry : (values : List Bytes) → All IsCleanEntry (clean_list values)
unfolding clean_list
clean_list-IsCleanEntry [] = tt
clean_list-IsCleanEntry (v ∷ vs) =
    All-append IsCleanEntry (clean_parts (split v b',')) (clean_list vs)
      (clean_parts-IsCleanEntry (split v b',') (split_apart v b',')) (clean_list-IsCleanEntry vs)
