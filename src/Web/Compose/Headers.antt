-- ===== src/Web/Compose/Headers.antt =====
-- internal/web/compose.go: header fields.
use mailschleuse.Base.{
  ℕ, not, ◌||◌, List, [], ◌∷◌, ◌++◌, map, Option, none, some, if◌then◌else◌, is_nil, ◌==◌, Bytes,
  codes, crlf, trim_space, trim_of, split, join, has_suffix,
}

pub record HeaderPair : Type 0 where
  pub name : Bytes
  pub value : Bytes

-- `writeHeader`: what it adds to the buffer.
unfoldable pub write_header : HeaderPair → Bytes
write_header h = h.name ++ (codes ": " ++ (h.value ++ crlf))

unfoldable pub write_headers : List HeaderPair → Bytes
unfolding write_header
write_headers [] = []
write_headers (h ∷ hs) = write_header h ++ write_headers hs

unfoldable pub unbroken : ℕ → ℕ
unbroken c = if c == b'\r' || c == b'\n' then b' ' else c

-- `sanitizeHeaderValue`.
unfoldable pub sanitize_header_value : Bytes → Bytes
unfolding trim_space unbroken
sanitize_header_value value = trim_space (map unbroken value)

abbrev pub last_of : ℕ → ℕ → Bytes → Option (Bytes × Bytes) → Option (Bytes × Bytes)
last_of c sep s (some (before, after)) = some (c ∷ before, after)
last_of c sep s none = if c == sep then some ([], c ∷ s) else none

-- `strings.LastIndex` of one byte, with the text before it and the text from it on.
unfoldable pub cut_last : Bytes → ℕ → Option (Bytes × Bytes)
cut_last [] sep = none
cut_last (c ∷ s) sep = last_of c sep s (cut_last s sep)

-- The parameter is `mime.QEncoding.Encode` for UTF-8.
module _ (q_encode : Bytes → Bytes) where
  -- One address, which has a display name in front of "<".
  unfoldable pub encode_named : Bytes → Bytes → Bytes
  unfolding trim_space trim_of
  encode_named before after =
      let name = trim_of (λ c. c == b'"') (trim_space before) in
      trim_space (q_encode name ++ (codes " " ++ after))

  unfoldable pub encode_address : Bytes → Bytes
  unfolding cut_last encode_named has_suffix
  encode_address part = elim (cut_last part b'<') [
    | none ↦ part
    | some (before, after) ↦
        if is_nil before || not (has_suffix part (codes ">"))
        then part
        else encode_named before after
  ]

  -- The loop of `encodeAddressHeader` over the parts.
  unfoldable pub encode_parts : List Bytes → List Bytes
  unfolding encode_address trim_space
  encode_parts [] = []
  encode_parts (p ∷ ps) =
      let part = trim_space p in
      let rest = encode_parts ps in if is_nil part then rest else encode_address part ∷ rest

  -- `encodeAddressHeader`.
  unfoldable pub encode_address_header : Bytes → Bytes
  unfolding encode_parts split join sanitize_header_value
  encode_address_header raw =
      join (encode_parts (split (sanitize_header_value raw) b',')) (codes ", ")

-- The inner loop of `cleanList`.
unfoldable pub clean_parts : List Bytes → List Bytes
unfolding sanitize_header_value
clean_parts [] = []
clean_parts (s ∷ ss) =
    let single = sanitize_header_value s in
    let rest = clean_parts ss in if is_nil single then rest else single ∷ rest

-- `cleanList`.
unfoldable pub clean_list : List Bytes → List Bytes
unfolding clean_parts split
clean_list [] = []
clean_list (v ∷ vs) = clean_parts (split v b',') ++ clean_list vs
