-- ===== src/Mailparse/Headers/Lookup.antt =====
-- internal/mailparse/mailparse.go: Message.header against headerMap.
use mailschleuse.Base.{
  ◌<◌, ◌==◌, lower, ℕ, All, if◌then◌else◌, ◌≡◌, refl, ap, ◌∙◌, inl, inr, List, [], ◌∷◌, none, some,
  arith, Bytes, str_eq, eq_of_str_eq, to_lower, Bool-cases, Option-cases, Dict, update, update_ne,
}
use mailschleuse.Smtpd.Command.{fold_len, equal_fold}
use mailschleuse.Mailparse.Types.{Header}
use mailschleuse.Mailparse.Headers.{header, add_headers, header_map, lookup}

-- A key that the map has keeps its value.
add_headers-some :
    (hs : List Header) (out : Dict Bytes) (k : Bytes) {v : Bytes}
    → out k ≡ some v
    → add_headers hs out k ≡ some v
unfolding add_headers
add_headers-some [] out k e = e
add_headers-some (h ∷ hs) out k {v} e = elim (Option-cases (out (to_lower h.name))) [
  | inl missing ↦ rw missing (
      add_headers-some hs _ k {v = v}
        (update_ne out (to_lower h.name) k (some h.value) (λ same. cc (ap out same)) ∙ e))
  | inr (x, there) ↦ rw there (add_headers-some hs out k {v = v} e)
]

abbrev pub IsAscii : ℕ → Type 0
IsAscii c = c < 128

fold_len-ascii :
    (c d : ℕ) (s : Bytes) → c < 128 → fold_len (c ∷ s) d ≡ (if lower c == lower d then 1 else 0)
unfolding fold_len
fold_len-ascii c d s h = ground (arith, h)

-- In ASCII, two names that differ in case only have the same small letters.
equal_fold-to_lower :
    (s t : Bytes) → All IsAscii s → equal_fold s t ≡ str_eq (to_lower s) (to_lower t)
unfolding equal_fold fold_len str_eq to_lower
equal_fold-to_lower [] [] h = refl
equal_fold-to_lower (c ∷ s) [] h = refl
equal_fold-to_lower [] (d ∷ t) h = refl
equal_fold-to_lower (c ∷ s) (d ∷ t) h = elim (Bool-cases (lower c == lower d)) [
  | inl e ↦ rw (fold_len-ascii c d s h.0, e) (equal_fold-to_lower s t h.1)
  | inr e ↦ rw (fold_len-ascii c d s h.0, e) refl
]

add_headers-header :
    (hs : List Header) (out : Dict Bytes) (name : Bytes)
    → All (λ h. All IsAscii h.name) hs
    → out (to_lower name) ≡ none
    → lookup (add_headers hs out) (to_lower name) ≡ header hs name
unfolding add_headers header
add_headers-header [] out name ascii e = rw (e, lookup) refl
add_headers-header (h ∷ hs) out name ascii e =
    rw (equal_fold-to_lower h.name name ascii.0)
      (elim (Bool-cases (str_eq (to_lower h.name) (to_lower name))) [
        | inl t ↦
            let same : to_lower h.name ≡ to_lower name =
              eq_of_str_eq (to_lower h.name) (to_lower name) t in
            rw (t, ap out same ∙ e)
              (ap (λ o. elim o as (λ x. Bytes) [ none ↦ [] | some value ↦ value ])
                (add_headers-some hs (update out (to_lower h.name) (some h.value)) (to_lower name)
                  {v = h.value} (ground (arith, t))))
        | inr f ↦ elim (Option-cases (out (to_lower h.name))) [
          | inl missing ↦
              rw (f, missing) (add_headers-header hs _ name ascii.1 (ground (arith, f, e)))
          | inr (x, there) ↦ rw (f, there) (add_headers-header hs out name ascii.1 e)
        ]
      ])

-- Where the names of the headers and the name that is looked for are in ASCII, the map that the walk
-- over the parts uses answers, for the name in small letters, what the search through the header
-- list does: the value of the first header of that name.
pub header_map-header :
    (hs : List Header) (name : Bytes)
    → All (λ h. All IsAscii h.name) hs
    → All IsAscii name
    → lookup (header_map hs) (to_lower name) ≡ header hs name
unfolding header_map
header_map-header hs name ascii plain = add_headers-header hs (λ k. none) name ascii refl
