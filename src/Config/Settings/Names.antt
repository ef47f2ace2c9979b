-- ===== src/Config/Settings/Names.antt =====
-- internal/config/config.go: names of mailboxes as directory names.
use mailschleuse.Base.{
  ℕ, ◌≤◌, ◌≡◌, ◌≢◌, true, ◌||◌, [], ◌∷◌, arith, All, Bytes, length, ltb, ◌==◌, Bool-cases, inl, inr,
}
use mailschleuse.Config.Settings.{is_name_char, are_name_chars, valid_mailbox_name}

-- No separator of a path and no dot.
abbrev pub IsPlainChar : ℕ → Type 0
IsPlainChar c = (c ≢ b'/') × ((c ≢ b'.') × (c ≢ b'\\'))

is_name_char-IsPlainChar : (c : ℕ) → is_name_char c ≡ true → IsPlainChar c
unfolding is_name_char
is_name_char-IsPlainChar c e =
    ((λ is. ground (arith, e, is)), ((λ is. ground (arith, e, is)), (λ is. ground (arith, e, is))))

are_name_chars-IsPlainChar : (name : Bytes) → are_name_chars name ≡ true → All IsPlainChar name
unfolding are_name_chars
are_name_chars-IsPlainChar [] e = tt
are_name_chars-IsPlainChar (c ∷ name) e = elim (Bool-cases (is_name_char c)) [
  | inl t ↦ (is_name_char-IsPlainChar c t, are_name_chars-IsPlainChar name (rw t at e))
  | inr f ↦ absurd (ground (arith, e, f))
]

-- A valid mailbox name is a safe name of a directory: it is not empty, has 32 bytes at most, and
-- holds neither a separator of a path nor a dot.
pub valid_mailbox_name-IsPlainChar :
    (name : Bytes)
    → valid_mailbox_name name ≡ true
    → (1 ≤ length name) × ((length name ≤ 32) × All IsPlainChar name)
unfolding valid_mailbox_name
valid_mailbox_name-IsPlainChar name e =
    elim (Bool-cases (length name == 0 || ltb 32 (length name))) [
      | inl t ↦ absurd (ground (arith, e, t))
      | inr f ↦
          (ground (arith, f), (ground (arith, f), are_name_chars-IsPlainChar name (rw f at e)))
    ]
