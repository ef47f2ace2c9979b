-- ===== src/Web/Compose/Lines.antt =====
-- internal/web/compose.go: line ends, and base64 in lines.
use mailschleuse.Base.{
  ℕ, zero, suc, ◌+◌, ◌-◌, ◌*◌, ◌/◌, ◌%◌, [], ◌∷◌, ◌++◌, if◌then◌else◌, length, take, drop, ltb,
  ◌==◌, Bytes, crlf, crlf_to_lf,
}

unfoldable pub lf_to_crlf : Bytes → Bytes
lf_to_crlf [] = []
lf_to_crlf (c ∷ s) = if c == b'\n' then b'\r' ∷ b'\n' ∷ lf_to_crlf s else c ∷ lf_to_crlf s

-- `normalizeCRLF`.
unfoldable pub normalize_crlf : Bytes → Bytes
unfolding crlf_to_lf lf_to_crlf
normalize_crlf s = lf_to_crlf (crlf_to_lf s)

-- The digit of base64.
unfoldable pub sextet_digit : ℕ → ℕ
sextet_digit n =
    if ltb n 26
    then n + 65
    else if ltb n 52
    then n + 71
    else if ltb n 62
    then n - 4
    else if n == 62
    then b'+'
    else b'/'

-- `base64.StdEncoding.EncodeToString`.
unfoldable pub encode_base64 : Bytes → Bytes
unfolding sextet_digit
encode_base64 [] = []
encode_base64 (a ∷ []) = sextet_digit (a / 4) ∷ sextet_digit (a % 4 * 16) ∷ b'=' ∷ b'=' ∷ []
encode_base64 (a ∷ b ∷ []) =
    sextet_digit (a / 4)
    ∷ sextet_digit (a % 4 * 16 + b / 16)
    ∷ sextet_digit (b % 16 * 4)
    ∷ b'='
    ∷ []
encode_base64 (a ∷ b ∷ c ∷ rest) =
    sextet_digit (a / 4)
    ∷ sextet_digit (a % 4 * 16 + b / 16)
    ∷ sextet_digit (b % 16 * 4 + c / 64)
    ∷ sextet_digit (c % 64)
    ∷ encode_base64 rest

-- The loop of `wrapBase64`, on fuel: each round takes 76 characters, so that the length of the text
-- is enough.
unfoldable pub wrap_lines : ℕ → Bytes → Bytes
wrap_lines zero encoded = encoded
wrap_lines (suc fuel) encoded =
    let rest = wrap_lines fuel (drop 76 encoded) in
    if ltb 76 (length encoded) then take 76 encoded ++ (crlf ++ rest) else encoded

-- `wrapBase64`.
unfoldable pub wrap_base64 : Bytes → Bytes
unfolding wrap_lines encode_base64
wrap_base64 content = let encoded = encode_base64 content in wrap_lines (length encoded) encoded
