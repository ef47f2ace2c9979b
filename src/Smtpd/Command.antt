-- ===== src/Smtpd/Command.antt =====
-- internal/smtpd/server.go: the parts of a command line.
use mailschleuse.Base.{
  ◌&&◌, ◌==◌, Bool, not, ◌||◌, List, [], ◌∷◌, Option, none, some, ltb, if◌then◌else◌, is_nil,
  length, take, drop, Bytes, codes, has_prefix, to_upper, trim_space, cut, cut_at, fields, Dict,
  update, lower, ℕ, false,
}

-- `splitCommand`: the verb in capitals and its arguments.
unfoldable pub split_command : Bytes → Bytes × Bytes
unfolding cut to_upper trim_space
split_command line =
    let (verb, rest, found) = cut (trim_space line) b' ' in (to_upper verb, trim_space rest)

-- The bytes of the character in front of s, where it is the ASCII letter d but for its case, and zero
-- where it is not. Two characters outside of ASCII fold to ASCII letters: the long s (U+017F) and the
-- Kelvin sign (U+212A).
unfoldable pub fold_len : Bytes → ℕ → ℕ
unfolding lower has_prefix
fold_len [] d = 0
fold_len (c ∷ s) d =
    if lower c == lower d
    then 1
    else if lower d == b's' && (c == 197 && has_prefix s (191 ∷ []))
    then 2
    else if lower d == b'k' && (c == 226 && has_prefix s (132 ∷ 170 ∷ []))
    then 3
    else 0

-- `strings.EqualFold` with a second text in ASCII, which all its callers have.
unfoldable pub equal_fold : Bytes → Bytes → Bool
unfolding fold_len
equal_fold s [] = is_nil s
equal_fold s (d ∷ t) =
    let n = fold_len s d in let rest = equal_fold (drop n s) t in if n == 0 then false else rest

-- `cutPrefixFold`: none where the text does not begin with the prefix.
unfoldable pub cut_prefix_fold : Bytes → Bytes → Option Bytes
unfolding equal_fold trim_space
cut_prefix_fold s prefix =
    if ltb (length s) (length prefix) || not (equal_fold (take (length prefix) s) prefix)
    then none
    else some (trim_space (drop (length prefix) s))

abbrev pub Params : Type 0
Params = Dict Bytes

-- The loop of `parseParams`: a later field of the same key wins.
unfoldable pub parse_params : List Bytes → Params → Params
unfolding cut to_upper
parse_params [] into = into
parse_params (field ∷ rest) into =
    let (key, value, found) = cut field b'=' in
    parse_params rest (update into (to_upper key) (some value))

abbrev pub no_params : Params
no_params k = none

abbrev enclosed : Option (Bytes × Bytes) → Option (Bytes × Params)
enclosed none = none
enclosed (some (before, after)) =
    some (trim_space (drop 1 before), parse_params (fields after) no_params)

-- `parsePath`: none for the error "address must be enclosed in <>".
unfoldable pub parse_path : Bytes → Option (Bytes × Params)
unfolding parse_params fields trim_space has_prefix cut cut_at
parse_path raw =
    let text = trim_space raw in
    let (addr, rest, found) = cut text b' ' in
    if has_prefix text (codes "<")
    then enclosed (cut_at text (codes ">"))
    else some (trim_space addr, parse_params (fields rest) no_params)

-- `displayPath`.
unfoldable pub display_path : Bytes → Bytes
display_path addr = if is_nil addr then codes "<>" else addr

-- `orDefault`.
unfoldable pub or_default : Bytes → Bytes → Bytes
unfolding trim_space
or_default value fallback = if is_nil (trim_space value) then fallback else value
