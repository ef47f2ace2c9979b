-- ===== src/Base/Trim.antt =====
-- More of Go's package strings: cutting bytes off both ends, and replacing.
use Prim.Native.Nat.{ℕ, ◌-◌}
use mathlib.Core.Bool.{Bool, ◌&&◌}
use mathlib.Core.List.{[], ◌∷◌, reverse}
use mailschleuse.Base.Tests.{◌==◌, if◌then◌else◌}
use mailschleuse.Base.Lists.{length, take}
use mailschleuse.Base.Text.{Bytes, has_suffix}

unfoldable pub trim_left_of : (ℕ → Bool) → Bytes → Bytes
trim_left_of p [] = []
trim_left_of p (c ∷ s) = let rest = trim_left_of p s in if p c then rest else c ∷ s

-- `strings.Trim` at the bytes of a set.
unfoldable pub trim_of : (ℕ → Bool) → Bytes → Bytes
unfolding trim_left_of
trim_of p s = reverse (trim_left_of p (reverse (trim_left_of p s)))

-- `strings.TrimRight` at the bytes of a set.
unfoldable pub trim_right_of : (ℕ → Bool) → Bytes → Bytes
unfolding trim_left_of
trim_right_of p s = reverse (trim_left_of p (reverse s))

-- `strings.TrimSuffix`.
unfoldable pub trim_suffix : Bytes → Bytes → Bytes
unfolding has_suffix
trim_suffix s suffix = if has_suffix s suffix then take (length s - length suffix) s else s

-- `strings.ReplaceAll(s, "\r\n", "\n")`.
unfoldable pub crlf_to_lf : Bytes → Bytes
crlf_to_lf [] = []
crlf_to_lf (c ∷ []) = c ∷ []
crlf_to_lf (c ∷ d ∷ s) =
    let next = crlf_to_lf s in
    let rest = crlf_to_lf (d ∷ s) in if c == b'\r' && d == b'\n' then b'\n' ∷ next else c ∷ rest
