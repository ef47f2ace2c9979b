-- ===== src/Config/Sizes.antt =====
-- internal/config/config.go: the readers of sizes, durations and modes, and the base path.
use mailschleuse.Base.{
  ◌≡◌, refl, ℕ, ◌+◌, ◌-◌, ◌*◌, ◌%◌, ◌^◌, ◌||◌, [], ◌∷◌, Option, none, some, if◌then◌else◌, is_nil,
  ltb, ◌==◌, Bytes, codes, str_eq, to_lower, to_upper, trim_space, has_suffix, trim_suffix, trim_of,
  ℤ, pos, negsuc, parse_int,
}
use mailschleuse.Config.Types.{
  AuthMode, auth_disabled, auth_optional, auth_required, TlsMode, tls_off, tls_auto, tls_files,
}
use mailschleuse.Config.Settings.{Env, env, Setting, is_set, malformed}

-- The int64 with the given bits.
unfoldable pub signed : ℕ → ℤ
signed n =
    let bits = n % 2 ^ 64 in if ltb bits (2 ^ 63) then pos bits else negsuc (2 ^ 64 - bits - 1)

-- `v * mult` on int64, which wraps around.
unfoldable pub times : ℤ → ℕ → ℤ
unfolding signed
times (pos n) mult = signed (n * mult)
times (negsuc n) mult = signed (2 ^ 64 - (n + 1) * mult % 2 ^ 64)

-- The unit at the end of a size, and the text before it.
unfoldable pub size_unit : Bytes → ℕ × Bytes
unfolding has_suffix trim_suffix
size_unit raw =
    let without : Bytes → Bytes → Bytes = λ long short. trim_suffix (trim_suffix raw long) short in
    if has_suffix raw (codes "KB") || has_suffix raw (codes "K")
    then (1024, without (codes "KB") (codes "K"))
    else if has_suffix raw (codes "MB") || has_suffix raw (codes "M")
    then (1024 * 1024, without (codes "MB") (codes "M"))
    else if has_suffix raw (codes "GB") || has_suffix raw (codes "G")
    then (1024 * 1024 * 1024, without (codes "GB") (codes "G"))
    else if has_suffix raw (codes "B")
    then (1, trim_suffix raw (codes "B"))
    else (1, raw)

unfoldable pub sized : Bytes → Bytes → ℕ → Option ℤ → Setting ℤ
unfolding times
sized key raw mult none = malformed key raw
sized key raw mult (some v) = is_set (times v mult)

-- `envBytes`.
unfoldable pub env_bytes : Env → Bytes → ℤ → Setting ℤ
unfolding env to_upper size_unit sized parse_int trim_space
env_bytes vars key fallback =
    let raw = to_upper (env vars key []) in
    let (mult, digits) = size_unit raw in
    if is_nil raw
    then is_set fallback
    else sized key (env vars key []) mult (parse_int (trim_space digits))

abbrev duration : Bytes → Bytes → Option ℤ → Setting ℤ
duration key raw none = malformed key raw
duration key raw (some d) = is_set d

-- `envDuration`, in nanoseconds. `time.ParseDuration` is a parameter.
unfoldable pub env_duration : (Bytes → Option ℤ) → Env → Bytes → ℤ → Setting ℤ
unfolding env
env_duration parse_duration vars key fallback =
    let raw = env vars key [] in
    if is_nil raw then is_set fallback else duration key raw (parse_duration raw)

-- `authMode`.
unfoldable pub auth_mode : Env → Bytes → Bytes → Setting AuthMode
unfolding env to_lower str_eq
auth_mode vars key fallback =
    let raw = to_lower (env vars key fallback) in
    if str_eq raw (codes "disabled")
    then is_set auth_disabled
    else if str_eq raw (codes "optional")
    then is_set auth_optional
    else if str_eq raw (codes "required")
    then is_set auth_required
    else malformed key raw

-- `tlsMode`.
unfoldable pub tls_mode : Env → Bytes → Bytes → Setting TlsMode
unfolding env to_lower str_eq
tls_mode vars key fallback =
    let raw = to_lower (env vars key fallback) in
    if str_eq raw (codes "off")
    then is_set tls_off
    else if str_eq raw (codes "auto")
    then is_set tls_auto
    else if str_eq raw (codes "files")
    then is_set tls_files
    else malformed key raw

-- `normalizeBasePath`.
unfoldable pub normalize_base_path : Bytes → Bytes
unfolding trim_of
normalize_base_path raw = b'/' ∷ trim_of (λ c. c == b'/') raw

megabytes :
    env_bytes (λ key. some (codes " 25mb")) (codes "MS_MAX_MESSAGE_SIZE") (pos 0)
    ≡ is_set (pos 26214400)
unfolding env_bytes
megabytes = refl

-- A size that is too large for an int64 wraps around.
wraps :
    env_bytes (λ key. some (codes "17179869185GB")) (codes "MS_MAX_MESSAGE_SIZE") (pos 0)
    ≡ is_set (pos 1073741824)
unfolding env_bytes
wraps = refl
