-- ===== src/Config/Settings.antt =====
-- internal/config/config.go: the readers of environment variables, and the names of mailboxes.
pub mod Names
use mailschleuse.Base.{
  ℕ, Bool, true, false, not, ◌&&◌, ◌||◌, List, [], ◌∷◌, Option, none, some, if◌then◌else◌, is_nil,
  length, ltb, leb, ◌==◌, Bytes, codes, str_eq, to_lower, trim_space, split, ℤ, parse_int,
}

-- `HasMailbox`, on the list of the mailboxes.
unfoldable pub has_mailbox : List Bytes → Bytes → Bool
unfolding str_eq
has_mailbox [] name = false
has_mailbox (m ∷ ms) name = if str_eq m name then true else has_mailbox ms name

-- The characters of a name of a mailbox.
unfoldable pub is_name_char : ℕ → Bool
is_name_char r =
    if leb b'a' r && leb r b'z'
    then true
    else if leb b'0' r && leb r b'9'
    then true
    else r == b'-' || r == b'_'

unfoldable pub are_name_chars : Bytes → Bool
unfolding is_name_char
are_name_chars [] = true
are_name_chars (r ∷ name) = if is_name_char r then are_name_chars name else false

-- `ValidMailboxName`. A byte of a character that is not ASCII is refused, as is its rune.
unfoldable pub valid_mailbox_name : Bytes → Bool
unfolding are_name_chars
valid_mailbox_name name =
    if length name == 0 || ltb 32 (length name) then false else are_name_chars name

-- The environment.
abbrev pub Env : Type 0
Env = Bytes → Option Bytes

-- `env`.
unfoldable pub env : Env → Bytes → Bytes → Bytes
unfolding trim_space
env vars key fallback = elim (vars key) [
  | none ↦ fallback
  | some v ↦ if not (is_nil (trim_space v)) then trim_space v else fallback
]

-- The error of a reader: the variable and its value.
pub data Setting (A : Type 0) : Type 0 where
  is_set : A → Setting A
  malformed : Bytes → Bytes → Setting A

abbrev number : Bytes → Bytes → Option ℤ → Setting ℤ
number key raw none = malformed key raw
number key raw (some v) = is_set v

-- `envInt`.
unfoldable pub env_int : Env → Bytes → ℤ → Setting ℤ
unfolding env parse_int
env_int vars key fallback =
    let raw = env vars key [] in
    if is_nil raw then is_set fallback else number key raw (parse_int raw)

-- `envBool`.
unfoldable pub env_bool : Env → Bytes → Bool → Setting Bool
unfolding env to_lower str_eq
env_bool vars key fallback =
    let raw = env vars key [] in
    let word = to_lower raw in
    if is_nil raw
    then is_set fallback
    else if str_eq word (codes "1")
        || (str_eq word (codes "true") || (str_eq word (codes "yes") || str_eq word (codes "on")))
    then is_set true
    else if str_eq word (codes "0")
        || (str_eq word (codes "false") || (str_eq word (codes "no") || str_eq word (codes "off")))
    then is_set false
    else malformed key raw

-- The loop of `splitList` over the parts.
unfoldable pub list_parts : List Bytes → List Bytes
unfolding trim_space to_lower
list_parts [] = []
list_parts (p ∷ ps) =
    let part = trim_space (to_lower p) in
    let rest = list_parts ps in if not (is_nil part) then part ∷ rest else rest

-- `splitList`.
unfoldable pub split_list : Bytes → List Bytes
unfolding list_parts split
split_list raw = list_parts (split raw b',')
