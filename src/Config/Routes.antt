-- ===== src/Config/Routes.antt =====
-- internal/config/routes.go: recipient routes.
pub mod Rules
use mailschleuse.Base.{
  Result, ok, err, ◌>>=◌, ◌>>◌, refuse, ℕ, ◌+◌, ◌-◌, Bool, true, false, not, ◌||◌, List, [], ◌∷◌,
  ◌++◌, ltb, ◌==◌, if◌then◌else◌, is_nil, length, take, drop, Bytes, codes, str_eq, has_prefix,
  has_suffix, to_lower, trim_space, cut, split, join,
}
use mailschleuse.Config.Types.{Route}

-- `Route.Matches`.
unfoldable pub matches_pattern : Bytes → Bytes → Bool
unfolding str_eq has_prefix has_suffix
matches_pattern pattern address =
    if str_eq pattern (codes "*")
    then true
    else if has_prefix pattern (codes "*@")
    then has_suffix address (drop 1 pattern)
    else if has_prefix pattern (codes "@")
    then has_suffix address pattern
    else if has_suffix pattern (codes "@*")
    then has_prefix address (take (length pattern - 1) pattern)
    else str_eq address pattern

unfoldable pub matches : Route → Bytes → Bool
unfolding matches_pattern to_lower trim_space
matches r address = matches_pattern (to_lower r.pattern) (to_lower (trim_space address))

-- `Route.String`.
unfoldable pub render : Route → Bytes
unfolding join
render r = r.pattern ++ (codes "=" ++ join r.mailboxes (codes ","))

pub data RouteError : Type 0 where
  bad_form too_many_wildcards no_mailbox : Bytes → RouteError
  unknown_mailbox : Bytes → Bytes → RouteError

abbrev pub Parsed : Type 0 → Type 0
Parsed A = Result RouteError A

-- `strings.Count(s, "*")`.
unfoldable pub stars : Bytes → ℕ
stars [] = 0
stars (c ∷ s) = if c == b'*' then stars s + 1 else stars s

-- `strings.FieldsFunc` at ";" and the newline.
unfoldable pub rules : Bytes → Bytes → List Bytes
rules [] cur = if is_nil cur then [] else cur ∷ []
rules (c ∷ s) cur =
    let next = rules s [] in
    let more = rules s (cur ++ c ∷ []) in
    if c == b';' || c == b'\n' then (if is_nil cur then next else cur ∷ next) else more

module _ (known : Bytes → Bool) where
  -- The loop over the targets of one rule.
  unfoldable pub read_targets : Bytes → List Bytes → List Bytes → Parsed (List Bytes)
  unfolding to_lower trim_space
  read_targets rule [] mailboxes = ok mailboxes
  read_targets rule (t ∷ ts) mailboxes =
      let target = to_lower (trim_space t) in
      let skip = read_targets rule ts mailboxes in
      let keep = read_targets rule ts (mailboxes ++ target ∷ []) in
      if is_nil target
      then skip
      else if not (known target)
      then err (unknown_mailbox rule target)
      else keep

  unfoldable pub read_rule : Bytes → Parsed Route
  unfolding read_targets cut split trim_space stars
  read_rule rule = do
    let (before, targets, found) = cut rule b'='
    let pattern = trim_space before
    refuse (not found || is_nil pattern) (bad_form rule)
    refuse (ltb 1 (stars pattern)) (too_many_wildcards rule)
    mailboxes ← read_targets rule (split targets b',') []
    refuse (is_nil mailboxes) (no_mailbox rule)
    ok (record { pattern = pattern; mailboxes = mailboxes })

  -- The loop over the rules.
  unfoldable pub read_rules : List Bytes → List Route → Parsed (List Route)
  unfolding read_rule trim_space
  read_rules [] routes = ok routes
  read_rules (r ∷ rs) routes =
      let rule = trim_space r in
      let skip = read_rules rs routes in
      let keep = read_rule rule >>= λ route. read_rules rs (routes ++ route ∷ []) in
      if is_nil rule then skip else keep

  unfoldable pub parse_routes : Bytes → Parsed (List Route)
  unfolding read_rules rules trim_space
  parse_routes raw =
      let text = trim_space raw in if is_nil text then ok [] else read_rules (rules text []) []
