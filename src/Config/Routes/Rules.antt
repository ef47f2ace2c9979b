-- ===== src/Config/Routes/Rules.antt =====
-- internal/config/routes.go: the routes that ParseRoutes accepts.
use mailschleuse.Base.{
  ok, Ensures, bind-Ensures, refuse-Ensures, ◌≤◌, ◌≡◌, Bool, true, false, not, ◌||◌, List, [], ◌∷◌,
  ◌++◌, arith, ltb, Bytes, All, All-append, is_nil, Bool-cases, inl, inr, trim_space, to_lower, cut,
  split, if_intro, subst,
}
use mailschleuse.Config.Types.{Route}
use mailschleuse.Config.Routes.{
  stars, rules, read_targets, read_rule, read_rules, parse_routes, bad_form, too_many_wildcards,
  no_mailbox,
}

module _ (known : Bytes → Bool) where
  -- A route with a pattern of one wildcard at most, and at least one mailbox, all of them known.
  pub record IsUsable (r : Route) : Type 0 where
    pub pattern_given : is_nil r.pattern ≡ false
    pub one_wildcard : stars r.pattern ≤ 1
    pub some_mailbox : is_nil r.mailboxes ≡ false
    pub all_known : All (λ m. known m ≡ true) r.mailboxes

  abbrev AllKnown : List Bytes → Type 0
  AllKnown ms = All (λ m. known m ≡ true) ms

  read_targets-Ensures :
      (rule : Bytes) (ts mailboxes : List Bytes)
      → AllKnown mailboxes
      → Ensures AllKnown (read_targets known rule ts mailboxes)
  unfolding read_targets
  read_targets-Ensures rule [] mailboxes h = h
  read_targets-Ensures rule (t ∷ ts) mailboxes h =
      let target = to_lower (trim_space t) in
      if_intro (Ensures AllKnown) (is_nil target) (read_targets-Ensures rule ts mailboxes h)
        (elim (Bool-cases (known target)) [
          | inl there ↦ rw there (
              read_targets-Ensures rule ts (mailboxes ++ target ∷ [])
                (All-append (λ m. known m ≡ true) mailboxes (target ∷ []) h (there, tt)))
          | inr absent ↦ rw absent tt
        ])

  read_rule-Ensures : (rule : Bytes) → Ensures IsUsable (read_rule known rule)
  unfolding read_rule
  read_rule-Ensures rule =
      let (before, targets, found) = cut rule b'=' in
      let pattern = trim_space before in
      refuse-Ensures IsUsable (not found || is_nil pattern) (bad_form rule) _ λ given.
        refuse-Ensures IsUsable (ltb 1 (stars pattern)) (too_many_wildcards rule) _ λ few.
          bind-Ensures AllKnown IsUsable (read_targets known rule (split targets b',') []) _
            (read_targets-Ensures rule (split targets b',') [] tt)
            λ mailboxes h.
              refuse-Ensures IsUsable (is_nil mailboxes) (no_mailbox rule) _ λ some_name. record {
                pattern_given = ground (arith, given);
                one_wildcard = ground (arith, few);
                some_mailbox = some_name;
                all_known = h;
              }

  read_rules-Ensures :
      (rs : List Bytes) (routes : List Route)
      → All IsUsable routes
      → Ensures (All IsUsable) (read_rules known rs routes)
  unfolding read_rules
  read_rules-Ensures [] routes h = h
  read_rules-Ensures (r ∷ rs) routes h =
      if_intro (Ensures (All IsUsable)) (is_nil (trim_space r)) (read_rules-Ensures rs routes h) (
        bind-Ensures IsUsable (All IsUsable) (read_rule known (trim_space r)) _
          (read_rule-Ensures (trim_space r))
          λ route u.
            read_rules-Ensures rs (routes ++ route ∷ [])
              (All-append IsUsable routes (route ∷ []) h (u, tt)))

  -- Every route that ParseRoutes accepts has a pattern with one wildcard at most, and it names at
  -- least one mailbox and only mailboxes that are known.
  pub parse_routes-IsUsable :
      (raw : Bytes) {routes : List Route} → parse_routes known raw ≡ ok routes → All IsUsable routes
  unfolding parse_routes
  parse_routes-IsUsable raw e = subst (Ensures (All IsUsable)) e (
      if_intro (Ensures (All IsUsable)) (is_nil (trim_space raw)) tt
        (read_rules-Ensures (rules (trim_space raw) []) [] tt))
