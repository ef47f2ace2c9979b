-- ===== src/Smtpd/Routing/Targets.antt =====
-- internal/smtpd/server.go: the mailboxes that resolveMailboxes gives.
use mailschleuse.Base.{
  Unique, Unique-append, contains-All, ◌≡◌, refl, ◌⊎◌, inl, inr, Bool, true, false, not, ◌&&◌, List,
  [], ◌∷◌, ◌++◌, Bytes, All, All-append, if◌then◌else◌, if_intro, is_nil, contains, Bool-cases,
  to_lower, trim_space,
}
use mailschleuse.Config.Types.{Route}
use mailschleuse.Config.Routes.{matches}
use mailschleuse.Smtpd.Routing.{
  Options, add_mailboxes, route_recipient, route_all, match_routes, by_user, by_route,
  resolve_mailboxes, header_value, routing_header,
}

module _ (has : Bytes → Bool) where
  -- Each name once, and each that of a mailbox.
  pub record IsMatched (ns : List Bytes) : Type 0 where
    pub unique : Unique ns
    pub known : All (λ m. has m ≡ true) ns

  add_one :
      (m : Bytes) (matched : List Bytes)
      → IsMatched matched
      → IsMatched (if not (contains matched m) && has m then matched ++ m ∷ [] else matched)
  add_one m matched h = elim (Bool-cases (contains matched m)) [
    | inl there ↦ rw there h
    | inr new ↦ elim (Bool-cases (has m)) [
      | inr absent ↦ rw (new, absent) h
      | inl there ↦
          rw (new, there)
            (record {
              unique = Unique-append matched m h.unique (contains-All matched m new);
              known = All-append (λ m. has m ≡ true) matched (m ∷ []) h.known (there, tt);
            })
    ]
  ]

  add_mailboxes-IsMatched :
      (ms matched : List Bytes) → IsMatched matched → IsMatched (add_mailboxes has ms matched)
  unfolding add_mailboxes
  add_mailboxes-IsMatched [] matched h = h
  add_mailboxes-IsMatched (m ∷ ms) matched h = add_mailboxes-IsMatched ms _ (add_one m matched h)

  route_recipient-IsMatched :
      (recipient : Bytes) (routes : List Route) (matched : List Bytes)
      → IsMatched matched
      → IsMatched (route_recipient has recipient routes matched)
  unfolding route_recipient
  route_recipient-IsMatched recipient [] matched h = h
  route_recipient-IsMatched recipient (r ∷ rs) matched h =
      if_intro IsMatched (matches r recipient) (add_mailboxes-IsMatched r.mailboxes matched h)
        (route_recipient-IsMatched recipient rs matched h)

  route_all-IsMatched :
      (routes : List Route) (recipients matched : List Bytes)
      → IsMatched matched
      → IsMatched (route_all has routes recipients matched)
  unfolding route_all
  route_all-IsMatched routes [] matched h = h
  route_all-IsMatched routes (r ∷ rs) matched h =
      route_all-IsMatched routes rs _ (route_recipient-IsMatched r routes matched h)

  -- The mailboxes that the routes give for the recipients: each once, and none that does not exist.
  pub match_routes-IsMatched :
      (routes : List Route) (recipients : List Bytes)
      → IsMatched (match_routes has routes recipients)
  unfolding match_routes
  match_routes-IsMatched routes recipients =
      let none_yet : IsMatched [] = record { unique = tt; known = tt } in
      if_intro IsMatched (is_nil routes) none_yet
        (route_all-IsMatched routes recipients [] none_yet)

  -- What a message may be stored in: at least one mailbox, each once, and each one that exists or
  -- the default mailbox.
  pub record IsResolved (o : Options) (ns : List Bytes) : Type 0 where
    pub some_name : is_nil ns ≡ false
    pub unique : Unique ns
    pub known : All (λ m. (has m ≡ true) ⊎ (m ≡ o.default_mailbox)) ns

  single-IsResolved :
      (o : Options) (m : Bytes) → (has m ≡ true) ⊎ (m ≡ o.default_mailbox) → IsResolved o (m ∷ [])
  single-IsResolved o m k = record { some_name = refl; unique = (tt, tt); known = (k, tt) }

  chosen-IsResolved :
      (o : Options) (a b : Bool) (m : Bytes) (ns : List Bytes)
      → IsResolved o ns
      → IsResolved o (if a && not b && has m then m ∷ [] else ns)
  chosen-IsResolved o false b m ns h = h
  chosen-IsResolved o true true m ns h = h
  chosen-IsResolved o true false m ns h = elim (Bool-cases (has m)) [
    | inl there ↦ rw there (single-IsResolved o m (inl there))
    | inr absent ↦ rw absent h
  ]

  by_user-IsResolved : (o : Options) (username : Bytes) → IsResolved o (by_user has o username)
  unfolding by_user
  by_user-IsResolved o username =
      chosen-IsResolved o o.user_routing (is_nil username) (to_lower (trim_space username)) _
        (single-IsResolved o o.default_mailbox (inr refl))

  matched-known :
      (o : Options) (ns : List Bytes)
      → All (λ m. has m ≡ true) ns
      → All (λ m. (has m ≡ true) ⊎ (m ≡ o.default_mailbox)) ns
  matched-known o [] h = tt
  matched-known o (n ∷ ns) h = (inl h.0, matched-known o ns h.1)

  by_route-IsResolved :
      (o : Options) (username : Bytes) (recipients : List Bytes)
      → IsResolved o (by_route has o username recipients)
  unfolding by_route
  by_route-IsResolved o username recipients =
      let ns = match_routes has o.routes recipients in
      let h = match_routes-IsMatched o.routes recipients in
      elim (Bool-cases (is_nil ns)) [
        | inl e ↦ rw e (by_user-IsResolved o username)
        | inr e ↦
            rw e (record { some_name = e; unique = h.unique; known = matched-known o ns h.known })
      ]

  -- Each message is stored in at least one mailbox, in none twice, and only in mailboxes that exist,
  -- apart from the default one.
  pub resolve_mailboxes-IsResolved :
      (o : Options) (username body : Bytes) (recipients : List Bytes)
      → IsResolved o (resolve_mailboxes has o username body recipients)
  unfolding resolve_mailboxes
  resolve_mailboxes-IsResolved o username body recipients =
      chosen-IsResolved o o.header_routing (is_nil (header_value body routing_header))
        (to_lower (trim_space (header_value body routing_header))) _
        (by_route-IsResolved o username recipients)
