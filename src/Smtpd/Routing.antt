-- ===== src/Smtpd/Routing.antt =====
-- internal/smtpd/server.go: which mailboxes a message is stored in.
pub mod Targets
use mailschleuse.Base.{
  ◌==◌, push_head, ℕ, Bool, not, ◌&&◌, List, [], ◌∷◌, ◌++◌, none, some, if◌then◌else◌, is_nil,
  length, drop, Bytes, codes, has_prefix, to_lower, trim_space, cut_at, contains,
}
use mailschleuse.Config.Types.{AuthMode, Route}
use mailschleuse.Config.Routes.{matches}

pub record Options : Type 0 where
  pub hostname : Bytes
  pub auth : AuthMode
  pub username : Bytes
  pub password : Bytes
  pub default_mailbox : Bytes
  pub user_routing : Bool
  pub header_routing : Bool
  pub routes : List Route
  pub add_received : Bool
  pub max_size : ℕ
  pub max_recipients : ℕ
  pub has_tls : Bool

abbrev pub routing_header : Bytes
routing_header = codes "X-Mailschleuse-Mailbox"

-- `strings.Split` at CRLF.
unfoldable pub split_crlf : Bytes → List Bytes
unfolding has_prefix
split_crlf [] = [] ∷ []
split_crlf (c ∷ []) = (c ∷ []) ∷ []
split_crlf (c ∷ d ∷ s) =
    let next = split_crlf s in
    let rest = split_crlf (d ∷ s) in
    if c == b'\r' && d == b'\n' then [] ∷ next else push_head c rest

abbrev head_of : Bytes → Bytes
head_of body = elim (cut_at body (codes "\r\n\r\n")) [ none ↦ body | some (before, after) ↦ before ]

-- The loop of `headerValue` over the lines of the head.
unfoldable pub find_header : Bytes → List Bytes → Bytes
unfolding has_prefix to_lower trim_space
find_header prefix [] = []
find_header prefix (line ∷ lines) =
    let rest = find_header prefix lines in
    if has_prefix (to_lower line) prefix then trim_space (drop (length prefix) line) else rest

unfoldable pub header_value : Bytes → Bytes → Bytes
unfolding find_header split_crlf cut_at
header_value body name = find_header (to_lower name ++ codes ":") (split_crlf (head_of body))

-- `Store.Has` is a parameter of the routing.
module _ (has : Bytes → Bool) where
  -- The loop over the mailboxes of one route; the list is what is matched so far, and `seen` is the
  -- same set.
  unfoldable pub add_mailboxes : List Bytes → List Bytes → List Bytes
  unfolding contains
  add_mailboxes [] matched = matched
  add_mailboxes (m ∷ ms) matched =
      add_mailboxes ms (if not (contains matched m) && has m then matched ++ m ∷ [] else matched)

  -- The loop over the routes for one recipient, which ends at the first that matches.
  unfoldable pub route_recipient : Bytes → List Route → List Bytes → List Bytes
  unfolding add_mailboxes matches
  route_recipient recipient [] matched = matched
  route_recipient recipient (r ∷ rs) matched =
      let rest = route_recipient recipient rs matched in
      if matches r recipient then add_mailboxes r.mailboxes matched else rest

  unfoldable pub route_all : List Route → List Bytes → List Bytes → List Bytes
  unfolding route_recipient
  route_all routes [] matched = matched
  route_all routes (r ∷ rs) matched = route_all routes rs (route_recipient r routes matched)

  -- `matchRoutes`.
  unfoldable pub match_routes : List Route → List Bytes → List Bytes
  unfolding route_all
  match_routes routes recipients = if is_nil routes then [] else route_all routes recipients []

  -- The steps of `resolveMailboxes`, from the last to the first.
  unfoldable pub by_user : Options → Bytes → List Bytes
  unfolding to_lower trim_space
  by_user o username =
      let candidate = to_lower (trim_space username) in
      if o.user_routing && not (is_nil username) && has candidate
      then candidate ∷ []
      else o.default_mailbox ∷ []

  unfoldable pub by_route : Options → Bytes → List Bytes → List Bytes
  unfolding match_routes by_user
  by_route o username recipients =
      let matched = match_routes o.routes recipients in
      if is_nil matched then by_user o username else matched

  unfoldable pub resolve_mailboxes : Options → Bytes → Bytes → List Bytes → List Bytes
  unfolding by_route header_value to_lower trim_space
  resolve_mailboxes o username body recipients =
      let name = header_value body routing_header in
      let candidate = to_lower (trim_space name) in
      if o.header_routing && not (is_nil name) && has candidate
      then candidate ∷ []
      else by_route o username recipients
