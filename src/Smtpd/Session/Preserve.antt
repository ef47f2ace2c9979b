-- ===== src/Smtpd/Session/Preserve.antt =====
-- internal/smtpd/server.go: what AUTH preserves of a session.
use mailschleuse.Base.{
  ◌≡◌, refl, if◌then◌else◌, ℕ, Bool, true, false, List, [], ◌∷◌, Bytes, codes, inl, inr, some, none,
  Option, Option-cases, Bool-cases, trim_space, decode_base64, split, is_nil, str_eq,
}
use mailschleuse.Smtpd.Data.{LeftOver, LineRead, ended, overlong, line_read, read_line}
use mailschleuse.Smtpd.Command.{split_command}
use mailschleuse.Smtpd.Routing.{Options}
use mailschleuse.Smtpd.Session.State.{Session, is_disabled, reply, Arg}
use mailschleuse.Smtpd.Session.Auth.{
  credentials_valid, finish_auth, finish_plain, plain_token, with_line, auth_plain, login_answer,
  login_password, auth_login, handle_auth,
}

-- A property of sessions that these changes preserve is preserved by AUTH.
module _ (o : Options) (left_over : LeftOver) (P : Session → Type 0)
    (stays_reply : (code : ℕ) (format : Bytes) (args : List Arg) (s : Session)
      → P s
      → P (reply code format args s))
    (stays_login : (username : Bytes) (s : Session)
      → P s
      → P (record s { authenticated = true; username = username }))
    (stays_line : (s : Session) (l : Bytes) (rest : List Bytes)
      → read_line left_over s.input ≡ line_read l rest
      → P s
      → P (record s { input = rest }))
    (stays_cut : (s : Session) (rest : List Bytes)
      → read_line left_over s.input ≡ overlong rest
      → P s
      → P (record s { input = rest })) where
  -- A handler of the session that preserves the predicate.
  abbrev Keeps : (Session → Session) → Type 0
  Keeps f = (s : Session) → P s → P (f s)

  finish_auth-Keeps : (username password : Bytes) → Keeps (finish_auth o username password)
  unfolding finish_auth
  finish_auth-Keeps username password s h =
      elim (Bool-cases (credentials_valid o username password)) [
        | inl e ↦ rw e (stays_reply _ _ _ _ (stays_login username s h))
        | inr e ↦ rw e (stays_reply _ _ _ s h)
      ]

  finish_plain-Keeps : (parts : List Bytes) → Keeps (finish_plain o parts)
  unfolding finish_plain
  finish_plain-Keeps (i ∷ username ∷ password ∷ []) s h = finish_auth-Keeps username password s h
  finish_plain-Keeps [] s h = stays_reply _ _ _ s h
  finish_plain-Keeps _ s h = stays_reply _ _ _ s h

  plain_token-Keeps : (token : Bytes) → Keeps (plain_token o token)
  unfolding plain_token
  plain_token-Keeps token s h = elim (Option-cases (decode_base64 (trim_space token))) [
    | inl e ↦ rw (e, plain_token) (stays_reply _ _ _ s h)
    | inr (d, e) ↦ rw (e, plain_token) (finish_plain-Keeps (split d 0) s h)
  ]

  with_line-Keeps :
      (next : Bytes → Session → Session)
      → ((l : Bytes) → Keeps (next l))
      → Keeps (with_line left_over next)
  unfolding with_line
  with_line-Keeps next keeps s h = lines (read_line left_over s.input) refl
    where
      lines :
          (r : LineRead)
          → read_line left_over s.input ≡ r
          → P (elim r as (λ x. Session) [
            | ended ↦ s
            | overlong rest ↦ record s { input = rest }
            | line_read l rest ↦ next l (record s { input = rest })
          ])
      lines ended e = h
      lines (overlong rest) e = stays_cut s rest e h
      lines (line_read l rest) e = keeps l (record s { input = rest }) (stays_line s l rest e h)

  auth_plain-Keeps : (rest : Bytes) → Keeps (auth_plain left_over o rest)
  unfolding auth_plain
  auth_plain-Keeps rest s h = elim (Bool-cases (is_nil (trim_space rest))) [
    | inl e ↦ rw e (
        with_line-Keeps (plain_token o) (plain_token-Keeps) (reply 334 [] [] s)
          (stays_reply 334 [] [] s h))
    | inr e ↦ rw e (plain_token-Keeps rest s h)
  ]

  login_answer-Keeps : (u p : Option Bytes) → Keeps (login_answer o u p)
  login_answer-Keeps (some u) (some p) s h = finish_auth-Keeps u p s h
  login_answer-Keeps (some u) none s h = stays_reply _ _ _ s h
  login_answer-Keeps none p s h = stays_reply _ _ _ s h

  login_password-Keeps : (username : Bytes) → Keeps (login_password left_over o username)
  unfolding login_password
  login_password-Keeps username s h =
      with_line-Keeps _ (λ l. login_answer-Keeps _ _) _ (stays_reply _ _ _ s h)

  auth_login-Keeps : (rest : Bytes) → Keeps (auth_login left_over o rest)
  unfolding auth_login
  auth_login-Keeps rest s h = elim (Bool-cases (is_nil (trim_space rest))) [
    | inl e ↦ rw e (with_line-Keeps _ (login_password-Keeps) _ (stays_reply _ _ _ s h))
    | inr e ↦ rw e (login_password-Keeps rest s h)
  ]

  Keeps-if :
      (b : Bool) {f g : Session → Session} → Keeps f → Keeps g → Keeps (λ s. if b then f s else g s)
  Keeps-if true kf kg = kf
  Keeps-if false kf kg = kg

  -- `handle_auth` as a choice among handlers.
  pub handle_auth-Keeps : (args : Bytes) → Keeps (handle_auth left_over o args)
  unfolding handle_auth
  handle_auth-Keeps args s h =
      let rest = (split_command args).1 in
      Keeps-if (is_disabled o.auth) (stays_reply _ _ [])
        (Keeps-if s.authenticated (stays_reply _ _ []) (
          Keeps-if (str_eq (split_command args).0 (codes "PLAIN")) (auth_plain-Keeps rest) (
            Keeps-if (str_eq (split_command args).0 (codes "LOGIN")) (auth_login-Keeps rest)
              (stays_reply _ _ []))))
        s h
