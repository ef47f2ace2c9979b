-- ===== src/Smtpd/Session/Auth.antt =====
-- internal/smtpd/server.go: AUTH.
use mailschleuse.Base.{
  Bool, true, ◌&&◌, List, [], ◌∷◌, Option, none, some, if◌then◌else◌, is_nil, Bytes, codes,
  trim_space, split, str_eq, decode_base64,
}
use mailschleuse.Smtpd.Data.{LeftOver, ended, overlong, line_read, read_line}
use mailschleuse.Smtpd.Command.{split_command}
use mailschleuse.Smtpd.Routing.{Options}
use mailschleuse.Smtpd.Session.State.{Session, text, reply, is_disabled}

-- `credentialsValid`.
unfoldable pub credentials_valid : Options → Bytes → Bytes → Bool
unfolding str_eq
credentials_valid o username password =
    if is_nil o.username then true else str_eq username o.username && str_eq password o.password

-- `finishAuth`.
unfoldable pub finish_auth : Options → Bytes → Bytes → Session → Session
unfolding credentials_valid reply
finish_auth o username password s =
    if credentials_valid o username password
    then reply 235 (codes "2.7.0 Authentication successful") []
        (record s { authenticated = true; username = username })
    else reply 535 (codes "5.7.8 Authentication credentials invalid") [] s

-- The decoded token of AUTH PLAIN: three parts, between NULs.
unfoldable pub finish_plain : Options → List Bytes → Session → Session
unfolding finish_auth
finish_plain o (identity ∷ username ∷ password ∷ []) s = finish_auth o username password s
finish_plain o _ s = reply 501 (codes "5.5.2 Malformed AUTH PLAIN response") [] s

unfoldable pub plain_token : Options → Bytes → Session → Session
unfolding finish_plain decode_base64 split trim_space
plain_token o token s = elim (decode_base64 (trim_space token)) [
  | none ↦ reply 501 (codes "5.5.2 Cannot decode AUTH PLAIN response") [] s
  | some decoded ↦ finish_plain o (split decoded 0) s
]

-- What a handler does with the next line; a failed read ends the handler, with what it leaves.
unfoldable pub with_line : LeftOver → (Bytes → Session → Session) → Session → Session
unfolding read_line
with_line left_over next s = elim (read_line left_over s.input) [
  | ended ↦ s
  | overlong rest ↦ record s { input = rest }
  | line_read l rest ↦ next l (record s { input = rest })
]

unfoldable pub auth_plain : LeftOver → Options → Bytes → Session → Session
unfolding plain_token with_line trim_space
auth_plain left_over o rest s =
    if is_nil (trim_space rest)
    then with_line left_over (plain_token o) (reply 334 [] [] s)
    else plain_token o rest s

abbrev pub login_answer : Options → Option Bytes → Option Bytes → Session → Session
login_answer o (some username) (some password) s = finish_auth o username password s
login_answer o _ _ s = reply 501 (codes "5.5.2 Cannot decode AUTH LOGIN response") [] s

unfoldable pub login_password : LeftOver → Options → Bytes → Session → Session
unfolding with_line finish_auth decode_base64 trim_space
login_password left_over o username s =
    with_line left_over
      (λ l. login_answer o (decode_base64 (trim_space username)) (decode_base64 (trim_space l)))
      (reply 334 (codes "%s") (text (codes "UGFzc3dvcmQ6") ∷ []) s)

unfoldable pub auth_login : LeftOver → Options → Bytes → Session → Session
unfolding login_password with_line trim_space
auth_login left_over o rest s =
    if is_nil (trim_space rest)
    then with_line left_over (login_password left_over o)
        (reply 334 (codes "%s") (text (codes "VXNlcm5hbWU6") ∷ []) s)
    else login_password left_over o rest s

-- `handleAuth`.
unfoldable pub handle_auth : LeftOver → Options → Bytes → Session → Session
unfolding split_command auth_plain auth_login str_eq
handle_auth left_over o args s =
    let (mechanism, rest) = split_command args in
    if is_disabled o.auth
    then reply 502 (codes "5.5.1 AUTH not available") [] s
    else if s.authenticated
    then reply 503 (codes "5.5.1 Already authenticated") [] s
    else if str_eq mechanism (codes "PLAIN")
    then auth_plain left_over o rest s
    else if str_eq mechanism (codes "LOGIN")
    then auth_login left_over o rest s
    else reply 504 (codes "5.5.4 Unsupported authentication mechanism") [] s
