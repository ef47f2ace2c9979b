-- ===== src/Web/Access.antt =====
-- internal/web/server.go: the handlers around the API, for logins, CORS, read-only mode and base path.
use mailschleuse.Base.{
  Bool, true, false, not, ◌&&◌, ◌||◌, [], ◌∷◌, ◌++◌, Option, none, some, if◌then◌else◌, is_nil,
  length, take, drop, ltb, Bytes, codes, str_eq, has_prefix, has_suffix, trim_suffix_byte, cut,
  decode_base64,
}
use mailschleuse.Store.State.{Store}
use mailschleuse.Smtpd.Command.{equal_fold}
use mailschleuse.Web.Types.{
  Options, Method, method_post, method_put, method_patch, method_delete, method_options, Response,
  Handler, no_body, bytes, failed, json, with_header,
}

abbrev user_of : Bytes × Bytes × Bool → Option (Bytes × Bytes)
user_of (user, password, true) = some (user, password)
user_of (user, password, false) = none

abbrev credentials : Option Bytes → Option (Bytes × Bytes)
credentials none = none
credentials (some text) = user_of (cut text b':')

-- `Request.BasicAuth`.
unfoldable pub basic_auth : Bytes → Option (Bytes × Bytes)
unfolding equal_fold decode_base64 cut
basic_auth header =
    if ltb (length header) 6 || not (equal_fold (take 6 header) (codes "Basic "))
    then none
    else credentials (decode_base64 (drop 6 header))

-- The name and the password of the options are given.
unfoldable pub is_login : Options → Option (Bytes × Bytes) → Bool
unfolding str_eq
is_login o none = false
is_login o (some (user, password)) = str_eq user o.username && str_eq password o.password

abbrev pub unauthorized : Response
unauthorized = record {
  status = 401;
  headers = (codes "WWW-Authenticate", codes "Basic realm=\"Mailschleuse\"") ∷ [];
  body = bytes (codes "unauthorized\n");
}

-- `withAuth`.
unfoldable pub with_auth : Options → Handler → Handler
unfolding has_suffix basic_auth is_login
with_auth o next r s =
    if is_nil o.username
    then next r s
    else if has_suffix r.path (codes "/healthz")
    then next r s
    else if not (is_login o (basic_auth r.authorization))
    then (s, unauthorized)
    else next r s

abbrev pub is_options : Method → Bool
is_options method_options = true
is_options _ = false

abbrev pub with_cors_headers : Options → Response → Response
with_cors_headers o r = with_header (codes "Access-Control-Allow-Origin") o.cors_origin (
    with_header (codes "Access-Control-Allow-Methods") (codes "GET, POST, PATCH, DELETE, OPTIONS")
      (with_header (codes "Access-Control-Allow-Headers") (codes "Content-Type, Authorization") r))

abbrev pub with_headers : (Response → Response) → Store × Response → Store × Response
with_headers f (s, r) = (s, f r)

-- `withCORS`.
unfoldable pub with_cors : Options → Handler → Handler
with_cors o next r s =
    if is_nil o.cors_origin
    then next r s
    else if is_options r.method
    then (s, with_cors_headers o (record { status = 204; headers = []; body = no_body }))
    else with_headers (with_cors_headers o) (next r s)

-- The methods that read-only mode refuses.
abbrev pub is_changing : Method → Bool
is_changing method_post = true
is_changing method_put = true
is_changing method_patch = true
is_changing method_delete = true
is_changing _ = false

-- `withReadOnly`.
unfoldable pub with_read_only : Options → Handler → Handler
with_read_only o next r s =
    if o.read_only && is_changing r.method
    then (s, json 403 (failed (codes "instance runs in read-only mode")))
    else next r s

-- The handler that `New` puts under the base path, whose last "/" is taken off.
unfoldable pub with_base : Options → Handler → Handler
unfolding trim_suffix_byte str_eq has_prefix
with_base o next r s =
    let base = trim_suffix_byte b'/' o.base_path in
    if is_nil base
    then next r s
    else if str_eq r.path base
    then (
      s,
      record { status = 301; headers = (codes "Location", base ++ codes "/") ∷ []; body = no_body },
    )
    else if has_prefix r.path (base ++ codes "/")
    then next (record r { path = drop (length base) r.path }) s
    else (s, record { status = 404; headers = []; body = bytes (codes "404 page not found\n") })
