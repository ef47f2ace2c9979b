-- ===== src/Config/Load.antt =====
-- internal/config/config.go: Load and validate.
pub mod Valid
use mailschleuse.Base.{
  ℕ, ◌*◌, Bool, true, false, not, ◌&&◌, ◌||◌, List, [], ◌∷◌, ◌++◌, Option, if◌then◌else◌, is_nil,
  ltb, Bytes, codes, to_lower, contains, ℤ, pos, negsuc, Result, ok, err, ◌>>=◌, ◌>>◌, refuse,
}
use mailschleuse.Config.Types.{
  AuthMode, auth_disabled, auth_optional, auth_required, TlsMode, tls_off, tls_auto, tls_files,
  Route,
}
use mailschleuse.Config.Routes.{RouteError, parse_routes}
use mailschleuse.Config.Settings.{
  Env, env, env_int, env_bool, Setting, is_set, malformed, split_list, valid_mailbox_name,
  has_mailbox,
}
use mailschleuse.Config.Sizes.{env_bytes, env_duration, auth_mode, tls_mode, normalize_base_path}

pub record Config : Type 0 where
  pub hostname : Bytes
  pub public_host : Bytes
  pub mailboxes : List Bytes
  pub data_dir : Bytes
  pub max_messages : ℤ
  pub max_size_bytes : ℤ
  pub http_addr : Bytes
  pub web_username : Bytes
  pub web_password : Bytes
  pub base_path : Bytes
  pub cors_origin : Bytes
  pub read_only_mode : Bool
  pub smtp_addr : Bytes
  pub smtp_tls_addr : Bytes
  pub smtp_auth : AuthMode
  pub smtp_username : Bytes
  pub smtp_password : Bytes
  pub smtp_mailbox : Bytes
  pub smtp_user_routing : Bool
  pub smtp_header_route : Bool
  pub smtp_routes : List Route
  pub smtp_add_received : Bool
  pub smtp_max_rcpt : ℤ
  pub pop3_addr : Bytes
  pub pop3_tls_addr : Bytes
  pub pop3_username : Bytes
  pub pop3_password : Bytes
  pub pop3_mailbox : Bytes
  pub pop3_user_routing : Bool
  pub pop3_lock : Bool
  pub tls_mode : TlsMode
  pub tls_cert_file : Bytes
  pub tls_key_file : Bytes
  pub idle_timeout : ℤ
  pub log_level : Bytes
  pub log_format : Bytes

pub data ConfigError : Type 0 where
  bad_setting : Bytes → Bytes → ConfigError
  bad_routes : RouteError → ConfigError
  no_mailboxes : ConfigError
  invalid_name listed_twice unknown_smtp_mailbox unknown_pop3_mailbox : Bytes → ConfigError
  auth_needs_login smtp_needs_password pop3_needs_password web_needs_password : ConfigError
  tls_needs_files tls_listeners_need_tls : ConfigError
  too_few_messages too_small_size : ConfigError

-- The loop of `validate` over the mailboxes, which gives the names seen.
unfoldable pub check_names : List Bytes → List Bytes → Result ConfigError (List Bytes)
unfolding valid_mailbox_name contains
check_names [] seen = ok seen
check_names (m ∷ ms) seen = do
  refuse (not (valid_mailbox_name m)) (invalid_name m)
  refuse (contains seen m) (listed_twice m)
  check_names ms (seen ++ m ∷ [])

-- `v < n`.
unfoldable pub below : ℤ → ℕ → Bool
below (pos v) n = ltb v n
below (negsuc v) n = true

abbrev pub needs_login : AuthMode → Bool
needs_login auth_required = true
needs_login _ = false

abbrev pub is_files : TlsMode → Bool
is_files tls_files = true
is_files _ = false

abbrev pub is_off : TlsMode → Bool
is_off tls_off = true
is_off _ = false

-- `validate`.
unfoldable pub validate : Config → Result ConfigError (Unit {0})
unfolding check_names contains below
validate c = do
  refuse (is_nil c.mailboxes) no_mailboxes
  seen ← check_names c.mailboxes []
  refuse (not (contains seen c.smtp_mailbox)) (unknown_smtp_mailbox c.smtp_mailbox)
  refuse (not (contains seen c.pop3_mailbox)) (unknown_pop3_mailbox c.pop3_mailbox)
  refuse (needs_login c.smtp_auth && is_nil c.smtp_username) auth_needs_login
  refuse (not (is_nil c.smtp_username) && is_nil c.smtp_password) smtp_needs_password
  refuse (not (is_nil c.pop3_username) && is_nil c.pop3_password) pop3_needs_password
  refuse (not (is_nil c.web_username) && is_nil c.web_password) web_needs_password
  refuse (is_files c.tls_mode && (is_nil c.tls_cert_file || is_nil c.tls_key_file)) tls_needs_files
  refuse (is_off c.tls_mode && (not (is_nil c.smtp_tls_addr) || not (is_nil c.pop3_tls_addr)))
      tls_listeners_need_tls
  refuse (below c.max_messages 1) too_few_messages
  refuse (below c.max_size_bytes 1024) too_small_size
  ok tt

abbrev pub required : {A : Type 0} → Setting A → Result ConfigError A
required (is_set v) = ok v
required (malformed key raw) = err (bad_setting key raw)

abbrev pub routed : {A : Type 0} → Result RouteError A → Result ConfigError A
routed (ok v) = ok v
routed (err e) = err (bad_routes e)

-- The parameter is `time.ParseDuration`, the argument the environment.
module _ (parse_duration : Bytes → Option ℤ) (vars : Env) where
  -- The settings that `Load` reads, before it checks them; the routes are still empty.
  unfoldable pub settings : Result ConfigError Config
  unfolding env env_int env_bool env_bytes env_duration auth_mode tls_mode split_list to_lower
      normalize_base_path
  settings = do
    max_messages ← required (env_int vars (codes "MS_MAX_MESSAGES") (pos 500))
    max_size_bytes ←
        required (env_bytes vars (codes "MS_MAX_MESSAGE_SIZE") (pos (25 * 1024 * 1024)))
    smtp_max_rcpt ← required (env_int vars (codes "MS_SMTP_MAX_RECIPIENTS") (pos 100))
    read_only_mode ← required (env_bool vars (codes "MS_WEB_READ_ONLY") false)
    smtp_user_routing ← required (env_bool vars (codes "MS_SMTP_MAILBOX_FROM_USERNAME") false)
    smtp_header_route ← required (env_bool vars (codes "MS_SMTP_HEADER_ROUTING") true)
    smtp_add_received ← required (env_bool vars (codes "MS_SMTP_ADD_RECEIVED") true)
    pop3_user_routing ← required (env_bool vars (codes "MS_POP3_MAILBOX_FROM_USERNAME") false)
    pop3_lock ← required (env_bool vars (codes "MS_POP3_EXCLUSIVE_LOCK") true)
    idle_timeout ←
        required
          (env_duration parse_duration vars (codes "MS_IDLE_TIMEOUT") (pos (5 * 60 * 1000000000)))
    smtp_auth ← required (auth_mode vars (codes "MS_SMTP_AUTH") (codes "optional"))
    mode ← required (tls_mode vars (codes "MS_TLS_MODE") (codes "auto"))
    ok (record {
      hostname = env vars (codes "MS_HOSTNAME") (codes "mailschleuse.local");
      public_host = env vars (codes "MS_PUBLIC_HOST") (codes "localhost");
      mailboxes = split_list (env vars (codes "MS_MAILBOXES") (codes "inbox,outbox"));
      data_dir = env vars (codes "MS_DATA_DIR") [];
      max_messages = max_messages;
      max_size_bytes = max_size_bytes;
      http_addr = env vars (codes "MS_HTTP_ADDR") (codes ":8080");
      web_username = env vars (codes "MS_WEB_USERNAME") [];
      web_password = env vars (codes "MS_WEB_PASSWORD") [];
      base_path = normalize_base_path (env vars (codes "MS_WEB_BASE_PATH") (codes "/"));
      cors_origin = env vars (codes "MS_WEB_CORS_ORIGIN") [];
      read_only_mode = read_only_mode;
      smtp_addr = env vars (codes "MS_SMTP_ADDR") (codes ":1025");
      smtp_tls_addr = env vars (codes "MS_SMTP_TLS_ADDR") [];
      smtp_auth = smtp_auth;
      smtp_username = env vars (codes "MS_SMTP_USERNAME") [];
      smtp_password = env vars (codes "MS_SMTP_PASSWORD") [];
      smtp_mailbox = env vars (codes "MS_SMTP_MAILBOX") (codes "outbox");
      smtp_user_routing = smtp_user_routing;
      smtp_header_route = smtp_header_route;
      smtp_routes = [];
      smtp_add_received = smtp_add_received;
      smtp_max_rcpt = smtp_max_rcpt;
      pop3_addr = env vars (codes "MS_POP3_ADDR") (codes ":1110");
      pop3_tls_addr = env vars (codes "MS_POP3_TLS_ADDR") [];
      pop3_username = env vars (codes "MS_POP3_USERNAME") [];
      pop3_password = env vars (codes "MS_POP3_PASSWORD") [];
      pop3_mailbox = env vars (codes "MS_POP3_MAILBOX") (codes "inbox");
      pop3_user_routing = pop3_user_routing;
      pop3_lock = pop3_lock;
      tls_mode = mode;
      tls_cert_file = env vars (codes "MS_TLS_CERT_FILE") [];
      tls_key_file = env vars (codes "MS_TLS_KEY_FILE") [];
      idle_timeout = idle_timeout;
      log_level = to_lower (env vars (codes "MS_LOG_LEVEL") (codes "info"));
      log_format = to_lower (env vars (codes "MS_LOG_FORMAT") (codes "text"));
    })

  -- `Load`.
  unfoldable pub load : Result ConfigError Config
  unfolding settings validate parse_routes has_mailbox env
  load = do
    c ← settings
    validate c
    routes ← routed (parse_routes (has_mailbox c.mailboxes) (env vars (codes "MS_SMTP_ROUTES") []))
    ok (record c { smtp_routes = routes })
