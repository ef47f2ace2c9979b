-- ===== src/Main.antt =====
-- cmd/mailschleuse/main.go: the servers that run builds from the configuration.
pub mod Wired
pub mod System
use mailschleuse.Base.{
  ◌==◌, ℕ, Bool, true, false, not, ◌&&◌, ◌||◌, List, [], ◌∷◌, ◌++◌, map, Option, none, some,
  if◌then◌else◌, is_nil, length, drop, Bytes, codes, str_eq, has_prefix, trim_suffix_byte,
  trim_space, ℤ, pos, negsuc, contains,
}
use mailschleuse.Config.Types.{AuthMode, TlsMode, Route}
use mailschleuse.Config.Routes.{render}
use mailschleuse.Config.Load.{Config, needs_login, is_off}
use mailschleuse.Store.State.{Store}
use mailschleuse.Store.Ops.{new}
use mailschleuse.Smtpd.Routing.{Options}
use mailschleuse.Pop3d.Session.State.{Options as Pop3Options}
use mailschleuse.Web.Types.{Options as WebOptions, Endpoint}

-- A limit that is not positive is none: the store and the servers read it as zero.
abbrev pub limit : ℤ → ℕ
limit (pos n) = n
limit (negsuc n) = 0

-- The store of `run`, with no data directory.
unfoldable pub open_store : Config → Store
unfolding new
open_store c = new c.mailboxes (limit c.max_messages) (limit c.max_size_bytes) none

-- The limit of recipients, with the default of `New` in internal/smtpd.
unfoldable pub recipients_limit : ℤ → ℕ
recipients_limit n = if limit n == 0 then 100 else limit n

-- The options of the SMTP server. Whether TLS is on is the result of `buildTLS`: it is off only in
-- that mode, as an error of the certificates ends the start.
unfoldable pub smtp_options : Config → Options
unfolding recipients_limit
smtp_options c = record {
  hostname = c.hostname;
  auth = c.smtp_auth;
  username = c.smtp_username;
  password = c.smtp_password;
  default_mailbox = c.smtp_mailbox;
  user_routing = c.smtp_user_routing;
  header_routing = c.smtp_header_route;
  routes = c.smtp_routes;
  add_received = c.smtp_add_received;
  max_size = limit c.max_size_bytes;
  max_recipients = recipients_limit c.smtp_max_rcpt;
  has_tls = not (is_off c.tls_mode);
}

unfoldable pub pop3_options : Config → Pop3Options
pop3_options c = record {
  hostname = c.hostname;
  username = c.pop3_username;
  password = c.pop3_password;
  default_mailbox = c.pop3_mailbox;
  user_routing = c.pop3_user_routing;
  exclusive_lock = c.pop3_lock;
  has_tls = not (is_off c.tls_mode);
}

-- The parameter is `net.SplitHostPort`: the host and the port, or none for its error.
module _ (split_host_port : Bytes → Option (Bytes × Bytes)) where
  -- `portOf`.
  unfoldable pub port_of : Bytes → Bytes
  unfolding has_prefix
  port_of addr = elim (split_host_port addr) [
    | some (host, port) ↦ port
    | none ↦ if has_prefix addr (codes ":") then drop 1 addr else addr
  ]

  -- The function `encryption` of `describeEndpoints`.
  unfoldable pub encryption : Config → Bool → Bytes
  encryption c implicit =
      if is_off c.tls_mode
      then codes "none"
      else if implicit
      then codes "implicit TLS (self-signed)"
      else codes "none or STARTTLS (self-signed)"

  unfoldable pub smtp_endpoint : Config → Bytes → Bytes → Bool → Bytes → Endpoint
  unfolding port_of encryption
  smtp_endpoint c protocol addr implicit note = record {
    protocol = protocol;
    host = c.public_host;
    port = port_of addr;
    mailbox = c.smtp_mailbox;
    username = c.smtp_username;
    auth_required = needs_login c.smtp_auth;
    tls = encryption c implicit;
    note = note;
  }

  unfoldable pub pop3_endpoint : Config → Bytes → Bytes → Bool → Bytes → Endpoint
  unfolding port_of encryption
  pop3_endpoint c protocol addr implicit note = record {
    protocol = protocol;
    host = c.public_host;
    port = port_of addr;
    mailbox = c.pop3_mailbox;
    username = c.pop3_username;
    auth_required = not (is_nil c.pop3_username);
    tls = encryption c implicit;
    note = note;
  }

  -- An endpoint for a listener that has an address.
  abbrev where_given : Bytes → Endpoint → List Endpoint
  where_given addr e = if is_nil addr then [] else e ∷ []

  -- `describeEndpoints`.
  unfoldable pub describe_endpoints : Config → List Endpoint
  unfolding smtp_endpoint pop3_endpoint
  describe_endpoints c =
      smtp_endpoint c (codes "SMTP") c.smtp_addr false
        (codes "outgoing mail of your application lands here")
      ∷ pop3_endpoint c (codes "POP3") c.pop3_addr false
          (codes "your application fetches mail from here")
      ∷ (where_given c.smtp_tls_addr (
            smtp_endpoint c (codes "SMTPS") c.smtp_tls_addr true
              (codes "same as SMTP, but TLS from the first byte"))
          ++ where_given c.pop3_tls_addr (
              pop3_endpoint c (codes "POP3S") c.pop3_tls_addr true
                (codes "same as POP3, but TLS from the first byte")))

  -- `describeRoutes`.
  unfoldable pub describe_routes : List Route → List Bytes
  unfolding render
  describe_routes [] = []
  describe_routes (r ∷ rs) = render r ∷ describe_routes rs

  unfoldable pub web_options : Bytes → Config → WebOptions
  unfolding describe_endpoints describe_routes
  web_options version c = record {
    version = version;
    hostname = c.hostname;
    base_path = c.base_path;
    username = c.web_username;
    password = c.web_password;
    cors_origin = c.cors_origin;
    read_only = c.read_only_mode;
    max_size = limit c.max_size_bytes;
    endpoints = describe_endpoints c;
    routes = describe_routes c.smtp_routes;
  }

  -- The URL of `probe`, or none for an address that has no port; `net.JoinHostPort` is a parameter.
  unfoldable pub probe_url : (Bytes → Bytes → Bytes) → Config → Option Bytes
  unfolding trim_suffix_byte has_prefix contains
  probe_url join_host_port c = elim (split_host_port c.http_addr) [
    | none ↦ none
    | some (host, port) ↦
        let everywhere = [] ∷ codes "0.0.0.0" ∷ codes "::" ∷ [] in
        let target = if contains everywhere host then codes "127.0.0.1" else host in
        let path = trim_suffix_byte b'/' c.base_path ++ codes "/healthz" in
        some (
          codes "http://"
          ++ (join_host_port target port
              ++ (codes "/" ++ (if has_prefix path (codes "/") then drop 1 path else path))))
  ]

-- The level of `newLogger`.
pub data Level : Type 0 where
  debug info warn error : Level

unfoldable pub log_level : Config → Level
unfolding str_eq
log_level c =
    if str_eq c.log_level (codes "debug")
    then debug
    else if str_eq c.log_level (codes "warn") || str_eq c.log_level (codes "warning")
    then warn
    else if str_eq c.log_level (codes "error")
    then error
    else info

-- The listeners that `run` opens, by protocol, address and implicit TLS.
pub record Listener : Type 0 where
  pub name : Bytes
  pub addr : Bytes
  pub implicit_tls : Bool

unfoldable pub listener_specs : Config → List Listener
listener_specs c =
    record { name = codes "http"; addr = c.http_addr; implicit_tls = false }
    ∷ record { name = codes "smtp"; addr = c.smtp_addr; implicit_tls = false }
    ∷ record { name = codes "smtps"; addr = c.smtp_tls_addr; implicit_tls = true }
    ∷ record { name = codes "pop3"; addr = c.pop3_addr; implicit_tls = false }
    ∷ record { name = codes "pop3s"; addr = c.pop3_tls_addr; implicit_tls = true }
    ∷ []

abbrev behind_bound : Bytes → List Bytes × Option Bytes → List Bytes × Option Bytes
behind_bound addr (opened, failure) = (addr ∷ opened, failure)

-- The loop that binds them, where the parameter says which addresses can be bound: the addresses that
-- are bound, and the protocol whose address cannot.
unfoldable pub bind_all : (Bytes → Bool) → List Listener → List Bytes × Option Bytes
unfolding trim_space
bind_all can_bind [] = ([], none)
bind_all can_bind (l ∷ ls) =
    let rest = bind_all can_bind ls in
    if is_nil (trim_space l.addr)
    then rest
    else if not (can_bind l.addr)
    then ([], some l.name)
    else behind_bound l.addr rest
