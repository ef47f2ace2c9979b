-- ===== src/Config/Types.antt =====
-- internal/config/config.go and internal/config/routes.go: modes and routes.
use mailschleuse.Base.{List, Bytes}

pub data AuthMode : Type 0 where
  auth_disabled auth_optional auth_required : AuthMode

pub data TlsMode : Type 0 where
  tls_off tls_auto tls_files : TlsMode

pub record Route : Type 0 where
  pub pattern : Bytes
  pub mailboxes : List Bytes
