-- ===== src/Web/Types.antt =====
-- internal/web/server.go: options, requests and responses.
use mailschleuse.Base.{ℕ, Bool, List, ◌∷◌, [], Option, Bytes, Result}
use mailschleuse.Mailparse.Types.{Mail}
use mailschleuse.Store.Types.{Message, Summary, MailboxStats}
use mailschleuse.Store.State.{Store}
use mailschleuse.Store.Ops.{Stamp, DeliverError}
use mailschleuse.Web.Compose.{ComposeRequest}
use mailschleuse.Web.Compose.Bodies.{ComposeError, Mime}

pub record Endpoint : Type 0 where
  pub protocol : Bytes
  pub host : Bytes
  pub port : Bytes
  pub mailbox : Bytes
  pub username : Bytes
  pub auth_required : Bool
  pub tls : Bytes
  pub note : Bytes

pub record Options : Type 0 where
  pub version : Bytes
  pub hostname : Bytes
  pub base_path : Bytes
  pub username : Bytes
  pub password : Bytes
  pub cors_origin : Bytes
  pub read_only : Bool
  pub max_size : ℕ
  pub endpoints : List Endpoint
  pub routes : List Bytes

pub data Method : Type 0 where
  method_get method_head method_post method_put method_patch method_delete : Method
  method_options method_other : Method

-- A request as net/http gives it: the path is clean and without escapes, `query` answers the first
-- value of a parameter or the empty string, and `authorization` is that header.
pub record Request : Type 0 where
  pub method : Method
  pub path : Bytes
  pub query : Bytes → Bytes
  pub authorization : Bytes
  pub body : Bytes
  pub remote_addr : Bytes

-- What is written to the client: plain bytes, a JSON value by its fields, a file of the embedded
-- assets, or the stream of events of a subscription.
pub data Body : Type 0 where
  no_body done : Body
  bytes failed : Bytes → Body
  store_failed : DeliverError → Body
  compose_failed : ComposeError → Body
  health : Bytes → Body
  config : Options → List MailboxStats → Body
  mailboxes : List MailboxStats → Body
  page : List Summary → ℕ → ℕ → Body
  message : Message → Bool → Body
  cleared updated : ℕ → Body
  created : Bytes → Bytes → Body
  file : Bytes → Body
  stream : ℕ → Body

pub record Response : Type 0 where
  pub status : ℕ
  pub headers : List (Bytes × Bytes)
  pub body : Body

abbrev pub Handler : Type 0
Handler = Request → Store → Store × Response

-- What a server takes of other parts: the parser of messages, ids and times, the MIME encoders, the
-- JSON decoders, whose error is a text, and which assets there are.
pub record World : Type 0 where
  pub parse : Bytes → Mail
  pub stamp : ℕ → Stamp
  pub mime : Mime
  pub decode_patch : Bytes → Result Bytes (Option Bool)
  pub decode_compose : Bytes → Result Bytes ComposeRequest
  pub has_asset : Bytes → Bool

abbrev pub with_header : Bytes → Bytes → Response → Response
with_header name value r = record r { headers = (name, value) ∷ r.headers }

-- `writeJSON`, and so `writeError`.
abbrev pub json : ℕ → Body → Response
json status body = record { status = status; headers = []; body = body }
