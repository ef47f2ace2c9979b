-- ===== src/Smtpd/Session/State.antt =====
-- internal/smtpd/server.go: the state of a connection, replies, EHLO and STARTTLS.
use mailschleuse.Base.{
  ℕ, Bool, true, false, not, ◌&&◌, List, [], ◌∷◌, ◌++◌, Option, none, some, if◌then◌else◌, is_nil,
  Bytes, codes, trim_space,
}
use mailschleuse.Config.Types.{AuthMode, auth_disabled, auth_optional, auth_required}
use mailschleuse.Smtpd.Routing.{Options}

-- A reply is kept as the source hands it to `fmt.Sprintf`: the format and its arguments.
pub data Arg : Type 0 where
  text : Bytes → Arg
  num : ℕ → Arg

pub record Line : Type 0 where
  pub format : Bytes
  pub args : List Arg

pub record Reply : Type 0 where
  pub code : ℕ
  pub lines : List Line

-- `input` holds the lines that the connection still gives, and `tls_input` those that come over TLS
-- after STARTTLS, or none where the handshake fails. `replies` are those that were sent, in order.
pub record Session : Type 0 where
  pub helo : Bytes
  pub tls_active : Bool
  pub authenticated : Bool
  pub username : Bytes
  pub from : Bytes
  pub rcpts : List Bytes
  pub in_mail : Bool
  pub remote : Bytes
  pub input : List Bytes
  pub tls_input : Option (List Bytes)
  pub replies : List Reply

abbrev pub line : Bytes → List Arg → Line
line format args = record { format = format; args = args }

-- `multiReply`.
unfoldable pub multi_reply : ℕ → List Line → Session → Session
multi_reply code lines s = record s {
  replies = s.replies ++ record { code = code; lines = lines } ∷ [];
}

-- `reply`.
unfoldable pub reply : ℕ → Bytes → List Arg → Session → Session
unfolding multi_reply
reply code format args s = multi_reply code (line format args ∷ []) s

-- `resetTransaction`.
unfoldable pub reset_transaction : Session → Session
reset_transaction s = record s { from = []; rcpts = []; in_mail = false }

abbrev pub is_disabled : AuthMode → Bool
is_disabled auth_disabled = true
is_disabled auth_optional = false
is_disabled auth_required = false

abbrev pub is_required : AuthMode → Bool
is_required auth_disabled = false
is_required auth_optional = false
is_required auth_required = true

unfoldable pub ehlo_lines : Options → Session → List Line
ehlo_lines o s =
    line (codes "%s greets %s") (text o.hostname ∷ text s.helo ∷ [])
    ∷ line (codes "SIZE %d") (num o.max_size ∷ [])
    ∷ line (codes "8BITMIME") []
    ∷ line (codes "SMTPUTF8") []
    ∷ line (codes "PIPELINING") []
    ∷ line (codes "ENHANCEDSTATUSCODES") []
    ∷ ((if o.has_tls && not s.tls_active then line (codes "STARTTLS") [] ∷ [] else [])
        ++ (if is_disabled o.auth then [] else line (codes "AUTH PLAIN LOGIN") [] ∷ []))

-- `handleEhlo`.
unfoldable pub handle_ehlo : Options → Bytes → Bool → Session → Session
unfolding trim_space reply reset_transaction ehlo_lines
handle_ehlo o args extended s =
    let helo = trim_space args in
    let s' : Session = record s { helo = helo } in
    let fresh = reset_transaction s' in
    if is_nil helo
    then reply 501 (codes "5.5.4 Syntax: EHLO hostname") [] s'
    else if not extended
    then reply 250 (codes "%s") (text o.hostname ∷ []) fresh
    else multi_reply 250 (ehlo_lines o fresh) fresh

abbrev no_input : Option (List Bytes) → List Bytes
no_input none = []
no_input (some lines) = lines

-- What a handshake that succeeds leaves of the session (RFC 3207): the reader is new, so that lines
-- sent before the handshake are dropped.
unfoldable pub secured : List Bytes → Session → Session
unfolding reset_transaction
secured lines s = reset_transaction (record s {
  tls_active = true;
  helo = [];
  authenticated = false;
  username = [];
  input = lines;
  tls_input = none;
})

-- `handleStartTLS`, with whether the loop goes on.
unfoldable pub handle_start_tls : Options → Session → Session × Bool
unfolding reply secured
handle_start_tls o s =
    let ready = reply 220 (codes "2.0.0 Ready to start TLS") [] s in
    if not o.has_tls
    then (reply 454 (codes "4.7.0 TLS not available") [] s, true)
    else if s.tls_active
    then (reply 503 (codes "5.5.1 TLS already active") [] s, true)
    else elim s.tls_input [ none ↦ (ready, false) | some lines ↦ (secured lines ready, true) ]
