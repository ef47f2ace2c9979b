-- ===== src/Pop3d/Server.antt =====
-- internal/pop3d/server.go: the connections of a server, which share the locks and the store.
pub mod Steps
pub mod Exclusive
use mailschleuse.Base.{ℕ, Bool, true, false, List, [], Option, Bytes, ◌==◌, ◌≢◌, if◌then◌else◌}
use mailschleuse.Store.State.{Store}
use mailschleuse.Pop3d.Session.State.{Options, Session, Locks, State, release}
use mailschleuse.Pop3d.Session.Transaction.{handle_quit}
use mailschleuse.Pop3d.Session.Loop.{Verb, quit, dispatch}

pub record Server : Type 0 where
  pub sessions : ℕ → Session
  pub locks : Locks
  pub store : Store

-- The session that `handle` makes for a new connection.
unfoldable pub new_session : Bool → List Bytes → Option (List Bytes) → Session
new_session tls input tls_input = record {
  tls_active = tls;
  username = [];
  mailbox = [];
  locked = false;
  transaction = false;
  entries = [];
  input = input;
  tls_input = tls_input;
  output = [];
}

-- What connection i sees.
abbrev pub view : ℕ → Server → State
view i s = record { session = s.sessions i; locks = s.locks; store = s.store }

abbrev pub seat : ℕ → Session → (ℕ → Session) → ℕ → Session
seat i session sessions j = if i == j then session else sessions j

abbrev pub with_turn : ℕ → State → Server → Server
with_turn i st s = record {
  sessions = seat i st.session s.sessions;
  locks = st.locks;
  store = st.store;
}

-- The connection has ended, and another one takes its place.
abbrev pub closing : ℕ → Session → State → Server → Server
closing i next st s = with_turn i (record st { session = next }) s

-- The connections take turns at any order: a command of one of them, QUIT with the release behind
-- it, or the end of a connection without QUIT.
pub data Turn (o : Options) : Server → Server → Type 0 where
  commanded :
      (i : ℕ) (v : Verb) (args : Bytes) {s : Server}
      → v ≢ quit
      → Turn o s (with_turn i (dispatch o v args (view i s)).0 s)
  signed_off :
      (i : ℕ) (tls : Bool) (input : List Bytes) (tls_input : Option (List Bytes)) {s : Server}
      → Turn o s
          (closing i (new_session tls input tls_input) (release o (handle_quit o (view i s))) s)
  broken_off :
      (i : ℕ) (tls : Bool) (input : List Bytes) (tls_input : Option (List Bytes)) {s : Server}
      → Turn o s (closing i (new_session tls input tls_input) (release o (view i s)) s)

-- Any number of turns.
pub data Reaches (o : Options) : Server → Server → Type 0 where
  here : {s : Server} → Reaches o s s
  then_turn : {s t u : Server} → Reaches o s t → Turn o t u → Reaches o s u
