-- ===== src/Pop3d/Session/State.antt =====
-- internal/pop3d/server.go: the state of a connection and of the server, locks and responses.
use mailschleuse.Base.{
  ℕ, zero, suc, ◌+◌, Bool, true, false, not, ◌&&◌, List, [], ◌∷◌, ◌++◌, Option, none, some,
  if◌then◌else◌, is_nil, ltb, ◌==◌, length, get_elem?, Bytes, str_eq, trim_space, ℤ, pos, negsuc,
  parse_int, cut, to_upper,
}
use mailschleuse.Store.Types.{Message}
use mailschleuse.Store.State.{Store}
use mailschleuse.Pop3d.Wire.{crlf_size}

pub record Options : Type 0 where
  pub hostname : Bytes
  pub username : Bytes
  pub password : Bytes
  pub default_mailbox : Bytes
  pub user_routing : Bool
  pub exclusive_lock : Bool
  pub has_tls : Bool

pub record Entry : Type 0 where
  pub msg : Message
  pub deleted : Bool

-- Responses and lines are kept as the source hands them to `fmt`: the format and its arguments.
pub data Arg : Type 0 where
  text : Bytes → Arg
  num : ℕ → Arg
  int : ℤ → Arg

pub data Output : Type 0 where
  ok err line : Bytes → List Arg → Output
  body : Bytes → Output

-- `input` holds the lines that the connection still gives, without their line ends, and `tls_input`
-- those that come over TLS after STLS, or none where the handshake fails.
pub record Session : Type 0 where
  pub tls_active : Bool
  pub username : Bytes
  pub mailbox : Bytes
  pub locked : Bool
  pub transaction : Bool
  pub entries : List Entry
  pub input : List Bytes
  pub tls_input : Option (List Bytes)
  pub output : List Output

-- The mailboxes that are locked.
abbrev pub Locks : Type 0
Locks = Bytes → Bool

abbrev pub set_lock : Locks → Bytes → Bool → Locks
set_lock locks name value j = if str_eq name j then value else locks j

-- `lock`, with whether it was granted.
unfoldable pub lock : Options → Bytes → Locks → Locks × Bool
lock o name locks =
    if not o.exclusive_lock
    then (locks, true)
    else if locks name
    then (locks, false)
    else (set_lock locks name true, true)

-- `unlock`.
unfoldable pub unlock : Options → Bytes → Locks → Locks
unlock o name locks = if not o.exclusive_lock then locks else set_lock locks name false

pub record State : Type 0 where
  pub session : Session
  pub locks : Locks
  pub store : Store

-- `release`.
unfoldable pub release : Options → State → State
unfolding unlock
release o st =
    if st.session.locked
    then record st {
      locks = unlock o st.session.mailbox st.locks;
      session = record (st.session) { locked = false };
    }
    else st

unfoldable pub send : Output → Session → Session
send out s = record s { output = s.output ++ out ∷ [] }

abbrev pub with_session : State → Session → State
with_session st s = record st { session = s }

unfoldable pub say : Output → State → State
unfolding send
say out st = with_session st (send out st.session)

-- The loop of `stats`: the count and the size of what is not deleted.
unfoldable pub sum_entries : List Entry → ℕ × ℕ → ℕ × ℕ
sum_entries [] acc = acc
sum_entries (e ∷ es) (count, size) =
    sum_entries es (if e.deleted then (count, size) else (count + 1, size + crlf_size e.msg.raw))

unfoldable pub stats : Session → ℕ × ℕ
unfolding sum_entries
stats s = sum_entries s.entries (0, 0)

pub data LookupError : Type 0 where
  invalid : Bytes → LookupError
  no_such : ℤ → LookupError
  marked : ℕ → LookupError

pub data Lookup : Type 0 where
  found : Entry → ℕ → Lookup
  missing : LookupError → Lookup

abbrev pub check_deleted : ℕ → Option Entry → Lookup
check_deleted n none = missing (no_such (pos n))
check_deleted n (some e) = if e.deleted then missing (marked n) else found e n

abbrev pub at_index : List Entry → ℤ → Lookup
at_index entries (negsuc n) = missing (no_such (negsuc n))
at_index entries (pos zero) = missing (no_such (pos 0))
at_index entries (pos (suc i)) =
    if ltb (length entries) (suc i)
    then missing (no_such (pos (suc i)))
    else check_deleted (suc i) (get_elem? entries i)

-- `lookup`.
unfoldable pub lookup : List Entry → Bytes → Lookup
unfolding parse_int trim_space
lookup entries arg = elim (parse_int (trim_space arg)) [
  | none ↦ missing (invalid (trim_space arg))
  | some index ↦ at_index entries index
]

-- `splitCommand`.
unfoldable pub split_command : Bytes → Bytes × Bytes
unfolding cut to_upper trim_space
split_command l =
    let (verb, rest, spaced) = cut (trim_space l) b' ' in (to_upper verb, trim_space rest)

-- The lines that `readLine` gives of a stream: what stands before an LF, without the CRs at its end;
-- the second argument is the line so far.
unfoldable pub strip_cr : Bytes → Bytes
strip_cr [] = []
strip_cr (c ∷ s) = let rest = strip_cr s in if c == b'\r' && is_nil rest then [] else c ∷ rest

unfoldable pub command_lines : Bytes → Bytes → List Bytes
unfolding strip_cr
command_lines [] cur = []
command_lines (c ∷ s) cur =
    let next = strip_cr cur ∷ command_lines s [] in
    let more = command_lines s (cur ++ c ∷ []) in if c == b'\n' then next else more
