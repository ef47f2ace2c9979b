-- ===== src/Pop3d/Session/Login.antt =====
-- internal/pop3d/server.go: the AUTHORIZATION state.
use mailschleuse.Base.{
  Bool, true, false, not, ◌&&◌, List, [], ◌∷◌, ◌++◌, map, none, some, if◌then◌else◌, is_nil, Bytes,
  codes, str_eq, trim_space, to_lower,
}
use mailschleuse.Store.Types.{Message}
use mailschleuse.Store.State.{Store}
use mailschleuse.Store.Queries.{has, snapshot}
use mailschleuse.Pop3d.Session.State.{
  Options, Entry, Session, State, Locks, ok, err, line, text, num, lock, release, say, stats,
  with_session,
}

unfoldable pub capabilities : Options → Session → List Bytes
capabilities o s =
    (if o.has_tls && not s.tls_active then codes "STLS" ∷ [] else [])
    ++ (codes "TOP"
        ∷ codes "UIDL"
        ∷ codes "USER"
        ∷ codes "RESP-CODES"
        ∷ codes "PIPELINING"
        ∷ codes "IMPLEMENTATION Mailschleuse"
        ∷ [])

unfoldable pub say_lines : List Bytes → State → State
unfolding say
say_lines [] st = st
say_lines (c ∷ cs) st = say_lines cs (say (line (codes "%s") (text c ∷ [])) st)

-- `handleCapa`.
unfoldable pub handle_capa : Options → State → State
unfolding say_lines capabilities
handle_capa o st =
    say (line (codes ".") [])
      (say_lines (capabilities o st.session) (say (ok (codes "Capability list follows") []) st))

-- `handleSTLS`, with whether the loop goes on.
unfoldable pub handle_stls : Options → State → State × Bool
unfolding say
handle_stls o st =
    let ready = say (ok (codes "Begin TLS negotiation") []) st in
    if not o.has_tls
    then (say (err (codes "TLS not available") []) st, true)
    else if st.session.tls_active
    then (say (err (codes "TLS already active") []) st, true)
    else elim st.session.tls_input [
      | none ↦ (ready, false)
      | some lines ↦ (
        with_session ready (record (ready.session) {
          tls_active = true;
          username = [];
          input = lines;
          tls_input = none;
        }),
        true,
      )
    ]

-- `handleUser`.
unfoldable pub handle_user : Bytes → State → State
unfolding say trim_space
handle_user args st =
    if st.session.transaction
    then say (err (codes "already authenticated") []) st
    else if is_nil (trim_space args)
    then say (err (codes "USER requires a name") []) st
    else say (ok (codes "user accepted, send PASS") [])
        (with_session st (record (st.session) { username = trim_space args }))

-- `credentialsValid`.
unfoldable pub credentials_valid : Options → Bytes → Bytes → Bool
unfolding str_eq
credentials_valid o username password =
    if is_nil o.username then true else str_eq username o.username && str_eq password o.password

-- `resolveMailbox`.
unfoldable pub resolve_mailbox : Options → Store → Bytes → Bytes
unfolding has to_lower trim_space
resolve_mailbox o store username =
    let candidate = to_lower (trim_space username) in
    if o.user_routing && has store candidate then candidate else o.default_mailbox

abbrev pub fresh_entry : Message → Entry
fresh_entry m = record { msg = m; deleted = false }

unfoldable pub announce_open : State → State
unfolding say stats
announce_open st =
    let (count, size) = stats st.session in
    say
      (ok (codes "mailbox %s ready: %d messages (%d octets)")
        (text st.session.mailbox ∷ num count ∷ num size ∷ []))
      st

-- The part of `handlePass` behind the lock.
unfoldable pub open_mailbox : Options → State → State
unfolding snapshot release say announce_open
open_mailbox o st = elim (snapshot st.store st.session.mailbox) [
  | none ↦ say (err (codes "cannot open mailbox %s") (text st.session.mailbox ∷ [])) (release o st)
  | some messages ↦ announce_open (
      with_session st
        (record (st.session) { entries = map fresh_entry messages; transaction = true }))
]

abbrev pub forget_user : State → State
forget_user st = with_session st (record (st.session) { username = [] })

-- `handlePass` once the mailbox is locked.
unfoldable pub admitted : Options → Bytes → Locks → State → State
unfolding open_mailbox
admitted o name locks st =
    open_mailbox o
      (record st { locks = locks; session = record (st.session) { mailbox = name; locked = true } })

-- `handlePass` where another session holds the mailbox.
unfoldable pub refused : Bytes → State → State
unfolding say
refused name st = forget_user (
    say (err (codes "[IN-USE] mailbox %s is locked by another session") (text name ∷ []))
      (with_session st (record (st.session) { mailbox = name })))

-- The part of `handlePass` with valid credentials, for the mailbox of the user.
unfoldable pub enter : Options → Bytes → State → State
unfolding lock admitted refused
enter o name st =
    let (locks, granted) = lock o name st.locks in
    if granted then admitted o name locks st else refused name st

-- `handlePass`.
unfoldable pub handle_pass : Options → Bytes → State → State
unfolding credentials_valid resolve_mailbox enter say
handle_pass o args st =
    if st.session.transaction
    then say (err (codes "already authenticated") []) st
    else if is_nil st.session.username
    then say (err (codes "send USER first") []) st
    else if not (credentials_valid o st.session.username args)
    then forget_user (say (err (codes "invalid credentials") []) st)
    else enter o (resolve_mailbox o st.store st.session.username) st
