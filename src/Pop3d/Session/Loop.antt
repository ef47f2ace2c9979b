-- ===== src/Pop3d/Session/Loop.antt =====
-- internal/pop3d/server.go: the command loop.
use mailschleuse.Base.{
  ℕ, zero, suc, Bool, true, false, List, [], ◌∷◌, Option, none, some, if◌then◌else◌, Bytes, codes,
  str_eq,
}
use mailschleuse.Pop3d.Session.State.{
  Options, State, ok, err, text, release, say, with_session, split_command,
}
use mailschleuse.Pop3d.Session.Login.{handle_capa, handle_stls, handle_user, handle_pass}
use mailschleuse.Pop3d.Session.Transaction.{
  handle_stat, handle_list, handle_retr, handle_top, handle_dele, handle_rset, handle_quit,
}

pub data Verb : Type 0 where
  capa stls user pass stat list uidl retr top dele rset noop quit : Verb
  unknown : Bytes → Verb

-- The labels of the switch of `run`.
unfoldable pub verb_of : Bytes → Verb
unfolding str_eq
verb_of v =
    if str_eq v (codes "CAPA")
    then capa
    else if str_eq v (codes "STLS")
    then stls
    else if str_eq v (codes "USER")
    then user
    else if str_eq v (codes "PASS")
    then pass
    else if str_eq v (codes "STAT")
    then stat
    else if str_eq v (codes "LIST")
    then list
    else if str_eq v (codes "UIDL")
    then uidl
    else if str_eq v (codes "RETR")
    then retr
    else if str_eq v (codes "TOP")
    then top
    else if str_eq v (codes "DELE")
    then dele
    else if str_eq v (codes "RSET")
    then rset
    else if str_eq v (codes "NOOP")
    then noop
    else if str_eq v (codes "QUIT")
    then quit
    else unknown v

-- The switch of `run`, with whether the loop goes on.
unfoldable pub dispatch : Options → Verb → Bytes → State → State × Bool
unfolding handle_capa handle_stls handle_user handle_pass handle_stat handle_list handle_retr
    handle_top handle_dele handle_rset handle_quit say
dispatch o capa args st = (handle_capa o st, true)
dispatch o stls args st = handle_stls o st
dispatch o user args st = (handle_user args st, true)
dispatch o pass args st = (handle_pass o args st, true)
dispatch o stat args st = (handle_stat st, true)
dispatch o list args st = (handle_list args false st, true)
dispatch o uidl args st = (handle_list args true st, true)
dispatch o retr args st = (handle_retr args st, true)
dispatch o top args st = (handle_top args st, true)
dispatch o dele args st = (handle_dele args st, true)
dispatch o rset args st = (handle_rset st, true)
dispatch o noop args st = (say (ok [] []) st, true)
dispatch o quit args st = (handle_quit o st, false)
dispatch o (unknown v) args st = (say (err (codes "unknown command %q") (text v ∷ [])) st, true)

unfoldable pub command : Options → Bytes → State → State × Bool
unfolding dispatch verb_of split_command
command o l st = let (v, args) = split_command l in dispatch o (verb_of v) args st

-- One round of the loop, on the lines that are left.
unfoldable pub step : Options → List Bytes → State → State × Bool
unfolding command
step o [] st = (st, false)
step o (l ∷ rest) st = command o l (with_session st (record (st.session) { input = rest }))

-- The loop on fuel, with the deferred release at its end; none where the fuel runs out.
unfoldable pub loop : Options → ℕ → State → Option State
unfolding step release
loop o zero st = none
loop o (suc fuel) st =
    let (next, goes_on) = step o st.session.input st in
    elim goes_on [ true ↦ loop o fuel next | false ↦ some (release o next) ]

-- `handle`, on a connection that is ready: the greeting, the loop and the release.
unfoldable pub run : Options → ℕ → State → Option State
unfolding loop say
run o fuel st =
    loop o fuel (say (ok (codes "Mailschleuse POP3 ready on %s") (text o.hostname ∷ [])) st)
