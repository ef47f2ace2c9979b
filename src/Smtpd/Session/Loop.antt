-- ===== src/Smtpd/Session/Loop.antt =====
-- internal/smtpd/server.go: the command loop.
use mailschleuse.Base.{
  ℕ, zero, suc, Bool, true, false, ◌||◌, [], ◌∷◌, Option, none, some, if◌then◌else◌, is_nil, Bytes,
  codes, str_eq,
}
use mailschleuse.Store.State.{Store}
use mailschleuse.Smtpd.Data.{ended, overlong, line_read, read_line}
use mailschleuse.Smtpd.Command.{split_command}
use mailschleuse.Smtpd.Routing.{Options}
use mailschleuse.Smtpd.Session.State.{
  Session, text, reply, reset_transaction, handle_ehlo, handle_start_tls,
}
use mailschleuse.Smtpd.Session.Auth.{handle_auth}
use mailschleuse.Smtpd.Session.Mail.{handle_mail, handle_rcpt}
use mailschleuse.Smtpd.Session.Deliver.{World, handle_data}

pub data Verb : Type 0 where
  ehlo helo starttls auth mail rcpt data_verb rset noop vrfy help quit empty : Verb
  unknown : Bytes → Verb

-- The labels of the switch of `run`.
unfoldable pub verb_of : Bytes → Verb
unfolding str_eq
verb_of v =
    if str_eq v (codes "EHLO")
    then ehlo
    else if str_eq v (codes "HELO")
    then helo
    else if str_eq v (codes "STARTTLS")
    then starttls
    else if str_eq v (codes "AUTH")
    then auth
    else if str_eq v (codes "MAIL")
    then mail
    else if str_eq v (codes "RCPT")
    then rcpt
    else if str_eq v (codes "DATA")
    then data_verb
    else if str_eq v (codes "RSET")
    then rset
    else if str_eq v (codes "NOOP")
    then noop
    else if str_eq v (codes "VRFY") || str_eq v (codes "EXPN")
    then vrfy
    else if str_eq v (codes "HELP")
    then help
    else if str_eq v (codes "QUIT")
    then quit
    else if is_nil v
    then empty
    else unknown v

pub record State : Type 0 where
  pub session : Session
  pub store : Store

abbrev with_session : State → Session → State
with_session st s = record st { session = s }

abbrev with_data : Session × Store → State
with_data (s, store) = record { session = s; store = store }

-- The switch of `run`, with whether the loop goes on.
unfoldable pub dispatch : World → Options → Verb → Bytes → State → State × Bool
unfolding handle_ehlo handle_start_tls handle_auth handle_mail handle_rcpt handle_data
    reset_transaction reply
dispatch w o ehlo args st = (with_session st (handle_ehlo o args true st.session), true)
dispatch w o helo args st = (with_session st (handle_ehlo o args false st.session), true)
dispatch w o starttls args st =
    let (s, goes_on) = handle_start_tls o st.session in (with_session st s, goes_on)
dispatch w o auth args st = (with_session st (handle_auth w.left_over o args st.session), true)
dispatch w o mail args st = (with_session st (handle_mail o args st.session), true)
dispatch w o rcpt args st = (with_session st (handle_rcpt o args st.session), true)
dispatch w o data_verb args st = (with_data (handle_data w o st.session st.store), true)
dispatch w o rset args st =
    (with_session st (reply 250 (codes "2.0.0 OK") [] (reset_transaction st.session)), true)
dispatch w o noop args st = (with_session st (reply 250 (codes "2.0.0 OK") [] st.session), true)
dispatch w o vrfy args st = (
  with_session st
      (reply 252 (codes "2.5.2 Cannot verify, but will accept the message") [] st.session),
  true,
)
dispatch w o help args st = (
  with_session st (
      reply 214 (codes "2.0.0 Mailschleuse - every accepted message is stored, never relayed") []
        st.session),
  true,
)
dispatch w o quit args st = (
  with_session st
      (reply 221 (codes "2.0.0 %s closing connection") (text o.hostname ∷ []) st.session),
  false,
)
dispatch w o empty args st =
    (with_session st (reply 500 (codes "5.5.2 Error: bad syntax") [] st.session), true)
dispatch w o (unknown v) args st = (
  with_session st
      (reply 502 (codes "5.5.1 Error: command %q not implemented") (text v ∷ []) st.session),
  true,
)

unfoldable pub command : World → Options → Bytes → State → State × Bool
unfolding dispatch verb_of split_command
command w o line st = let (v, args) = split_command line in dispatch w o (verb_of v) args st

-- One round of the loop.
unfoldable pub step : World → Options → State → State × Bool
unfolding command read_line
step w o st = elim (read_line w.left_over st.session.input) [
  | ended ↦ (st, false)
  | overlong rest ↦ (with_session st (record (st.session) { input = rest }), false)
  | line_read l rest ↦ command w o l (with_session st (record (st.session) { input = rest }))
]

-- The loop on fuel; none where the fuel runs out.
unfoldable pub loop : World → Options → ℕ → State → Option State
unfolding step
loop w o zero st = none
loop w o (suc fuel) st =
    let (next, goes_on) = step w o st in
    elim goes_on [ true ↦ loop w o fuel next | false ↦ some next ]

-- `run`: the greeting and the loop.
unfoldable pub run : World → Options → ℕ → State → Option State
unfolding loop reply
run w o fuel st = loop w o fuel (
    with_session st
      (reply 220 (codes "%s Mailschleuse ESMTP ready") (text o.hostname ∷ []) st.session))
