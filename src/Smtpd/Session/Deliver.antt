-- ===== src/Smtpd/Session/Deliver.antt =====
-- internal/smtpd/server.go: DATA.
use mailschleuse.Base.{ℕ, not, List, [], ◌∷◌, ◌++◌, if◌then◌else◌, is_nil, Bytes, codes, join}
use mailschleuse.Mailparse.Types.{Mail}
use mailschleuse.Store.Types.{Envelope, Message}
use mailschleuse.Store.State.{Store}
use mailschleuse.Store.Disk.{body_failed, metadata_failed}
use mailschleuse.Store.Ops.{
  Stamp, DeliverError, too_large, no_such_mailbox, not_persisted, stored, refused, deliver,
}
use mailschleuse.Store.Queries.{has}
use mailschleuse.Smtpd.Data.{LeftOver, DataRead, failed, done, read_data}
use mailschleuse.Smtpd.Command.{or_default}
use mailschleuse.Smtpd.Routing.{Options, resolve_mailboxes}
use mailschleuse.Smtpd.Session.State.{Session, text, num, reply, reset_transaction}

-- What the code takes from outside: the parser of messages, what the reader leaves of an overlong
-- line, and the id, the time and the date text for the n-th message of the store.
pub record World : Type 0 where
  pub parse : Bytes → Mail
  pub left_over : LeftOver
  pub stamp : ℕ → Stamp
  pub date : ℕ → Bytes

unfoldable pub protocol : Session → Bytes
protocol s =
    (if is_nil s.helo then codes "SMTP" else codes "ESMTP")
    ++ ((if s.tls_active then codes "S" else []) ++ (if s.authenticated then codes "A" else []))

-- `receivedHeader`.
unfoldable pub received_header : Options → Bytes → Session → Bytes
unfolding protocol or_default
received_header o date s =
    codes "Received: from "
    ++ (or_default s.helo (codes "unknown")
        ++ (codes " ("
            ++ (s.remote
                ++ (codes ")\r\n\tby "
                    ++ (o.hostname
                        ++ (codes " (Mailschleuse) with "
                            ++ (protocol s ++ (codes ";\r\n\t" ++ (date ++ codes "\r\n")))))))))

unfoldable pub envelope_of : Session → Envelope
envelope_of s = record {
  from = s.from;
  to = s.rcpts;
  remote_addr = s.remote;
  username = s.username;
  tls = s.tls_active;
}

-- The text of an error of the file system, which follows the colon, is left out.
unfoldable pub refusal : Options → DeliverError → Session → Session
unfolding reply
refusal o too_large s =
    reply 552 (codes "5.3.4 Message exceeds the %d byte limit") (num o.max_size ∷ []) s
refusal o (no_such_mailbox name) s =
    reply 451 (codes "4.3.0 Cannot store message: %v")
      (text (codes "no such mailbox: " ++ name) ∷ []) s
refusal o (not_persisted body_failed) s =
    reply 451 (codes "4.3.0 Cannot store message: %v") (text (codes "persist message body") ∷ []) s
refusal o (not_persisted metadata_failed) s =
    reply 451 (codes "4.3.0 Cannot store message: %v")
      (text (codes "persist message metadata") ∷ []) s

-- One line of the answer: `fmt.Sprintf("%s in mailbox %s", msg.ID, mailboxName)`.
unfoldable pub queued_as : Message → Bytes → Bytes
queued_as msg name = msg.id ++ (codes " in mailbox " ++ name)

-- The loop of `handleData` over the mailboxes.
unfoldable pub deliver_each :
    World → Options → Envelope → Bytes → List Bytes → List Bytes → Session → Store → Session × Store
unfolding deliver refusal queued_as reply join
deliver_each w o env body [] queued s store =
    (reply 250 (codes "2.0.0 OK: queued as %s") (text (join queued (codes ", ")) ∷ []) s, store)
deliver_each w o env body (name ∷ names) queued s store =
    let (store', delivery) =
      deliver w.parse (w.stamp store.cells) name (codes "smtp") env body store in
    elim delivery [
      | refused e ↦ (refusal o e s, store')
      | stored msg ↦ deliver_each w o env body names (queued ++ queued_as msg name ∷ []) s store'
    ]

unfoldable pub accept_data : World → Options → Bytes → Session → Store → Session × Store
unfolding deliver_each received_header envelope_of resolve_mailboxes has reset_transaction
accept_data w o body s store =
    let mailboxes = resolve_mailboxes (has store) o s.username body s.rcpts in
    let full = if o.add_received then received_header o (w.date store.cells) s ++ body else body in
    deliver_each w o (envelope_of s) full mailboxes [] (reset_transaction s) store

unfoldable pub finish_data : World → Options → DataRead → Session → Store → Session × Store
unfolding accept_data reset_transaction reply
finish_data w o (failed rest) s store = (record s { input = rest }, store)
finish_data w o (done p) s store =
    let s' : Session = record s { input = p.rest } in
    if p.too_large
    then (
      reply 552 (codes "5.3.4 Message exceeds the %d byte limit") (num o.max_size ∷ [])
          (reset_transaction s'),
      store,
    )
    else accept_data w o p.body s' store

-- `handleData`.
unfoldable pub handle_data : World → Options → Session → Store → Session × Store
unfolding finish_data read_data reply
handle_data w o s store =
    let ready = reply 354 (codes "End data with <CR><LF>.<CR><LF>") [] s in
    if not s.in_mail
    then (reply 503 (codes "5.5.1 Send MAIL FROM first") [] s, store)
    else if is_nil s.rcpts
    then (reply 503 (codes "5.5.1 Send RCPT TO first") [] s, store)
    else finish_data w o (read_data w.left_over o.max_size s.input) ready store
