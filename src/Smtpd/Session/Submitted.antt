-- ===== src/Smtpd/Session/Submitted.antt =====
-- internal/smtpd/server.go: DATA with its payload, from the command line to the mailboxes.
use mailschleuse.Base.{
  ◌⊎◌, ℕ, ◌≤◌, ◌≡◌, refl, sym, ap, ◌∙◌, List, [], ◌∷◌, ◌++◌, Bytes, codes, All, length, true, false,
  inl, inr, subst, if◌then◌else◌, is_nil, map, arith, str_eq,
}
use mailschleuse.Store.State.{Store}
use mailschleuse.Store.Queries.{has}
use mailschleuse.Store.Newest.{IsMemory}
use mailschleuse.Smtpd.Data.{dot, read_data, read_line}
use mailschleuse.Smtpd.Data.Stuffing.{stuff, unlines, Fits, read_data-stuff}
use mailschleuse.Smtpd.Command.{split_command}
use mailschleuse.Smtpd.Routing.{Options, resolve_mailboxes}
use mailschleuse.Smtpd.Routing.Targets.{resolve_mailboxes-IsResolved}
use mailschleuse.Smtpd.Session.State.{Session, reply, reset_transaction}
use mailschleuse.Smtpd.Session.Deliver.{
  World, received_header, envelope_of, accept_data, finish_data, handle_data,
}
use mailschleuse.Smtpd.Session.Delivered.{
  IsAnswered, deliver_each-IsStored, IsStored, deliver_each-taken,
}
use mailschleuse.Smtpd.Session.Loop.{dispatch, command, step, verb_of}

-- The text that is stored for this body.
abbrev pub full_text : World → Options → Session → Store → Bytes → Bytes
full_text w o s store body =
    if o.add_received then received_header o (w.date store.cells) s ++ body else body

abbrev pub targets : Options → Session → Store → Bytes → List Bytes
targets o s store body = resolve_mailboxes (has store) o s.username body s.rcpts

-- The session behind the payload, without its transaction.
abbrev pub behind : Session → List Bytes → Session
behind s rest =
    reset_transaction
      (record (reply 354 (codes "End data with <CR><LF>.<CR><LF>") [] s) { input = rest })

existing :
    (o : Options) (store : Store) (ns : List Bytes)
    → has store o.default_mailbox ≡ true
    → All (λ m. (has store m ≡ true) ⊎ (m ≡ o.default_mailbox)) ns
    → All (λ m. has store m ≡ true) ns
existing o store [] default h = tt
existing o store (n ∷ ns) default h = (
  elim h.0 [ inl there ↦ there | inr is ↦ ap (has store) is ∙ default ],
  existing o store ns default h.1,
)

handle_data-begun :
    (w : World) (o : Options) (s : Session) (store : Store)
    → s.in_mail ≡ true
    → is_nil s.rcpts ≡ false
    → handle_data w o s store
      ≡ finish_data w o
          (read_data w.left_over o.max_size s.input)
          (reply 354 (codes "End data with <CR><LF>.<CR><LF>") [] s)
          store
unfolding handle_data
handle_data-begun w o s store begun some_rcpt = ground arith

module _ (w : World) (o : Options) (lines rest : List Bytes) (s : Session) (max_size : ℕ)
    (store : Store) (memory : IsMemory max_size store)
    (default : has store o.default_mailbox ≡ true)
    (small : length (full_text w o s store (unlines lines)) ≤ max_size) where
  accept_data-IsStored :
      IsStored
        (envelope_of s)
        (full_text w o s store (unlines lines))
        (targets o s store (unlines lines))
        (behind s rest)
        store.boxes
        (accept_data w o
          (unlines lines)
          (record (reply 354 (codes "End data with <CR><LF>.<CR><LF>") [] s) { input = rest })
          store)
  unfolding accept_data envelope_of received_header
  accept_data-IsStored =
      let h = resolve_mailboxes-IsResolved (has store) o s.username (unlines lines) s.rcpts in
      deliver_each-taken w o _ _ _ [] _ max_size store h.unique memory small
        (existing o store (targets o s store (unlines lines)) default h.known)

  finish_data-IsStored :
      All Fits lines
      → length (unlines lines) ≤ o.max_size
      → IsStored
          (envelope_of s)
          (full_text w o s store (unlines lines))
          (targets o s store (unlines lines))
          (behind s rest)
          store.boxes
          (finish_data w o
            (read_data w.left_over o.max_size (map stuff lines ++ dot ∷ rest))
            (reply 354
              (codes "End data with <CR><LF>.<CR><LF>")
              []
              (record s { input = map stuff lines ++ dot ∷ rest }))
            store)
  unfolding finish_data reply
  finish_data-IsStored fit within =
      rw (read_data-stuff w.left_over o.max_size lines rest fit within) accept_data-IsStored

  data-IsStored :
      s.in_mail ≡ true
      → is_nil s.rcpts ≡ false
      → All Fits lines
      → length (unlines lines) ≤ o.max_size
      → IsStored
          (envelope_of s)
          (full_text w o s store (unlines lines))
          (targets o s store (unlines lines))
          (behind s rest)
          store.boxes
          (handle_data w o (record s { input = map stuff lines ++ dot ∷ rest }) store)
  data-IsStored begun some_rcpt fit within =
      subst
        (IsStored (envelope_of s) (full_text w o s store (unlines lines))
          (targets o s store (unlines lines)) (behind s rest) store.boxes)
        (sym (
          handle_data-begun w o (record s { input = map stuff lines ++ dot ∷ rest }) store begun
            some_rcpt))
        (finish_data-IsStored fit within)

  -- A client that has named a sender and a recipient sends DATA and its lines, stuffed. Where each
  -- line is within the limit on a line and the text within the limits of the server and of the
  -- store, which has no files and has the default mailbox, the answer is 250, the text, with the
  -- Received header if that is set, is the newest message of each mailbox that the transaction
  -- resolves to, with its envelope, no other mailbox changes, the transaction is over, and the next
  -- command is what follows the closing dot.
  pub step-IsStored :
      s.in_mail ≡ true
      → is_nil s.rcpts ≡ false
      → All Fits lines
      → length (unlines lines) ≤ o.max_size
      → (let r = step w o (record {
        session = record s { input = codes "DATA" ∷ (map stuff lines ++ dot ∷ rest) };
        store = store;
      }) in
          IsStored
            (envelope_of s)
            (full_text w o s store (unlines lines))
            (targets o s store (unlines lines))
            (behind s rest)
            store.boxes
            (r.0.session, r.0.store)
          × (r.1 ≡ true))
  unfolding step command dispatch read_line verb_of split_command str_eq
  step-IsStored begun some_rcpt fit within = (data-IsStored begun some_rcpt fit within, refl)

-- A text that is read whole is answered with 250, and is then the newest message of each mailbox
-- that the transaction resolves to, with its envelope, while no other mailbox changes; or one of the
-- deliveries to these mailboxes, in order, fails: the answer is then that of its error, the store is
-- the one that it leaves, and no later mailbox is tried. The transaction is over in both cases.
pub accept_data-IsAnswered :
    (w : World) (o : Options) (body : Bytes) (s : Session) (store : Store)
    → IsAnswered w o
        (envelope_of s)
        (full_text w o s store body)
        (targets o s store body)
        (reset_transaction s)
        store
        (accept_data w o body s store)
unfolding accept_data
accept_data-IsAnswered w o body s store =
    deliver_each-IsStored w o (envelope_of s) (full_text w o s store body) (targets o s store body)
      [] (reset_transaction s) store
      (resolve_mailboxes-IsResolved (has store) o s.username body s.rcpts).unique
