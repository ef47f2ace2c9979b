-- ===== src/Pop3d/Session/Transaction.antt =====
-- internal/pop3d/server.go: the TRANSACTION and UPDATE states.
use mailschleuse.Base.{
  ℕ, zero, suc, ◌+◌, ◌-◌, Bool, true, false, ◌&&◌, List, [], ◌∷◌, Option, none, some, if◌then◌else◌,
  is_nil, Bytes, codes, trim_space, fields, ℤ, pos, parse_int,
}
use mailschleuse.Store.State.{Store}
use mailschleuse.Store.Ops.{delete}
use mailschleuse.Pop3d.Wire.{crlf_size, write_dot_stuffed}
use mailschleuse.Pop3d.Session.State.{
  Options, Entry, State, Output, LookupError, invalid, no_such, marked, found, missing, ok, err,
  line, body, text, num, int, Arg, lookup, release, say, stats, with_session,
}

-- `requireTransaction`, and the handler behind it.
unfoldable pub in_transaction : (State → State) → State → State
unfolding say
in_transaction next st =
    if st.session.transaction then next st else say (err (codes "authenticate first") []) st

unfoldable pub answer_stat : State → State
unfolding stats say
answer_stat st =
    let (count, size) = stats st.session in say (ok (codes "%d %d") (num count ∷ num size ∷ [])) st

-- `handleStat`.
unfoldable pub handle_stat : State → State
unfolding in_transaction answer_stat
handle_stat = in_transaction answer_stat

-- The text of the errors of `lookup`.
unfoldable pub say_error : LookupError → State → State
unfolding say
say_error (invalid arg) st = say (err (codes "invalid message number %q") (text arg ∷ [])) st
say_error (no_such n) st = say (err (codes "no such message: %d") (int n ∷ [])) st
say_error (marked n) st = say (err (codes "message %d is marked for deletion") (num n ∷ [])) st

-- `lookup`, and what a handler does with the entry and its number.
unfoldable pub with_entry : Bytes → (Entry → ℕ → State → State) → State → State
unfolding lookup say_error
with_entry arg next st = elim (lookup st.session.entries arg) [
  | found e n ↦ next e n st
  | missing e ↦ say_error e st
]

-- The second column of LIST and of UIDL.
abbrev pub column : Bool → Entry → Arg
column true e = text e.msg.id
column false e = num (crlf_size e.msg.raw)

abbrev pub row_format : Bool → Bytes
row_format true = codes "%d %s"
row_format false = codes "%d %d"

-- The loop of `handleList` over the entries, whose first has this number.
unfoldable pub list_rows : Bool → ℕ → List Entry → List Output
unfolding crlf_size
list_rows uidl n [] = []
list_rows uidl n (e ∷ es) =
    let rest = list_rows uidl (n + 1) es in
    if e.deleted then rest else line (row_format uidl) (num n ∷ column uidl e ∷ []) ∷ rest

unfoldable pub say_all : List Output → State → State
unfolding say
say_all [] st = st
say_all (out ∷ outs) st = say_all outs (say out st)

abbrev pub label : Bool → Bytes
label true = codes "unique-id listing"
label false = codes "scan listing"

unfoldable pub list_all : Bool → State → State
unfolding list_rows say_all say
list_all uidl st = say (line (codes ".") []) (
    say_all (list_rows uidl 1 st.session.entries)
      (say (ok (codes "%s follows") (text (label uidl) ∷ [])) st))

unfoldable pub list_one : Bool → Entry → ℕ → State → State
unfolding say crlf_size
list_one uidl e n = say (ok (row_format uidl) (num n ∷ column uidl e ∷ []))

unfoldable pub answer_list : Bytes → Bool → State → State
unfolding with_entry list_all list_one trim_space
answer_list args uidl st =
    if is_nil (trim_space args) then list_all uidl st else with_entry args (list_one uidl) st

-- `handleList`, for LIST and UIDL.
unfoldable pub handle_list : Bytes → Bool → State → State
unfolding in_transaction answer_list
handle_list args uidl = in_transaction (answer_list args uidl)

unfoldable pub send_message : Entry → ℕ → State → State
unfolding write_dot_stuffed say crlf_size
send_message e n st =
    say (body (write_dot_stuffed e.msg.raw none))
      (say (ok (codes "%d octets") (num (crlf_size e.msg.raw) ∷ [])) st)

-- `handleRetr`.
unfoldable pub handle_retr : Bytes → State → State
unfolding in_transaction with_entry send_message
handle_retr args = in_transaction (with_entry args send_message)

unfoldable pub top_of : Option ℤ → Entry → ℕ → State → State
unfolding write_dot_stuffed say
top_of (some (pos lines)) e n st =
    say (body (write_dot_stuffed e.msg.raw (some lines)))
      (say (ok (codes "top of message follows") []) st)
top_of _ e n st = say (err (codes "invalid line count") []) st

unfoldable pub top_fields : List Bytes → State → State
unfolding with_entry top_of parse_int
top_fields (number ∷ count ∷ []) st = with_entry number (top_of (parse_int count)) st
top_fields _ st = say (err (codes "TOP requires a message number and a line count") []) st

-- `handleTop`.
unfoldable pub handle_top : Bytes → State → State
unfolding in_transaction top_fields fields
handle_top args = in_transaction (top_fields (fields args))

-- `e.deleted = true` on the entry at an index.
unfoldable pub mark : ℕ → List Entry → List Entry
mark i [] = []
mark zero (e ∷ es) = record e { deleted = true } ∷ es
mark (suc i) (e ∷ es) = e ∷ mark i es

abbrev pub with_entries : List Entry → State → State
with_entries es st = with_session st (record (st.session) { entries = es })

unfoldable pub mark_entry : Entry → ℕ → State → State
unfolding mark say
mark_entry e n st =
    say (ok (codes "message %d marked for deletion") (num n ∷ []))
      (with_entries (mark (n - 1) st.session.entries) st)

-- `handleDele`.
unfoldable pub handle_dele : Bytes → State → State
unfolding in_transaction with_entry mark_entry
handle_dele args = in_transaction (with_entry args mark_entry)

unfoldable pub unmark_all : List Entry → List Entry
unmark_all [] = []
unmark_all (e ∷ es) = record e { deleted = false } ∷ unmark_all es

unfoldable pub say_stats : State → State
unfolding stats say
say_stats st =
    let (count, size) = stats st.session in
    say (ok (codes "%d messages (%d octets)") (num count ∷ num size ∷ [])) st

unfoldable pub unmark_entries : State → State
unfolding unmark_all say_stats
unmark_entries st = say_stats (with_entries (unmark_all st.session.entries) st)

-- `handleRset`.
unfoldable pub handle_rset : State → State
unfolding in_transaction unmark_entries
handle_rset = in_transaction unmark_entries

-- The loop of `handleQuit` over the entries, with the number of messages that it removed.
unfoldable pub remove_marked : List Entry → Store → Store × ℕ
unfolding delete
remove_marked [] store = (store, 0)
remove_marked (e ∷ es) store =
    let (store', gone) = delete e.msg.id store in
    let (store'', n) = remove_marked es (if e.deleted then store' else store) in
    (store'', if e.deleted && gone then n + 1 else n)

-- `handleQuit`.
unfoldable pub handle_quit : Options → State → State
unfolding remove_marked release say
handle_quit o st =
    let (store, removed) =
      if st.session.transaction then remove_marked st.session.entries st.store else (st.store, 0) in
    say (ok (codes "Mailschleuse signing off (%d messages deleted)") (num removed ∷ []))
      (release o (record st { store = store }))
