-- ===== src/Pop3d/Session/Preserve.antt =====
-- internal/pop3d/server.go: what the commands of a session leave as it is, whatever they answer and
-- mark.
use mailschleuse.Base.{
  ℕ, ◌≡◌, Bool, true, false, List, [], ◌∷◌, Option, none, some, if_intro, is_nil, Bytes, codes,
  trim_space, fields, ℤ, pos, negsuc, parse_int,
}
use mailschleuse.Pop3d.Session.State.{
  Options, Entry, State, Output, Lookup, LookupError, invalid, no_such, marked, found, missing,
  lookup, say, ok, line, text,
}
use mailschleuse.Pop3d.Session.Login.{capabilities, say_lines, handle_capa}
use mailschleuse.Pop3d.Session.Transaction.{
  in_transaction, with_entry, say_error, say_all, label, list_rows, say_stats, with_entries,
  list_all, list_one, answer_list, answer_stat, send_message, top_of, top_fields, mark_entry,
  unmark_entries,
}
use mailschleuse.Pop3d.Session.Loop.{
  Verb, capa, stls, user, pass, stat, list, uidl, retr, top, dele, rset, noop, quit, unknown,
  dispatch,
}

-- The commands that neither log in, nor start TLS, nor quit.
abbrev pub is_plain : Verb → Bool
is_plain stls = false
is_plain user = false
is_plain pass = false
is_plain quit = false
is_plain _ = true

-- A property of states that answers and marks preserve.
module _ (P : State → Type 0) (stays_say : (out : Output) (st : State) → P st → P (say out st))
    (stays_marks : (es : List Entry) (st : State) → P st → P (with_entries es st)) where
  abbrev Keeps : (State → State) → Type 0
  Keeps f = (st : State) → P st → P (f st)

  say_lines-Keeps : (cs : List Bytes) → Keeps (say_lines cs)
  unfolding say_lines
  say_lines-Keeps [] st h = h
  say_lines-Keeps (c ∷ cs) st h = say_lines-Keeps cs _ (stays_say _ st h)

  say_all-Keeps : (outs : List Output) → Keeps (say_all outs)
  unfolding say_all
  say_all-Keeps [] st h = h
  say_all-Keeps (c ∷ cs) st h = say_all-Keeps cs _ (stays_say c st h)

  say_error-Keeps : (e : LookupError) → Keeps (say_error e)
  unfolding say_error
  say_error-Keeps (invalid a) st h = stays_say _ st h
  say_error-Keeps (no_such n) st h = stays_say _ st h
  say_error-Keeps (marked n) st h = stays_say _ st h

  in_transaction-Keeps : (next : State → State) → Keeps next → Keeps (in_transaction next)
  unfolding in_transaction
  in_transaction-Keeps next k st h = if_intro P st.session.transaction (k st h) (stays_say _ st h)

  with_entry-Keeps :
      (arg : Bytes) (next : Entry → ℕ → State → State)
      → ((e : Entry) (n : ℕ) → Keeps (next e n))
      → Keeps (with_entry arg next)
  unfolding with_entry
  with_entry-Keeps arg next k st h = cases (lookup st.session.entries arg)
    where
      cases :
          (r : Lookup)
          → P (elim r as (λ x. State) [ found e n ↦ next e n st | missing e ↦ say_error e st ])
      cases (found e n) = k e n st h
      cases (missing e) = say_error-Keeps e st h

  list_all-Keeps : (ids : Bool) → Keeps (list_all ids)
  unfolding list_all
  list_all-Keeps ids st h =
      let opened = say (ok (codes "%s follows") (text (label ids) ∷ [])) st in
      let rows = list_rows ids 1 st.session.entries in
      stays_say (line (codes ".") []) (say_all rows opened) (
        say_all-Keeps rows opened
          (stays_say (ok (codes "%s follows") (text (label ids) ∷ [])) st h))

  list_one-Keeps : (ids : Bool) (e : Entry) (n : ℕ) → Keeps (list_one ids e n)
  unfolding list_one
  list_one-Keeps ids e n st h = stays_say _ st h

  answer_list-Keeps : (args : Bytes) (ids : Bool) → Keeps (answer_list args ids)
  unfolding answer_list
  answer_list-Keeps args ids st h =
      if_intro P (is_nil (trim_space args)) (list_all-Keeps ids st h)
        (with_entry-Keeps args (list_one ids) (list_one-Keeps ids) st h)

  top_of-Keeps : (count : Option ℤ) (e : Entry) (n : ℕ) → Keeps (top_of count e n)
  unfolding top_of
  top_of-Keeps (some (pos l)) e n st h = stays_say _ _ (stays_say _ st h)
  top_of-Keeps (some (negsuc l)) e n st h = stays_say _ st h
  top_of-Keeps none e n st h = stays_say _ st h

  top_fields-Keeps : (fs : List Bytes) → Keeps (top_fields fs)
  unfolding top_fields
  top_fields-Keeps (number ∷ count ∷ []) st h =
      with_entry-Keeps number (top_of (parse_int count)) (top_of-Keeps (parse_int count)) st h
  top_fields-Keeps [] st h = stays_say _ st h
  top_fields-Keeps _ st h = stays_say _ st h

  answer_stat-Keeps : Keeps answer_stat
  unfolding answer_stat
  answer_stat-Keeps st h = stays_say _ st h

  send_message-Keeps : (e : Entry) (n : ℕ) → Keeps (send_message e n)
  unfolding send_message
  send_message-Keeps e n st h = stays_say _ _ (stays_say _ st h)

  mark_entry-Keeps : (e : Entry) (n : ℕ) → Keeps (mark_entry e n)
  unfolding mark_entry
  mark_entry-Keeps e n st h = stays_say _ _ (stays_marks _ st h)

  unmark_entries-Keeps : Keeps unmark_entries
  unfolding unmark_entries say_stats
  unmark_entries-Keeps st h = stays_say _ _ (stays_marks _ st h)

  pub dispatch-Keeps :
      (o : Options) (v : Verb) (args : Bytes) (st : State)
      → is_plain v ≡ true
      → P st
      → P (dispatch o v args st).0
  unfolding dispatch handle_capa
  dispatch-Keeps o capa args st p h =
      let opened = say (ok (codes "Capability list follows") []) st in
      stays_say (line (codes ".") []) (say_lines (capabilities o st.session) opened) (
        say_lines-Keeps (capabilities o st.session) opened
          (stays_say (ok (codes "Capability list follows") []) st h))
  dispatch-Keeps o stat args st p h = in_transaction-Keeps answer_stat answer_stat-Keeps st h
  dispatch-Keeps o list args st p h =
      in_transaction-Keeps (answer_list args false) (answer_list-Keeps args false) st h
  dispatch-Keeps o uidl args st p h =
      in_transaction-Keeps (answer_list args true) (answer_list-Keeps args true) st h
  dispatch-Keeps o retr args st p h =
      in_transaction-Keeps (with_entry args send_message)
        (with_entry-Keeps args send_message send_message-Keeps) st h
  dispatch-Keeps o top args st p h =
      in_transaction-Keeps (top_fields (fields args)) (top_fields-Keeps (fields args)) st h
  dispatch-Keeps o dele args st p h =
      in_transaction-Keeps (with_entry args mark_entry)
        (with_entry-Keeps args mark_entry mark_entry-Keeps) st h
  dispatch-Keeps o rset args st p h = in_transaction-Keeps unmark_entries unmark_entries-Keeps st h
  dispatch-Keeps o noop args st p h = stays_say _ st h
  dispatch-Keeps o (unknown v) args st p h = stays_say _ st h
  dispatch-Keeps o stls args st p h = cc
  dispatch-Keeps o user args st p h = cc
  dispatch-Keeps o pass args st p h = cc
  dispatch-Keeps o quit args st p h = cc
