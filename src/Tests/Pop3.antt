-- ===== src/Tests/Pop3.antt =====
-- internal/pop3d at concrete inputs.
use mailschleuse.Base.{
  arith, ◌+◌, ◌≡◌, refl, true, List, [], ◌∷◌, ◌++◌, codes, crlf, none, some, length, Bytes, str_eq,
  false,
}
use mailschleuse.Store.Types.{Message}
use mailschleuse.Store.Queries.{get}
use mailschleuse.Store.Ops.{new_message}
use mailschleuse.Pop3d.Wire.{split_lines, write_dot_stuffed, crlf_size, dot}
use mailschleuse.Pop3d.Wire.Retr.{stuffed, length-write_dot_stuffed}
use mailschleuse.Pop3d.Wire.Top.{top_lines, write_dot_stuffed-top}
use mailschleuse.Pop3d.Session.Ends.{loop_ends}
use mailschleuse.Pop3d.Session.State.{Options, State, Entry}
use mailschleuse.Pop3d.Session.Transaction.{remove_marked}
use mailschleuse.Pop3d.Session.Loop.{dele, dispatch, loop}
use mailschleuse.Pop3d.Session.View.{SameStore, dispatch-SameStore}
use mailschleuse.Pop3d.Session.Update.{get-remove_marked}
use mailschleuse.Tests.Fixtures.{plain_text, stamps, inbox, sender, one_message, tag}

abbrev short : Bytes
short = codes "Subject: Hi\r\n\r\n.dotted\r\nmore\r\n"

length-write_dot_stuffed_example : length (write_dot_stuffed short none) ≡ crlf_size short + 3
length-write_dot_stuffed_example = length-write_dot_stuffed short

write_dot_stuffed-top_example :
    write_dot_stuffed short (some 1) ≡ stuffed (top_lines 1 (split_lines short)) ++ (dot ++ crlf)
write_dot_stuffed-top_example = write_dot_stuffed-top short 1

abbrev pub options : Options
options = record {
  hostname = codes "mail.example.org";
  username = codes "ann";
  password = codes "secret";
  default_mailbox = inbox;
  user_routing = true;
  exclusive_lock = true;
  has_tls = true;
}

-- The message of the store with one message.
abbrev hello : Message
hello = new_message plain_text (stamps 0) inbox (codes "smtp") sender (codes "Hello") 0

-- A session that has marked it.
abbrev marking : List Bytes → State
marking lines = record {
  session = record {
    tls_active = true;
    username = codes "ann";
    mailbox = inbox;
    locked = true;
    transaction = true;
    entries = record { msg = hello; deleted = true } ∷ [];
    input = lines;
    tls_input = none;
    output = [];
  };
  locks = λ name. true;
  store = one_message;
}

dispatch-SameStore_example :
    SameStore (marking []) (dispatch options dele (codes "1") (marking [])).0
dispatch-SameStore_example = dispatch-SameStore options dele (codes "1") (marking []) (λ e. cc)

get-remove_marked_example :
    get (remove_marked (marking []).session.entries one_message).0 (tag 0) ≡ none
unfolding str_eq new_message
get-remove_marked_example = get-remove_marked (marking []).session.entries one_message (tag 0)

abbrev ended : State
ended = elim (loop options 1 (marking (codes "QUIT" ∷ []))) [ none ↦ marking [] | some st ↦ st ]

loop-ended : loop options 1 (marking (codes "QUIT" ∷ [])) ≡ some ended
unfolding loop
loop-ended = refl

loop_ends_example : (end : State) × (loop options 2 (marking (codes "QUIT" ∷ [])) ≡ some end)
loop_ends_example = loop_ends options 2 (marking (codes "QUIT" ∷ [])) (omega arith)

abbrev entries : List Entry
entries = record { msg = hello; deleted = false } ∷ record { msg = hello; deleted = false } ∷ []
