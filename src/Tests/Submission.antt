-- ===== src/Tests/Submission.antt =====
-- internal/smtpd: a message that is submitted to two mailboxes, at concrete inputs.
use mailschleuse.Store.Ops.{new}
use mailschleuse.Smtpd.Routing.{resolve_mailboxes}
use mailschleuse.Base.{
  ◌≡◌, refl, true, List, [], ◌∷◌, ◌++◌, map, codes, length, arith, Bytes, All, str_eq,
}
use mailschleuse.Store.Newest.{IsMemory}
use mailschleuse.Store.Queries.{has}
use mailschleuse.Smtpd.Data.{dot}
use mailschleuse.Smtpd.Data.Stuffing.{stuff, unlines, Fits}
use mailschleuse.Smtpd.Session.State.{Session, reset_transaction}
use mailschleuse.Smtpd.Session.Deliver.{envelope_of, accept_data, received_header}
use mailschleuse.Smtpd.Session.Delivered.{IsStored, IsAnswered}
use mailschleuse.Smtpd.Session.Submitted.{
  full_text, targets, behind, step-IsStored, accept_data-IsAnswered,
}
use mailschleuse.Smtpd.Session.Loop.{State, step}
use mailschleuse.Tests.Fixtures.{world, smtp_options, connected, empty_store, inbox}

abbrev lines : List Bytes
lines = codes "Subject: Hi" ∷ [] ∷ codes ".dotted" ∷ []

lines-Fits : All Fits lines
unfolding stuff
lines-Fits = (omega arith, (omega arith, (omega arith, tt)))

abbrev addressed : Session
addressed = record (connected []) {
  helo = codes "client";
  from = codes "ann@example.org";
  rcpts = codes "bob@example.org" ∷ [];
  in_mail = true;
}

-- The route of the recipient names two mailboxes.
targets-lines :
    targets smtp_options addressed empty_store (unlines lines) ≡ codes "archive" ∷ inbox ∷ []
unfolding resolve_mailboxes unlines has str_eq new
targets-lines = refl

empty_store-IsMemory : IsMemory 4096 empty_store
unfolding new
empty_store-IsMemory = record { in_memory = refl; same_size = refl }

has-inbox : has empty_store inbox ≡ true
unfolding has new str_eq
has-inbox = refl

length-lines : length (unlines lines) ≡ 24
unfolding unlines
length-lines = refl

length-full_text : length (full_text world smtp_options addressed empty_store (unlines lines)) ≡ 121
unfolding received_header unlines
length-full_text = refl

abbrev sending : State
sending = record {
  session = record addressed {
    input = codes "DATA" ∷ (map stuff lines ++ dot ∷ codes "QUIT" ∷ []);
  };
  store = empty_store;
}

step-IsStored_example :
    IsStored
      (envelope_of addressed)
      (full_text world smtp_options addressed empty_store (unlines lines))
      (targets smtp_options addressed empty_store (unlines lines))
      (behind addressed (codes "QUIT" ∷ []))
      empty_store.boxes
      ((step world smtp_options sending).0.session, (step world smtp_options sending).0.store)
    × ((step world smtp_options sending).1 ≡ true)
step-IsStored_example =
    step-IsStored world smtp_options lines (codes "QUIT" ∷ []) addressed 4096 empty_store
      empty_store-IsMemory has-inbox (omega (arith, length-full_text)) refl refl lines-Fits
      (omega (arith, length-lines))

accept_data-IsAnswered_example :
    IsAnswered world smtp_options
      (envelope_of addressed)
      (full_text world smtp_options addressed empty_store (unlines lines))
      (targets smtp_options addressed empty_store (unlines lines))
      (reset_transaction addressed)
      empty_store
      (accept_data world smtp_options (unlines lines) addressed empty_store)
accept_data-IsAnswered_example =
    accept_data-IsAnswered world smtp_options (unlines lines) addressed empty_store
