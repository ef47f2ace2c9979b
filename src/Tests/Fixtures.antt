-- ===== src/Tests/Fixtures.antt =====
-- Test data for internal/store, internal/smtpd and internal/pop3d.
use mailschleuse.Base.{
  ℕ, zero, suc, ◌≡◌, refl, sym, ap, ◌∙◌, true, false, List, [], ◌∷◌, none, arith, length, Bytes,
  codes,
}
use mailschleuse.Config.Types.{auth_required}
use mailschleuse.Mailparse.Types.{Mail}
use mailschleuse.Store.Types.{Envelope}
use mailschleuse.Store.State.{Store}
use mailschleuse.Store.Ops.{Stamp, new, deliver}
use mailschleuse.Store.Consistency.Frame.{IsSound}
use mailschleuse.Store.Consistency.Numbered.{
  IsFresh, IsNumbered, deliver-IsNumbered, next_id_unused,
}
use mailschleuse.Store.Consistency.Preserved.{deliver-IsSound}
use mailschleuse.Store.Consistency.Created.{new-IsSound, new-IsNumbered}
use mailschleuse.Smtpd.Data.{LeftOver}
use mailschleuse.Smtpd.Routing.{Options}
use mailschleuse.Smtpd.Session.State.{Session}
use mailschleuse.Smtpd.Session.Deliver.{World}
use mailschleuse.Smtpd.Session.Loop.{State}

-- A parser that takes the whole text as the body.
abbrev pub plain_text : Bytes → Mail
plain_text raw = record {
  headers = [];
  subject = [];
  date = 0;
  message_id = [];
  from = [];
  to = [];
  cc = [];
  bcc = [];
  reply_to = [];
  text = raw;
  html = [];
  attachments = [];
}

-- The n-th id has n characters.
abbrev pub tag : ℕ → Bytes
tag zero = []
tag (suc n) = b'x' ∷ tag n

length-tag : (n : ℕ) → length (tag n) ≡ n
length-tag zero = refl
length-tag (suc n) = omega (arith, length-tag n)

abbrev pub stamps : ℕ → Stamp
stamps n = record { id = tag n; time = n }

pub stamps-IsFresh : IsFresh stamps
stamps-IsFresh i j e = sym (length-tag i) ∙ ap length e ∙ length-tag j

abbrev pub inbox : Bytes
inbox = codes "inbox"

abbrev pub sender : Envelope
sender = record {
  from = codes "ann@example.org";
  to = codes "bob@example.org" ∷ [];
  remote_addr = codes "192.0.2.1:4711";
  username = [];
  tls = true;
}

-- A store whose mailboxes hold one message at most.
abbrev pub empty_store : Store
empty_store = new (inbox ∷ codes "archive" ∷ []) 1 4096 none

pub empty_store-IsSound : IsSound empty_store
empty_store-IsSound = new-IsSound (inbox ∷ codes "archive" ∷ []) 1 4096 none

pub empty_store-IsNumbered : IsNumbered stamps empty_store
empty_store-IsNumbered = new-IsNumbered stamps (inbox ∷ codes "archive" ∷ []) 1 4096 none

abbrev pub one_message : Store
one_message =
    (deliver plain_text (stamps empty_store.cells) inbox (codes "smtp") sender (codes "Hello")
      empty_store).0

pub one_message-IsSound : IsSound one_message
one_message-IsSound =
    deliver-IsSound plain_text (stamps empty_store.cells) inbox (codes "smtp") sender
      (codes "Hello") empty_store empty_store-IsSound
      (next_id_unused stamps empty_store stamps-IsFresh empty_store-IsNumbered)

pub one_message-IsNumbered : IsNumbered stamps one_message
one_message-IsNumbered =
    deliver-IsNumbered stamps plain_text inbox (codes "smtp") sender (codes "Hello") empty_store
      empty_store-IsNumbered

-- The part of an overlong line that the reader has not taken is one more line.
abbrev pub one_left : LeftOver
one_left l = l ∷ []

abbrev pub world : World
world = record {
  parse = plain_text;
  left_over = one_left;
  stamp = stamps;
  date = λ n. codes "today";
}

abbrev pub smtp_options : Options
smtp_options = record {
  hostname = codes "mail.example.org";
  auth = auth_required;
  username = codes "ann";
  password = codes "secret";
  default_mailbox = inbox;
  user_routing = true;
  header_routing = true;
  routes =
      record { pattern = codes "*@example.org"; mailboxes = codes "archive" ∷ inbox ∷ [] } ∷ [];
  add_received = true;
  max_size = 1024;
  max_recipients = 2;
  has_tls = true;
}

abbrev pub connected : List Bytes → Session
connected lines = record {
  helo = [];
  tls_active = false;
  authenticated = false;
  username = [];
  from = [];
  rcpts = [];
  in_mail = false;
  remote = codes "192.0.2.1:4711";
  input = lines;
  tls_input = none;
  replies = [];
}

-- A client that greets, logs in, submits a message, and quits.
abbrev pub submission : List Bytes
submission =
    codes "EHLO client"
    ∷ codes "AUTH PLAIN AGFubgBzZWNyZXQ="
    ∷ codes "MAIL FROM:<ann@example.org>"
    ∷ codes "RCPT TO:<bob@example.org>"
    ∷ codes "DATA"
    ∷ codes "Subject: Hi"
    ∷ []
    ∷ codes "..dotted"
    ∷ codes "."
    ∷ codes "QUIT"
    ∷ []

abbrev pub submitting : State
submitting = record { session = connected submission; store = empty_store }
