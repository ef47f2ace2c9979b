-- ===== src/Main/System.antt =====
-- cmd/mailschleuse/main.go: the three servers on one store.
use mailschleuse.Base.{ℕ, List, Bytes, codes, none}
use mailschleuse.Store.State.{Store, unsubscribe}
use mailschleuse.Store.Steps.{
  delivering, deleting, unsubscribing, Reaches, start, next, IsKept, Reaches-IsKept,
}
use mailschleuse.Store.Consistency.Numbered.{IsFresh}
use mailschleuse.Smtpd.Routing.{Options as SmtpOptions}
use mailschleuse.Smtpd.Session.State.{Session}
use mailschleuse.Smtpd.Session.Deliver.{World as SmtpWorld}
use mailschleuse.Smtpd.Session.Loop.{step as smtp_step}
use mailschleuse.Smtpd.Session.Keeps.{step-Keeps as smtp_step-Keeps}
use mailschleuse.Pop3d.Session.State.{Options as Pop3Options, State as Pop3State}
use mailschleuse.Pop3d.Session.Loop.{step as pop3_step}
use mailschleuse.Pop3d.Session.Keeps.{step-Keeps as pop3_step-Keeps}
use mailschleuse.Web.Types.{Options as WebOptions, World as WebWorld, Request}
use mailschleuse.Web.Server.{serve}
use mailschleuse.Web.Steps.{serve-Step}
use mailschleuse.Config.Load.{Config}
use mailschleuse.Main.{open_store}

-- The servers share the parser of messages, the ids and the clock.
abbrev pub shared : SmtpWorld → WebWorld → WebWorld
shared w web = record web { parse = w.parse; stamp = w.stamp }

-- One turn of a server on the store: a round of any SMTP session or of any POP3 session, whatever
-- either has done before, a request over HTTP, or the end of a stream of events.
pub data SystemStep (w : SmtpWorld) (web : WebWorld) : Store → Store → Type 0 where
  smtp_round :
      (o : SmtpOptions) (session : Session) (s : Store)
      → SystemStep w web s (smtp_step w o (record { session = session; store = s })).0.store
  pop3_round :
      (o : Pop3Options) (lines : List Bytes) (st : Pop3State)
      → SystemStep w web st.store (pop3_step o lines st).0.store
  http_request :
      (o : WebOptions) (r : Request) (s : Store) → SystemStep w web s (serve (shared w web) o r s).0
  stream_end : (key : ℕ) (s : Store) → SystemStep w web s (unsubscribe key s)

-- Turns of the servers in any order.
pub data Runs (w : SmtpWorld) (web : WebWorld) (s : Store) : Store → Type 0 where
  opened : Runs w web s s
  turn : {t u : Store} → Runs w web s t → SystemStep w web t u → Runs w web s u

module _ (w : SmtpWorld) (web : WebWorld) where
  abbrev From : Store → Store → Type 0
  From = Reaches w.parse w.stamp

  SystemStep-Reaches : {s t u : Store} → From s t → SystemStep w web t u → From s u
  SystemStep-Reaches {s} before (smtp_round o session t) =
      smtp_step-Keeps w (From s)
        (λ name env body t' h. next h (delivering name (codes "smtp") env body t')) o
        (record { session = session; store = t }) before
  SystemStep-Reaches {s} before (pop3_round o lines st) =
      pop3_step-Keeps (From s) (λ id t h. next h (deleting id t)) o lines st before
  SystemStep-Reaches before (http_request o r t) = next before (serve-Step (shared w web) o r t)
  SystemStep-Reaches before (stream_end key t) = next before (unsubscribing key t)

  -- Whatever the three servers do to the store in turns is a sequence of the store's operations.
  Runs-Reaches : {s t : Store} → Runs w web s t → Reaches w.parse w.stamp s t
  Runs-Reaches opened = start
  Runs-Reaches (turn before step) = SystemStep-Reaches (Runs-Reaches before) step

  -- From the store that the program opens without a data directory, the three servers, in any
  -- interleaving of their turns and whatever their clients send, keep the mailboxes and the index in agreement, no mailbox above its
  -- maximum and each message under the id that it was given, where `NewID` gives no id twice.
  pub Runs-IsKept :
      (c : Config) {t : Store} → IsFresh w.stamp → Runs w web (open_store c) t → IsKept w.stamp t
  unfolding open_store
  Runs-IsKept c fresh runs =
      Reaches-IsKept w.parse w.stamp fresh c.mailboxes _ _ none (Runs-Reaches runs)
