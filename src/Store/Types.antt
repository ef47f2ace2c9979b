-- ===== src/Store/Types.antt =====
-- internal/store/store.go: messages, summaries and events.
use mailschleuse.Base.{ℕ, Bool, List, Option, Bytes}
use mailschleuse.Mailparse.Types.{Address, Mail}

pub record Envelope : Type 0 where
  pub from : Bytes
  pub to : List Bytes
  pub remote_addr : Bytes
  pub username : Bytes
  pub tls : Bool

-- A message is shared by its mailbox, by the index and by POP3 sessions, and all of it but the read
-- flag is fixed when it is made. So a message is a value, and `read_cell` is the address of its
-- flag, which the store's state holds.
pub record Message : Type 0 where
  pub id : Bytes
  pub mailbox : Bytes
  pub received_at : ℕ
  pub source : Bytes
  pub envelope : Envelope
  pub size : ℕ
  pub read_cell : ℕ
  pub raw : Bytes
  pub parsed : Mail

pub record Summary : Type 0 where
  pub id : Bytes
  pub mailbox : Bytes
  pub received_at : ℕ
  pub source : Bytes
  pub size : ℕ
  pub read : Bool
  pub subject : Bytes
  pub from : List Address
  pub to : List Address
  pub snippet : Bytes
  pub has_html : Bool
  pub attachments : ℕ
  pub envelope : Envelope

pub record MailboxStats : Type 0 where
  pub name : Bytes
  pub total : ℕ
  pub unread : ℕ
  pub bytes : ℕ

pub data EventType : Type 0 where
  message_new message_updated message_deleted mailbox_cleared : EventType

pub record Event : Type 0 where
  pub type : EventType
  pub mailbox : Bytes
  pub id : Bytes
  pub summary : Option Summary
