-- ===== src/Mailparse/Types.antt =====
-- internal/mailparse/mailparse.go: the decoded view of a message.
use mailschleuse.Base.{ℕ, Bool, List, ◌++◌, Bytes, codes, is_nil, if◌then◌else◌}

-- The field that the source calls `Address` is the address without the name.
pub record Address : Type 0 where
  pub name : Bytes
  pub address : Bytes

-- `Address.String`.
pub display : Address → Bytes
display a = if is_nil a.name then a.address else a.name ++ (codes " <" ++ (a.address ++ codes ">"))

pub record Header : Type 0 where
  pub name : Bytes
  pub value : Bytes

pub record Attachment : Type 0 where
  pub part_id : Bytes
  pub filename : Bytes
  pub content_type : Bytes
  pub content_id : Bytes
  pub inline : Bool
  pub size : ℕ
  pub content : Bytes

-- The source's `Message`; `date` is a time in seconds.
pub record Mail : Type 0 where
  pub headers : List Header
  pub subject : Bytes
  pub date : ℕ
  pub message_id : Bytes
  pub from : List Address
  pub to : List Address
  pub cc : List Address
  pub bcc : List Address
  pub reply_to : List Address
  pub text : Bytes
  pub html : Bytes
  pub attachments : List Attachment
