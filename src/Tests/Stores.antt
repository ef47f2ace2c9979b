-- ===== src/Tests/Stores.antt =====
-- internal/store at concrete inputs.
use mailschleuse.Store.Listing.Page.{IsListed, list-IsListed}
use mailschleuse.Base.{
  if◌then◌else◌, false, str_eq, ◌≡◌, refl, some, true, [], ◌∷◌, codes, none, Bytes, contains, List,
  contains-All,
}
use mailschleuse.Store.Disk.{Disk}
use mailschleuse.Store.Load.{read, new_on, load, load_box, load_ids, message_of}
use mailschleuse.Store.State.{Store, evict}
use mailschleuse.Store.Consistency.Loaded.{new_on-IsSound}
use mailschleuse.Store.Types.{Message}
use mailschleuse.Store.Queries.{ListOptions, list}
use mailschleuse.Store.Ops.{new_boxes, new_message, new, deliver}
use mailschleuse.Store.Consistency.Frame.{IsSound}
use mailschleuse.Store.Consistency.Numbered.{next_id_unused}
use mailschleuse.Store.Consistency.Preserved.{deliver-IsSound}
use mailschleuse.Tests.Fixtures.{
  plain_text, stamps, stamps-IsFresh, inbox, sender, one_message, one_message-IsSound,
  one_message-IsNumbered, tag,
}

-- The second message drives the first out of the mailbox.
deliver-IsSound_example :
    IsSound
      (deliver plain_text
        (stamps one_message.cells)
        inbox
        (codes "smtp")
        sender
        (codes "Bye")
        one_message).0
deliver-IsSound_example =
    deliver-IsSound plain_text (stamps one_message.cells) inbox (codes "smtp") sender (codes "Bye")
      one_message one_message-IsSound
      (next_id_unused stamps one_message stamps-IsFresh one_message-IsNumbered)

abbrev hello : Message
hello = new_message plain_text (stamps 0) inbox (codes "smtp") sender (codes "Hello") 0

-- Two mailboxes on the disk, one with a damaged message.
abbrev full_disk : Disk
full_disk = record {
  eml = λ box id. if str_eq id (tag 1) then none else some (codes "Hello");
  json = λ box id. some id;
  eml_fails = λ box id. false;
  json_fails = λ box id. false;
  marshal = λ meta. meta.id;
  unmarshal = λ text. some (record {
    id = text;
    mailbox = inbox;
    received_at = 3;
    source = codes "smtp";
    envelope = sender;
    read = true;
  });
}

abbrev listing : Bytes → List Bytes
listing box = if str_eq box inbox then tag 0 ∷ tag 1 ∷ tag 2 ∷ [] else tag 3 ∷ []

abbrev reopened : Store
reopened = new_on plain_text listing (inbox ∷ codes "sent" ∷ []) 1 4096 full_disk

new_on-IsSound_example : IsSound reopened
unfolding contains str_eq
new_on-IsSound_example =
    new_on-IsSound plain_text listing (inbox ∷ codes "sent" ∷ []) 1 4096 full_disk (
      contains-All (tag 1 ∷ tag 2 ∷ tag 3 ∷ []) (tag 0) refl,
      (
        contains-All (tag 2 ∷ tag 3 ∷ []) (tag 1) refl,
        (contains-All (tag 3 ∷ []) (tag 2) refl, (tt, tt)),
      ),
    )

-- The newest message that can be read is the one that stays in the inbox.
reopened-inbox :
    reopened.boxes inbox ≡ some (record hello { id = tag 2; received_at = 3; read_cell = 1 } ∷ [])
unfolding new_on new load load_box load_ids read message_of evict new_message str_eq new_boxes
reopened-inbox = refl

-- The second newest message of all mailboxes.
abbrev second_page : ListOptions
second_page = record { mailbox = []; search = []; limit = 0; offset = 1; unread = false }

list-IsListed_example : IsListed reopened second_page (list reopened second_page)
list-IsListed_example = list-IsListed reopened second_page
