-- ===== src/Store/Disk.antt =====
-- internal/store/persist.go: the data directory. It is two maps, from a mailbox and an id to the
-- .eml and to the .json file. Which files cannot be written is a parameter of the disk, and so are
-- `json.Marshal` and `json.Unmarshal` for the metadata.
use mailschleuse.Base.{
  ℕ, Bool, true, false, ◌&&◌, List, [], ◌∷◌, Option, none, some, if◌then◌else◌, Bytes, str_eq,
}
use mailschleuse.Store.Types.{Envelope, Message}

pub record MetaFile : Type 0 where
  pub id : Bytes
  pub mailbox : Bytes
  pub received_at : ℕ
  pub source : Bytes
  pub envelope : Envelope
  pub read : Bool

abbrev pub Files : Type 0 → Type 0
Files A = Bytes → Bytes → Option A

pub record Disk : Type 0 where
  pub eml : Files Bytes
  pub json : Files Bytes
  pub eml_fails : Bytes → Bytes → Bool
  pub json_fails : Bytes → Bytes → Bool
  pub marshal : MetaFile → Bytes
  pub unmarshal : Bytes → Option MetaFile

abbrev pub put : {A : Type 0} → Files A → Bytes → Bytes → Option A → Files A
put files box id v b i = if str_eq box b && str_eq id i then v else files b i

pub data WriteError : Type 0 where
  body_failed metadata_failed : WriteError

abbrev pub is_some : {A : Type 0} → Option A → Bool
is_some none = false
is_some (some x) = true

unfoldable pub write_json : Disk → Message → Bool → Disk × Option WriteError
write_json d m read =
    let meta : MetaFile = record {
      id = m.id;
      mailbox = m.mailbox;
      received_at = m.received_at;
      source = m.source;
      envelope = m.envelope;
      read = read;
    } in
    if d.json_fails m.mailbox m.id
    then (d, some metadata_failed)
    else (record d { json = put d.json m.mailbox m.id (some (d.marshal meta)) }, none)

-- `persistence.write`: the body only where there is none yet, then the metadata.
unfoldable pub write : Disk → Message → Bool → Disk × Option WriteError
unfolding write_json
write d m read =
    if is_some (d.eml m.mailbox m.id)
    then write_json d m read
    else if d.eml_fails m.mailbox m.id
    then (d, some body_failed)
    else write_json (record d { eml = put d.eml m.mailbox m.id (some m.raw) }) m read

-- `persistence.remove`, which ignores errors.
unfoldable pub remove : Disk → Message → Disk
remove d m = record d { eml = put d.eml m.mailbox m.id none; json = put d.json m.mailbox m.id none }

unfoldable pub remove_all : Disk → List Message → Disk
unfolding remove
remove_all d [] = d
remove_all d (m ∷ ms) = remove_all (remove d m) ms
