-- ===== src/Web/Changing.antt =====
-- internal/web/server.go: the handlers that change the store.
use mailschleuse.Base.{
  ℕ, ◌*◌, ◌^◌, Bool, true, false, not, ◌||◌, [], ◌++◌, Option, none, some, if◌then◌else◌, is_nil,
  length, take, ltb, Bytes, codes, trim_space, Result, ok, err,
}
use mailschleuse.Store.Types.{Envelope}
use mailschleuse.Store.State.{Store}
use mailschleuse.Store.Ops.{
  Delivery, stored, refused, deliver, mark_read, mark_all_read, delete, clear, no_such_mailbox,
}
use mailschleuse.Store.Queries.{has}
use mailschleuse.Web.Compose.{ComposeRequest, build}
use mailschleuse.Web.Compose.Headers.{clean_list}
use mailschleuse.Web.Compose.Bodies.{ComposeError}
use mailschleuse.Web.Types.{
  Options, Request, Response, World, failed, compose_failed, done, cleared, updated, created, json,
}
use mailschleuse.Web.Reading.{store_error, no_message, missing_mailbox}

-- The part of the body that `decodeJSON` reads.
abbrev pub limited : Bytes → Bytes
limited body = take (64 * 2 ^ 20) body

abbrev pub changed : Store × Bool → Store × Response
changed (s, true) = (s, json 200 done)
changed (s, false) = (s, no_message)

unfoldable pub patch_with : Bytes → Result Bytes (Option Bool) → Store → Store × Response
unfolding mark_read
patch_with id (err e) s = (s, json 400 (failed e))
patch_with id (ok none) s = (s, json 400 (failed (codes "nothing to update: set \"read\"")))
patch_with id (ok (some read)) s = changed (mark_read id read s)

-- `handlePatchMessage`.
unfoldable pub handle_patch_message : World → Bytes → Request → Store → Store × Response
unfolding patch_with
handle_patch_message w id r s = patch_with id (w.decode_patch (limited r.body)) s

-- `handleDeleteMessage`.
unfoldable pub handle_delete_message : Bytes → Store → Store × Response
unfolding delete
handle_delete_message id s = changed (delete id s)

abbrev pub cleared_box : Bytes → Store × Option ℕ → Store × Response
cleared_box name (s, none) = (s, store_error (no_such_mailbox name))
cleared_box name (s, some n) = (s, json 200 (cleared n))

-- `handleClearMailbox`.
unfoldable pub handle_clear_mailbox : Bytes → Store → Store × Response
unfolding clear
handle_clear_mailbox name s = cleared_box name (clear name s)

abbrev pub updated_box : Bytes → Store × Option ℕ → Store × Response
updated_box name (s, none) = (s, store_error (no_such_mailbox name))
updated_box name (s, some n) = (s, json 200 (updated n))

-- `handleMarkAllRead`.
unfoldable pub handle_mark_all_read : Bytes → Store → Store × Response
unfolding mark_all_read
handle_mark_all_read name s = updated_box name (mark_all_read name s)

abbrev pub accepted : Bytes → Store × Delivery → Store × Response
accepted name (s, stored m) = (s, json 201 (created m.id name))
accepted name (s, refused e) = (s, store_error e)

-- The call of `Deliver` that a handler makes.
unfoldable pub accept : World → Bytes → Bytes → Envelope → Bytes → Store → Store × Response
unfolding deliver
accept w name source env raw s =
    accepted name (deliver w.parse (w.stamp s.cells) name source env raw s)

unfoldable pub compose_envelope : Request → ComposeRequest → Envelope
unfolding clean_list trim_space
compose_envelope r c = record {
  from = trim_space c.from;
  to = clean_list c.to ++ (clean_list c.cc ++ clean_list c.bcc);
  remote_addr = r.remote_addr;
  username = [];
  tls = false;
}

unfoldable pub deliver_composed :
    World → Bytes → Request → ComposeRequest → Result ComposeError Bytes → Store → Store × Response
unfolding accept compose_envelope
deliver_composed w name r c (err e) s = (s, json 400 (compose_failed e))
deliver_composed w name r c (ok raw) s = accept w name (codes "web") (compose_envelope r c) raw s

unfoldable pub compose_with :
    World → Options → Request → Result Bytes ComposeRequest → Store → Store × Response
unfolding deliver_composed build has trim_space
compose_with w o r (err e) s = (s, json 400 (failed e))
compose_with w o r (ok c) s =
    let name = trim_space c.mailbox in
    if is_nil name
    then (s, json 400 (failed (codes "field \"mailbox\" is required")))
    else if not (has s name)
    then (s, missing_mailbox name)
    else deliver_composed w name r c (build w.mime o.hostname c) s

-- `handleCompose`.
unfoldable pub handle_compose : World → Options → Request → Store → Store × Response
unfolding compose_with
handle_compose w o r s = compose_with w o r (w.decode_compose (limited r.body)) s

abbrev pub import_envelope : Request → Envelope
import_envelope r = record {
  from = [];
  to = [];
  remote_addr = r.remote_addr;
  username = [];
  tls = false;
}

-- `handleImport`.
unfoldable pub handle_import : World → Options → Request → Store → Store × Response
unfolding accept has trim_space
handle_import w o r s =
    let name = trim_space (r.query (codes "mailbox")) in
    if is_nil name || not (has s name)
    then (s, missing_mailbox name)
    else if ltb o.max_size (length r.body)
    then (s, json 413 (failed (codes "message too large")))
    else if is_nil r.body
    then (s, json 400 (failed (codes "empty request body")))
    else accept w name (codes "import") (import_envelope r) r.body s
