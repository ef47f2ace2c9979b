-- ===== src/Web/Server.antt =====
-- internal/web/server.go: the paths of the API, and the handler that New builds.
use mailschleuse.Base.{
  Bool, not, ◌&&◌, List, [], ◌∷◌, if◌then◌else◌, is_nil, drop, Bytes, codes, str_eq, split,
}
use mailschleuse.Web.Types.{
  Options, Method, method_get, method_head, method_post, method_patch, method_delete, Handler,
  World, bytes,
}
use mailschleuse.Web.Access.{with_auth, with_cors, with_read_only, with_base}
use mailschleuse.Web.Reading.{
  handle_health, handle_config, handle_mailboxes, handle_list_messages, handle_get_message,
  handle_raw_message, handle_html_message, handle_attachment, handle_static,
}
use mailschleuse.Web.Changing.{
  handle_patch_message, handle_delete_message, handle_clear_mailbox, handle_mark_all_read,
  handle_compose, handle_import,
}
use mailschleuse.Web.Events.{handle_events}

-- The patterns of the mux, with the values of their wildcards.
pub data Target : Type 0 where
  health_page config_page mailboxes_page list_messages compose import events : Target
  clear_mailbox mark_all_read get_message patch_message delete_message : Bytes → Target
  raw_message html_message : Bytes → Target
  attachment : Bytes → Bytes → Target
  static not_allowed : Target

abbrev is : Bytes → Bytes → Bool
is s t = str_eq s t

abbrev given : Bytes → Target → Target → Target
given name target other = if is_nil name then other else target

-- The patterns of GET, which also take HEAD; "GET /" takes every path that no other pattern takes.
unfoldable pub target_get : List Bytes → Target
unfolding str_eq
target_get (a ∷ []) = if is a (codes "healthz") then health_page else static
target_get (a ∷ b ∷ []) =
    if not (is a (codes "api"))
    then static
    else if is b (codes "config")
    then config_page
    else if is b (codes "mailboxes")
    then mailboxes_page
    else if is b (codes "messages")
    then list_messages
    else if is b (codes "events")
    then events
    else static
target_get (a ∷ b ∷ id ∷ []) =
    if is a (codes "api") && is b (codes "messages")
    then given id (get_message id) static
    else static
target_get (a ∷ b ∷ id ∷ d ∷ []) =
    if not (is a (codes "api") && is b (codes "messages"))
    then static
    else if is d (codes "raw")
    then given id (raw_message id) static
    else if is d (codes "html")
    then given id (html_message id) static
    else static
target_get (a ∷ b ∷ id ∷ d ∷ part ∷ []) =
    if is a (codes "api") && (is b (codes "messages") && is d (codes "attachments"))
    then given id (given part (attachment id part) static) static
    else static
target_get _ = static

unfoldable pub target_post : List Bytes → Target
unfolding str_eq
target_post (a ∷ b ∷ []) =
    if is a (codes "api") && is b (codes "messages") then compose else not_allowed
target_post (a ∷ b ∷ c ∷ []) =
    if is a (codes "api") && (is b (codes "messages") && is c (codes "import"))
    then import
    else not_allowed
target_post (a ∷ b ∷ name ∷ d ∷ []) =
    if is a (codes "api") && (is b (codes "mailboxes") && is d (codes "read"))
    then given name (mark_all_read name) not_allowed
    else not_allowed
target_post _ = not_allowed

unfoldable pub target_patch : List Bytes → Target
unfolding str_eq
target_patch (a ∷ b ∷ id ∷ []) =
    if is a (codes "api") && is b (codes "messages")
    then given id (patch_message id) not_allowed
    else not_allowed
target_patch _ = not_allowed

unfoldable pub target_delete : List Bytes → Target
unfolding str_eq
target_delete (a ∷ b ∷ id ∷ []) =
    if is a (codes "api") && is b (codes "messages")
    then given id (delete_message id) not_allowed
    else not_allowed
target_delete (a ∷ b ∷ name ∷ d ∷ []) =
    if is a (codes "api") && (is b (codes "mailboxes") && is d (codes "messages"))
    then given name (clear_mailbox name) not_allowed
    else not_allowed
target_delete _ = not_allowed

unfoldable pub target_of : Method → List Bytes → Target
unfolding target_get target_post target_patch target_delete
target_of method_get segments = target_get segments
target_of method_head segments = target_get segments
target_of method_post segments = target_post segments
target_of method_patch segments = target_patch segments
target_of method_delete segments = target_delete segments
target_of _ segments = not_allowed

-- The segments of a path, which begins with "/".
unfoldable pub segments : Bytes → List Bytes
unfolding split
segments path = split (drop 1 path) b'/'

unfoldable pub dispatch : World → Options → Target → Handler
unfolding handle_health handle_config handle_mailboxes handle_list_messages handle_get_message
    handle_raw_message handle_html_message handle_attachment handle_static handle_patch_message
    handle_delete_message handle_clear_mailbox handle_mark_all_read handle_compose handle_import
    handle_events
dispatch w o health_page r s = (s, handle_health o)
dispatch w o config_page r s = (s, handle_config o s)
dispatch w o mailboxes_page r s = (s, handle_mailboxes s)
dispatch w o list_messages r s = (s, handle_list_messages r s)
dispatch w o compose r s = handle_compose w o r s
dispatch w o import r s = handle_import w o r s
dispatch w o events r s = handle_events s
dispatch w o (clear_mailbox name) r s = handle_clear_mailbox name s
dispatch w o (mark_all_read name) r s = handle_mark_all_read name s
dispatch w o (get_message id) r s = (s, handle_get_message id s)
dispatch w o (patch_message id) r s = handle_patch_message w id r s
dispatch w o (delete_message id) r s = handle_delete_message id s
dispatch w o (raw_message id) r s = (s, handle_raw_message id r s)
dispatch w o (html_message id) r s = (s, handle_html_message id s)
dispatch w o (attachment id part) r s = (s, handle_attachment id part r s)
dispatch w o static r s = (s, handle_static w.has_asset r)
dispatch w o not_allowed r s =
    (s, record { status = 405; headers = []; body = bytes (codes "Method Not Allowed\n") })

-- The mux.
unfoldable pub mux : World → Options → Handler
unfolding dispatch target_of segments
mux w o r s = dispatch w o (target_of r.method (segments r.path)) r s

-- `ServeHTTP` of the handler that `New` builds.
unfoldable pub serve : World → Options → Handler
unfolding mux with_read_only with_auth with_cors with_base
serve w o = with_base o (with_cors o (with_auth o (with_read_only o (mux w o))))
