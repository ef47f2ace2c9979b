-- ===== src/Web/Reading.antt =====
-- internal/web/server.go and static.go: the handlers that read the store.
use mailschleuse.Base.{
  ◌==◌, ℕ, Bool, not, ◌&&◌, ◌||◌, List, [], ◌∷◌, ◌++◌, Option, none, some, if◌then◌else◌, is_nil,
  length, drop, ◌-◌, zero, suc, Bytes, codes, str_eq, has_prefix, to_lower, trim_space, cut,
  number_or_zero,
}
use mailschleuse.Mailparse.Types.{Attachment}
use mailschleuse.Mailparse.Filename.{sanitize_filename}
use mailschleuse.Store.Types.{Message, Summary}
use mailschleuse.Store.State.{Store}
use mailschleuse.Store.Ops.{DeliverError, too_large, no_such_mailbox, not_persisted}
use mailschleuse.Store.Queries.{has, get, list, stats, ListOptions}
use mailschleuse.Web.Types.{
  Options, Request, Response, bytes, failed, store_failed, health, config, mailboxes, page, message,
  file, json, with_header,
}

-- `writeStoreError`.
abbrev status_of : DeliverError → ℕ
status_of (no_such_mailbox name) = 404
status_of too_large = 413
status_of (not_persisted e) = 500

abbrev pub store_error : DeliverError → Response
store_error e = json (status_of e) (store_failed e)

abbrev pub no_message : Response
no_message = json 404 (failed (codes "no such message"))

abbrev pub missing_mailbox : Bytes → Response
missing_mailbox name = json 404 (failed (codes "no such mailbox: " ++ name))

-- `handleHealth`, `handleConfig` and `handleMailboxes`.
unfoldable pub handle_health : Options → Response
handle_health o = json 200 (health o.version)

unfoldable pub handle_config : Options → Store → Response
unfolding stats
handle_config o s = json 200 (config o (stats s))

unfoldable pub handle_mailboxes : Store → Response
unfolding stats
handle_mailboxes s = json 200 (mailboxes (stats s))

abbrev listed : Bytes → ℕ → Option (List Summary × ℕ) → Response
listed name offset none = store_error (no_such_mailbox name)
listed name offset (some (messages, total)) = json 200 (page messages total offset)

-- `handleListMessages`.
unfoldable pub handle_list_messages : Request → Store → Response
unfolding has list number_or_zero str_eq
handle_list_messages r s =
    let name = r.query (codes "mailbox") in
    let offset = number_or_zero (r.query (codes "offset")) in
    let opts : ListOptions = record {
      mailbox = name;
      search = r.query (codes "search");
      limit = number_or_zero (r.query (codes "limit"));
      offset = offset;
      unread = str_eq (r.query (codes "unread")) (codes "true");
    } in
    if not (is_nil name) && not (has s name)
    then missing_mailbox name
    else listed name offset (list s opts)

-- The handlers of one message: `Get`, and 404 without it.
unfoldable pub with_message : Bytes → Store → (Message → Response) → Response
unfolding get
with_message id s f = elim (get s id) [ none ↦ no_message | some m ↦ f m ]

-- `handleGetMessage`.
unfoldable pub handle_get_message : Bytes → Store → Response
unfolding with_message
handle_get_message id s = with_message id s λ m. json 200 (message m (s.reads m.read_cell))

abbrev pub is_download : Request → Bool
is_download r = str_eq (r.query (codes "download")) (codes "true")

-- `fmt`'s %q of an ASCII text without control characters.
unfoldable pub escape : Bytes → Bytes
escape [] = []
escape (c ∷ s) = if c == b'"' || c == b'\\' then b'\\' ∷ c ∷ escape s else c ∷ escape s

unfoldable pub quoted : Bytes → Bytes
unfolding escape
quoted s = b'"' ∷ (escape s ++ b'"' ∷ [])

abbrev served : Bytes → Bytes → Response
served content_type content = record {
  status = 200;
  headers = (codes "Content-Type", content_type) ∷ [];
  body = bytes content;
}

unfoldable pub raw_response : Request → Message → Response
unfolding quoted str_eq
raw_response r m =
    let plain = served (codes "message/rfc822; charset=utf-8") m.raw in
    if is_download r
    then with_header (codes "Content-Disposition")
        (codes "attachment; filename=" ++ quoted (m.id ++ codes ".eml")) plain
    else plain

-- `handleRawMessage`.
unfoldable pub handle_raw_message : Bytes → Request → Store → Response
unfolding with_message raw_response
handle_raw_message id r s = with_message id s (raw_response r)

-- The pairs of `rewriteCID`, old and new.
unfoldable pub cid_pairs : Bytes → List Attachment → List (Bytes × Bytes)
cid_pairs id [] = []
cid_pairs id (a ∷ more) =
    let rest = cid_pairs id more in
    let target = codes "../" ++ (id ++ (codes "/attachments/" ++ a.part_id)) in
    if is_nil a.content_id
    then rest
    else (codes "cid:" ++ a.content_id, target) ∷ (codes "CID:" ++ a.content_id, target) ∷ rest

-- The first pair whose old text stands in front.
unfoldable pub find_pair : List (Bytes × Bytes) → Bytes → Option (ℕ × Bytes)
unfolding has_prefix
find_pair [] s = none
find_pair ((old, new) ∷ pairs) s =
    let rest = find_pair pairs s in if has_prefix s old then some (length old, new) else rest

-- `strings.NewReplacer(pairs...).Replace`, behind `skip` bytes of a text that is replaced.
unfoldable pub replace : List (Bytes × Bytes) → ℕ → Bytes → Bytes
unfolding find_pair
replace pairs skip [] = []
replace pairs (suc skip) (c ∷ s) = replace pairs skip s
replace pairs zero (c ∷ s) = elim (find_pair pairs (c ∷ s)) [
  | none ↦ c ∷ replace pairs zero s
  | some (n, new) ↦ new ++ replace pairs (n - 1) s
]

-- `rewriteCID`.
unfoldable pub rewrite_cid : Bytes → Message → Bytes
unfolding cid_pairs replace
rewrite_cid html m =
    let pairs = cid_pairs m.id m.parsed.attachments in
    if is_nil pairs then html else replace pairs 0 html

abbrev no_html : Bytes
no_html =
    codes
      "<!doctype html><meta charset=\"utf-8\"><p style=\"font:14px system-ui;color:#666\">This message has no HTML part.</p>"

abbrev html_policy : Bytes
html_policy =
    codes
      "default-src 'none'; img-src 'self' data:; style-src 'unsafe-inline'; font-src data:; base-uri 'none'; form-action 'none'"

unfoldable pub html_response : Message → Response
unfolding rewrite_cid
html_response m =
    let html = if is_nil m.parsed.html then no_html else m.parsed.html in
    record {
      status = 200;
      headers =
          (codes "Content-Type", codes "text/html; charset=utf-8")
          ∷ (codes "Content-Security-Policy", html_policy)
          ∷ (codes "X-Content-Type-Options", codes "nosniff")
          ∷ (codes "Referrer-Policy", codes "no-referrer")
          ∷ [];
      body = bytes (rewrite_cid html m);
    }

-- `handleHTMLMessage`.
unfoldable pub handle_html_message : Bytes → Store → Response
unfolding with_message html_response
handle_html_message id s = with_message id s html_response

-- `renderableInline`.
unfoldable pub renderable_inline : Bytes → Bool
unfolding cut has_prefix to_lower trim_space
renderable_inline content_type =
    let (base, rest, found) = cut content_type b';' in
    has_prefix (to_lower (trim_space base)) (codes "image/")

unfoldable pub disposition : Request → Attachment → Bytes
unfolding renderable_inline str_eq
disposition r a =
    if a.inline && (renderable_inline a.content_type && not (is_download r))
    then codes "inline"
    else codes "attachment"

unfoldable pub attachment_response : Request → Attachment → Response
unfolding disposition quoted sanitize_filename
attachment_response r a = record {
  status = 200;
  headers =
      (codes "Content-Type", a.content_type)
      ∷ (codes "X-Content-Type-Options", codes "nosniff")
      ∷ (codes "Content-Security-Policy", codes "default-src 'none'; img-src 'self' data:; sandbox")
      ∷ (
        codes "Content-Disposition",
        disposition r a ++ (codes "; filename=" ++ quoted (sanitize_filename a.filename)),
      )
      ∷ [];
  body = bytes a.content;
}

-- The loop of `handleAttachment`.
unfoldable pub find_attachment : Bytes → Request → List Attachment → Response
unfolding attachment_response str_eq
find_attachment part r [] = json 404 (failed (codes "no such attachment: " ++ part))
find_attachment part r (a ∷ more) =
    let rest = find_attachment part r more in
    if str_eq a.part_id part then attachment_response r a else rest

-- `handleAttachment`.
unfoldable pub handle_attachment : Bytes → Bytes → Request → Store → Response
unfolding with_message find_attachment
handle_attachment id part r s = with_message id s λ m. find_attachment part r m.parsed.attachments

-- The handler of `staticHandler`; `http.FileServer` gives the file at the path.
unfoldable pub handle_static : (Bytes → Bool) → Request → Response
unfolding str_eq has_prefix
handle_static has_asset r =
    let clean = if has_prefix r.path (codes "/") then drop 1 r.path else r.path in
    let path = if not (is_nil clean) && not (has_asset clean) then codes "/" else r.path in
    let answer : Response = record { status = 200; headers = []; body = file path } in
    if str_eq path (codes "/")
    then with_header (codes "Cache-Control") (codes "no-store") answer
    else answer
