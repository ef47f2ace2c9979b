-- ===== src/Mailparse/Walk.antt =====
-- internal/mailparse/mailparse.go: Parse, and the walk over the MIME parts.
pub mod Attached
use mailschleuse.Base.{
  ℕ, zero, suc, ◌+◌, ◌%◌, Bool, true, false, not, ◌&&◌, ◌||◌, List, [], ◌∷◌, ◌++◌, Option, none,
  some, if◌then◌else◌, is_nil, length, ◌==◌, Bytes, codes, str_eq, has_prefix, to_lower, trim_space,
  trim_of, trim_right_of, cut, Dict, update, decode_base64,
}
use mailschleuse.Mailparse.Decoding.{
  first_non_empty, cleaned, padding, decode_unpadded, no_params, lowered, or_raw, or_single,
  first_date, Codec, RawPart, parse_media_type, decode_transfer, decode_word, parse_address_list,
  parse_date, first_extension, extension_for,
}
use mailschleuse.Mailparse.Types.{Address, Header, Attachment, Mail}
use mailschleuse.Mailparse.Filename.{sanitize_filename}
use mailschleuse.Mailparse.Headers.{split_message, parse_headers, header, header_map, lookup}
use mailschleuse.Mailparse.Charset.{to_utf8}

-- What the walk adds to the message.
pub record Content : Type 0 where
  pub text : Bytes
  pub html : Bytes
  pub attachments : List Attachment

-- The limit `maxDepth`, plus one: the number of levels that are walked.
abbrev pub levels : ℕ
levels = 13

-- `appendText` and `appendHTML`.
abbrev extended : Bytes → Bytes → Bytes
extended old s = if is_nil old then s else old ++ b'\n' ∷ s

unfoldable pub append_text : Bytes → Content → Content
append_text s m = record m { text = extended m.text s }

unfoldable pub append_html : Bytes → Content → Content
append_html s m = record m { html = extended m.html s }

-- The loop over the part's header, which keeps the first value of each name.
unfoldable pub sub_headers : List (Bytes × List Bytes) → Dict Bytes → Dict Bytes
unfolding to_lower
sub_headers [] sub = sub
sub_headers ((k, []) ∷ fields) sub = sub_headers fields sub
sub_headers ((k, v ∷ vs) ∷ fields) sub = sub_headers fields (update sub (to_lower k) (some v))

abbrev pub or_default : Bytes → Bytes → Bytes
or_default text fallback = if is_nil text then fallback else text

module _ (codec : Codec) where
  abbrev pub filename_of : Dict Bytes → Dict Bytes → Bytes
  filename_of disposition_params params = decode_word codec (
      first_non_empty
        (lookup disposition_params (codes "filename") ∷ lookup params (codes "name") ∷ []))

  unfoldable pub attachment_of :
      Dict Bytes → Bytes → Bytes → Bytes → Bytes → Dict Bytes → Attachment
  unfolding parse_media_type decode_word first_non_empty extension_for sanitize_filename trim_space
      trim_of str_eq
  attachment_of headers content part_id content_type disposition disposition_params =
      let (kind, params) = parse_media_type codec (lookup headers (codes "content-type")) in
      record {
        part_id = part_id;
        filename = sanitize_filename (
            or_default (filename_of disposition_params params)
              (codes "part-" ++ (part_id ++ extension_for codec content_type)));
        content_type = or_default content_type (codes "application/octet-stream");
        content_id =
            trim_of (λ c. c == b'<' || c == b'>')
              (trim_space (lookup headers (codes "content-id")));
        inline = str_eq disposition (codes "inline");
        size = length content;
        content = content;
      }

  -- `addAttachment`.
  unfoldable pub add_attachment :
      Dict Bytes → Bytes → Bytes → Bytes → Bytes → Dict Bytes → Content → Content
  unfolding attachment_of
  add_attachment headers content part_id content_type disposition disposition_params m = record m {
    attachments =
        m.attachments
        ++ attachment_of headers content part_id content_type disposition disposition_params ∷ [];
  }

  abbrev pub decoded_body : Bytes → Bytes → Bytes
  decoded_body body encoding = or_raw body (decode_transfer codec body encoding)

  -- The end of `walk`, for a part that holds no parts.
  unfoldable pub walk_leaf : Dict Bytes → Bytes → Bytes → Content → Content
  unfolding parse_media_type decode_transfer decode_word first_non_empty add_attachment append_text
      append_html to_utf8 str_eq has_prefix
  walk_leaf headers body part_id m =
      let (kind, params) = parse_media_type codec (lookup headers (codes "content-type")) in
      let (disposition, disposition_params) =
        parse_media_type codec (lookup headers (codes "content-disposition")) in
      let decoded = decoded_body body (lookup headers (codes "content-transfer-encoding")) in
      let is_attachment =
        str_eq disposition (codes "attachment")
        || (not (is_nil (filename_of disposition_params params))
            || (not (is_nil kind)
                && (not (has_prefix kind (codes "text/"))
                    && not (has_prefix kind (codes "message/"))))) in
      if not is_attachment && (is_nil kind || str_eq kind (codes "text/plain"))
      then append_text (to_utf8 decoded (lookup params (codes "charset"))) m
      else if not is_attachment && str_eq kind (codes "text/html")
      then append_html (to_utf8 decoded (lookup params (codes "charset"))) m
      else add_attachment headers decoded part_id kind disposition disposition_params m

  -- The walk over one part: its header, its body, its name, and the message so far.
  abbrev pub Walker : Type 0
  Walker = Dict Bytes → Bytes → Bytes → Content → Content

  -- The loop of `walk` over the parts of a container; the index of the part before is given.
  unfoldable pub walk_parts : Walker → Bytes → ℕ → List RawPart → Content → Content
  unfolding sub_headers
  walk_parts walker part_id index [] m = m
  walk_parts walker part_id index (p ∷ ps) m = walk_parts walker part_id (index + 1) ps (
      walker (sub_headers p.fields (λ k. none)) p.content
        (part_id ++ b'.' ∷ codec.decimal (index + 1)) m)

  unfoldable pub walk_container : Walker → Bytes → Bytes → Dict Bytes → Content → Content
  unfolding walk_parts append_text to_utf8
  walk_container walker body part_id params m =
      let (parts, at_end) = codec.raw_parts body (lookup params (codes "boundary")) in
      if not at_end && is_nil parts
      then append_text (to_utf8 body (lookup params (codes "charset"))) m
      else walk_parts walker part_id 0 parts m

  -- `walk`, on the number of levels that are left: the depth of the source and it make up `levels`.
  unfoldable pub walk : ℕ → Walker
  unfolding walk_leaf walk_container add_attachment parse_media_type has_prefix
  walk zero headers body part_id m = m
  walk (suc left) headers body part_id m =
      let (kind, params) = parse_media_type codec (lookup headers (codes "content-type")) in
      let (disposition, disposition_params) =
        parse_media_type codec (lookup headers (codes "content-disposition")) in
      if not (has_prefix kind (codes "multipart/"))
      then walk_leaf headers body part_id m
      else if is_nil (lookup params (codes "boundary"))
      then add_attachment headers body part_id kind disposition disposition_params m
      else walk_container (walk left) body part_id params m

  -- `Parse`.
  unfoldable pub parse : Bytes → Mail
  unfolding split_message parse_headers header header_map walk parse_address_list parse_date
      decode_word to_utf8 trim_space
  parse raw =
      let (block, rest) = split_message raw in
      let headers = parse_headers block in
      let body = if is_nil headers then raw else rest in
      let empty : Content = record { text = []; html = []; attachments = [] } in
      let m = walk levels (header_map headers) body (codes "1") empty in
      let bare = is_nil m.text && (is_nil m.html && is_nil m.attachments) in
      record {
        headers = headers;
        subject = decode_word codec (header headers (codes "Subject"));
        date = parse_date codec (header headers (codes "Date"));
        message_id = trim_space (header headers (codes "Message-ID"));
        from = parse_address_list codec (header headers (codes "From"));
        to = parse_address_list codec (header headers (codes "To"));
        cc = parse_address_list codec (header headers (codes "Cc"));
        bcc = parse_address_list codec (header headers (codes "Bcc"));
        reply_to = parse_address_list codec (header headers (codes "Reply-To"));
        text = if bare then to_utf8 body [] else m.text;
        html = m.html;
        attachments = m.attachments;
      }
