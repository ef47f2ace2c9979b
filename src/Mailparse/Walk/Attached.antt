-- ===== src/Mailparse/Walk/Attached.antt =====
-- internal/mailparse/mailparse.go: the attachments of a parsed message.
use mailschleuse.Base.{
  if◌then◌else◌, ℕ, zero, suc, ◌+◌, ◌≡◌, refl, false, not, ◌&&◌, List, [], ◌∷◌, ◌++◌, All,
  All-append, is_nil, length, Bytes, codes, if_intro, Dict, has_prefix,
}
use mailschleuse.Mailparse.Types.{Attachment}
use mailschleuse.Mailparse.Filename.Safe.{IsSafe, sanitize_filename-IsSafe}
use mailschleuse.Mailparse.Headers.{split_message, parse_headers, header_map, lookup}
use mailschleuse.Mailparse.Walk.{
  decoded_body, filename_of, Content, Walker, levels, append_text, append_html, attachment_of,
  add_attachment, walk_leaf, walk_parts, walk_container, walk, parse, or_default,
}
use mailschleuse.Mailparse.Decoding.{extension_for, Codec, RawPart, parse_media_type}

-- An attachment that can be listed and served: a safe name, a content type, and its size.
pub record IsServable (a : Attachment) : Type 0 where
  pub named : IsSafe a.filename
  pub typed : is_nil a.content_type ≡ false
  pub sized : a.size ≡ length a.content

record AreServable (m : Content) : Type 0 where
  all : All IsServable m.attachments

or_default-given :
    (s fallback : Bytes)
    → is_nil fallback ≡ false
    → is_nil (if is_nil s then fallback else s) ≡ false
or_default-given [] fallback e = e
or_default-given (c ∷ s) fallback e = refl

append_text-AreServable : (s : Bytes) (m : Content) → AreServable m → AreServable (append_text s m)
unfolding append_text
append_text-AreServable s m h = record { all = h.all }

append_html-AreServable : (s : Bytes) (m : Content) → AreServable m → AreServable (append_html s m)
unfolding append_html
append_html-AreServable s m h = record { all = h.all }

module _ (codec : Codec) where
  attachment_of-IsServable :
      (headers : Dict Bytes) (content part_id kind disposition : Bytes) (params : Dict Bytes)
      → IsServable (attachment_of codec headers content part_id kind disposition params)
  unfolding attachment_of
  attachment_of-IsServable headers content part_id kind disposition params =
      let (kind', params') = parse_media_type codec (lookup headers (codes "content-type")) in
      record {
        named = sanitize_filename-IsSafe (
            or_default (filename_of codec params params')
              (codes "part-" ++ (part_id ++ extension_for codec kind)));
        typed = or_default-given kind (codes "application/octet-stream") refl;
        sized = refl;
      }

  add_attachment-AreServable :
      (headers : Dict Bytes) (content part_id kind disposition : Bytes) (params : Dict Bytes)
      (m : Content)
      → AreServable m
      → AreServable (add_attachment codec headers content part_id kind disposition params m)
  unfolding add_attachment
  add_attachment-AreServable headers content part_id kind disposition params m h = record {
    all =
        All-append IsServable m.attachments _ h.all
          (attachment_of-IsServable headers content part_id kind disposition params, tt);
  }

  walk_leaf-AreServable :
      (headers : Dict Bytes) (body part_id : Bytes) (m : Content)
      → AreServable m
      → AreServable (walk_leaf codec headers body part_id m)
  unfolding walk_leaf
  walk_leaf-AreServable headers body part_id m h =
      let (kind, params) = parse_media_type codec (lookup headers (codes "content-type")) in
      let (disposition, disposition_params) =
        parse_media_type codec (lookup headers (codes "content-disposition")) in
      let decoded = decoded_body codec body (lookup headers (codes "content-transfer-encoding")) in
      if_intro AreServable _ (append_text-AreServable _ m h) (
        if_intro AreServable _ (append_html-AreServable _ m h) (
          add_attachment-AreServable headers decoded part_id kind disposition disposition_params m
            h))

  -- A walk that adds servable attachments only.
  abbrev AddsServable : Walker codec → Type 0
  AddsServable walker =
      (headers : Dict Bytes) (body part_id : Bytes) (m : Content)
      → AreServable m
      → AreServable (walker headers body part_id m)

  walk_parts-AreServable :
      (walker : Walker codec)
      → AddsServable walker
      → (part_id : Bytes) (index : ℕ) (ps : List RawPart) (m : Content) → AreServable m
      → AreServable (walk_parts codec walker part_id index ps m)
  unfolding walk_parts
  walk_parts-AreServable walker w part_id index [] m h = h
  walk_parts-AreServable walker w part_id index (p ∷ ps) m h =
      walk_parts-AreServable walker w part_id (index + 1) ps _ (w _ p.content _ m h)

  walk_container-AreServable :
      (walker : Walker codec)
      → AddsServable walker
      → (body part_id : Bytes) (params : Dict Bytes) (m : Content) → AreServable m
      → AreServable (walk_container codec walker body part_id params m)
  unfolding walk_container
  walk_container-AreServable walker w body part_id params m h =
      let (parts, at_end) = codec.raw_parts body (lookup params (codes "boundary")) in
      if_intro AreServable (not at_end && is_nil parts) (append_text-AreServable _ m h)
        (walk_parts-AreServable walker w part_id 0 parts m h)

  walk-AreServable : (left : ℕ) → AddsServable (walk codec left)
  unfolding walk
  walk-AreServable zero headers body part_id m h = h
  walk-AreServable (suc left) headers body part_id m h =
      let (kind, params) = parse_media_type codec (lookup headers (codes "content-type")) in
      let (disposition, disposition_params) =
        parse_media_type codec (lookup headers (codes "content-disposition")) in
      if_intro AreServable (not (has_prefix kind (codes "multipart/")))
        (walk_leaf-AreServable headers body part_id m h)
        (if_intro AreServable (is_nil (lookup params (codes "boundary")))
          (add_attachment-AreServable headers body part_id kind disposition disposition_params m h)
          (walk_container-AreServable (walk codec left) (walk-AreServable left) body part_id params
            m h))

  -- Whatever bytes a message has, each attachment that the parser lists has a safe name, a content
  -- type that is not empty, and the size of its content.
  pub parse-AreServable : (raw : Bytes) → All IsServable (parse codec raw).attachments
  unfolding parse
  parse-AreServable raw =
      let (block, rest) = split_message raw in
      let headers = parse_headers block in
      (walk-AreServable levels (header_map headers) (if is_nil headers then raw else rest)
        (codes "1") (record { text = []; html = []; attachments = [] }) (record { all = tt })).all
