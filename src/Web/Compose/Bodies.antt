-- ===== src/Web/Compose/Bodies.antt =====
-- internal/web/compose.go: the MIME parts of a message.
use mailschleuse.Base.{
  ℕ, ◌+◌, List, [], ◌∷◌, ◌++◌, Option, none, some, if◌then◌else◌, is_nil, Bytes, codes, crlf,
  trim_space, cut_at, decode_base64, Result, ok, err, ◌>>=◌,
}
use mailschleuse.Web.Compose.Lines.{normalize_crlf, wrap_base64}
use mailschleuse.Store.Queries.{str_lt}
use mailschleuse.Web.Compose.Headers.{HeaderPair, write_headers, sanitize_header_value}

pub record ComposeAttachment : Type 0 where
  pub filename : Bytes
  pub content_type : Bytes
  pub content : Bytes

pub record DecodedAttachment : Type 0 where
  pub filename : Bytes
  pub content_type : Bytes
  pub content : Bytes

-- The error of an attachment holds its number, from 1.
pub data ComposeError : Type 0 where
  from_required recipient_required body_required : ComposeError
  bad_base64 : ℕ → ComposeError

-- What the source takes of Go's packages mime, quotedprintable, crypto/rand and time: the Q encoding
-- of a text, the quoted-printable form of one, `FormatMediaType` with one parameter, the tokens of
-- `randomToken`, one for each use, the number n in decimal, and the time.
pub record Mime : Type 0 where
  pub q_encode : Bytes → Bytes
  pub quoted_printable : Bytes → Bytes
  pub format_media_type : Bytes → Bytes → Bytes → Bytes
  pub token : ℕ → Bytes
  pub decimal : ℕ → Bytes
  pub now : Bytes

-- A body, and the header fields that describe it.
pub record Content : Type 0 where
  pub body : Bytes
  pub headers : List HeaderPair

abbrev behind_marker : Bytes → Bytes
behind_marker payload = elim (cut_at payload (codes ";base64,")) [
  | none ↦ payload
  | some (before, after) ↦ after
]

abbrev or_default : Bytes → Bytes → Bytes
or_default text fallback = if is_nil text then fallback else text

unfoldable pub decoded : (ℕ → Bytes) → ℕ → ComposeAttachment → Bytes → DecodedAttachment
unfolding trim_space sanitize_header_value
decoded decimal i a content = record {
  filename = sanitize_header_value (
      or_default (trim_space a.filename)
        (codes "attachment-" ++ (decimal (i + 1) ++ codes ".bin")));
  content_type =
      sanitize_header_value
        (or_default (trim_space a.content_type) (codes "application/octet-stream"));
  content = content;
}

abbrev decoded_or : ℕ → Option Bytes → Result ComposeError Bytes
decoded_or i none = err (bad_base64 (i + 1))
decoded_or i (some content) = ok content

-- The loop of `decodeAttachments`, from the index i on.
unfoldable pub decode_attachments :
    (ℕ → Bytes) → ℕ → List ComposeAttachment → Result ComposeError (List DecodedAttachment)
unfolding decoded decode_base64 trim_space cut_at
decode_attachments decimal i [] = ok []
decode_attachments decimal i (a ∷ more) = do
  content ← decoded_or i (decode_base64 (trim_space (behind_marker a.content)))
  rest ← decode_attachments decimal (i + 1) more
  ok (decoded decimal i a content ∷ rest)

-- `multipart.Writer` writes the headers of a part in the order of their names.
unfoldable pub insert_header : HeaderPair → List HeaderPair → List HeaderPair
unfolding str_lt
insert_header h [] = h ∷ []
insert_header h (x ∷ xs) =
    let later = insert_header h xs in if str_lt x.name h.name then x ∷ later else h ∷ x ∷ xs

unfoldable pub sort_headers : List HeaderPair → List HeaderPair
unfolding insert_header
sort_headers [] = []
sort_headers (h ∷ hs) = insert_header h (sort_headers hs)

-- `CreatePart` and the write of the part behind it.
unfoldable pub write_part : Bytes → Content → Bytes
unfolding sort_headers write_headers
write_part boundary part =
    codes "--"
    ++ (boundary ++ (crlf ++ (write_headers (sort_headers part.headers) ++ (crlf ++ part.body))))

unfoldable pub write_parts : Bytes → List Content → Bytes
unfolding write_part
write_parts boundary [] = []
write_parts boundary (p ∷ ps) = crlf ++ (write_part boundary p ++ write_parts boundary ps)

-- The parts, and what `Close` writes; only the first part has no line break in front.
unfoldable pub write_multipart : Bytes → Content → List Content → Bytes
unfolding write_part write_parts
write_multipart boundary first parts =
    write_part boundary first
    ++ (write_parts boundary parts ++ (crlf ++ (codes "--" ++ (boundary ++ (codes "--" ++ crlf)))))

unfoldable pub multipart : Bytes → Bytes → Content → List Content → Content
unfolding write_multipart normalize_crlf
multipart kind boundary first parts = record {
  body = normalize_crlf (write_multipart boundary first parts);
  headers =
      record {
        name = codes "Content-Type";
        value = kind ++ (codes "; boundary=\"" ++ (boundary ++ codes "\""));
      }
      ∷ [];
}

module _ (mime : Mime) where
  -- `encodeQP`.
  unfoldable pub encode_qp : Bytes → Bytes
  unfolding normalize_crlf
  encode_qp s = mime.quoted_printable (normalize_crlf s)

  unfoldable pub text_part : Bytes → Bytes → Content
  unfolding encode_qp
  text_part content_type text = record {
    body = encode_qp text;
    headers =
        record { name = codes "Content-Type"; value = content_type }
        ∷ record { name = codes "Content-Transfer-Encoding"; value = codes "quoted-printable" }
        ∷ [];
  }

  -- `randomBoundary`.
  unfoldable pub boundary : ℕ → Bytes
  boundary i = codes "mailschleuse-" ++ mime.token i

  -- `buildContent`.
  unfoldable pub build_content : Bytes → Bytes → Content
  unfolding text_part multipart boundary trim_space
  build_content text html =
      let plain = text_part (codes "text/plain; charset=utf-8") text in
      let rich = text_part (codes "text/html; charset=utf-8") html in
      if is_nil (trim_space html)
      then plain
      else if is_nil (trim_space text)
      then rich
      else multipart (codes "multipart/alternative") (boundary 2) plain (rich ∷ [])

  -- The part of an attachment in `buildBody`.
  unfoldable pub attachment_part : DecodedAttachment → Content
  unfolding wrap_base64
  attachment_part a = record {
    body = wrap_base64 a.content;
    headers =
        record {
          name = codes "Content-Type";
          value = mime.format_media_type a.content_type (codes "name") a.filename;
        }
        ∷ record { name = codes "Content-Transfer-Encoding"; value = codes "base64" }
        ∷ record {
          name = codes "Content-Disposition";
          value = mime.format_media_type (codes "attachment") (codes "filename") a.filename;
        }
        ∷ [];
  }

  unfoldable pub attachment_parts : List DecodedAttachment → List Content
  unfolding attachment_part
  attachment_parts [] = []
  attachment_parts (a ∷ more) = attachment_part a ∷ attachment_parts more

  -- `buildBody`.
  unfoldable pub build_body : Bytes → Bytes → List ComposeAttachment → Result ComposeError Content
  unfolding decode_attachments build_content attachment_parts multipart boundary
  build_body text html attachments = do
    decoded ← decode_attachments mime.decimal 0 attachments
    let content = build_content text html
    let parts = attachment_parts decoded
    ok (
        if is_nil decoded
        then content
        else multipart (codes "multipart/mixed") (boundary 1) content parts)
