-- ===== src/Web/Compose.antt =====
-- internal/web/compose.go: a message made of the fields of a request.
pub mod Headers
pub mod Lines
pub mod Bodies
pub mod Clean
pub mod Fields
pub mod Built
pub mod Base64
pub mod Encoded
use mailschleuse.Base.{
  ℕ, ◌+◌, Bool, true, false, not, ◌&&◌, ◌||◌, List, [], ◌∷◌, ◌++◌, Option, none, some,
  if◌then◌else◌, is_nil, Bytes, codes, crlf, to_lower, trim_space, join, contains, Result, ok, err,
  ◌>>=◌, ◌>>◌, refuse,
}
use mailschleuse.Web.Compose.Headers.{
  HeaderPair, write_header, write_headers, sanitize_header_value, clean_list, encode_address_header,
}
use mailschleuse.Web.Compose.Bodies.{
  ComposeAttachment, ComposeError, bad_base64, from_required, recipient_required, body_required,
  Mime, Content, build_body,
}

pub record ComposeRequest : Type 0 where
  pub mailbox : Bytes
  pub from : Bytes
  pub to : List Bytes
  pub cc : List Bytes
  pub bcc : List Bytes
  pub reply_to : Bytes
  pub subject : Bytes
  pub text : Bytes
  pub html : Bytes
  pub headers : List HeaderPair
  pub attachments : List ComposeAttachment

abbrev pub headers_set_by_builder : List Bytes
headers_set_by_builder =
    codes "from"
    ∷ codes "to"
    ∷ codes "cc"
    ∷ codes "bcc"
    ∷ codes "subject"
    ∷ codes "date"
    ∷ codes "message-id"
    ∷ codes "reply-to"
    ∷ codes "mime-version"
    ∷ codes "content-type"
    ∷ codes "content-transfer-encoding"
    ∷ []

-- The loop of `Build` over the free-form headers, in the order in which the map gives them.
unfoldable pub extra_fields : List HeaderPair → List HeaderPair
unfolding trim_space to_lower contains sanitize_header_value
extra_fields [] = []
extra_fields (h ∷ hs) =
    let name = trim_space h.name in
    let rest = extra_fields hs in
    if is_nil name || contains headers_set_by_builder (to_lower name)
    then rest
    else record { name = name; value = sanitize_header_value h.value } ∷ rest

module _ (mime : Mime) where
  -- A header of addresses, which is left out if there are none.
  unfoldable pub address_field : Bytes → List Bytes → List HeaderPair
  unfolding join encode_address_header
  address_field name [] = []
  address_field name (a ∷ more) =
      record {
        name = name;
        value = encode_address_header mime.q_encode (join (a ∷ more) (codes ", "));
      }
      ∷ []

  unfoldable pub reply_field : Bytes → List HeaderPair
  unfolding encode_address_header
  reply_field reply_to =
      if is_nil reply_to
      then []
      else record { name = codes "Reply-To"; value = encode_address_header mime.q_encode reply_to }
        ∷ []

  -- The fields that `Build` writes in front of those of the content.
  unfoldable pub head_fields : Bytes → ComposeRequest → List HeaderPair
  unfolding address_field reply_field extra_fields clean_list trim_space encode_address_header
  head_fields hostname c =
      record { name = codes "Date"; value = mime.now }
      ∷ record {
        name = codes "Message-ID";
        value = codes "<" ++ (mime.token 0 ++ (codes "@" ++ (hostname ++ codes ">")));
      }
      ∷ record {
        name = codes "From";
        value = encode_address_header mime.q_encode (trim_space c.from);
      }
      ∷ (address_field (codes "To") (clean_list c.to)
          ++ (address_field (codes "Cc") (clean_list c.cc)
              ++ (address_field (codes "Bcc") (clean_list c.bcc)
                  ++ (reply_field (trim_space c.reply_to)
                      ++ (record { name = codes "Subject"; value = mime.q_encode c.subject }
                          ∷ (extra_fields c.headers
                              ++ record { name = codes "MIME-Version"; value = codes "1.0" }
                                ∷ []))))))

  -- `Build`.
  unfoldable pub build : Bytes → ComposeRequest → Result ComposeError Bytes
  unfolding trim_space clean_list build_body head_fields write_headers
  build hostname c = do
    refuse (is_nil (trim_space c.from)) from_required
    refuse (is_nil (clean_list c.to)) recipient_required
    refuse (is_nil (trim_space c.text) && is_nil (trim_space c.html)) body_required
    content ← build_body mime c.text c.html c.attachments
    ok (write_headers (head_fields hostname c ++ content.headers) ++ (crlf ++ content.body))
