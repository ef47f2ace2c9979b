-- ===== src/Mailparse/Decoding.antt =====
-- internal/mailparse/mailparse.go: media types, transfer encodings, words, addresses and dates.
use mailschleuse.Base.{
  ℕ, ◌%◌, Bool, not, ◌||◌, List, [], ◌∷◌, ◌++◌, Option, none, some, if◌then◌else◌, is_nil, length,
  ◌==◌, Bytes, codes, str_eq, to_lower, trim_space, trim_right_of, cut, Dict, decode_base64,
}
use mailschleuse.Mailparse.Types.{Address}

-- A part as `multipart.Reader` gives it: its header, and all of its bytes.
pub record RawPart : Type 0 where
  pub fields : List (Bytes × List Bytes)
  pub content : Bytes

-- What the source takes of Go's packages mime, multipart, quotedprintable, net/mail and time:
-- `ParseMediaType`, `DecodeHeader`, `ParseList`, the formats of a date, the parts of a body up to the
-- error that ends them, with whether it is io.EOF, the decoder of quoted-printable,
-- `ExtensionsByType`, and a number in decimal.
pub record Codec : Type 0 where
  pub media_type : Bytes → Option (Bytes × Dict Bytes)
  pub decode_header : Bytes → Option Bytes
  pub address_list : Bytes → Option (List Address)
  pub date_formats : List (Bytes → Option ℕ)
  pub raw_parts : Bytes → Bytes → List RawPart × Bool
  pub quoted_printable : Bytes → Option Bytes
  pub extensions : Bytes → List Bytes
  pub decimal : ℕ → Bytes

-- `firstNonEmpty`.
unfoldable pub first_non_empty : List Bytes → Bytes
unfolding trim_space
first_non_empty [] = []
first_non_empty (v ∷ vs) =
    let rest = first_non_empty vs in if not (is_nil (trim_space v)) then v else rest

-- The white space that `decodeTransfer` takes out of base64.
unfoldable pub cleaned : Bytes → Bytes
cleaned [] = []
cleaned (c ∷ s) =
    let rest = cleaned s in
    if c == b'\r' || (c == b'\n' || (c == b' ' || c == b'\t')) then rest else c ∷ rest

abbrev pub padding : Bytes → Bytes
padding s = if length s % 4 == 2 then codes "==" else if length s % 4 == 3 then codes "=" else []

-- `base64.StdEncoding.WithPadding(base64.NoPadding).DecodeString`, on a text without "=" at its end.
unfoldable pub decode_unpadded : Bytes → Option Bytes
unfolding decode_base64
decode_unpadded s = decode_base64 (s ++ padding s)

abbrev pub no_params : Dict Bytes
no_params k = none

abbrev pub lowered : Bytes → Option (Bytes × Dict Bytes) → Bytes × Dict Bytes
lowered raw none = (to_lower (trim_space ((cut raw b';').0)), no_params)
lowered raw (some (kind, params)) = (to_lower kind, params)

abbrev pub or_raw : Bytes → Option Bytes → Bytes
or_raw raw none = raw
or_raw raw (some s) = s

abbrev pub or_single : Bytes → Option (List Address) → List Address
or_single address none = record { name = []; address = address } ∷ []
or_single address (some list) = list

unfoldable pub first_date : List (Bytes → Option ℕ) → Bytes → ℕ
first_date [] raw = 0
first_date (format ∷ formats) raw = elim (format raw) [ none ↦ first_date formats raw | some t ↦ t ]

module _ (codec : Codec) where
  -- `parseMediaType`.
  unfoldable pub parse_media_type : Bytes → Bytes × Dict Bytes
  unfolding trim_space to_lower cut
  parse_media_type raw =
      if is_nil (trim_space raw) then ([], no_params) else lowered raw (codec.media_type raw)

  -- `decodeTransfer`: none for the error.
  unfoldable pub decode_transfer : Bytes → Bytes → Option Bytes
  unfolding cleaned decode_unpadded str_eq to_lower trim_space trim_right_of
  decode_transfer body encoding =
      let name = to_lower (trim_space encoding) in
      if str_eq name (codes "base64")
      then decode_unpadded (trim_right_of (λ c. c == b'=') (cleaned body))
      else if str_eq name (codes "quoted-printable")
      then codec.quoted_printable body
      else some body

  -- `DecodeWord`.
  unfoldable pub decode_word : Bytes → Bytes
  decode_word raw = if is_nil raw then [] else or_raw raw (codec.decode_header raw)

  -- `ParseAddressList`.
  unfoldable pub parse_address_list : Bytes → List Address
  unfolding decode_word trim_space
  parse_address_list text =
      let raw = trim_space text in
      if is_nil raw then [] else or_single (decode_word raw) (codec.address_list raw)

  -- `parseDate`; zero is the zero time.
  unfoldable pub parse_date : Bytes → ℕ
  unfolding first_date
  parse_date raw = if is_nil raw then 0 else first_date codec.date_formats raw

  abbrev pub first_extension : List Bytes → Bytes
  first_extension [] = codes ".bin"
  first_extension (e ∷ es) = e

  -- `extensionFor`.
  unfoldable pub extension_for : Bytes → Bytes
  extension_for content_type = first_extension (codec.extensions content_type)
