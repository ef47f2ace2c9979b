-- ===== src/Tests/Mail.antt =====
-- internal/mailparse at concrete inputs.
use mailschleuse.Base.{
  ◌≡◌, ◌<◌, refl, true, List, [], ◌∷◌, none, some, Bytes, codes, All, arith, to_lower, length, Dict,
}
use mailschleuse.Mailparse.Types.{Header}
use mailschleuse.Mailparse.Filename.{sanitize_filename}
use mailschleuse.Mailparse.Filename.Safe.{IsSafe, sanitize_filename-IsSafe}
use mailschleuse.Mailparse.Headers.{header, header_map, lookup}
use mailschleuse.Mailparse.Headers.Lookup.{header_map-header, IsAscii}
use mailschleuse.Mailparse.Charset.{to_utf8, utf8_valid}
use mailschleuse.Mailparse.Charset.Valid.{to_utf8-valid}
use mailschleuse.Mailparse.Walk.{parse}
use mailschleuse.Mailparse.Decoding.{Codec}
use mailschleuse.Mailparse.Walk.Attached.{IsServable, parse-AreServable}

sanitize_filename-IsSafe_example : IsSafe (sanitize_filename (codes "../../etc/pass\twd"))
sanitize_filename-IsSafe_example = sanitize_filename-IsSafe (codes "../../etc/pass\twd")

abbrev fields : List Header
fields =
    record { name = codes "Subject"; value = codes "one" }
    ∷ record { name = codes "SUBJECT"; value = codes "two" }
    ∷ []

fields-IsAscii : All (λ h. All IsAscii h.name) fields
fields-IsAscii = (ground arith, (ground arith, tt))

header_map-header_example :
    lookup (header_map fields) (to_lower (codes "subject")) ≡ header fields (codes "subject")
header_map-header_example = header_map-header fields (codes "subject") fields-IsAscii (ground arith)

-- Bytes that are no UTF-8, in a charset that is not known.
abbrev body : Bytes
body = 195 ∷ 40 ∷ 255 ∷ 128 ∷ []

body-AreBytes : All (λ c. c < 256) body
body-AreBytes = ground arith

to_utf8-valid_example : utf8_valid (to_utf8 body (codes "koi8-r")) ≡ true
to_utf8-valid_example = to_utf8-valid body (codes "koi8-r") body-AreBytes

-- Every body is a container of one part, and no media type has parameters but the boundary.
abbrev boundary : Dict Bytes
boundary key = some (codes "b")

abbrev pub codec : Codec
codec = record {
  media_type = λ raw. some (raw, boundary);
  decode_header = λ raw. none;
  address_list = λ raw. none;
  date_formats = [];
  raw_parts = λ text b. (
    record { fields = (codes "Content-Type", codes "image/png" ∷ []) ∷ []; content = codes "PNG" }
        ∷ [],
    true,
  );
  quoted_printable = λ text. some text;
  extensions = λ kind. codes ".png" ∷ [];
  decimal = λ n. codes "1";
}

abbrev image_mail : Bytes
image_mail = codes "Content-Type: multipart/mixed\r\n\r\nbody"

parse-image : length (parse codec image_mail).attachments ≡ 1
unfolding parse
parse-image = refl

parse-AreServable_example : All IsServable (parse codec image_mail).attachments
parse-AreServable_example = parse-AreServable codec image_mail
