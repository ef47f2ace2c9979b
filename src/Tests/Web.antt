-- ===== src/Tests/Web.antt =====
-- internal/web at concrete inputs.
use mailschleuse.Base.{
  Ensures, if◌then◌else◌, has_suffix, ◌≡◌, ◌≢◌, refl, true, false, [], ◌∷◌, Bytes, codes, err, All,
  str_eq, arith, crlf, map, ◌++◌, trim_space, is_space,
}
use mailschleuse.Store.Queries.{get}
use mailschleuse.Web.Compose.{ComposeRequest, build}
use mailschleuse.Web.Compose.Headers.{HeaderPair, write_headers}
use mailschleuse.Web.Compose.Bodies.{Mime}
use mailschleuse.Web.Compose.Built.{IsBuilt, build-Ensures}
use mailschleuse.Web.Compose.Fields.{IsClean}
use mailschleuse.Web.Types.{World, Options, Request, method_post}
use mailschleuse.Web.Reading.{handle_get_message, no_message}
use mailschleuse.Web.Changing.{handle_delete_message}
use mailschleuse.Web.Server.{serve}
use mailschleuse.Web.Access.{basic_auth, is_login}
use mailschleuse.Web.Guards.{IsGuarded, IsBlind, Watched, serve-IsBlind, serve-Watched, IsGuarded}
use mailschleuse.Web.Stored.{delete-gone}
use mailschleuse.Mailparse.Headers.{split_message, parse_headers}
use mailschleuse.Mailparse.Headers.Written.{to_header, split_message-written}
use mailschleuse.Mailparse.Headers.Block.{IsField}
use mailschleuse.Tests.Fixtures.{plain_text, stamps, inbox, one_message, tag}

abbrev mime : Mime
mime = record {
  q_encode = λ s. codes "text";
  quoted_printable = λ s. s;
  format_media_type = λ kind name value. kind;
  token = λ n. codes "abc";
  decimal = λ n. codes "1";
  now = codes "today";
}

abbrev pub web_world : World
web_world = record {
  parse = plain_text;
  stamp = stamps;
  mime = mime;
  decode_patch = λ body. err (codes "invalid JSON body");
  decode_compose = λ body. err (codes "invalid JSON body");
  has_asset = λ path. false;
}

-- A server with a login, under the base path /mail.
abbrev pub web_options : Options
web_options = record {
  version = codes "1";
  hostname = codes "mail.example.org";
  base_path = codes "/mail";
  username = codes "ann";
  password = codes "secret";
  cors_origin = codes "*";
  read_only = true;
  max_size = 1024;
  endpoints = [];
  routes = [];
}

abbrev query : Bytes → Bytes
query key = if str_eq key (codes "mailbox") then inbox else []

abbrev pub importing : Request
importing = record {
  method = method_post;
  path = codes "/mail/api/messages/import";
  query = query;
  authorization = [];
  body = codes "Subject: Hi";
  remote_addr = codes "192.0.2.1:4711";
}

-- The import has no login.
importing-IsGuarded : IsGuarded web_options importing
unfolding has_suffix basic_auth is_login
importing-IsGuarded = (refl, (refl, refl))

serve-IsBlind_example : IsBlind (serve web_world web_options) importing
serve-IsBlind_example = serve-IsBlind web_world web_options importing importing-IsGuarded

serve-Watched_example : Watched one_message (serve web_world web_options importing one_message).0
serve-Watched_example = serve-Watched web_world web_options importing one_message refl

delete-gone_example :
    (handle_get_message (tag 0) (handle_delete_message (tag 0) one_message).0 ≡ no_message)
    × ((j : Bytes)
        → tag 0 ≢ j
        → get (handle_delete_message (tag 0) one_message).0 j ≡ get one_message j)
delete-gone_example = delete-gone (tag 0) one_message

-- A request with line breaks in the value of a header, and in the name and the type of an attachment.
abbrev request : ComposeRequest
request = record {
  mailbox = inbox;
  from = codes "Ann <ann@example.org>";
  to = codes "bob@example.org, eve@example.org" ∷ [];
  cc = [];
  bcc = [];
  reply_to = codes "ann@example.org";
  subject = codes "Hi";
  text = codes "Hello";
  html = [];
  headers = record { name = codes "X-Test"; value = codes "a\r\nBcc: eve" } ∷ [];
  attachments =
      record {
        filename = codes "a\r\nX: b.txt";
        content_type = codes "text/plain\r\nX: c";
        content = codes "SGk=";
      }
      ∷ [];
}

mime-IsClean : IsClean mime (codes "mail.example.org")
mime-IsClean = record {
  encoded = λ s. ground arith;
  dated = ground arith;
  numbered = λ n. ground arith;
  formatted = λ kind key value h k l. h;
  named = ground arith;
}

build-Ensures_example :
    Ensures
      (IsBuilt mime (codes "mail.example.org") request)
      (build mime (codes "mail.example.org") request)
build-Ensures_example = build-Ensures mime (codes "mail.example.org") mime-IsClean request

abbrev subject_field : HeaderPair
subject_field = record { name = codes "Subject"; value = codes "Hi there" }

abbrev empty_field : HeaderPair
empty_field = record { name = codes "X-Empty"; value = [] }

fields-AreFields : All IsField (subject_field ∷ empty_field ∷ [])
unfolding trim_space is_space
fields-AreFields = (
  record {
    named = refl;
    name_plain = ground arith;
    value_unbroken = ground arith;
    value_trimmed = refl;
  },
  (
    record { named = refl; name_plain = ground arith; value_unbroken = tt; value_trimmed = refl },
    tt,
  ),
)

split_message-written_example :
    (let parts =
        split_message (
          write_headers (subject_field ∷ empty_field ∷ []) ++ (crlf ++ codes "Hello\r\n\r\nBye")) in
      (parts.1 ≡ codes "Hello\r\n\r\nBye")
      × (parse_headers parts.0 ≡ map to_header (subject_field ∷ empty_field ∷ [])))
split_message-written_example =
    split_message-written subject_field (empty_field ∷ []) (codes "Hello\r\n\r\nBye")
      fields-AreFields
