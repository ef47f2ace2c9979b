-- ===== src/Mailparse/Headers.antt =====
-- internal/mailparse/mailparse.go: the header block of a message.
pub mod Lookup
pub mod Block
pub mod Written
use mailschleuse.Base.{
  ℕ, Bool, true, false, not, ◌&&◌, ◌||◌, List, [], ◌∷◌, ◌++◌, Option, none, some, if◌then◌else◌,
  is_nil, ◌==◌, Bytes, codes, str_eq, to_lower, trim_space, split, cut, cut_at, crlf_to_lf, Dict,
  update,
}
use mailschleuse.Smtpd.Command.{equal_fold}
use mailschleuse.Mailparse.Types.{Header}
use mailschleuse.Store.Disk.{is_some}

-- `splitMessage`.
unfoldable pub split_message : Bytes → Bytes × Bytes
unfolding cut_at
split_message raw = elim (cut_at raw (codes "\r\n\r\n")) [
  | some parts ↦ parts
  | none ↦ elim (cut_at raw (codes "\n\n")) [ some parts ↦ parts | none ↦ (raw, []) ]
]

-- A line that goes on with the value of the header before it.
unfoldable pub is_folded : Bytes → Bool
is_folded [] = false
is_folded (c ∷ line) = c == b' ' || c == b'\t'

-- `headers[len(headers)-1].Value += text`.
unfoldable pub extend_last : List Header → Bytes → List Header
extend_last [] text = []
extend_last (h ∷ []) text = record h { value = h.value ++ text } ∷ []
extend_last (h ∷ g ∷ hs) text = h ∷ extend_last (g ∷ hs) text

-- The loop of `parseHeaders` over the lines.
unfoldable pub parse_lines : List Bytes → List Header → List Header
unfolding is_folded extend_last cut trim_space
parse_lines [] headers = headers
parse_lines (line ∷ lines) headers =
    let (name, value, found) = cut line b':' in
    let field : Header = record { name = trim_space name; value = trim_space value } in
    let skip = parse_lines lines headers in
    let extended = parse_lines lines (extend_last headers (codes " " ++ trim_space line)) in
    let next = parse_lines lines (headers ++ field ∷ []) in
    if is_nil line
    then skip
    else if is_folded line && not (is_nil headers)
    then extended
    else if not found
    then skip
    else next

-- `parseHeaders`.
unfoldable pub parse_headers : Bytes → List Header
unfolding parse_lines split crlf_to_lf
parse_headers block = parse_lines (split (crlf_to_lf block) b'\n') []

-- `Message.header`.
unfoldable pub header : List Header → Bytes → Bytes
unfolding equal_fold
header [] name = []
header (h ∷ hs) name = let rest = header hs name in if equal_fold h.name name then h.value else rest

-- The loop of `headerMap`.
unfoldable pub add_headers : List Header → Dict Bytes → Dict Bytes
unfolding to_lower
add_headers [] out = out
add_headers (h ∷ hs) out =
    let key = to_lower h.name in
    add_headers hs (if is_some (out key) then out else update out key (some h.value))

-- `headerMap`.
unfoldable pub header_map : List Header → Dict Bytes
unfolding add_headers
header_map headers = add_headers headers (λ k. none)

-- `headers[key]` of a map, whose missing keys give the empty string.
abbrev pub lookup : Dict Bytes → Bytes → Bytes
lookup m key = elim (m key) [ none ↦ [] | some value ↦ value ]
