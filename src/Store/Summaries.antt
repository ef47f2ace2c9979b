-- ===== src/Store/Summaries.antt =====
-- internal/store/store.go: the list view of a message and the search in it.
use mailschleuse.Base.{
  ℕ, ◌-◌, zero, suc, ◌+◌, Bool, true, false, not, ◌&&◌, ◌||◌, List, [], ◌∷◌, ◌++◌, map, Option,
  none, some, ltb, leb, ◌==◌, if◌then◌else◌, is_nil, length, get_elem?, take, Bytes, codes,
  to_lower, trim_space, fields, join, cut_at,
}
use mailschleuse.Mailparse.Types.{Address, Mail, display}
use mailschleuse.Store.Types.{Message, Summary}

-- The loop of `stripTags`. The source walks over characters; the two it looks for are single bytes.
unfoldable pub strip_tags : Bytes → ℕ → Bytes
strip_tags [] depth = []
strip_tags (c ∷ s) depth =
    let opened = strip_tags s (depth + 1) in
    let closed = strip_tags s (depth - 1) in
    let dropped = strip_tags s depth in
    if c == b'<'
    then opened
    else if c == b'>' && ltb 0 depth
    then closed
    else if depth == 0
    then c ∷ dropped
    else dropped

-- `b&0xC0 != 0x80`: the byte is not one of 128 to 191.
unfoldable pub is_rune_start : ℕ → Bool
is_rune_start b = not (leb 128 b && ltb b 192)

abbrev starts_rune_at : Bytes → ℕ → Bool
starts_rune_at s i = elim (get_elem? s i) [ none ↦ true | some b ↦ is_rune_start b ]

-- The loop that moves the cut back to the start of a character.
unfoldable pub cut_back : Bytes → ℕ → ℕ
unfolding is_rune_start
cut_back source zero = zero
cut_back source (suc n) =
    let back = cut_back source n in if starts_rune_at source (suc n) then suc n else back

unfoldable pub shorten : Bytes → Bytes
unfolding cut_back
shorten source =
    if ltb 180 (length source)
    then trim_space (take (cut_back source 180) source) ++ codes "..."
    else source

unfoldable pub snippet : Mail → Bytes
unfolding shorten strip_tags
snippet p =
    let source = if is_nil p.text then strip_tags p.html 0 else p.text in
    shorten (join (fields source) (codes " "))

abbrev address_only : Bytes → Address
address_only a = record { name = []; address = a }

-- `Message.Summary`, with the value of the read flag.
unfoldable pub summary : Message → Bool → Summary
unfolding snippet
summary m read =
    let p = m.parsed in
    record {
      id = m.id;
      mailbox = m.mailbox;
      received_at = m.received_at;
      source = m.source;
      size = m.size;
      read = read;
      subject = p.subject;
      from =
          if is_nil p.from && not (is_nil m.envelope.from)
          then address_only m.envelope.from ∷ []
          else p.from;
      to =
          if is_nil p.to && not (is_nil m.envelope.to)
          then map address_only m.envelope.to
          else p.to;
      snippet = snippet p;
      has_html = not (is_nil p.html);
      attachments = length p.attachments;
      envelope = m.envelope;
    }

abbrev found : Option (Bytes × Bytes) → Bool
found none = false
found (some x) = true

-- `strings.Contains(strings.ToLower(text), needle)`.
unfoldable pub holds : Bytes → Bytes → Bool
holds needle text = found (cut_at (to_lower text) needle)

unfoldable pub any_holds : Bytes → List Bytes → Bool
unfolding holds
any_holds needle [] = false
any_holds needle (t ∷ ts) = holds needle t || any_holds needle ts

-- `Message.matches`.
unfoldable pub matches : Message → Bytes → Bool
unfolding any_holds
matches m needle =
    let p = m.parsed in
    holds needle m.envelope.from
    || any_holds needle m.envelope.to
    || holds needle p.subject
    || holds needle p.text
    || any_holds needle (map display p.from)
    || any_holds needle (map display p.to)
    || any_holds needle (map display p.cc)
