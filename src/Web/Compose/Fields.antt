-- ===== src/Web/Compose/Fields.antt =====
-- internal/web/compose.go: no value of a composed header holds a line break.
use mailschleuse.Base.{
  ℕ, Bool, not, ◌||◌, List, [], ◌∷◌, ◌++◌, Option, none, some, All, All-append, All-trim_space,
  All-split, arith, is_nil, if_intro, ◌==◌, Bytes, codes, trim_space, trim_of, trim_left_of, join,
  has_suffix, to_lower, contains, if◌then◌else◌, All-reverse_aux,
}
use mailschleuse.Web.Compose.{
  ComposeRequest, address_field, reply_field, extra_fields, head_fields, headers_set_by_builder,
}
use mailschleuse.Web.Compose.Headers.{
  HeaderPair, sanitize_header_value, cut_last, encode_named, encode_address, encode_parts,
  encode_address_header, clean_list, last_of,
}
use mailschleuse.Web.Compose.Bodies.{Mime}
use mailschleuse.Web.Compose.Clean.{IsUnbroken, AreUnbroken, sanitize-AreUnbroken}

All-trim_left_of : (P : ℕ → Type 0) (p : ℕ → Bool) (s : Bytes) → All P s → All P (trim_left_of p s)
unfolding trim_left_of
All-trim_left_of P p [] h = tt
All-trim_left_of P p (c ∷ s) h = if_intro (All P) (p c) (All-trim_left_of P p s h.1) h

trim_of-AreUnbroken : (p : ℕ → Bool) (s : Bytes) → AreUnbroken s → AreUnbroken (trim_of p s)
unfolding trim_of
trim_of-AreUnbroken p s h =
    All-reverse_aux IsUnbroken _ []
      (All-trim_left_of IsUnbroken p _
        (All-reverse_aux IsUnbroken _ [] (All-trim_left_of IsUnbroken p s h) tt))
      tt

abbrev BothUnbroken : Option (Bytes × Bytes) → Type 0
BothUnbroken none = Unit
BothUnbroken (some (before, after)) = AreUnbroken before × AreUnbroken after

last_of-BothUnbroken :
    (c sep : ℕ) (s : Bytes) (o : Option (Bytes × Bytes))
    → IsUnbroken c
    → AreUnbroken s
    → BothUnbroken o
    → BothUnbroken (last_of c sep s o)
last_of-BothUnbroken c sep s (some (before, after)) pc h k = ((pc, k.0), k.1)
last_of-BothUnbroken c sep s none pc h k = if_intro BothUnbroken (c == sep) (tt, (pc, h)) tt

cut_last-BothUnbroken : (s : Bytes) (sep : ℕ) → AreUnbroken s → BothUnbroken (cut_last s sep)
unfolding cut_last
cut_last-BothUnbroken [] sep h = tt
cut_last-BothUnbroken (c ∷ s) sep h =
    last_of-BothUnbroken c sep s (cut_last s sep) h.0 h.1 (cut_last-BothUnbroken s sep h.1)

join-AreUnbroken :
    (ps : List Bytes) (sep : Bytes)
    → All AreUnbroken ps
    → AreUnbroken sep
    → AreUnbroken (join ps sep)
unfolding join
join-AreUnbroken [] sep h k = tt
join-AreUnbroken (p ∷ []) sep h k = h.0
join-AreUnbroken (p ∷ q ∷ ps) sep h k =
    All-append IsUnbroken p _ h.0
      (All-append IsUnbroken sep _ k (join-AreUnbroken (q ∷ ps) sep h.1 k))

comma-AreUnbroken : AreUnbroken (codes ", ")
comma-AreUnbroken = ground arith

-- Q encoding writes no line break.
abbrev pub WritesUnbroken : (Bytes → Bytes) → Type 0
WritesUnbroken f = (s : Bytes) → AreUnbroken (f s)

module _ (q_encode : Bytes → Bytes) (q : WritesUnbroken q_encode) where
  encode_address-AreUnbroken :
      (part : Bytes) → AreUnbroken part → AreUnbroken (encode_address q_encode part)
  unfolding encode_address encode_named
  encode_address-AreUnbroken part h = cases (cut_last part b'<') (cut_last-BothUnbroken part b'<' h)
    where
      cases :
          (o : Option (Bytes × Bytes))
          → BothUnbroken o
          → AreUnbroken (elim o as (λ x. Bytes) [
            | none ↦ part
            | some (before, after) ↦
                if is_nil before || not (has_suffix part (codes ">"))
                then part
                else encode_named q_encode before after
          ])
      cases none k = h
      cases (some (before, after)) k =
          if_intro AreUnbroken (is_nil before || not (has_suffix part (codes ">"))) h (
            All-trim_space IsUnbroken _ (
              All-append IsUnbroken (q_encode _) _ (q _)
                (((λ e. ground (arith, e)), (λ e. ground (arith, e))), k.1)))

  encode_parts-AreUnbroken :
      (ps : List Bytes) → All AreUnbroken ps → All AreUnbroken (encode_parts q_encode ps)
  unfolding encode_parts
  encode_parts-AreUnbroken [] h = tt
  encode_parts-AreUnbroken (p ∷ ps) h =
      if_intro (All AreUnbroken) (is_nil (trim_space p)) (encode_parts-AreUnbroken ps h.1) (
        encode_address-AreUnbroken (trim_space p) (All-trim_space IsUnbroken p h.0),
        encode_parts-AreUnbroken ps h.1,
      )

  pub encode_header-AreUnbroken : (raw : Bytes) → AreUnbroken (encode_address_header q_encode raw)
  unfolding encode_address_header
  encode_header-AreUnbroken raw =
      join-AreUnbroken _ (codes ", ")
        (encode_parts-AreUnbroken _
          (All-split IsUnbroken (sanitize_header_value raw) b',' (sanitize-AreUnbroken raw)))
        comma-AreUnbroken

-- What the fields take from outside is free of line breaks. `FormatMediaType` adds none to those of its
-- arguments.
pub record IsClean (mime : Mime) (hostname : Bytes) : Type 0 where
  pub encoded : WritesUnbroken mime.q_encode
  pub dated : AreUnbroken mime.now
  pub numbered : (n : ℕ) → AreUnbroken (mime.token n)
  pub formatted :
      (kind key value : Bytes)
      → AreUnbroken kind
      → AreUnbroken key
      → AreUnbroken value
      → AreUnbroken (mime.format_media_type kind key value)
  pub named : AreUnbroken hostname

abbrev pub HasCleanValue : HeaderPair → Type 0
HasCleanValue h = AreUnbroken h.value

module _ (mime : Mime) (hostname : Bytes) (clean : IsClean mime hostname) where
  address_field-clean :
      (name : Bytes) (addresses : List Bytes)
      → All HasCleanValue (address_field mime name addresses)
  unfolding address_field
  address_field-clean name [] = tt
  address_field-clean name (a ∷ more) =
      (encode_header-AreUnbroken mime.q_encode clean.encoded (join (a ∷ more) (codes ", ")), tt)

  reply_field-clean : (reply_to : Bytes) → All HasCleanValue (reply_field mime reply_to)
  unfolding reply_field
  reply_field-clean reply_to =
      if_intro (All HasCleanValue) (is_nil reply_to) tt
        (encode_header-AreUnbroken mime.q_encode clean.encoded reply_to, tt)

  extra_fields-clean : (hs : List HeaderPair) → All HasCleanValue (extra_fields hs)
  unfolding extra_fields
  extra_fields-clean [] = tt
  extra_fields-clean (h ∷ hs) =
      if_intro (All HasCleanValue)
        (is_nil (trim_space h.name)
          || contains headers_set_by_builder (to_lower (trim_space h.name)))
        (extra_fields-clean hs) (sanitize-AreUnbroken h.value, extra_fields-clean hs)

  -- The fields in front of those of the content.
  pub head_fields-clean : (c : ComposeRequest) → All HasCleanValue (head_fields mime hostname c)
  unfolding head_fields
  head_fields-clean c =
      let P : HeaderPair → Type 0 = HasCleanValue in
      (
        clean.dated,
        (
          message_id,
          (
            encode_header-AreUnbroken mime.q_encode clean.encoded (trim_space c.from),
            All-append P _ _ (address_field-clean (codes "To") (clean_list c.to)) (
                All-append P _ _ (address_field-clean (codes "Cc") (clean_list c.cc)) (
                  All-append P _ _ (address_field-clean (codes "Bcc") (clean_list c.bcc)) (
                    All-append P _ _ (reply_field-clean (trim_space c.reply_to)) (
                      clean.encoded c.subject,
                      All-append P _ _ (extra_fields-clean c.headers) (version, tt),
                    )))),
          ),
        ),
      )
    where
      version : AreUnbroken (codes "1.0")
      version = ground arith

      message_id :
          AreUnbroken (codes "<" ++ (mime.token 0 ++ (codes "@" ++ (hostname ++ codes ">"))))
      message_id = (
        (λ e. ground (arith, e), λ e. ground (arith, e)),
        All-append IsUnbroken (mime.token 0) _ (clean.numbered 0) (
          (λ e. ground (arith, e), λ e. ground (arith, e)),
          All-append IsUnbroken hostname (codes ">") clean.named
              ((λ e. ground (arith, e), λ e. ground (arith, e)), tt),
        ),
      )
