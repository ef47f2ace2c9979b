-- ===== src/Web/Compose/Built.antt =====
-- internal/web/compose.go: the header fields of a composed message and of its parts.
use mailschleuse.Base.{
  ok, ◌&&◌, Ensures, bind-Ensures, any-Ensures, refuse-Ensures, ◌+◌, ℕ, ◌≡◌, ◌⊎◌, inl, inr, refl,
  List, [], ◌∷◌, ◌++◌, All, All-append, arith, is_nil, if_intro, if◌then◌else◌, Bytes, codes, crlf,
  trim_space,
}
use mailschleuse.Web.Compose.{ComposeRequest, head_fields, build}
use mailschleuse.Web.Compose.Headers.{clean_list, write_headers}
use mailschleuse.Web.Compose.Lines.{wrap_base64}
use mailschleuse.Web.Compose.Clean.{IsUnbroken, AreUnbroken, sanitize-AreUnbroken}
use mailschleuse.Web.Compose.Fields.{IsClean, HasCleanValue, head_fields-clean}
use mailschleuse.Web.Compose.Bodies.{
  ComposeAttachment, DecodedAttachment, Mime, Content, decoded, decode_attachments, multipart,
  encode_qp, text_part, boundary, build_content, attachment_part, attachment_parts, build_body,
}

module _ (mime : Mime) where
  -- A part with one text or file, whose body holds no fields, and whose own fields have no line break.
  abbrev pub IsLeaf : Content → Type 0
  IsLeaf c =
      All HasCleanValue c.headers
      × (((text : Bytes) × (c.body ≡ encode_qp mime text))
          ⊎ ((file : Bytes) × (c.body ≡ wrap_base64 file)))

-- Content of the first kind, or several such parts behind a field that announces them.
abbrev pub IsMade : (Content → Type 0) → (Content → Type 0) → Content → Type 0
IsMade P Q c =
    P c
    ⊎ ((kind mark : Bytes) × (first : Content) × (parts : List Content) × (c
          ≡ multipart kind mark first parts)
        × All HasCleanValue c.headers
        × P first
        × All Q parts)

made :
    (P Q : Content → Type 0) (kind mark : Bytes) (first : Content) (parts : List Content)
    → All HasCleanValue (multipart kind mark first parts).headers
    → P first
    → All Q parts
    → IsMade P Q (multipart kind mark first parts)
made P Q kind mark first parts h p q = inr (kind, mark, first, parts, refl, h, p, q)

-- The name and the type of a file have no line break.
abbrev HasCleanName : DecodedAttachment → Type 0
HasCleanName a = AreUnbroken a.filename × AreUnbroken a.content_type

decoded-HasCleanName :
    (decimal : ℕ → Bytes) (i : ℕ) (a : ComposeAttachment) (content : Bytes)
    → HasCleanName (decoded decimal i a content)
unfolding decoded
decoded-HasCleanName decimal i a content = (
  sanitize-AreUnbroken (
      if is_nil (trim_space a.filename)
      then codes "attachment-" ++ (decimal (i + 1) ++ codes ".bin")
      else trim_space a.filename),
  sanitize-AreUnbroken (
      if is_nil (trim_space a.content_type)
      then codes "application/octet-stream"
      else trim_space a.content_type),
)

decode_attachments-Ensures :
    (decimal : ℕ → Bytes) (i : ℕ) (attachments : List ComposeAttachment)
    → Ensures (All HasCleanName) (decode_attachments decimal i attachments)
unfolding decode_attachments
decode_attachments-Ensures decimal i [] = tt
decode_attachments-Ensures decimal i (a ∷ more) = any-Ensures (All HasCleanName) _ _ λ content.
    bind-Ensures (All HasCleanName) (All HasCleanName) (decode_attachments decimal (i + 1) more) _
      (decode_attachments-Ensures decimal (i + 1) more)
      λ rest clean. (decoded-HasCleanName decimal i a content, clean)

module _ (mime : Mime) where
  -- One text, or a text and its HTML form.
  abbrev pub IsText : Content → Type 0
  IsText = IsMade (IsLeaf mime) (IsLeaf mime)

  -- The text, with the attachments behind it if there are some.
  abbrev pub IsBody : Content → Type 0
  IsBody = IsMade IsText (IsLeaf mime)

  abbrev pub rendered : Bytes → ComposeRequest → Content → Bytes
  rendered hostname c content =
      write_headers (head_fields mime hostname c ++ content.headers) ++ (crlf ++ content.body)

  -- The text is the fields, an empty line and the body.
  abbrev pub IsBuilt : Bytes → ComposeRequest → Bytes → Type 0
  IsBuilt hostname c text =
      (content : Content) × IsBody content
      × All HasCleanValue (head_fields mime hostname c ++ content.headers)
      × (text ≡ rendered hostname c content)

  module _ (hostname : Bytes) (clean : IsClean mime hostname) where
    text_part-IsLeaf :
        (kind text : Bytes) → AreUnbroken kind → IsLeaf mime (text_part mime kind text)
    unfolding text_part
    text_part-IsLeaf kind text h = ((h, (ground arith, tt)), inl (text, refl))

    boundary-AreUnbroken : (i : ℕ) → AreUnbroken (boundary mime i)
    unfolding boundary
    boundary-AreUnbroken i =
        All-append IsUnbroken (codes "mailschleuse-") (mime.token i) (ground arith)
          (clean.numbered i)

    multipart-clean :
        (kind : Bytes) (i : ℕ) (first : Content) (parts : List Content)
        → AreUnbroken kind
        → All HasCleanValue (multipart kind (boundary mime i) first parts).headers
    unfolding multipart
    multipart-clean kind i first parts h = (
      All-append IsUnbroken kind _ h (
          All-append IsUnbroken (codes "; boundary=\"") _ (ground arith) (
            All-append IsUnbroken (boundary mime i) (codes "\"") (boundary-AreUnbroken i)
              (ground arith))),
      tt,
    )

    build_content-IsText : (text html : Bytes) → IsText (build_content mime text html)
    unfolding build_content
    build_content-IsText text html =
        let plain = text_part-IsLeaf (codes "text/plain; charset=utf-8") text (ground arith) in
        let rich = text_part-IsLeaf (codes "text/html; charset=utf-8") html (ground arith) in
        if_intro IsText (is_nil (trim_space html)) (inl plain) (
          if_intro IsText (is_nil (trim_space text)) (inl rich) (
            made (IsLeaf mime) (IsLeaf mime) (codes "multipart/alternative") (boundary mime 2)
              (text_part mime (codes "text/plain; charset=utf-8") text)
              (text_part mime (codes "text/html; charset=utf-8") html ∷ [])
              (multipart-clean (codes "multipart/alternative") 2
                (text_part mime (codes "text/plain; charset=utf-8") text)
                (text_part mime (codes "text/html; charset=utf-8") html ∷ []) (ground arith))
              plain (rich, tt)))

    IsText-clean : (c : Content) → IsText c → All HasCleanValue c.headers
    IsText-clean c (inl (h, shape)) = h
    IsText-clean c (inr (kind, mark, first, parts, is, h, p, q)) = h

    attachment_part-IsLeaf :
        (a : DecodedAttachment) → HasCleanName a → IsLeaf mime (attachment_part mime a)
    unfolding attachment_part
    attachment_part-IsLeaf a (name, kind) = (
      (
        clean.formatted _ _ _ kind (ground arith) name,
        (ground arith, (clean.formatted _ _ _ (ground arith) (ground arith) name, tt)),
      ),
      inr (a.content, refl),
    )

    attachment_parts-IsLeaf :
        (ds : List DecodedAttachment)
        → All HasCleanName ds
        → All (IsLeaf mime) (attachment_parts mime ds)
    unfolding attachment_parts
    attachment_parts-IsLeaf [] h = tt
    attachment_parts-IsLeaf (d ∷ ds) h =
        (attachment_part-IsLeaf d h.0, attachment_parts-IsLeaf ds h.1)

    build_body-Ensures :
        (text html : Bytes) (attachments : List ComposeAttachment)
        → Ensures
            (λ c. IsBody c × All HasCleanValue c.headers)
            (build_body mime text html attachments)
    unfolding build_body
    build_body-Ensures text html attachments =
        bind-Ensures (All HasCleanName) (λ c. IsBody c × All HasCleanValue c.headers)
          (decode_attachments mime.decimal 0 attachments) _
          (decode_attachments-Ensures mime.decimal 0 attachments)
          λ ds names.
            let content = build_content mime text html in
            let parts = attachment_parts mime ds in
            let own = multipart-clean (codes "multipart/mixed") 1 content parts (ground arith) in
            let readable = build_content-IsText text html in
            if_intro (λ c. IsBody c × All HasCleanValue c.headers) (is_nil ds)
              (inl readable, IsText-clean content readable)
              (
                made IsText (IsLeaf mime) (codes "multipart/mixed") (boundary mime 1) content parts
                    own readable (attachment_parts-IsLeaf ds names),
                own,
              )

    -- Whatever the request holds, a message that Build makes is a block of header fields, an empty line
    -- and a body, which is a text, its plain and its HTML form, or one of these with the attachments
    -- behind it. No value of a field, neither of the message nor of one of its parts, has a line break
    -- in it, where Q encoding writes none, `FormatMediaType` adds none to those of its arguments, and
    -- the host name, the time and the tokens have none.
    pub build-Ensures : (c : ComposeRequest) → Ensures (IsBuilt hostname c) (build mime hostname c)
    unfolding build
    build-Ensures c = refuse-Ensures (IsBuilt hostname c) (is_nil (trim_space c.from)) _ _ λ sender.
        refuse-Ensures (IsBuilt hostname c) (is_nil (clean_list c.to)) _ _ λ recipient.
          refuse-Ensures (IsBuilt hostname c)
            (is_nil (trim_space c.text) && is_nil (trim_space c.html)) _ _
            λ text.
              bind-Ensures (λ b. IsBody b × All HasCleanValue b.headers) (IsBuilt hostname c)
                (build_body mime c.text c.html c.attachments)
                (λ content. ok (rendered hostname c content))
                (build_body-Ensures c.text c.html c.attachments)
                λ content h. (
                  content,
                  h.0,
                  All-append HasCleanValue (head_fields mime hostname c) content.headers
                      (head_fields-clean mime hostname clean c) h.1,
                  refl,
                )
