-- ===== src/Smtpd/Session/Mail.antt =====
-- internal/smtpd/server.go: MAIL and RCPT.
use mailschleuse.Base.{
  ℕ, true, not, ◌&&◌, [], ◌∷◌, ◌++◌, Option, none, some, if◌then◌else◌, is_nil, ltb, leb, length,
  Bytes, codes, ℤ, pos, negsuc, scan_int,
}
use mailschleuse.Smtpd.Command.{Params, cut_prefix_fold, parse_path, display_path}
use mailschleuse.Smtpd.Routing.{Options}
use mailschleuse.Smtpd.Session.State.{Session, text, num, reply, is_required}

abbrev over : ℕ → Option ℤ → Option ℕ
over max_size none = none
over max_size (some (negsuc n)) = none
over max_size (some (pos n)) = if ltb max_size n then some n else none

-- The size that the client declares, where it exceeds the limit; a value that `Sscanf` refuses
-- counts as none.
unfoldable pub excess : ℕ → Params → Option ℕ
unfolding scan_int
excess max_size params = elim (params (codes "SIZE")) [
  | none ↦ none
  | some v ↦ over max_size (scan_int v)
]

unfoldable pub accept_mail : Options → Bytes × Params → Session → Session
unfolding excess reply display_path
accept_mail o (addr, params) s = elim (excess o.max_size params) [
  | some declared ↦
      reply 552 (codes "5.3.4 Message size %d exceeds limit of %d bytes")
        (num declared ∷ num o.max_size ∷ []) s
  | none ↦
      reply 250 (codes "2.1.0 Sender %s accepted") (text (display_path addr) ∷ [])
        (record s { from = addr; in_mail = true })
]

abbrev pub not_enclosed : Bytes
not_enclosed = codes "Syntax: address must be enclosed in <>"

unfoldable pub mail_path : Options → Bytes → Session → Session
unfolding parse_path accept_mail
mail_path o rest s = elim (parse_path rest) [
  | none ↦ reply 501 (codes "5.5.4 %s") (text not_enclosed ∷ []) s
  | some path ↦ accept_mail o path s
]

-- `handleMail`.
unfoldable pub handle_mail : Options → Bytes → Session → Session
unfolding cut_prefix_fold mail_path
handle_mail o args s =
    if is_nil s.helo
    then reply 503 (codes "5.5.1 Send HELO/EHLO first") [] s
    else if is_required o.auth && not s.authenticated
    then reply 530 (codes "5.7.0 Authentication required") [] s
    else if s.in_mail
    then reply 503 (codes "5.5.1 Nested MAIL command") [] s
    else elim (cut_prefix_fold args (codes "FROM:")) [
      | none ↦ reply 501 (codes "5.5.4 Syntax: MAIL FROM:<address>") [] s
      | some rest ↦ mail_path o rest s
    ]

unfoldable pub accept_rcpt : Options → Bytes → Session → Session
unfolding reply
accept_rcpt o addr s =
    if is_nil addr
    then reply 501 (codes "5.1.3 Empty recipient address") [] s
    else if leb o.max_recipients (length s.rcpts)
    then reply 452 (codes "4.5.3 Too many recipients") [] s
    else reply 250 (codes "2.1.5 Recipient %s accepted") (text addr ∷ [])
        (record s { rcpts = s.rcpts ++ addr ∷ [] })

unfoldable pub rcpt_path : Options → Bytes → Session → Session
unfolding parse_path accept_rcpt
rcpt_path o rest s = elim (parse_path rest) [
  | none ↦ reply 501 (codes "5.5.4 %s") (text not_enclosed ∷ []) s
  | some (addr, params) ↦ accept_rcpt o addr s
]

-- `handleRcpt`.
unfoldable pub handle_rcpt : Options → Bytes → Session → Session
unfolding cut_prefix_fold rcpt_path
handle_rcpt o args s =
    if not s.in_mail
    then reply 503 (codes "5.5.1 Send MAIL FROM first") [] s
    else elim (cut_prefix_fold args (codes "TO:")) [
      | none ↦ reply 501 (codes "5.5.4 Syntax: RCPT TO:<address>") [] s
      | some rest ↦ rcpt_path o rest s
    ]
