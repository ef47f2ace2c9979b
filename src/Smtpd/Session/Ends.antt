-- ===== src/Smtpd/Session/Ends.antt =====
-- internal/smtpd/server.go: the lines that a session can still read.
pub mod Handlers
pub mod Run
use mailschleuse.Base.{
  ℕ, zero, suc, ◌+◌, ◌≤◌, ◌<◌, ◌≡◌, refl, ap, Bool, true, false, not, List, [], ◌∷◌, ◌++◌, Option,
  none, some, arith, length, length-append, Bytes, codes, if◌then◌else◌, if_intro, is_nil, inl, inr,
  Bool-cases, Option-cases, ltb, str_eq,
}
use mailschleuse.Store.Types.{Envelope}
use mailschleuse.Store.State.{Store}
use mailschleuse.Store.Ops.{
  Delivery, DeliverError, stored, refused, deliver, too_large, no_such_mailbox, not_persisted,
}
use mailschleuse.Store.Disk.{body_failed, metadata_failed}
use mailschleuse.Smtpd.Data.{
  max_line_bytes, LeftOver, LineRead, ended, overlong, line_read, read_line, DataRead, failed, done,
  read_payload, read_data, dot,
}
use mailschleuse.Smtpd.Command.{split_command, cut_prefix_fold, parse_path, Params}
use mailschleuse.Smtpd.Routing.{Options}
use mailschleuse.Smtpd.Session.State.{
  Session, Arg, reply, reset_transaction, handle_ehlo, handle_start_tls,
}
use mailschleuse.Smtpd.Session.Mail.{
  handle_mail, mail_path, accept_mail, handle_rcpt, rcpt_path, accept_rcpt,
}
use mailschleuse.Smtpd.Session.Deliver.{
  World, deliver_each, accept_data, finish_data, handle_data, refusal, queued_as,
}
use mailschleuse.Smtpd.Session.Preserve.{handle_auth-Keeps}
use mailschleuse.Smtpd.Session.Loop.{
  State, Verb, ehlo, helo, starttls, auth, mail, rcpt, data_verb, rset, quit, dispatch, command,
  verb_of, step, loop,
}

-- What the reader leaves of an overlong line is at most one line, since it ends at the same LF.
abbrev pub IsShort : LeftOver → Type 0
IsShort left_over = (l : Bytes) → length (left_over l) ≤ 1

abbrev tls_lines : Option (List Bytes) → ℕ
tls_lines none = 0
tls_lines (some lines) = length lines

-- The number of lines that a session can still read, on the connection and on the one over TLS.
abbrev pub weight : Session → ℕ
weight s = length s.input + tls_lines s.tls_input

-- A session that can still read so many lines.
pub record AtMost (n : ℕ) (s : Session) : Type 0 where
  pub bound : weight s ≤ n

pub reply-AtMost :
    (n code : ℕ) (format : Bytes) (args : List Arg) (s : Session)
    → AtMost n s
    → AtMost n (reply code format args s)
unfolding reply
reply-AtMost n code format args s h = record { bound = h.bound }

pub read_line-shorter :
    (left_over : LeftOver) (lines : List Bytes) (l : Bytes) (rest : List Bytes)
    → read_line left_over lines ≡ line_read l rest
    → length rest < length lines
unfolding read_line
read_line-shorter left_over [] l rest e = cc
read_line-shorter left_over (x ∷ lines) l rest e = ground arith

pub read_line-cut :
    (left_over : LeftOver) (lines rest : List Bytes)
    → IsShort left_over
    → read_line left_over lines ≡ overlong rest
    → length rest ≤ length lines
unfolding read_line
read_line-cut left_over [] rest short e = cc
read_line-cut left_over (x ∷ lines) rest short e =
    ground (arith, short x, length-append (left_over x) lines)

abbrev pub Remains : ℕ → DataRead → Type 0
Remains n (failed rest) = length rest ≤ n
Remains n (done p) = length p.rest ≤ n

pub read_payload-Remains :
    (left_over : LeftOver) (max_size : ℕ) (lines : List Bytes) (buf : Bytes) (large : Bool)
    → IsShort left_over
    → (n : ℕ) → length lines ≤ n
    → Remains n (read_payload left_over max_size lines buf large)
unfolding read_payload
read_payload-Remains left_over max_size [] buf large short n h = h
read_payload-Remains left_over max_size (line ∷ rest) buf large short n h =
    if_intro (Remains n) (ltb max_line_bytes (length line))
      (omega (arith, h, short line, length-append (left_over line) rest))
      (if_intro (Remains n) (str_eq line dot) (omega (arith, h)) (
        if_intro (Remains n) _
          (read_payload-Remains left_over max_size rest buf true short n (omega (arith, h)))
          (if_intro (Remains n) large
            (read_payload-Remains left_over max_size rest buf true short n (omega (arith, h)))
            (read_payload-Remains left_over max_size rest _ false short n (omega (arith, h))))))
