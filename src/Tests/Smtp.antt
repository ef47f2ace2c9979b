-- ===== src/Tests/Smtp.antt =====
-- internal/smtpd at concrete inputs.
use mailschleuse.Base.{
  ◌≡◌, refl, true, false, List, [], ◌∷◌, ◌++◌, map, codes, none, some, length, subst, sym, ap,
  trim_suffix_byte, split, ◌≤◌, inl, inr, arith, Bytes, All,
}
use mailschleuse.Pop3d.Wire.{split_lines, write_dot_stuffed}
use mailschleuse.Smtpd.Data.{done, read_data, wire_lines, dot}
use mailschleuse.Smtpd.Data.Stuffing.{
  stuff, unlines, Fits, Overflows, read_data-stuff, read_data_overflow, read_data_bound,
}
use mailschleuse.Smtpd.Data.Transfer.{HasNoLf}
use mailschleuse.Smtpd.Data.Delivery.{EndsPlain, retr-submitted, resubmit}
use mailschleuse.Smtpd.Session.Loop.{State, step, loop}
use mailschleuse.Smtpd.Session.Orderly.{IsOrderly}
use mailschleuse.Smtpd.Session.Orderly.Run.{step-IsOrderly}
use mailschleuse.Smtpd.Session.Ends.Run.{loop_returns}
use mailschleuse.Tests.Fixtures.{one_left, world, smtp_options, connected, submission, submitting}

abbrev two_lines : List Bytes
two_lines = codes ".dotted" ∷ codes "plain" ∷ []

two_lines-Fits : All Fits two_lines
unfolding stuff
two_lines-Fits = (omega arith, (omega arith, tt))

two_lines-HasNoLf : All HasNoLf two_lines
two_lines-HasNoLf = ground arith

two_lines-EndsPlain : All EndsPlain two_lines
unfolding trim_suffix_byte
two_lines-EndsPlain = (refl, (refl, tt))

length-two_lines : length (unlines two_lines) ≡ 16
unfolding unlines
length-two_lines = refl

read_data-stuff_example :
    read_data one_left 100 (map stuff two_lines ++ dot ∷ codes "QUIT" ∷ [])
    ≡ done (record { body = unlines two_lines; too_large = false; rest = codes "QUIT" ∷ [] })
read_data-stuff_example =
    read_data-stuff one_left 100 two_lines (codes "QUIT" ∷ []) two_lines-Fits
      (omega (arith, length-two_lines))

read_data_overflow_example :
    Overflows 10
      (codes "QUIT" ∷ [])
      (read_data one_left 10 (map stuff two_lines ++ dot ∷ codes "QUIT" ∷ []))
read_data_overflow_example =
    read_data_overflow one_left 10 two_lines (codes "QUIT" ∷ []) two_lines-Fits
      (omega (arith, length-two_lines))

abbrev sent : List Bytes
sent = codes "..dotted" ∷ codes "too much for ten octets" ∷ codes "." ∷ codes "NOOP" ∷ []

sent_read :
    read_data one_left 10 sent
    ≡ done (record { body = codes ".dotted\r\n"; too_large = true; rest = codes "NOOP" ∷ [] })
unfolding read_data
sent_read = refl

read_data_bound_example : length (codes ".dotted\r\n") ≤ 10
read_data_bound_example = read_data_bound one_left 10 sent sent_read

abbrev stored : Bytes
stored = codes ".dotted\nplain"

split_lines-stored : split_lines stored ≡ two_lines
unfolding split_lines split trim_suffix_byte
split_lines-stored = refl

resubmit_example :
    read_data one_left 100 (wire_lines (write_dot_stuffed stored none ++ codes "QUIT\r\n"))
    ≡ done (record {
      body = unlines (split_lines stored);
      too_large = false;
      rest = wire_lines (codes "QUIT\r\n");
    })
resubmit_example =
    resubmit one_left 100 stored (codes "QUIT\r\n")
      (subst (All Fits) (sym split_lines-stored) two_lines-Fits)
      (omega (arith, length-two_lines, ap (λ ls. length (unlines ls)) split_lines-stored))

retr-submitted_example :
    wire_lines (write_dot_stuffed (unlines two_lines) none) ≡ map stuff two_lines ++ dot ∷ []
retr-submitted_example = retr-submitted two_lines two_lines-HasNoLf two_lines-EndsPlain

connected-IsOrderly : (lines : List Bytes) → IsOrderly smtp_options (connected lines)
connected-IsOrderly lines = record {
  closed = inr (refl, refl);
  bounded = omega arith;
  authorized = inr (inl refl);
  named = inr refl;
}

step-IsOrderly_example : IsOrderly smtp_options (step world smtp_options submitting).0.session
step-IsOrderly_example =
    step-IsOrderly world smtp_options submitting (connected-IsOrderly submission)

loop_returns_example : (end : State) × (loop world smtp_options 11 submitting ≡ some end)
loop_returns_example =
    loop_returns world smtp_options 11 submitting (λ l. omega arith) (omega arith)
