-- ===== src/Tests/Locks.antt =====
-- The connections of internal/pop3d at concrete inputs.
use mailschleuse.Store.Ops.{deliver, new}
use mailschleuse.Base.{ℕ, ◌≡◌, refl, true, false, [], codes, none}
use mailschleuse.Pop3d.Session.Loop.{user, pass, dispatch}
use mailschleuse.Pop3d.Server.{
  Server, Reaches, here, then_turn, commanded, new_session, view, with_turn,
}
use mailschleuse.Pop3d.Server.Exclusive.{IsExclusive, Reaches-IsExclusive}
use mailschleuse.Tests.Fixtures.{one_message}
use mailschleuse.Tests.Pop3.{options}

-- No connection has sent a command.
abbrev idle : Server
idle = record {
  sessions = λ i. new_session true [] none;
  locks = λ name. false;
  store = one_message;
}

idle-IsExclusive : IsExclusive idle
unfolding new_session
idle-IsExclusive = record { seated = λ i. refl; held = λ i l. cc; alone = λ i j l m e. cc }

abbrev named : Server
named = with_turn 0 (dispatch options user (codes "ann") (view 0 idle)).0 idle

-- The first connection has logged in.
abbrev entered : Server
entered = with_turn 0 (dispatch options pass (codes "secret") (view 0 named)).0 named

idle-entered : Reaches options idle entered
idle-entered =
    then_turn (then_turn here (commanded 0 user (codes "ann") (λ e. cc)))
      (commanded 0 pass (codes "secret") (λ e. cc))

first_open : (entered.sessions 0).transaction ≡ true
unfolding dispatch new_session deliver new
first_open = refl

Reaches-IsExclusive_example : ◌≡◌ {A = ℕ} 0 0
Reaches-IsExclusive_example =
    Reaches-IsExclusive options {s = idle} {t = entered} 0 0 refl idle-IsExclusive idle-entered
      first_open first_open refl
