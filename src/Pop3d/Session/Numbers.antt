-- ===== src/Pop3d/Session/Numbers.antt =====
-- internal/pop3d/server.go: message numbers under DELE and RSET.
use mailschleuse.Base.{ℕ, zero, suc, ◌≡◌, refl, ap, false, List, [], ◌∷◌}
use mailschleuse.Pop3d.Session.State.{Entry}
use mailschleuse.Pop3d.Session.Transaction.{mark, unmark_all}

-- RSET undoes what DELE did.
pub unmark_all-mark : (i : ℕ) (es : List Entry) → unmark_all (mark i es) ≡ unmark_all es
unfolding mark unmark_all
unmark_all-mark i [] = refl
unmark_all-mark zero (e ∷ es) = refl
unmark_all-mark (suc i) (e ∷ es) = ap (λ t. record e { deleted = false } ∷ t) (unmark_all-mark i es)
