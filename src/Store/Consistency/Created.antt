-- ===== src/Store/Consistency/Created.antt =====
-- internal/store/store.go: a store with no messages.
use mailschleuse.Base.{
  ℕ, ◌≡◌, sym, ap, subst, inl, inr, List, [], ◌∷◌, Option, none, some, arith, length, Bytes, update,
  All,
}
use mailschleuse.Store.Types.{Message}
use mailschleuse.Store.Disk.{Disk}
use mailschleuse.Store.Ops.{Stamp, new, new_boxes}
use mailschleuse.Store.Consistency.Parts.{Distinct}
use mailschleuse.Store.Consistency.Index.{Boxes, IsFiled}
use mailschleuse.Store.Consistency.Updates.{update-cases}
use mailschleuse.Store.Consistency.Frame.{IsSound}
use mailschleuse.Store.Consistency.Numbered.{IsNumbered}

abbrev AreEmpty : Boxes → Type 0
AreEmpty boxes = (name : Bytes) (ms : List Message) → boxes name ≡ some ms → ms ≡ []

new_boxes-AreEmpty :
    (names : List Bytes) (boxes : Boxes) → AreEmpty boxes → AreEmpty (new_boxes names boxes)
unfolding new_boxes
new_boxes-AreEmpty [] boxes h = h
new_boxes-AreEmpty (n ∷ names) boxes h =
    new_boxes-AreEmpty names (update boxes n (some [])) λ name ms e.
      elim (update-cases boxes n name [] e) [
        | inl (same, is) ↦ sym is
        | inr (other, old) ↦ h name ms old
      ]

-- A store that `New` makes without files to load is sound.
pub new-IsSound :
    (names : List Bytes) (max_messages max_size : ℕ) (persist : Option Disk)
    → IsSound (new names max_messages max_size persist)
unfolding new
new-IsSound names max_messages max_size persist =
    let empty = new_boxes-AreEmpty names (λ k. none) (λ name ms e. cc) in
    record {
      consistent = record {
        filed = λ name ms e. subst (All (IsFiled name (λ k. none))) (sym (empty name ms e)) tt;
        distinct = λ name ms e. subst Distinct (sym (empty name ms e)) tt;
        placed = λ id m e. cc;
      };
      bounded = λ pos name ms e. omega (arith, ap length (empty name ms e));
    }

pub new-IsNumbered :
    (stamp : ℕ → Stamp) (names : List Bytes) (max_messages max_size : ℕ) (persist : Option Disk)
    → IsNumbered stamp (new names max_messages max_size persist)
unfolding new
new-IsNumbered stamp names max_messages max_size persist = record { numbered = λ id m e. cc }
