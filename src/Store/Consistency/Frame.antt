-- ===== src/Store/Consistency/Frame.antt =====
-- internal/store/store.go: what is sound about a store, and the steps that leave the mail alone.
use mailschleuse.Base.{ℕ, ◌≤◌, ◌<◌, ◌≡◌, refl, sym, ◌∙◌, subst, List, [], ◌∷◌, some, length, Bytes}
use mailschleuse.Store.Types.{Message}
use mailschleuse.Store.State.{Store, updated, deleted, all_deleted, rewrite_file}
use mailschleuse.Store.Ops.{update_all, announce}
use mailschleuse.Store.Consistency.Index.{Boxes, IsConsistent}

-- No mailbox holds more than the maximum, if there is one.
abbrev pub IsBounded : ℕ → Boxes → Type 0
IsBounded max_messages boxes =
    0 < max_messages
    → (name : Bytes) (ms : List Message) → boxes name ≡ some ms
    → length ms ≤ max_messages

pub record IsSound (s : Store) : Type 0 where
  pub consistent : IsConsistent s.boxes s.by_id
  pub bounded : IsBounded s.max_messages s.boxes

-- The two stores have the same mailboxes, index and limits.
pub record SameMail (s t : Store) : Type 0 where
  pub same_boxes : t.boxes ≡ s.boxes
  pub same_index : t.by_id ≡ s.by_id
  pub same_max : t.max_messages ≡ s.max_messages
  pub same_cells : t.cells ≡ s.cells

pub SameMail-IsSound : {s t : Store} → SameMail s t → IsSound s → IsSound t
SameMail-IsSound {s} {t} e h = record {
  consistent =
      subst (λ b. IsConsistent b t.by_id) (sym e.same_boxes)
        (subst (IsConsistent s.boxes) (sym e.same_index) h.consistent);
  bounded =
      subst (λ n. IsBounded n t.boxes) (sym e.same_max)
        (subst (IsBounded s.max_messages) (sym e.same_boxes) h.bounded);
}

pub SameMail-trans : {s t u : Store} → SameMail s t → SameMail t u → SameMail s u
SameMail-trans e f = record {
  same_boxes = f.same_boxes ∙ e.same_boxes;
  same_index = f.same_index ∙ e.same_index;
  same_max = f.same_max ∙ e.same_max;
  same_cells = f.same_cells ∙ e.same_cells;
}

pub all_deleted-SameMail : (ms : List Message) (s : Store) → SameMail s (all_deleted ms s)
unfolding all_deleted
all_deleted-SameMail [] s = record {
  same_boxes = refl;
  same_index = refl;
  same_max = refl;
  same_cells = refl;
}
all_deleted-SameMail (m ∷ ms) s =
    SameMail-trans
      (record { same_boxes = refl; same_index = refl; same_max = refl; same_cells = refl })
      (all_deleted-SameMail ms (deleted m s))

pub announce-SameMail :
    (msg : Message) (evicted : List Message) (s : Store) → SameMail s (announce msg evicted s)
unfolding announce
announce-SameMail msg evicted s =
    SameMail-trans (all_deleted-SameMail evicted s)
      (record { same_boxes = refl; same_index = refl; same_max = refl; same_cells = refl })

pub update_all-SameMail : (ms : List Message) (s : Store) → SameMail s (update_all ms s)
unfolding update_all
update_all-SameMail [] s = record {
  same_boxes = refl;
  same_index = refl;
  same_max = refl;
  same_cells = refl;
}
update_all-SameMail (m ∷ ms) s =
    SameMail-trans
      (record { same_boxes = refl; same_index = refl; same_max = refl; same_cells = refl })
      (update_all-SameMail ms (updated m (rewrite_file m s)))
