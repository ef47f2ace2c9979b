-- ===== src/Store/Consistency/Numbered.antt =====
-- internal/store/store.go: the ids of the messages of the index, where the n-th message gets the
-- n-th id of `NewID`.
use mailschleuse.Base.{
  ℕ, ◌<◌, ◌≡◌, refl, sym, ap, ◌∙◌, inl, inr, List, [], ◌∷◌, ◌++◌, none, some, arith, Bool-cases,
  Option-cases, length, take, Bytes, ltb, update,
}
use mailschleuse.Mailparse.Types.{Mail}
use mailschleuse.Store.Types.{Envelope, Message}
use mailschleuse.Store.State.{Store, evict, surplus}
use mailschleuse.Store.Ops.{Stamp, new_message, insert, settle, deliver}
use mailschleuse.Store.Consistency.Index.{erase_all-some}
use mailschleuse.Store.Consistency.Updates.{update-cases}
use mailschleuse.Store.Consistency.Frame.{SameMail}
use mailschleuse.Store.Consistency.Preserved.{settled-SameMail}

-- `NewID` gives no id twice.
abbrev pub IsFresh : (ℕ → Stamp) → Type 0
IsFresh stamp = (i j : ℕ) → (stamp i).id ≡ (stamp j).id → i ≡ j

-- A message of the index has the id that `NewID` gave when it was made.
pub record IsNumbered (stamp : ℕ → Stamp) (s : Store) : Type 0 where
  pub numbered :
      (id : Bytes) (m : Message)
      → s.by_id id ≡ some m
      → (id ≡ (stamp m.read_cell).id) × (m.read_cell < s.cells)

pub SameMail-IsNumbered :
    (stamp : ℕ → Stamp) {s t : Store} → SameMail s t → IsNumbered stamp s → IsNumbered stamp t
SameMail-IsNumbered stamp {s} {t} e h = record {
  numbered = λ id m found.
      let (same, below) = h.numbered id m (ap (λ f. f id) (sym e.same_index) ∙ found) in
      (same, omega (arith, below, e.same_cells));
}

-- The next id of `NewID` is not in the index.
pub next_id_unused :
    (stamp : ℕ → Stamp) (s : Store)
    → IsFresh stamp
    → IsNumbered stamp s
    → s.by_id (stamp s.cells).id ≡ none
next_id_unused stamp s fresh h = elim (Option-cases (s.by_id (stamp s.cells).id)) [
  | inl e ↦ e
  | inr (m, e) ↦
      let (same, below) = h.numbered (stamp s.cells).id m e in
      absurd (omega (arith, below, fresh s.cells m.read_cell same))
]

insert-IsNumbered :
    (stamp : ℕ → Stamp) (msg : Message) (ms : List Message) (s : Store)
    → msg.id ≡ (stamp s.cells).id
    → msg.read_cell ≡ s.cells
    → IsNumbered stamp s
    → IsNumbered stamp (insert msg ms s).0
unfolding insert evict
insert-IsNumbered stamp msg ms s id_is cell_is h = record {
  numbered = λ id m found.
      elim (update-cases s.by_id msg.id id msg
        (erase_all-some (take (surplus s.max_messages (ms ++ msg ∷ [])) (ms ++ msg ∷ []))
          (update s.by_id msg.id (some msg)) id found).0) [
            | inl (same, is) ↦ (
              sym same ∙ id_is ∙ ap (λ c. (stamp c).id) (sym cell_is ∙ ap (λ x. x.read_cell) is),
              omega (arith, cell_is, ap (λ x. x.read_cell) is),
            )
            | inr (other, old) ↦
                let (same, below) = h.numbered id m old in (same, omega (arith, below))
          ];
}

settle-IsNumbered :
    (stamp : ℕ → Stamp) (msg : Message) (r : Store × List Message)
    → IsNumbered stamp r.0
    → IsNumbered stamp (settle msg r).0
unfolding settle
settle-IsNumbered stamp msg (s, evicted) h =
    SameMail-IsNumbered stamp (settled-SameMail msg s evicted _) h

-- A delivery under the next id keeps the messages of the index numbered.
pub deliver-IsNumbered :
    (stamp : ℕ → Stamp) (parse : Bytes → Mail) (name source : Bytes) (env : Envelope) (raw : Bytes)
    (s : Store)
    → IsNumbered stamp s
    → IsNumbered stamp (deliver parse (stamp s.cells) name source env raw s).0
unfolding deliver
deliver-IsNumbered stamp parse name source env raw s h =
    let msg = new_message parse (stamp s.cells) name source env raw s.cells in
    elim (Bool-cases (ltb s.max_size (length raw))) [
      | inl large ↦ rw large h
      | inr small ↦ elim (Option-cases (s.boxes name)) [
        | inl missing ↦ rw (small, missing, deliver) h
        | inr (ms, there) ↦
            rw (small, there, deliver)
              (settle-IsNumbered stamp msg (insert msg ms s)
                (insert-IsNumbered stamp msg ms s refl refl h))
      ]
    ]
