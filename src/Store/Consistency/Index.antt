-- ===== src/Store/Consistency/Index.antt =====
-- internal/store/store.go: `byID` against the mailboxes.
use mailschleuse.Base.{
  ◌≡◌, ◌≢◌, refl, ap, ◌∙◌, inl, inr, List, [], ◌∷◌, some, none, arith, All, Bytes, str_eq,
  str_eq_refl, Bool-cases, Dict, update, update_ne,
}
use mailschleuse.Store.Types.{Message}
use mailschleuse.Store.State.{erase_all}
use mailschleuse.Store.Consistency.Parts.{Member, Distinct}

abbrev pub Boxes : Type 0
Boxes = Dict (List Message)

-- The message belongs to the mailbox of this name, and the index finds it under its id.
abbrev pub IsFiled : Bytes → Dict Message → Message → Type 0
IsFiled name index m = (m.mailbox ≡ name) × (index m.id ≡ some m)

-- A message of the index is found under its own id, and stands in its mailbox.
abbrev pub IsPlaced : Boxes → Bytes → Message → Type 0
IsPlaced boxes id m = (m.id ≡ id) × (ms : List Message) × (boxes m.mailbox ≡ some ms) × Member m ms

pub record IsConsistent (boxes : Boxes) (index : Dict Message) : Type 0 where
  pub filed :
      (name : Bytes) (ms : List Message) → boxes name ≡ some ms → All (IsFiled name index) ms
  pub distinct : (name : Bytes) (ms : List Message) → boxes name ≡ some ms → Distinct ms
  pub placed : (id : Bytes) (m : Message) → index id ≡ some m → IsPlaced boxes id m

pub erase_all_ne :
    (out : List Message) (index : Dict Message) (id : Bytes)
    → All (λ y. y.id ≢ id) out
    → erase_all out index id ≡ index id
unfolding erase_all
erase_all_ne [] index id h = refl
erase_all_ne (m ∷ out) index id h =
    erase_all_ne out (update index m.id none) id h.1 ∙ update_ne index m.id id none h.0

pub erase_all-some :
    (out : List Message) (index : Dict Message) (id : Bytes) {m : Message}
    → erase_all out index id ≡ some m
    → (index id ≡ some m) × All (λ y. y.id ≢ id) out
unfolding erase_all
erase_all-some [] index id e = (e, tt)
erase_all-some (x ∷ out) index id {m} e =
    let (found, apart) = erase_all-some out (update index x.id none) id {m = m} e in
    elim (Bool-cases (str_eq x.id id)) [
      | inl t ↦ ground arith
      | inr f ↦
          (ground arith, (λ same. ground (arith, ap (str_eq x.id) same, str_eq_refl x.id), apart))
    ]
