-- ===== src/Store/Consistency/Updates.antt =====
-- internal/store/store.go: the two changes of mailboxes and index that the operations are made of.
use mailschleuse.Base.{
  some_injective, ◌≡◌, ◌≢◌, refl, sym, ap, ◌∙◌, subst, ◌⊎◌, inl, inr, List, [], ◌∷◌, ◌++◌, some,
  none, arith, All, All-append, Bytes, str_eq, str_eq_refl, eq_of_str_eq, Bool-cases, Dict, update,
  update_self, update_ne,
}
use mailschleuse.Store.Types.{Message}
use mailschleuse.Store.State.{erase_all}
use mailschleuse.Store.Consistency.Parts.{
  Member, Interleave, Distinct, Apart, All-member, All-out, All-rest, Distinct-rest, Distinct-Apart,
  Member-split, Member-last, Member-append, Distinct-append,
}
use mailschleuse.Store.Consistency.Index.{
  Boxes, IsFiled, IsPlaced, IsConsistent, erase_all_ne, erase_all-some,
}

IsFiled-rest :
    (name : Bytes) (index : Dict Message) (out rest : List Message)
    → All (IsFiled name index) rest
    → Apart out rest
    → All (IsFiled name (erase_all out index)) rest
IsFiled-rest name index out [] h a = tt
IsFiled-rest name index out (x ∷ rest) h a =
    ((h.0.0, erase_all_ne out index x.id a.0 ∙ h.0.1), IsFiled-rest name index out rest h.1 a.1)

apart_one :
    (name name' : Bytes) (index : Dict Message) (x : Message) (out : List Message)
    → name ≢ name'
    → IsFiled name' index x
    → All (IsFiled name index) out
    → All (λ y. y.id ≢ x.id) out
apart_one name name' index x [] n f h = tt
apart_one name name' index x (y ∷ out) n f h =
    ((λ e. n (cc (ap index e))), apart_one name name' index x out n f h.1)

Apart-foreign :
    (name name' : Bytes) (index : Dict Message) (out ms : List Message)
    → name ≢ name'
    → All (IsFiled name index) out
    → All (IsFiled name' index) ms
    → Apart out ms
Apart-foreign name name' index out [] n h f = tt
Apart-foreign name name' index out (x ∷ ms) n h f =
    (apart_one name name' index x out n f.0 h, Apart-foreign name name' index out ms n h f.1)

-- A key of an updated map has the new value or its old one.
pub update-cases {ℓ} :
    {V : Type ℓ} (m : Dict V) (k j : Bytes) (v : V) {w : V}
    → update m k (some v) j ≡ some w
    → ((k ≡ j) × (v ≡ w)) ⊎ ((k ≢ j) × (m j ≡ some w))
update-cases m k j v {w} e = elim (Bool-cases (str_eq k j)) [
  | inl t ↦ inl (eq_of_str_eq k j t, some_injective (rw t at e))
  | inr f ↦ inr ((λ same. ground (arith, ap (str_eq k) same, str_eq_refl k)), rw f at e)
]

module _ (boxes : Boxes) (index : Dict Message) (name : Bytes) {ms out rest : List Message}
    (c : IsConsistent boxes index) (there : boxes name ≡ some ms)
    (parts : Interleave out rest ms) where
  out-IsFiled : All (IsFiled name index) out
  out-IsFiled = All-out _ parts (c.filed name ms there)

  remove-IsFiled :
      (name' : Bytes) (ms' : List Message)
      → update boxes name (some rest) name' ≡ some ms'
      → All (IsFiled name' (erase_all out index)) ms'
  remove-IsFiled name' ms' e = elim (update-cases boxes name name' rest e) [
    | inl (same, is) ↦
        subst (λ n. All (IsFiled n (erase_all out index)) ms') same
          (subst (All (IsFiled name (erase_all out index))) is (
            IsFiled-rest name index out rest (All-rest _ parts (c.filed name ms there))
              (Distinct-Apart parts (c.distinct name ms there))))
    | inr (other, old) ↦
        IsFiled-rest name' index out ms' (c.filed name' ms' old)
          (Apart-foreign name name' index out ms' other out-IsFiled (c.filed name' ms' old))
  ]

  remove-Distinct :
      (name' : Bytes) (ms' : List Message)
      → update boxes name (some rest) name' ≡ some ms'
      → Distinct ms'
  remove-Distinct name' ms' e = elim (update-cases boxes name name' rest e) [
    | inl (same, is) ↦ subst Distinct is (Distinct-rest parts (c.distinct name ms there))
    | inr (other, old) ↦ c.distinct name' ms' old
  ]

  remove-IsPlaced :
      (id : Bytes) (m : Message)
      → erase_all out index id ≡ some m
      → IsPlaced (update boxes name (some rest)) id m
  remove-IsPlaced id m e =
      let (old, apart) = erase_all-some out index id e in
      let (own, ms', at, member) = c.placed id m old in
      elim (Bool-cases (str_eq name m.mailbox)) [
        | inl t ↦
            let here : Member m ms =
              subst (Member m)
                (some_injective (sym at ∙ sym (ap boxes (eq_of_str_eq name m.mailbox t)) ∙ there))
                member in
            (
              own,
              rest,
              rw t,
              elim (Member-split m parts here) [
                | inl gone ↦ absurd (All-member (λ y. y.id ≢ id) m out apart gone own)
                | inr stays ↦ stays
              ],
            )
        | inr f ↦ (own, ms', rw f at, member)
      ]

  -- Messages that leave their mailbox and the index.
  pub remove-IsConsistent : IsConsistent (update boxes name (some rest)) (erase_all out index)
  remove-IsConsistent = record {
    filed = remove-IsFiled;
    distinct = remove-Distinct;
    placed = remove-IsPlaced;
  }

IsFiled-insert :
    (name : Bytes) (index : Dict Message) (msg : Message) (ms : List Message)
    → index msg.id ≡ none
    → All (IsFiled name index) ms
    → All (IsFiled name (update index msg.id (some msg))) ms
IsFiled-insert name index msg [] new h = tt
IsFiled-insert name index msg (x ∷ ms) new h = (
  (h.0.0, update_ne index msg.id x.id (some msg) (λ e. cc (ap index e)) ∙ h.0.1),
  IsFiled-insert name index msg ms new h.1,
)

fresh_id :
    (name : Bytes) (index : Dict Message) (msg : Message) (ms : List Message)
    → index msg.id ≡ none
    → All (IsFiled name index) ms
    → All (λ x. x.id ≢ msg.id) ms
fresh_id name index msg [] new h = tt
fresh_id name index msg (x ∷ ms) new h =
    ((λ e. cc (ap index e)), fresh_id name index msg ms new h.1)

module _ (boxes : Boxes) (index : Dict Message) (msg : Message) {ms : List Message}
    (c : IsConsistent boxes index) (there : boxes msg.mailbox ≡ some ms)
    (new : index msg.id ≡ none) where
  boxes' : Boxes
  boxes' = update boxes msg.mailbox (some (ms ++ msg ∷ []))

  index' : Dict Message
  index' = update index msg.id (some msg)

  insert-IsFiled :
      (name : Bytes) (ms' : List Message) → boxes' name ≡ some ms' → All (IsFiled name index') ms'
  unfolding boxes' index'
  insert-IsFiled name ms' e = elim (update-cases boxes msg.mailbox name (ms ++ msg ∷ []) e) [
    | inl (same, is) ↦
        subst (λ n. All (IsFiled n index') ms') same
          (subst (All (IsFiled msg.mailbox index')) is (
            All-append _ ms (msg ∷ [])
              (IsFiled-insert msg.mailbox index msg ms new (c.filed msg.mailbox ms there))
              ((refl, update_self index msg.id (some msg)), tt)))
    | inr (other, old) ↦ IsFiled-insert name index msg ms' new (c.filed name ms' old)
  ]

  insert-Distinct : (name : Bytes) (ms' : List Message) → boxes' name ≡ some ms' → Distinct ms'
  unfolding boxes'
  insert-Distinct name ms' e = elim (update-cases boxes msg.mailbox name (ms ++ msg ∷ []) e) [
    | inl (same, is) ↦ subst Distinct is (
        Distinct-append msg ms
          (fresh_id msg.mailbox index msg ms new (c.filed msg.mailbox ms there))
          (c.distinct msg.mailbox ms there))
    | inr (other, old) ↦ c.distinct name ms' old
  ]

  insert-IsPlaced : (id : Bytes) (m : Message) → index' id ≡ some m → IsPlaced boxes' id m
  unfolding boxes' index'
  insert-IsPlaced id m e = elim (update-cases index msg.id id msg e) [
    | inl (same, is) ↦ subst (IsPlaced boxes' id) is (
      same,
      ms ++ msg ∷ [],
      update_self boxes msg.mailbox (some (ms ++ msg ∷ [])),
      Member-last msg ms,
    )
    | inr (other, old) ↦
        let (own, ms', at, member) = c.placed id m old in
        elim (Bool-cases (str_eq msg.mailbox m.mailbox)) [
          | inl t ↦
              let here : Member m ms =
                subst (Member m)
                  (some_injective
                    (sym at ∙ sym (ap boxes (eq_of_str_eq msg.mailbox m.mailbox t)) ∙ there))
                  member in
              (own, ms ++ msg ∷ [], rw t, Member-append m ms (msg ∷ []) here)
          | inr f ↦ (own, ms', rw f at, member)
        ]
  ]

  -- A new message that enters its mailbox and the index.
  pub insert-IsConsistent :
      IsConsistent
        (update boxes msg.mailbox (some (ms ++ msg ∷ [])))
        (update index msg.id (some msg))
  unfolding boxes' index'
  insert-IsConsistent = record {
    filed = insert-IsFiled;
    distinct = insert-Distinct;
    placed = insert-IsPlaced;
  }
