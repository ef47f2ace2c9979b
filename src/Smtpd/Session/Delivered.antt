-- ===== src/Smtpd/Session/Delivered.antt =====
-- internal/smtpd/server.go: what the answer to DATA says of the store.
use mailschleuse.Base.{
  ℕ, ◌≤◌, ◌≡◌, ◌≢◌, ◌⊎◌, refl, sym, ◌∙◌, List, [], ◌∷◌, ◌++◌, Bytes, codes, join, All, Unique,
  length, true, inl, inr,
}
use mailschleuse.Store.Types.{Envelope, Message}
use mailschleuse.Store.State.{Store}
use mailschleuse.Store.Ops.{Delivery, DeliverError, stored, refused, deliver}
use mailschleuse.Store.Queries.{has}
use mailschleuse.Store.Newest.{IsNewest, IsPut, deliver-IsPut, IsMemory, deliver-IsTaken}
use mailschleuse.Store.Consistency.Index.{Boxes}
use mailschleuse.Smtpd.Routing.{Options}
use mailschleuse.Smtpd.Session.State.{Session, text, reply}
use mailschleuse.Smtpd.Session.Deliver.{World, deliver_each, queued_as, refusal}

-- The answer 250, with the text as the newest message of each mailbox.
pub record IsStored (env : Envelope) (body : Bytes) (names : List Bytes) (s : Session)
    (boxes : Boxes) (r : Session × Store) : Type 0 where
  pub queued : List Bytes
  pub answer :
      r.0 ≡ reply 250 (codes "2.0.0 OK: queued as %s") (text (join queued (codes ", ")) ∷ []) s
  pub newest : All (IsNewest r.1.boxes env body) names
  pub others : (j : Bytes) → All (λ name. name ≢ j) names → r.1.boxes j ≡ boxes j

-- A delivery fails with this error and leaves this store, or it succeeds and a later one fails.
abbrev pub FailsBy : (Store → Type 0) → Store × Delivery → DeliverError → Store → Type 0
FailsBy later r e t =
    ((r.1 ≡ refused e) × (r.0 ≡ t)) ⊎ ((m : Message) × (r.1 ≡ stored m) × later r.0)

module _ (w : World) (o : Options) (env : Envelope) (body : Bytes) where
  -- Of the deliveries of one text to these mailboxes, in order, the first that fails does so with this
  -- error, and leaves this store.
  abbrev pub Fails : List Bytes → Store → DeliverError → Store → Type 0
  Fails [] store e t = ⊥
  Fails (name ∷ names) store e t =
      FailsBy (λ next. Fails names next e t)
        (deliver w.parse (w.stamp store.cells) name (codes "smtp") env body store) e t

  -- The answer is that of the error of the delivery that failed, and no mailbox behind it was tried.
  abbrev pub IsRefused : List Bytes → Session → Store → Session × Store → Type 0
  IsRefused names s store r = (e : DeliverError) × Fails names store e r.1 × (r.0 ≡ refusal o e s)

  abbrev pub IsAnswered : List Bytes → Session → Store → Session × Store → Type 0
  IsAnswered names s store r = IsStored env body names s store.boxes r ⊎ IsRefused names s store r

  next-IsStored :
      (name : Bytes) (names : List Bytes) (s : Session) (boxes boxes' : Boxes) (r : Session × Store)
      → All (λ n. n ≢ name) names
      → IsPut boxes boxes' env body name
      → IsStored env body names s boxes' r
      → IsStored env body (name ∷ names) s boxes r
  next-IsStored name names s boxes boxes' r apart put h =
      let (ms, m, last, raw, by) = put.newest in
      record {
        queued = h.queued;
        answer = h.answer;
        newest = ((ms, m, h.others name apart ∙ last, raw, by), h.newest);
        others = λ j away. h.others j away.1 ∙ put.others j away.0;
      }

  -- The answer to the deliveries of which the first gave this result.
  abbrev IsAnsweredBy :
      Bytes → List Bytes → Session → Store → Store × Delivery → Session × Store → Type 0
  IsAnsweredBy name names s store r out =
      IsStored env body (name ∷ names) s store.boxes out
      ⊎ ((e : DeliverError) × FailsBy (λ next. Fails names next e out.1) r e out.1
          × (out.0 ≡ refusal o e s))

  -- Either the transaction is answered with 250 and stands in every mailbox, or it is refused.
  pub deliver_each-IsStored :
      (names queued : List Bytes) (s : Session) (store : Store)
      → Unique names
      → IsAnswered names s store (deliver_each w o env body names queued s store)
  unfolding deliver_each
  deliver_each-IsStored [] queued s store u =
      inl (record { queued = queued; answer = refl; newest = tt; others = λ j away. refl })
  deliver_each-IsStored (name ∷ names) queued s store u =
      cases (deliver w.parse (w.stamp store.cells) name (codes "smtp") env body store)
        (λ m e.
          deliver-IsPut w.parse (w.stamp store.cells) name (codes "smtp") env body store {m = m} e)
        (λ q store'. deliver_each-IsStored names q s store' u.1)
    where
      cases :
          (r : Store × Delivery)
          → ((m : Message) → r.1 ≡ stored m → IsPut store.boxes r.0.boxes env body name)
          → ((q : List Bytes) (store' : Store)
              → IsAnswered names s store' (deliver_each w o env body names q s store'))
          → IsAnsweredBy name names s store r (elim r.1 as (λ x. Session × Store) [
            | stored msg ↦ deliver_each w o env body names (queued ++ queued_as msg name ∷ []) s r.0
            | refused e ↦ (refusal o e s, r.0)
          ])
      cases (store', refused e) put again = inr (e, inl (refl, refl), refl)
      cases (store', stored msg) put again =
          elim (again (queued ++ queued_as msg name ∷ []) store') [
            | inl h ↦
                inl (next-IsStored name names s store.boxes store'.boxes _ u.0 (put msg refl) h)
            | inr (e, fails, answer) ↦ inr (e, inr (msg, refl, fails), answer)
          ]

  has-others :
      (boxes : Store) (s' : Store) (name : Bytes) (names : List Bytes)
      → All (λ n. n ≢ name) names
      → IsPut boxes.boxes s'.boxes env body name
      → All (λ n. has boxes n ≡ true) names
      → All (λ n. has s' n ≡ true) names
  unfolding has
  has-others s s' name [] apart put h = tt
  has-others s s' name (n ∷ names) apart put h =
      (rw (put.others n (λ e. apart.0 (sym e))) h.0, has-others s s' name names apart.1 put h.1)

  -- A store in memory does not refuse what is within the size limit.
  pub deliver_each-taken :
      (names queued : List Bytes) (s : Session) (max_size : ℕ) (store : Store)
      → Unique names
      → IsMemory max_size store
      → length body ≤ max_size
      → All (λ n. has store n ≡ true) names
      → IsStored env body names s store.boxes (deliver_each w o env body names queued s store)
  unfolding deliver_each
  deliver_each-taken [] queued s max_size store u h fits known = record {
    queued = queued;
    answer = refl;
    newest = tt;
    others = λ j away. refl;
  }
  deliver_each-taken (name ∷ names) queued s max_size store u h fits known =
      let r = deliver w.parse (w.stamp store.cells) name (codes "smtp") env body store in
      let t =
        deliver-IsTaken w.parse (w.stamp store.cells) name (codes "smtp") env body max_size store h
          fits known.0 in
      let put =
        deliver-IsPut w.parse (w.stamp store.cells) name (codes "smtp") env body store {m = _}
          t.outcome in
      rw (t.outcome, deliver_each)
        (next-IsStored name names s store.boxes r.0.boxes _ u.0 put (
          deliver_each-taken names _ s max_size r.0 u.1 t.memory fits
            (has-others store r.0 name names u.0 put known.1)))
