-- ===== src/Web/Guards.antt =====
-- internal/web/server.go: what a client without a login, and read-only mode, can do.
use mailschleuse.Base.{
  ℕ, ◌≡◌, refl, sym, ap, ◌∙◌, subst, ◌⊎◌, inl, inr, Bool, true, false, ◌&&◌, ◌++◌, List, [], ◌∷◌,
  Bool-cases, is_nil, length, take, drop, take-append-drop, has_prefix, has_suffix, str_eq, codes,
  Bytes, trim_suffix_byte, arith, if◌then◌else◌,
}
use mathlib.Core.List.{reverse, reverse-append}
use mailschleuse.Store.State.{Store, subscribe}
use mailschleuse.Web.Types.{
  Options, Request, Response, Handler, World, Method, method_get, method_head, method_post,
  method_put, method_patch, method_delete, method_options, method_other,
}
use mailschleuse.Web.Access.{
  with_auth, with_cors, with_read_only, with_base, is_login, basic_auth, is_changing, is_options,
  unauthorized, with_cors_headers,
}
use mailschleuse.Web.Server.{
  Target, mux, serve, dispatch, target_get, target_of, segments, compose, import, events,
  clear_mailbox, mark_all_read, patch_message, delete_message,
}
use mailschleuse.Web.Events.{handle_events}
use mailschleuse.Web.Frame.{Relates, serve-Relates}

-- The request changes nothing, and its answer does not depend on the store.
pub record IsBlind (h : Handler) (r : Request) : Type 0 where
  pub unchanged : (s : Store) → (h r s).0 ≡ s
  pub unseen : (s t : Store) → (h r s).1 ≡ (h r t).1

refused-IsBlind :
    (a : Store → Response)
    → ((s t : Store) → a s ≡ a t)
    → (h : Handler) (r : Request) → ((s : Store) → h r s ≡ (s, a s))
    → IsBlind h r
refused-IsBlind a same h r e = record {
  unchanged = λ s. ap (λ x. x.0) (e s);
  unseen = λ s t. ap (λ x. x.1) (e s) ∙ same s t ∙ sym (ap (λ x. x.1) (e t));
}

-- A path that the login protects.
abbrev pub IsGuarded : Options → Request → Type 0
IsGuarded o r =
    (is_nil o.username ≡ false)
    × ((has_suffix r.path (codes "/healthz") ≡ false)
        × (is_login o (basic_auth r.authorization) ≡ false))

with_auth-IsBlind :
    (o : Options) (next : Handler) (r : Request) → IsGuarded o r → IsBlind (with_auth o next) r
unfolding with_auth
with_auth-IsBlind o next r (named, (other, wrong)) =
    refused-IsBlind (λ s. unauthorized) (λ s t. refl) (with_auth o next) r
      λ s. rw (named, other, wrong) refl

with_cors-IsBlind :
    (o : Options) (next : Handler) (r : Request) → IsBlind next r → IsBlind (with_cors o next) r
unfolding with_cors
with_cors-IsBlind o next r h = elim (Bool-cases (is_nil o.cors_origin)) [
  | inl t ↦ record { unchanged = λ s. rw t (h.unchanged s); unseen = λ s u. rw t (h.unseen s u) }
  | inr f ↦ elim (Bool-cases (is_options r.method)) [
    | inl t ↦ record { unchanged = λ s. rw (f, t) refl; unseen = λ s u. rw (f, t) refl }
    | inr g ↦ record {
      unchanged = λ s. rw (f, g) (h.unchanged s);
      unseen = λ s u. rw (f, g) (ap (with_cors_headers o) (h.unseen s u));
    }
  ]
]

has_prefix-append : (s t p : Bytes) → has_prefix s p ≡ true → has_prefix (s ++ t) p ≡ true
unfolding has_prefix
has_prefix-append s t [] e = refl
has_prefix-append [] t (c ∷ p) e = cc
has_prefix-append (d ∷ s) t (c ∷ p) e = ground (arith, e, has_prefix-append s t p)

-- The end of the end of a text is an end of the text.
has_suffix-drop : (n : ℕ) (s p : Bytes) → has_suffix (drop n s) p ≡ true → has_suffix s p ≡ true
unfolding has_suffix
has_suffix-drop n s p e =
    subst (λ t. has_prefix (reverse t) (reverse p) ≡ true) (take-append-drop n s)
      (subst (λ t. has_prefix t (reverse p) ≡ true) (sym (reverse-append (take n s) (drop n s)))
        (has_prefix-append (reverse (drop n s)) (reverse (take n s)) (reverse p) e))

stripped-IsGuarded :
    (o : Options) (r : Request) (n : ℕ)
    → IsGuarded o r
    → IsGuarded o (record r { path = drop n r.path })
stripped-IsGuarded o r n (named, (other, wrong)) = (
  named,
  (
    elim (Bool-cases (has_suffix (drop n r.path) (codes "/healthz"))) [
      | inl t ↦ absurd (cc (has_suffix-drop n r.path (codes "/healthz") t, other))
      | inr f ↦ f
    ],
    wrong,
  ),
)

with_base-IsBlind :
    (o : Options) (next : Handler) (r : Request)
    → IsBlind next r
    → IsBlind next (record r { path = drop (length (trim_suffix_byte b'/' o.base_path)) r.path })
    → IsBlind (with_base o next) r
unfolding with_base
with_base-IsBlind o next r h k =
    let base = trim_suffix_byte b'/' o.base_path in
    elim (Bool-cases (is_nil base)) [
      | inl t ↦ record {
        unchanged = λ s. rw t (h.unchanged s);
        unseen = λ s u. rw t (h.unseen s u);
      }
      | inr f ↦ elim (Bool-cases (str_eq r.path base)) [
        | inl t ↦ record { unchanged = λ s. rw (f, t) refl; unseen = λ s u. rw (f, t) refl }
        | inr g ↦ elim (Bool-cases (has_prefix r.path (base ++ codes "/"))) [
          | inl t ↦ record {
            unchanged = λ s. rw (f, g, t) (k.unchanged s);
            unseen = λ s u. rw (f, g, t) (k.unseen s u);
          }
          | inr i ↦ record { unchanged = λ s. rw (f, g, i) refl; unseen = λ s u. rw (f, g, i) refl }
        ]
      ]
    ]

-- Where the options name a user, a request without that user's login changes nothing, and the answer
-- to it does not depend on the store, unless the path ends in "/healthz".
pub serve-IsBlind : (w : World) (o : Options) (r : Request) → IsGuarded o r → IsBlind (serve w o) r
unfolding serve
serve-IsBlind w o r g =
    let inner : (r' : Request) → IsGuarded o r' → IsBlind _ r' =
      λ r' g'. with_cors-IsBlind o _ r' (with_auth-IsBlind o (with_read_only o (mux w o)) r' g') in
    with_base-IsBlind o _ r (inner r g) (inner _ (stripped-IsGuarded o r _ g))

-- The store stays as it is, or has one listener more.
abbrev pub Watched : Store → Store → Type 0
Watched s t = (t ≡ s) ⊎ (t ≡ (subscribe s).0)

-- The targets that change no message.
abbrev only_reads : Target → Bool
only_reads compose = false
only_reads import = false
only_reads (clear_mailbox name) = false
only_reads (mark_all_read name) = false
only_reads (patch_message id) = false
only_reads (delete_message id) = false
only_reads _ = true

target_get-only_reads : (path : List Bytes) → only_reads (target_get path) ≡ true
unfolding target_get
target_get-only_reads [] = refl
target_get-only_reads (a ∷ []) = ground arith
target_get-only_reads (a ∷ b ∷ []) = ground arith
target_get-only_reads (a ∷ b ∷ c ∷ []) = ground arith
target_get-only_reads (a ∷ b ∷ c ∷ d ∷ []) = ground arith
target_get-only_reads (a ∷ b ∷ c ∷ d ∷ e ∷ []) = ground arith
target_get-only_reads (a ∷ b ∷ c ∷ d ∷ e ∷ f ∷ path) = refl

target_of-only_reads :
    (m : Method) (path : List Bytes) → is_changing m ≡ false → only_reads (target_of m path) ≡ true
unfolding target_of
target_of-only_reads method_get path e = target_get-only_reads path
target_of-only_reads method_head path e = target_get-only_reads path
target_of-only_reads method_post path e = cc
target_of-only_reads method_put path e = cc
target_of-only_reads method_patch path e = cc
target_of-only_reads method_delete path e = cc
target_of-only_reads method_options path e = refl
target_of-only_reads method_other path e = refl

dispatch-Watched :
    (w : World) (o : Options) (target : Target) (r : Request) (s : Store)
    → only_reads target ≡ true
    → Watched s (dispatch w o target r s).0
unfolding dispatch handle_events
dispatch-Watched w o compose r s e = cc
dispatch-Watched w o import r s e = cc
dispatch-Watched w o (clear_mailbox name) r s e = cc
dispatch-Watched w o (mark_all_read name) r s e = cc
dispatch-Watched w o (patch_message id) r s e = cc
dispatch-Watched w o (delete_message id) r s e = cc
dispatch-Watched w o events r s e = inr refl
dispatch-Watched w o _ r s e = inl refl

guard_split :
    (P : Store × Response → Type 0) (a b : Bool) {x y : Store × Response}
    → a ≡ true
    → P x
    → (b ≡ false → P y)
    → P (if a && b then x else y)
guard_split P true true e px py = px
guard_split P true false e px py = py refl
guard_split P false b e px py = cc

guarded_mux-Watched :
    (w : World) (o : Options)
    → o.read_only ≡ true
    → Relates Watched (λ s. inl refl) (with_read_only o (mux w o))
unfolding with_read_only mux
guarded_mux-Watched w o on r s =
    guard_split (λ x. Watched s x.0) o.read_only (is_changing r.method) on (inl refl)
      λ f.
        dispatch-Watched w o (target_of r.method (segments r.path)) r s
          (target_of-only_reads r.method (segments r.path) f)

-- In read-only mode no request changes a message, a mailbox or a read flag: the store stays as it
-- is, but for the listener that a stream of events adds.
pub serve-Watched :
    (w : World) (o : Options) (r : Request) (s : Store)
    → o.read_only ≡ true
    → Watched s (serve w o r s).0
serve-Watched w o r s on =
    serve-Relates Watched (λ t. inl refl) w o (guarded_mux-Watched w o on) r s
