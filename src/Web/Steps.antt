-- ===== src/Web/Steps.antt =====
-- internal/web/server.go: a request is one operation of the store at most.
use mailschleuse.Base.{
  ℕ, Bool, true, false, not, ◌||◌, Option, none, some, Bytes, codes, if_intro, is_nil, length, ltb,
  trim_space, Result, ok, err,
}
use mailschleuse.Store.Types.{Envelope}
use mailschleuse.Store.State.{Store}
use mailschleuse.Store.Ops.{Delivery, stored, refused}
use mailschleuse.Store.Queries.{has}
use mailschleuse.Store.Steps.{
  StoreStep, idle, delivering, marking, marking_all, deleting, clearing, subscribing,
}
use mailschleuse.Web.Compose.{ComposeRequest, build}
use mailschleuse.Web.Compose.Bodies.{ComposeError}
use mailschleuse.Web.Types.{Options, Request, Response, World}
use mailschleuse.Web.Changing.{
  changed, cleared_box, updated_box, accepted, accept, patch_with, handle_patch_message,
  handle_delete_message, handle_clear_mailbox, handle_mark_all_read, deliver_composed, compose_with,
  handle_compose, handle_import, limited, compose_envelope, import_envelope,
}
use mailschleuse.Web.Events.{handle_events}
use mailschleuse.Web.Server.{
  Target, compose, import, events, clear_mailbox, mark_all_read as mark_target, patch_message,
  delete_message, dispatch, mux, serve, target_of, segments,
}
use mailschleuse.Web.Frame.{Relates, unguarded-Relates}

changed_keeps : (P : Store → Type 0) (x : Store × Bool) → P x.0 → P (changed x).0
changed_keeps P (s, true) h = h
changed_keeps P (s, false) h = h

cleared_keeps :
    (P : Store → Type 0) (name : Bytes) (x : Store × Option ℕ) → P x.0 → P (cleared_box name x).0
cleared_keeps P name (s, none) h = h
cleared_keeps P name (s, some n) h = h

updated_keeps :
    (P : Store → Type 0) (name : Bytes) (x : Store × Option ℕ) → P x.0 → P (updated_box name x).0
updated_keeps P name (s, none) h = h
updated_keeps P name (s, some n) h = h

accepted_keeps :
    (P : Store → Type 0) (name : Bytes) (x : Store × Delivery) → P x.0 → P (accepted name x).0
accepted_keeps P name (s, stored m) h = h
accepted_keeps P name (s, refused e) h = h

module _ (w : World) (o : Options) where
  abbrev Step : Store → Store → Type 0
  Step = StoreStep w.parse w.stamp

  accept-Step :
      (name source : Bytes) (env : Envelope) (raw : Bytes) (s : Store)
      → Step s (accept w name source env raw s).0
  unfolding accept
  accept-Step name source env raw s =
      accepted_keeps (Step s) name _ (delivering name source env raw s)

  patch-Step :
      (id : Bytes) (change : Result Bytes (Option Bool)) (s : Store)
      → Step s (patch_with id change s).0
  unfolding patch_with
  patch-Step id (err e) s = idle s
  patch-Step id (ok none) s = idle s
  patch-Step id (ok (some read)) s = changed_keeps (Step s) _ (marking id read s)

  composed-Step :
      (name : Bytes) (r : Request) (c : ComposeRequest) (built : Result ComposeError Bytes)
      (s : Store)
      → Step s (deliver_composed w name r c built s).0
  unfolding deliver_composed
  composed-Step name r c (err e) s = idle s
  composed-Step name r c (ok raw) s = accept-Step name (codes "web") (compose_envelope r c) raw s

  compose-Step :
      (r : Request) (c : Result Bytes ComposeRequest) (s : Store)
      → Step s (compose_with w o r c s).0
  unfolding compose_with
  compose-Step r (err e) s = idle s
  compose-Step r (ok c) s =
      let P : Store × Response → Type 0 = λ x. Step s x.0 in
      let name = trim_space c.mailbox in
      if_intro P (is_nil name) (idle s) (
        if_intro P (not (has s name)) (idle s)
          (composed-Step name r c (build w.mime o.hostname c) s))

  import-Step : (r : Request) (s : Store) → Step s (handle_import w o r s).0
  unfolding handle_import
  import-Step r s =
      let P : Store × Response → Type 0 = λ x. Step s x.0 in
      let name = trim_space (r.query (codes "mailbox")) in
      if_intro P (is_nil name || not (has s name)) (idle s) (
        if_intro P (ltb o.max_size (length r.body)) (idle s) (
          if_intro P (is_nil r.body) (idle s)
            (accept-Step name (codes "import") (import_envelope r) r.body s)))

  dispatch-Step : (target : Target) (r : Request) (s : Store) → Step s (dispatch w o target r s).0
  unfolding dispatch handle_patch_message handle_delete_message handle_clear_mailbox
      handle_mark_all_read handle_compose handle_events
  dispatch-Step compose r s = compose-Step r (w.decode_compose (limited r.body)) s
  dispatch-Step import r s = import-Step r s
  dispatch-Step events r s = subscribing s
  dispatch-Step (clear_mailbox name) r s = cleared_keeps (Step s) name _ (clearing name s)
  dispatch-Step (mark_target name) r s = updated_keeps (Step s) name _ (marking_all name s)
  dispatch-Step (patch_message id) r s = patch-Step id (w.decode_patch (limited r.body)) s
  dispatch-Step (delete_message id) r s = changed_keeps (Step s) _ (deleting id s)
  dispatch-Step _ r s = idle s

  mux-Step : Relates Step (λ s. idle s) (mux w o)
  unfolding mux
  mux-Step r s = dispatch-Step (target_of r.method (segments r.path)) r s

  pub serve-Step : (r : Request) (s : Store) → Step s (serve w o r s).0
  serve-Step r s = unguarded-Relates Step (λ t. idle t) w o mux-Step r s
