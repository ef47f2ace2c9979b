-- ===== src/Web/Stored.antt =====
-- internal/web/server.go: messages that are imported, fetched and deleted.
use mailschleuse.Base.{◌≡◌, ◌≢◌, refl, sym, subst, Bool, true, false, none, Bytes}
use mailschleuse.Store.Types.{Message}
use mailschleuse.Store.State.{Store}
use mailschleuse.Store.Ops.{delete}
use mailschleuse.Store.Queries.{get}
use mailschleuse.Store.Lookups.{delete-get_self, delete-get_ne}
use mailschleuse.Web.Types.{Response, json, message}
use mailschleuse.Web.Reading.{no_message, with_message, handle_get_message}
use mailschleuse.Web.Changing.{changed, handle_delete_message}

no_such_message :
    (id : Bytes) (s : Store) (f : Message → Response)
    → get s id ≡ none
    → with_message id s f ≡ no_message
unfolding with_message
no_such_message id s f e = rw (e, with_message) refl

changed_store : (x : Store × Bool) → (changed x).0 ≡ x.0
changed_store (s, true) = refl
changed_store (s, false) = refl

-- A message that is deleted is not found any more, and every other message is found as before.
pub delete-gone :
    (id : Bytes) (s : Store)
    → (handle_get_message id (handle_delete_message id s).0 ≡ no_message)
      × ((j : Bytes) → id ≢ j → get (handle_delete_message id s).0 j ≡ get s j)
unfolding handle_get_message handle_delete_message
delete-gone id s =
    let t = (changed (delete id s)).0 in
    let same : t ≡ (delete id s).0 = changed_store (delete id s) in
    (
      no_such_message id t (λ m. json 200 (message m (t.reads m.read_cell)))
          (subst (λ u. get u id ≡ none) (sym same) (delete-get_self id s)),
      λ j other. subst (λ u. get u j ≡ get s j) (sym same) (delete-get_ne id j s other),
    )
