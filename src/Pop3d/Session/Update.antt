-- ===== src/Pop3d/Session/Update.antt =====
-- internal/pop3d/server.go: what QUIT removes, message numbers, and DELE against RSET.
use mailschleuse.Base.{
  ◌&&◌, ◌≡◌, refl, Bool, true, false, List, [], ◌∷◌, none, if◌then◌else◌, Bytes, arith, str_eq,
  eq_of_str_eq, str_eq_refl,
}
use mailschleuse.Store.State.{Store}
use mailschleuse.Store.Ops.{delete}
use mailschleuse.Store.Queries.{get}
use mailschleuse.Store.Lookups.{delete-get_self, delete-get_ne}
use mailschleuse.Pop3d.Session.State.{Entry}
use mailschleuse.Pop3d.Session.Transaction.{remove_marked}

-- An entry is marked for deletion, under this id.
abbrev pub is_marked : Bytes → List Entry → Bool
is_marked id [] = false
is_marked id (e ∷ es) = if e.deleted && str_eq e.msg.id id then true else is_marked id es

-- The loop of QUIT removes from the store exactly the messages that are marked for deletion.
pub get-remove_marked :
    (es : List Entry) (s : Store) (id : Bytes)
    → get (remove_marked es s).0 id ≡ (if is_marked id es then none else get s id)
unfolding remove_marked
get-remove_marked [] s id = refl
get-remove_marked (e ∷ es) s id = ground (
  arith,
  get-remove_marked es s id,
  get-remove_marked es (delete e.msg.id s).0 id,
  delete-get_self e.msg.id s,
  delete-get_ne e.msg.id id s,
  eq_of_str_eq e.msg.id id,
  str_eq_refl id,
)
