-- ===== src/Mbus/UserManager.antt =====
-- mbus/user_manager.c: the table of clients.
use easymesh.Prelude.{List, ◌++◌, some, Option, none, ◌∷◌, ◌==◌, if◌then◌else◌, []}
use easymesh.Prelude.Int.{ℤ, pos}
use easymesh.Prelude.{Bool}
use easymesh.Prelude.Run.{Ptr, null, Cmd, done, fault, ◌>>=◌}
use easymesh.Mbus.{Name, Client, Bus, same_name, cut_name}

-- `cli` is what malloc returns; so is the result.
unfoldable pub user_create : Ptr → Name → Bus → Ptr × Bus
user_create cli name s = if cli == null then (null, s) else (
  cli,
  record s {
    g_clients = s.g_clients ++ record { self = cli; name = cut_name name; io = null } ∷ [];
  },
)

unfoldable pub find_client : Name → List Client → Option Client
unfolding same_name
find_client name [] = none
find_client name (c ∷ cs) =
    let rest = find_client name cs in if same_name c.name name then some c else rest

-- `iterates` is whether malloc gives the iterator: without it the loop reads through NULL.
unfoldable pub user_get_by_name : Bool → Name → Cmd Bus (Option Client)
unfolding find_client
user_get_by_name iterates name s = if iterates then done (find_client name s.g_clients) s else fault

-- KamiListDel of the node of the client that was found, which is the first of that name.
unfoldable pub remove_client : Name → List Client → List Client
unfolding same_name
remove_client name [] = []
remove_client name (c ∷ cs) =
    let rest = remove_client name cs in if same_name c.name name then cs else c ∷ rest

-- user_delete once the client has been looked up.
unfoldable pub delete_found : Name → Option Client → Cmd Bus ℤ
unfolding remove_client
delete_found name none s = done (pos 0) s
delete_found name (some _) s =
    done (pos 0) (record s { g_clients = remove_client name s.g_clients })

unfoldable pub user_delete : Bool → Name → Cmd Bus ℤ
unfolding user_get_by_name delete_found
user_delete iterates name = user_get_by_name iterates name >>= delete_found name
