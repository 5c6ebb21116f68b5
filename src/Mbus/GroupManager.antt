-- ===== src/Mbus/GroupManager.antt =====
-- mbus/group_manager.c: groups and their members. A name that may be NULL is an option. `iterates` is
-- whether malloc gives every iterator that the call asks for: the loops read through NULL where it
-- does not, which is a fault whichever of them it is.
use easymesh.Prelude.{
  List, none, ◌∷◌, ◌++◌, ◌||◌, [], true, Bool, not, if◌then◌else◌, some, Option, false,
}
use easymesh.Prelude.Run.{Cmd, done, fault, ◌>>=◌, and_then}
use easymesh.Prelude.Int.{ℤ, pos, minus_one}
use easymesh.Mbus.{Name, Group, Bus, same_name, cut_name}

unfoldable pub group_create : Bool → Name → Bus → Bool × Bus
group_create allocated name s =
    if allocated
    then (
      true,
      record s { g_groups = s.g_groups ++ record { group_name = cut_name name; users = [] } ∷ [] },
    )
    else (false, s)

unfoldable pub find_group : Name → List Group → Option Group
unfolding same_name
find_group name [] = none
find_group name (g ∷ gs) =
    let rest = find_group name gs in if same_name name g.group_name then some g else rest

unfoldable pub search_group : Bool → Name → Cmd Bus (Option Group)
unfolding find_group
search_group iterates name s = if iterates then done (find_group name s.g_groups) s else fault

-- Whether search_item_in_group finds a node.
unfoldable pub search_item : List Name → Name → Bool
unfolding same_name
search_item [] username = false
search_item (u ∷ us) username =
    let rest = search_item us username in if same_name u username then true else rest

-- The group that search_group finds, given anew.
unfoldable pub replace_group : Name → Group → List Group → List Group
unfolding same_name
replace_group name g [] = []
replace_group name g (h ∷ hs) =
    let rest = replace_group name g hs in if same_name name h.group_name then g ∷ hs else h ∷ rest

-- join_group once the group has been looked up.
unfoldable pub join_found : Bool → Name → Name → Option Group → Bus → ℤ × Bus
unfolding search_item replace_group
join_found allocated username groupname none s = (minus_one, s)
join_found allocated username groupname (some g) s =
    if search_item g.users username || not allocated then (minus_one, s) else (
      pos 0,
      record s {
        g_groups =
            replace_group groupname (record g { users = g.users ++ username ∷ [] }) s.g_groups;
      },
    )

unfoldable pub join_group : Bool → Bool → Option Name → Option Name → Cmd Bus ℤ
unfolding search_group join_found
join_group iterates allocated none groupname s = done minus_one s
join_group iterates allocated (some username) none s = done minus_one s
join_group iterates allocated (some username) (some groupname) s =
    and_then (search_group iterates groupname s)
      λ g t. let r = join_found allocated username groupname g t in done r.0 r.1

-- KamiListDel of the node that was found, which is the first with the name.
unfoldable pub remove_user : Name → List Name → List Name
unfolding same_name
remove_user username [] = []
remove_user username (u ∷ us) =
    let rest = remove_user username us in if same_name u username then us else u ∷ rest

unfoldable pub leave_group : Name → Group → ℤ × Group
unfolding search_item remove_user
leave_group username g =
    if search_item g.users username
    then (pos 0, record g { users = remove_user username g.users })
    else (minus_one, g)

-- leave_group_by_name once the group has been looked up.
unfoldable pub leave_found : Name → Name → Option Group → Bus → ℤ × Bus
unfolding leave_group replace_group
leave_found username groupname none s = (minus_one, s)
leave_found username groupname (some g) s = (
  (leave_group username g).0,
  record s { g_groups = replace_group groupname (leave_group username g).1 s.g_groups },
)

unfoldable pub leave_group_by_name : Bool → Option Name → Option Name → Cmd Bus ℤ
unfolding search_group leave_found
leave_group_by_name iterates none groupname s = done minus_one s
leave_group_by_name iterates (some username) none s = done minus_one s
leave_group_by_name iterates (some username) (some groupname) s =
    and_then (search_group iterates groupname s)
      λ g t. let r = leave_found username groupname g t in done r.0 r.1

unfoldable pub leave_all : Name → List Group → List Group
unfolding leave_group
leave_all username [] = []
leave_all username (g ∷ gs) = (leave_group username g).1 ∷ leave_all username gs

unfoldable pub leave_all_group : Bool → Name → Cmd Bus ℤ
unfolding leave_all
leave_all_group iterates username s =
    if iterates then done (pos 0) (record s { g_groups = leave_all username s.g_groups }) else fault

-- The loop over the members.
unfoldable pub foreach_loop : (Name → Cmd Bus (Unit {0})) → List Name → Cmd Bus (Unit {0})
foreach_loop cb [] s = done tt s
foreach_loop cb (u ∷ us) s = and_then (cb u s) λ _. foreach_loop cb us

-- foreach_group_member once the group has been looked up.
unfoldable pub foreach_found : (Name → Cmd Bus (Unit {0})) → Option Group → Cmd Bus (Unit {0})
unfolding foreach_loop
foreach_found cb none s = done tt s
foreach_found cb (some g) s = foreach_loop cb g.users s

unfoldable pub foreach_group_member : Bool → Name → (Name → Cmd Bus (Unit {0})) → Cmd Bus (Unit {0})
unfolding search_group foreach_found
foreach_group_member iterates groupname cb = search_group iterates groupname >>= foreach_found cb
