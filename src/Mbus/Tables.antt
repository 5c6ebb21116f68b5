-- ===== src/Mbus/Tables.antt =====
-- mbus/group_manager.c and mbus/user_manager.c: groups and clients under the calls that change them.
use easymesh.Prelude.Run.{Returns, returns, done, ◌>>◌, Ptr, null}
use native.Mathlib.Decide.{ℕ_discrete}
use mathlib.Core.Path.{subst}
use mathlib.Core.Option.{some-injective}
use easymesh.Prelude.{
  List, ◌≡◌, ◌∷◌, ◌++◌, Bool-cases, refl, true, false, arith, inr, ap, ◌∙◌, [], inl, some, none,
  ◌==◌, ◌<◌, length, ◌≤◌, Option-cases,
}
use easymesh.Prelude.Int.{pos}
use easymesh.Mbus.{Name, Client, Group, Bus, same_name, cut_name}
use easymesh.Mbus.Names.{
  same_name_refl, search_item-append, remove_user-append, Distinct, same_name_sym, same_name-eq,
  remove_user-gone, cut_name-differs, cut_name-short,
}
use easymesh.Mbus.UserManager.{
  find_client, user_create, remove_client, user_delete, user_get_by_name, delete_found,
}
use easymesh.Mbus.GroupManager.{
  search_group, find_group, replace_group, join_group, leave_group, leave_group_by_name,
  search_item, join_found, leave_all, leave_found, leave_all_group,
}

find_group-named :
    (n : Name) (gs : List Group) (g : Group)
    → find_group n gs ≡ some g
    → same_name n g.group_name ≡ true
unfolding find_group
find_group-named n [] g e = absurd (ground (arith, e))
find_group-named n (h ∷ hs) g e = elim (Bool-cases (same_name n h.group_name)) [
  | inl t ↦
      let same : h ≡ g = some-injective h g (rw t at e) in
      subst (λ x. same_name n x.group_name ≡ true) same t
  | inr f ↦ find_group-named n hs g (rw f at e)
]

module _ (n : Name) (g k : Group) (named : same_name n k.group_name ≡ true) where
  find_group-replace_group :
      (gs : List Group) → find_group n gs ≡ some g → find_group n (replace_group n k gs) ≡ some k
  unfolding find_group replace_group
  find_group-replace_group [] e = absurd (ground (arith, e))
  find_group-replace_group (h ∷ hs) e = elim (Bool-cases (same_name n h.group_name)) [
    | inl t ↦ rw (t, named) refl
    | inr f ↦ rw (f, f) (find_group-replace_group hs (rw f at e))
  ]

  replace_group-replace_group :
      (gs : List Group) → find_group n gs ≡ some g → replace_group n g (replace_group n k gs) ≡ gs
  unfolding find_group replace_group
  replace_group-replace_group [] e = refl
  replace_group-replace_group (h ∷ hs) e = elim (Bool-cases (same_name n h.group_name)) [
    | inl t ↦ let same : h ≡ g = some-injective h g (rw t at e) in rw (t, named, same) refl
    | inr f ↦ rw (f, f, replace_group-replace_group hs (rw f at e)) refl
  ]

-- For a group that exists and does not have the user, join_group returns 0 if no allocation
-- fails, and leave_group_by_name afterwards returns 0 and restores the tables as they were.

-- For a group that exists and does not have the user, join_group returns 0 if no allocation
-- fails, and leave_group_by_name afterwards returns 0 and restores the tables as they were.
pub leave_group_by_name-join_group :
    (u n : Name) (s : Bus) (g : Group)
    → find_group n s.g_groups ≡ some g
    → search_item g.users u ≡ false
    → (t : Bus) × (join_group true true (some u) (some n) s ≡ done (pos 0) t)
      × (leave_group_by_name true (some u) (some n) t ≡ done (pos 0) s)
unfolding join_group join_found leave_group_by_name leave_found leave_group search_group
leave_group_by_name-join_group u n s g found absent =
    let k : Group = record g { users = g.users ++ u ∷ [] } in
    let named = find_group-named n s.g_groups g found in
    let again = find_group-replace_group n g k named s.g_groups found in
    let back = replace_group-replace_group n g k named s.g_groups found in
    let member : search_item (g.users ++ u ∷ []) u ≡ true =
      search_item-append g.users u u ∙ rw (absent, same_name_refl u) refl in
    (
      record s { g_groups = replace_group n k s.g_groups },
      rw (found, absent) refl,
      rw (again, member, remove_user-append g.users u absent, back) refl,
    )

-- The names of the clients.
abbrev pub client_names : List Client → List Name
client_names [] = []
client_names (c ∷ cs) = c.name ∷ client_names cs

client_names-append :
    (cs : List Client) (c : Client) → client_names (cs ++ c ∷ []) ≡ client_names cs ++ c.name ∷ []
client_names-append [] c = refl
client_names-append (d ∷ ds) c = ap (◌∷◌ d.name) (client_names-append ds c)

find_client-search_item :
    (n : Name) (cs : List Client)
    → find_client n cs ≡ none
    → search_item (client_names cs) n ≡ false
unfolding find_client search_item
find_client-search_item n [] e = refl
find_client-search_item n (c ∷ cs) e = elim (Bool-cases (same_name c.name n)) [
  | inl t ↦ absurd (ground (arith, e, t))
  | inr f ↦ rw f (find_client-search_item n cs (rw f at e))
]

Distinct-append :
    (ns : List Name) (n : Name) → Distinct ns → search_item ns n ≡ false → Distinct (ns ++ n ∷ [])
unfolding Distinct search_item
Distinct-append [] n d e = (refl, tt)
Distinct-append (m ∷ ns) n (fresh, d) e =
    let differs : same_name m n ≡ false = ground (arith, e) in
    let absent : search_item ns n ≡ false = ground (arith, e, differs) in
    let other : same_name n m ≡ false = same_name_sym m n differs in
    (search_item-append ns n m ∙ rw (fresh, other) refl, Distinct-append ns n d absent)

-- Create
pub user_create-Distinct :
    (cli : Ptr) (n : Name) (s : Bus)
    → length n ≤ 127
    → find_client n s.g_clients ≡ none
    → Distinct (client_names s.g_clients)
    → Distinct (client_names (user_create cli n s).1.g_clients)
unfolding user_create
user_create-Distinct cli n s short new d = elim (ℕ_discrete cli null) [
  | yes e ↦ rw e d
  | no ne ↦
      let real : (cli == null) ≡ false = ground arith in
      let c : Client = record { self = cli; name = cut_name n; io = null } in
      rw (real, client_names-append s.g_clients c, cut_name-short n short)
        (Distinct-append (client_names s.g_clients) n d (find_client-search_item n s.g_clients new))
]

find_client-append :
    (n : Name) (cs : List Client) (c : Client)
    → same_name c.name n ≡ false
    → find_client n (cs ++ c ∷ []) ≡ find_client n cs
unfolding find_client
find_client-append n [] c e = rw e refl
find_client-append n (d ∷ ds) c e = ground (arith, find_client-append n ds c e)

-- user_create with a name of more than 127 bytes adds no client that user_get_by_name would find
-- under that name.
find_client-user_create :
    (cli : Ptr) (n : Name) (s : Bus)
    → 127 < length n
    → find_client n (user_create cli n s).1.g_clients ≡ find_client n s.g_clients
unfolding user_create
find_client-user_create cli n s long = elim (ℕ_discrete cli null) [
  | yes e ↦ rw e refl
  | no ne ↦
      let real : (cli == null) ≡ false = ground arith in
      rw real (find_client-append n s.g_clients _ (cut_name-differs n long))
]

absent_client :
    (n : Name) (cs : List Client)
    → search_item (client_names cs) n ≡ false
    → find_client n cs ≡ none
unfolding find_client search_item
absent_client n [] e = refl
absent_client n (c ∷ cs) e =
    let differs : same_name c.name n ≡ false = ground (arith, e) in
    let later : search_item (client_names cs) n ≡ false = ground (arith, e, differs) in
    rw (differs, absent_client n cs later) refl

remove_client-gone :
    (n : Name) (cs : List Client)
    → Distinct (client_names cs)
    → find_client n (remove_client n cs) ≡ none
unfolding find_client remove_client Distinct
remove_client-gone n [] d = refl
remove_client-gone n (c ∷ cs) (fresh, d) = elim (Bool-cases (same_name c.name n)) [
  | inl t ↦ rw t (
      absent_client n cs
        (subst (λ m. search_item (client_names cs) m ≡ false) (same_name-eq c.name n t) fresh))
  | inr f ↦ rw (f, f) (remove_client-gone n cs d)
]

-- No group has the member.
abbrev pub Nowhere : Name → List Group → Type 0
Nowhere n [] = Unit {0}
Nowhere n (g ∷ gs) = (search_item g.users n ≡ false) × Nowhere n gs

abbrev pub DistinctUsers : List Group → Type 0
DistinctUsers [] = Unit {0}
DistinctUsers (g ∷ gs) = Distinct g.users × DistinctUsers gs

leave_all-Nowhere : (n : Name) (gs : List Group) → DistinctUsers gs → Nowhere n (leave_all n gs)
unfolding leave_all leave_group
leave_all-Nowhere n [] d = tt
leave_all-Nowhere n (g ∷ gs) (d, ds) = elim (Bool-cases (search_item g.users n)) [
  | inl t ↦ rw t (remove_user-gone g.users n d, leave_all-Nowhere n gs ds)
  | inr f ↦ rw f (f, leave_all-Nowhere n gs ds)
]

pub user_delete-leave_all_group :
    (n : Name) (s : Bus)
    → Distinct (client_names s.g_clients)
    → DistinctUsers s.g_groups
    → Returns
        (λ _ g. (find_client n g.g_clients ≡ none) × Nowhere n g.g_groups)
        ((leave_all_group true n >> user_delete true n) s)
unfolding user_delete delete_found leave_all_group user_get_by_name
user_delete-leave_all_group n s d ds = elim (Option-cases (find_client n s.g_clients)) [
  | inl e ↦ rw e (returns (e, leave_all-Nowhere n s.g_groups ds))
  | inr (c, e) ↦
      rw e (returns (remove_client-gone n s.g_clients d, leave_all-Nowhere n s.g_groups ds))
]
