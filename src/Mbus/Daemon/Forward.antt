-- ===== src/Mbus/Daemon/Forward.antt =====
-- mbus/mbusd.c: what a message to a group makes the daemon send.
use mathlib.Core.List.{append-nil, append_assoc}
use easymesh.Prelude.{
  ℕ, List, Option, ◌∷◌, ◌++◌, ◌≡◌, refl, none, inl, some, map, [], ◌==◌, Bool-cases, if◌then◌else◌,
  inr, Option-cases, ◌∙◌, ap, sym, true, Bool, false,
}
use easymesh.Prelude.Run.{Ptr, null, fault, done}
use easymesh.Mbus.{Name, Client, Group, Bus, same_name}
use easymesh.Mbus.UserManager.{user_get_by_name, find_client}
use easymesh.Mbus.GroupManager.{
  search_group, foreach_loop, foreach_group_member, foreach_found, find_group,
}
use easymesh.Mbus.Daemon.{forward_msg_in_group, group_cb, send_data_to_user, io_write, deliver_to}

-- The connection of a member, where it is not the sender, is logged in and has one.
abbrev pub connection : Name → List Client → Name → Option Ptr
connection from cs username =
    let found = elim (find_client username cs) as (λ _. Option Ptr) [
      | none ↦ none
      | some c ↦ if c.io == null then none else some c.io
    ] in
    if same_name username from then none else found

abbrev pub prepend : Option Ptr → List Ptr → List Ptr
prepend none ios = ios
prepend (some io) ios = io ∷ ios

-- Their connections, in the order of the members.
abbrev pub connections : Name → List Client → List Name → List Ptr
connections from cs [] = []
connections from cs (u ∷ us) = prepend (connection from cs u) (connections from cs us)

abbrev pub posted : Bus → List Ptr → List ℕ → Bus
posted s ios bytes = record s { outbox = s.outbox ++ map (λ io. (io, bytes)) ios }

group_cb-posted :
    (from : Name) (bytes : List ℕ) (u : Name) (s : Bus)
    → group_cb true from bytes u s
      ≡ done tt (
          posted s
            (elim (connection from s.g_clients u) as (λ _. List Ptr) [
              | none ↦ []
              | some io ↦ io ∷ []
            ])
            bytes)
unfolding group_cb deliver_to send_data_to_user io_write user_get_by_name
group_cb-posted from bytes u s = elim (Bool-cases (same_name u from)) [
  | inl t ↦ rw (t, append-nil s.outbox) refl
  | inr f ↦ elim (Option-cases (find_client u s.g_clients)) [
    | inl e ↦ rw (f, e, append-nil s.outbox) refl
    | inr (c, e) ↦ elim (Bool-cases (c.io == null)) [
      | inl z ↦ rw (f, e, z, append-nil s.outbox) refl
      | inr z ↦ rw (f, e, z) refl
    ]
  ]
]

foreach_loop-posted :
    (from : Name) (bytes : List ℕ) (us : List Name) (s : Bus)
    → foreach_loop (group_cb true from bytes) us s
      ≡ done tt (posted s (connections from s.g_clients us) bytes)
unfolding foreach_loop
foreach_loop-posted from bytes [] s = rw (append-nil s.outbox) refl
foreach_loop-posted from bytes (u ∷ us) s =
    let first = group_cb-posted from bytes u s in
    let rest = connections from s.g_clients us in
    elim (Option-cases (connection from s.g_clients u)) [
      | inl e ↦
          let none_sent : group_cb true from bytes u s ≡ done tt s =
            first ∙ rw (e, append-nil s.outbox) refl in
          let all : connections from s.g_clients (u ∷ us) ≡ rest = ap (λ o. prepend o rest) e in
          rw none_sent (
            foreach_loop-posted from bytes us s
            ∙ ap (λ ios. done tt (posted s ios bytes)) (sym all))
      | inr (io, e) ↦
          let sent : group_cb true from bytes u s ≡ done tt (posted s (io ∷ []) bytes) =
            first ∙ rw e refl in
          let all : connections from s.g_clients (u ∷ us) ≡ io ∷ rest =
            ap (λ o. prepend o rest) e in
          rw sent (
            foreach_loop-posted from bytes us (posted s (io ∷ []) bytes)
            ∙ ap (λ o. done tt (record s { outbox = o }))
                (append_assoc s.outbox ((io, bytes) ∷ []) (map (λ io. (io, bytes)) rest))
            ∙ ap (λ ios. done tt (posted s ios bytes)) (sym all))
    ]

-- P

-- For a group whose name is found, forward_msg_in_group passes the message to io_write once for
-- each member other than the sender that is logged in and has a connection, in the order of the
-- members, and changes nothing else, where malloc gives every iterator; where one cannot be had,
-- it reads through NULL.
pub forward_msg_in_group-posted :
    (iterates : Bool) (g k : Group) (from : Name) (bytes : List ℕ) (s : Bus)
    → find_group g.group_name s.g_groups ≡ some k
    → forward_msg_in_group iterates g from bytes s ≡ (
        if iterates then done tt (posted s (connections from s.g_clients k.users) bytes) else fault)
unfolding forward_msg_in_group foreach_group_member foreach_found search_group
forward_msg_in_group-posted true g k from bytes s found =
    rw found (foreach_loop-posted from bytes k.users s)
forward_msg_in_group-posted false g k from bytes s found = refl
