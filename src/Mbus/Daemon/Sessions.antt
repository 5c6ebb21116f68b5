-- ===== src/Mbus/Daemon/Sessions.antt =====
-- mbus/mbusd.c: handlers of the daemon for a client that logs in, closes, or sends a private message.
use easymesh.Mbus.GroupManager.{leave_all_group}
use easymesh.Tlv.Parse.{parse_object}
use easymesh.Tlv.Lookup.{get_object_item-hit, get_object_item-miss, get_object_item-end}
use mathlib.Core.Path.{subst}
use easymesh.Prelude.{
  ℕ, List, inl, Option-cases, Bool-cases, refl, inr, false, ◌∷◌, length, [], ◌==◌, ◌≤◌, arith, sym,
  ◌≡◌, ◌≢◌, true, none, some, ◌∙◌, ap,
}
use easymesh.Prelude.Int.{pos}
use easymesh.Prelude.Run.{Returns-bind, Ptr, null, Returns, returns, fault, done}
use easymesh.Mbus.{Name, Client, Bus}
use easymesh.Mbus.Names.{Distinct}
use easymesh.Mbus.Tables.{
  client_names, Nowhere, DistinctUsers, user_delete-leave_all_group, user_create-Distinct,
}
use easymesh.Mbus.UserManager.{user_create, user_get_by_name, find_client}
use easymesh.Mbus.Daemon.{
  handle_close, with_client, client_at, login, attach, set_io, handle_private_msg, parse_body,
  field, Memory, beside, value_of, private_fields, login_found,
}
use easymesh.Tlv.{head, Item, Head, node, next, end, get_object_item}
use easymesh.Tlv.Encode.{encode_items}
use easymesh.Tlv.Parse.Roundtrip.{PlainTlvs, parse_object-encode}

-- P

-- Where the clients have distinct names and no group has a member twice, handle_close for the
-- connection of a logged-in client returns if malloc gives every iterator; no client of its name
-- is left, and no group has it as a member. If one of the iterators cannot be had, handle_close
-- reads through NULL.
pub handle_close-gone :
    (io : Ptr) (s : Bus) (c : Client)
    → s.arg io ≢ null
    → client_at (s.arg io) s.g_clients ≡ some c
    → Distinct (client_names s.g_clients)
    → DistinctUsers s.g_groups
    → Returns
        (λ _ g. (find_client c.name g.g_clients ≡ none) × Nowhere c.name g.g_groups)
        (handle_close true io s)
      × (handle_close false io s ≡ fault)
unfolding handle_close with_client leave_all_group
handle_close-gone io s c there found d ds =
    let real : (s.arg io == null) ≡ false = ground (arith, there) in
    (
      rw (real, found)
          (Returns-bind (user_delete-leave_all_group c.name s d ds) λ _ _ gone. returns gone),
      rw (real, found) refl,
    )

client_names-set_io :
    (cli io : Ptr) (cs : List Client) → client_names (set_io cli io cs) ≡ client_names cs
unfolding set_io
client_names-set_io cli io [] = refl
client_names-set_io cli io (c ∷ cs) = elim (Bool-cases (c.self == cli)) [
  | inl t ↦ rw (t, client_names-set_io cli io cs) refl
  | inr f ↦ rw (f, client_names-set_io cli io cs) refl
]

-- P

-- Where malloc gives the iterator of the lookup, a login with a name of at most 127 bytes
-- returns, and the names of the clients are distinct if they were so before.
pub login-Distinct :
    (memory : Memory) (io : Ptr) (n : Name) (s : Bus)
    → length n ≤ 127
    → Distinct (client_names s.g_clients)
    → memory.iterator ≡ true
    → Returns (λ _ g. Distinct (client_names g.g_clients)) (login memory io n s)
unfolding login login_found attach user_get_by_name
login-Distinct memory io n s short d walks = elim (Option-cases (find_client n s.g_clients)) [
  | inr (c, e) ↦ rw (walks, e) (returns d)
  | inl e ↦
      let made = user_create-Distinct memory.client n s short e d in
      rw (walks, e)
        (elim (Bool-cases ((user_create memory.client n s).0 == null)) [
          | inl t ↦ rw t (returns made)
          | inr f ↦ rw f (
              returns (
                subst Distinct
                  (sym (
                    client_names-set_io (user_create memory.client n s).0 io
                      (user_create memory.client n s).1.g_clients))
                  made))
        ])
]

field-some :
    (root : Item) (t : ℕ) (i : Item)
    → get_object_item root t (pos 0) ≡ some i
    → field (some root) t ≡ some (head i).value
unfolding field value_of
field-some root t i e = ap value_of e

field-none :
    (root : Item) (t : ℕ) → get_object_item root t (pos 0) ≡ none → field (some root) t ≡ none
unfolding field value_of
field-none root t e = ap value_of e

-- A private message of exactly a sender and a text makes the handler read through a NULL pointer,
-- if the sender of the connection is logged in, the fields are ones that the parser reads back,
-- and no allocation fails.
pub handle_private_msg-fault :
    (memory : Memory) (io : Ptr) (s : Bus) (c : Client) (sender text : Head) (raw : List ℕ)
    → s.arg io ≢ null
    → client_at (s.arg io) s.g_clients ≡ some c
    → memory.root ≡ true
    → memory.item ≡ (λ _. true)
    → sender.type ≡ 4
    → text.type ≡ 6
    → PlainTlvs 2 (next (node sender end) (next (node text end) end))
    → handle_private_msg memory
        (record {
          length = length (encode_items (next (node sender end) (next (node text end) end)));
          command_id = 2000;
          body = encode_items (next (node sender end) (next (node text end) end));
          raw = raw;
        })
        io
        s
      ≡ fault
unfolding handle_private_msg private_fields with_client parse_body beside
handle_private_msg-fault memory io s c sender text raw there found root item four six plain =
    let real : (s.arg io == null) ≡ false = ground (arith, there) in
    let (g, parsed) = parse_object-encode 2 sender (next (node text end) end) plain in
    let tree : Item = node g (next (node sender end) (next (node text end) end)) in
    let from : get_object_item tree 4 (pos 0) ≡ some (node sender end) =
      get_object_item-hit g 4 (node sender end) _ four in
    let what : get_object_item tree 6 (pos 0) ≡ some (node text end) =
      get_object_item-miss g 6 (node sender end) _ (pos 0) (λ e. absurd (omega (arith, e, four)))
      ∙ get_object_item-hit g 6 (node text end) end six in
    let to : get_object_item tree 5 (pos 0) ≡ none =
      get_object_item-miss g 5 (node sender end) _ (pos 0) (λ e. absurd (omega (arith, e, four)))
      ∙ get_object_item-miss g 5 (node text end) end (pos 0) (λ e. absurd (omega (arith, e, six)))
      ∙ get_object_item-end g 5 (pos 0) in
    let sender_field : field (some tree) 4 ≡ some sender.value =
      field-some tree 4 (node sender end) from in
    let text_field : field (some tree) 6 ≡ some text.value =
      field-some tree 6 (node text end) what in
    let receiver_field : field (some tree) 5 ≡ none = field-none tree 5 to in
    let message : List ℕ = encode_items (next (node sender end) (next (node text end) end)) in
    let outcome : parse_object memory.root memory.item message (length message) 2
        ≡ done (some tree) tt =
      rw (root, item) parsed in
    let body : beside (parse_object memory.root memory.item message (length message) 2) s
        ≡ done (some tree) s =
      ap (λ r. beside r s) outcome in
    rw (real, found, body, sender_field, text_field, receiver_field) refl
