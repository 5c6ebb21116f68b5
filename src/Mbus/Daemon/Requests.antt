-- ===== src/Mbus/Daemon/Requests.antt =====
-- mbus/mbusd.c: handle_msg for a login and for a private message that is whole.
use easymesh.Prelude.{ℕ, ◌≡◌, List, ap, length, true, refl, false, ◌≢◌, some, ◌∙◌, arith, ◌==◌}
use easymesh.Prelude.Run.{done, null, Ptr}
use easymesh.Prelude.Int.{pos}
use easymesh.Tlv.Lookup.{get_object_item-hit, get_object_item-miss}
use easymesh.Tlv.{Item, Items, Head, node, next, end}
use easymesh.Tlv.Encode.{encode_items}
use easymesh.Tlv.Parse.Roundtrip.{PlainTlvs, parse_object-encode}
use easymesh.Mbus.{Name, Client, Bus, c_string}
use easymesh.Mbus.UserManager.{user_get_by_name, find_client}
use easymesh.Mbus.Daemon.{
  Msg, Memory, beside, parse_body, value_of, field, use_name, use_field, with_string, deliver_to,
  login, handle_login_request, client_at, with_client, private_fields, handle_private_msg,
  handle_msg, send_data_to_user, io_write, deliver,
}

-- A message with some TLVs for its body.
abbrev pub tlv_msg : ℕ → Items → List ℕ → Msg
tlv_msg command js raw = record {
  length = length (encode_items js);
  command_id = command;
  body = encode_items js;
  raw = raw;
}

-- The value of the first TLV, and of a later one, as a field.
pub field-here :
    (g : Head) (t : ℕ) (h : Head) (js : Items)
    → h.type ≡ t
    → field (some (node g (next (node h end) js))) t ≡ some h.value
unfolding field value_of
field-here g t h js e = ap value_of (get_object_item-hit g t (node h end) js e)

pub field-later :
    (g : Head) (t : ℕ) (h : Head) (js : Items)
    → h.type ≢ t
    → field (some (node g (next (node h end) js))) t ≡ field (some (node g js)) t
unfolding field value_of
field-later g t h js ne = ap value_of (get_object_item-miss g t (node h end) js (pos 0) ne)

pub record IsPlenty (memory : Memory) : Type 0 where
  pub root : memory.root ≡ true
  pub item : memory.item ≡ (λ _. true)
  pub iterator : memory.iterator ≡ true

parse_body-encode :
    (memory : Memory) (command : ℕ) (h : Head) (js : Items) (raw : List ℕ) (s : Bus)
    → IsPlenty memory
    → PlainTlvs 2 (next (node h end) js)
    → (g : Head) × (parse_body memory (tlv_msg command (next (node h end) js) raw) s
        ≡ done (some (node g (next (node h end) js))) s)
unfolding parse_body beside
parse_body-encode memory command h js raw s m plain =
    let (g, parsed) = parse_object-encode 2 h js plain in (g, rw (m.root, m.item, parsed) refl)

pub handle_msg-login :
    (memory : Memory) (h : Head) (raw : List ℕ) (io : Ptr) (name : Name) (s : Bus)
    → IsPlenty memory
    → h.type ≡ 7
    → PlainTlvs 2 (next (node h end) end)
    → c_string h.value ≡ some name
    → handle_msg memory (tlv_msg 259 (next (node h end) end) raw) io s ≡ login memory io name s
unfolding handle_msg handle_login_request use_field use_name with_string
handle_msg-login memory h raw io name s m seven plain text =
    let (g, parsed) = parse_body-encode memory 259 h end raw s m plain in
    rw (parsed, field-here g 7 h end seven, text) refl

module _ (memory : Memory) (sender receiver text : Head) (raw : List ℕ) (io : Ptr) (s : Bus) where
  abbrev pub three : Items
  three = next (node sender end) (next (node receiver end) (next (node text end) end))

  pub handle_msg-private :
      (c peer : Client) (name : Name)
      → IsPlenty memory
      → PlainTlvs 2 three
      → sender.type ≡ 4
      → receiver.type ≡ 5
      → text.type ≡ 6
      → c_string receiver.value ≡ some name
      → s.arg io ≢ null
      → client_at (s.arg io) s.g_clients ≡ some c
      → find_client name s.g_clients ≡ some peer
      → peer.io ≢ null
      → handle_msg memory (tlv_msg 2000 three raw) io s ≡ done tt (io_write peer.io raw s)
  unfolding handle_msg handle_private_msg private_fields with_client use_name with_string deliver
      deliver_to user_get_by_name send_data_to_user
  handle_msg-private c peer name m plain four five six string there found known on =
      let (g, parsed) = parse_body-encode memory 2000 sender _ raw s m plain in
      let real : (s.arg io == null) ≡ false = ground (arith, there) in
      let connected : (peer.io == null) ≡ false = ground (arith, on) in
      let tree : Item = node g three in
      let from : field (some tree) 4 ≡ some sender.value = field-here g 4 sender _ four in
      let to : field (some tree) 5 ≡ some receiver.value =
        field-later g 5 sender _ (λ e. absurd (omega (arith, e, four)))
        ∙ field-here g 5 receiver _ five in
      let what : field (some tree) 6 ≡ some text.value =
        field-later g 6 sender _ (λ e. absurd (omega (arith, e, four)))
        ∙ field-later g 6 receiver _ (λ e. absurd (omega (arith, e, five)))
        ∙ field-here g 6 text end six in
      rw (real, found, parsed, from, to, what, string, m.iterator, known, connected) refl
