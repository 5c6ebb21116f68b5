-- ===== src/Mbus/BusMsg/Private.antt =====
-- mbus/bus_msg.c and mbusd.c: a private message from one client over the daemon to another.
use easymesh.Tlv.{Item, node, end}
use easymesh.Prelude.Int.{pos}
use easymesh.Prelude.{
  List, arith, some, ◌<◌, refl, ◌∷◌, ◌+◌, [], length, ◌≢◌, ◌≡◌, ℕ, true, false, ◌==◌, ◌∙◌,
}
use easymesh.Prelude.Run.{done, null, Ptr}
use easymesh.Mbus.{Name, Client, Bus}
use easymesh.Mbus.UserManager.{find_client}
use easymesh.Mbus.BusMsg.{
  Peer, Notice, Memory, send_to, notify, private_msg_new, text_field, transmit,
  mbus_sendmsg_private, message_at, notify_parts, mbus_handle_private_msg, mbus_handle_msg,
}
use easymesh.Mbus.BusMsg.Message.{
  msg_pack, message_bytes-IsPacket, message_at-message_bytes, IsString, c_string-string,
}
use easymesh.Mbus.BusMsg.Compose.{
  IsPlenty, items_of, message_of, compose-message_of, length-encode_items, AreFields,
}
use easymesh.Mbus.BusMsg.Login.{field_head-PlainTlv, terminated, length-terminated}
use easymesh.Mbus.Daemon
use easymesh.Mbus.Daemon.Requests
use easymesh.Mbus.Daemon.{handle_msg, client_at, io_write, field}
use easymesh.Mbus.Daemon.Requests.{handle_msg-private, field-here, field-later, tlv_msg}
use easymesh.Reactor.Read.Frames.{IsPacket}
use easymesh.Tlv.Encode.{encode_items}
use easymesh.Tlv.Parse.Roundtrip.{PlainTlvs, parse_object-encode}
use easymesh.Tlv.Fields.{field_head}

-- The fields of a private message.
abbrev pub private_fields_of : Name → Name → List ℕ → List (ℕ × List ℕ)
private_fields_of from to text = (4, terminated from) ∷ (5, terminated to) ∷ (6, text) ∷ []

text_field-some :
    (type : ℕ) (text : List ℕ) → 0 < length text → text_field type (some text) ≡ (type, text) ∷ []
text_field-some type [] h = absurd (omega arith)
text_field-some type (b ∷ bs) h = refl

module _ (from to : Name) (text : List ℕ) (short : length from + length to + length text < 65000)
    (some_text : 0 < length text) where
  abbrev raw_of : List ℕ
  raw_of = message_of 2000 (private_fields_of from to text)

  items-PlainTlvs : PlainTlvs 2 (items_of (private_fields_of from to text))
  unfolding PlainTlvs
  items-PlainTlvs = (
    field_head-PlainTlv 4 (terminated from) (omega arith) (omega (arith, length-terminated from)),
    (
      field_head-PlainTlv 5 (terminated to) (omega arith) (omega (arith, length-terminated to)),
      (field_head-PlainTlv 6 text (omega arith) (omega arith), some_text),
    ),
  )

  -- The receiver's callback gets the sender, the receiver and the text, with the 0s of the names.
  abbrev pub notice : Notice
  notice = record { cmd = 2; from = terminated from; to = terminated to; text = text }

  mbus_handle_msg-notify :
      (memory : Memory) (raw : List ℕ) (s : Peer)
      → IsPlenty memory
      → mbus_handle_msg memory true (tlv_msg 2000 (items_of (private_fields_of from to text)) raw) s
        ≡ done tt (notify notice s)
  unfolding mbus_handle_msg mbus_handle_private_msg notify_parts
  mbus_handle_msg-notify memory raw s m =
      let sender = field_head 4 (terminated from) in
      let receiver = field_head 5 (terminated to) in
      let said = field_head 6 text in
      let (g, parsed) =
        parse_object-encode 2 sender (items_of ((5, terminated to) ∷ (6, text) ∷ []))
          items-PlainTlvs in
      let tree : Item = node g (items_of (private_fields_of from to text)) in
      let first : field (some tree) 4 ≡ some (terminated from) = field-here g 4 sender _ refl in
      let second : field (some tree) 5 ≡ some (terminated to) =
        field-later g 5 sender _ (λ e. absurd (ground arith)) ∙ field-here g 5 receiver _ refl in
      let third : field (some tree) 6 ≡ some text =
        field-later g 6 sender _ (λ e. absurd (ground arith))
        ∙ field-later g 6 receiver _ (λ e. absurd (ground arith))
        ∙ field-here g 6 said end refl in
      rw (m.parsed, m.parsed_item, parsed, first, second, third) refl

  mbus_handle_msg-private :
      (memory : Memory) (s : Peer)
      → IsPlenty memory
      → mbus_handle_msg memory true (message_at raw_of) s ≡ done tt (notify notice s)
  mbus_handle_msg-private memory s m =
      let bytes = encode_items (items_of (private_fields_of from to text)) in
      rw (message_at-message_bytes (length bytes) 2000 bytes)
        (mbus_handle_msg-notify memory raw_of s m)

  -- The way of a message through the daemon to the other client.
  pub record Relayed (raw : List ℕ) : Type 0 where
    pub packet : IsPacket msg_pack raw
    pub relayed :
        (memory : Daemon.Memory) (io : Ptr) (bus : Bus) (sender peer : Client)
        → Requests.IsPlenty memory
        → bus.arg io ≢ null
        → client_at (bus.arg io) bus.g_clients ≡ some sender
        → find_client to bus.g_clients ≡ some peer
        → peer.io ≢ null
        → handle_msg memory (message_at raw) io bus ≡ done tt (io_write peer.io raw bus)
    pub received :
        (memory : Memory) (s : Peer)
        → IsPlenty memory
        → mbus_handle_msg memory true (message_at raw) s
          ≡ done tt (
              notify
                (record { cmd = 2; from = terminated from; to = terminated to; text = text })
                s)

  raw_of-Relayed : IsString to → Relayed raw_of
  raw_of-Relayed v =
      let fields = private_fields_of from to text in
      let bytes = encode_items (items_of fields) in
      record {
        packet = message_bytes-IsPacket 2000 bytes (
            omega
              (arith, length-encode_items fields, length-terminated from, length-terminated to));
        relayed = λ memory io bus sender peer m there found known on.
            rw (message_at-message_bytes (length bytes) 2000 bytes) (
              handle_msg-private memory (field_head 4 (terminated from))
                (field_head 5 (terminated to)) (field_head 6 text) raw_of io bus sender peer to m
                items-PlainTlvs refl refl refl (c_string-string to [] v) there found known on);
        received = mbus_handle_msg-private;
      }

  fields_fit : AreFields (private_fields_of from to text)
  fields_fit = (
    omega arith,
    omega (arith, length-terminated from),
    (omega arith, omega (arith, length-terminated to), (omega arith, omega arith, tt)),
  )

  -- For a connection, a sender, a receiver without a 0 byte and a text that is not empty, below
  -- 65000 bytes together, where no allocation fails, mbus_sendmsg_private returns 0 and passes
  -- one message to io_write. It is exactly one packet; the daemon, for a sender that is logged in
  -- and a receiver that is logged in with a connection, passes it unchanged to that connection
  -- only; and the callback of the receiving client gets the sender, the receiver and the text.
  pub mbus_sendmsg_private-Relayed :
      (memory : Memory) (io : Ptr) (s : Peer)
      → IsPlenty memory
      → io ≢ null
      → IsString to
      → (raw : List ℕ) × (mbus_sendmsg_private memory io
            (some from)
            (some to)
            (some text)
            (length text)
            s
          ≡ done (pos 0) (send_to io raw s))
        × Relayed raw
  unfolding mbus_sendmsg_private private_msg_new transmit
  mbus_sendmsg_private-Relayed memory io s m on v =
      let connected : (io == null) ≡ false = ground (arith, on) in
      let long : (length text == 0) ≡ false = ground (arith, some_text) in
      let made =
        compose-message_of memory 2000 (private_fields_of from to text) s m fields_fit
          (omega (arith, length-terminated from, length-terminated to)) in
      (raw_of, rw (connected, long, text_field-some 6 text some_text, made) refl, raw_of-Relayed v)
