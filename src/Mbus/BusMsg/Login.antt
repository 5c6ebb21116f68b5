-- ===== src/Mbus/BusMsg/Login.antt =====
-- mbus/bus_msg.c and mbusd.c: from mbus_register_object to the table of the daemon.
use easymesh.Prelude.{
  ℕ, List, length, ◌<◌, length-append, false, [], ◌≡◌, ◌==◌, some, ◌≢◌, arith, refl, inr, ◌++◌, ◌+◌,
  ◌∷◌,
}
use easymesh.Prelude.Run.{Ptr, null, done}
use easymesh.Prelude.Int.{pos}
use easymesh.Mbus.{Name, Bus}
use easymesh.Mbus.BusMsg.{Peer, Memory, send_to, post, send_name, mbus_register_object, message_at}
use easymesh.Mbus.BusMsg.Message.{
  msg_pack, message_bytes-IsPacket, message_at-message_bytes, IsString, c_string-string,
}
use easymesh.Mbus.BusMsg.Compose.{
  IsPlenty, items_of, message_of, compose-message_of, length-encode_items,
}
use easymesh.Mbus.Daemon
use easymesh.Mbus.Daemon.Requests
use easymesh.Mbus.Daemon.{handle_msg, login}
use easymesh.Mbus.Daemon.Requests.{handle_msg-login}
use easymesh.Reactor.Read.Frames.{IsPacket}
use easymesh.Tlv.Encode.{encode_items}
use easymesh.Tlv.Parse.Roundtrip.{PlainTlv, PlainTlvs}
use easymesh.Tlv.Fields.{field_head}

pub field_head-PlainTlv :
    (type : ℕ) (value : List ℕ)
    → type < 65536
    → length value < 65536
    → PlainTlv 2 (field_head type value)
field_head-PlainTlv type value t l = record {
  plain = record { width = refl; type = inr (refl, t); length_fits = l };
  kind = refl;
  value_fits = refl;
}

-- A string with its 0.
abbrev pub terminated : Name → List ℕ
terminated name = name ++ 0 ∷ []

pub length-terminated : (name : Name) → length (terminated name) ≡ length name + 1
length-terminated name = length-append name (0 ∷ [])

-- The message is one packet, and what the daemon does with it.
pub record LogsIn (name : Name) (raw : List ℕ) : Type 0 where
  pub packet : IsPacket msg_pack raw
  pub logs_in :
      (memory : Daemon.Memory) (io : Ptr) (bus : Bus)
      → Requests.IsPlenty memory
      → handle_msg memory (message_at raw) io bus ≡ login memory io name bus

message_of-LogsIn :
    (name : Name)
    → length name < 65000
    → IsString name
    → LogsIn name (message_of 259 ((7, terminated name) ∷ []))
unfolding PlainTlvs
message_of-LogsIn name short v =
    let fields : List (ℕ × List ℕ) = (7, terminated name) ∷ [] in
    let size = length-terminated name in
    let bytes = encode_items (items_of fields) in
    record {
      packet = message_bytes-IsPacket 259 bytes (omega (arith, length-encode_items fields, size));
      logs_in = λ memory io bus m. rw (message_at-message_bytes (length bytes) 259 bytes) (
          handle_msg-login memory (field_head 7 (terminated name)) (message_of 259 fields) io name
            bus m refl
            (
              field_head-PlainTlv 7 (terminated name) (omega arith) (omega (arith, size)),
              omega (arith, size),
            )
            (c_string-string name [] v));
    }

-- For a connection and a name of 1 to 64999 bytes without a 0, where no allocation fails,
-- mbus_register_object returns 0 and passes one message to io_write. The message is exactly one
-- packet for the framing of the bus, and handle_msg of the daemon on it, where the daemon's
-- parser can allocate, is the login of exactly that name.
pub mbus_register_object-login :
    (memory : Memory) (io : Ptr) (name : Name) (s : Peer)
    → IsPlenty memory
    → io ≢ null
    → name ≢ []
    → length name < 65000
    → IsString name
    → (raw : List ℕ) × (mbus_register_object memory io (some name) s
        ≡ done (pos 0) (send_to io raw s))
      × LogsIn name raw
unfolding mbus_register_object send_name post
mbus_register_object-login memory io [] s m on some_name short v = absurd (some_name refl)
mbus_register_object-login memory io (b ∷ bs) s m on some_name short v =
    let name = b ∷ bs in
    let fields : List (ℕ × List ℕ) = (7, terminated name) ∷ [] in
    let size = length-terminated name in
    let connected : (io == null) ≡ false = ground (arith, on) in
    let made =
      compose-message_of memory 259 fields s m (omega arith, omega (arith, size), tt)
        (omega (arith, size)) in
    (message_of 259 fields, rw (connected, made) refl, message_of-LogsIn name short v)
