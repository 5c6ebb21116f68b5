-- ===== src/Mbus/BusMsg/Message.antt =====
-- mbus/bus_msg.c: the bytes of a message and what the receiver's event loop makes of them.
use easymesh.Prelude.{
  ℕ, ◌∷◌, List, arith, ◌*◌, length, some, ◌%◌, ◌+◌, [], ◌≡◌, ◌/◌, ◌++◌, zero, suc, refl, ◌<◌,
}
use easymesh.Reactor.{Pack}
use easymesh.Reactor.Read.Frames.{IsPacket}
use easymesh.Mbus.BusMsg.{message_bytes, message_at}
use easymesh.Mbus.{Name, c_string}

-- `io_add_packer(io, sizeof(msg_t), 0)`.
abbrev pub msg_pack : Pack
msg_pack = record { nheader = 16; len_offset = 0 }

word_of :
    (n : ℕ)
    → n % 256 + 256 * (n / 256 % 256) + 65536 * (n / 65536 % 256) + 16777216 * (n / 16777216) ≡ n
word_of n = omega arith

-- A message is one packet of the stream.
pub message_bytes-IsPacket :
    (command : ℕ) (body : List ℕ)
    → length body < 65536
    → IsPacket msg_pack (message_bytes (length body) command body)
message_bytes-IsPacket command body small = record {
  whole = omega (arith, word_of (length body));
  small = omega arith;
}

-- What is read back from it.
pub message_at-message_bytes :
    (n command : ℕ) (body : List ℕ)
    → message_at (message_bytes n command body)
      ≡ record { length = n; command_id = command; body = body; raw = message_bytes n command body }
message_at-message_bytes n command body =
    let size = word_of n in
    let cmd : command % 256 + 256 * (command / 256) ≡ command = omega arith in rw (size, cmd) refl

-- Bytes that a C string can hold.
abbrev pub IsString : Name → Type 0
IsString [] = Unit
IsString (b ∷ bs) = (0 < b) × IsString bs

pub c_string-string : (s : Name) (after : List ℕ) → IsString s → c_string (s ++ 0 ∷ after) ≡ some s
unfolding c_string
c_string-string [] after v = refl
c_string-string (zero ∷ bs) after v = absurd (omega (arith, v.0))
c_string-string (suc b ∷ bs) after v = rw (c_string-string bs after v.1) refl
