-- ===== src/Mbus/BusMsg.antt =====
-- mbus/bus_msg.c: the client side of the bus. A message is built from its fields, printed with
-- Tlv.Print and passed to io_write, whose calls are logged in `outbox`; the callback msg_cb logs what
-- it is given in `notices`. Strings carry their 0 where the code counts it.
pub mod Message
pub mod Compose
pub mod Login
pub mod Private
mod Tests
use easymesh.Reactor.{
  World, put_io, readable, eloop_set_event, eloop_add_event, io_add_packer, eloop_setcb_read,
}
use easymesh.Prelude.{
  ℕ, List, [], ◌∷◌, ◌++◌, Bool, if◌then◌else◌, leb, Option, none, some, ◌==◌, ◌+◌, ◌*◌, ◌/◌, ◌%◌,
  drop, get_or, length, zero, suc, ◌&&◌, ◌||◌, not, take,
}
use easymesh.Prelude.Int.{ℤ, pos, minus_one}
use easymesh.Prelude.Run.{
  Ptr, null, Run, Cmd, pure, crash, modify, done, fault, out_of_fuel, ◌>>=◌, and_then, ◌>>◌,
}
use easymesh.Mbus.{Name}
use easymesh.Mbus.Daemon.{Msg, field}
use easymesh.Tlv.{Item, u16, create_object, add_tlv_to_object, object_length}
use easymesh.Tlv.Print.{print}
use easymesh.Tlv.Parse.{parse_object}

-- One call of msg_cb: the command, the two names (empty for NULL), and the data with its length.
pub record Notice : Type 0 where
  pub cmd : ℕ
  pub from : List ℕ
  pub to : List ℕ
  pub text : List ℕ

pub record Peer : Type 0 where
  pub outbox : List (Ptr × List ℕ)
  pub notices : List Notice

-- The answers of malloc and realloc while a message is built, `item` for each TLV in turn, and
-- while one is parsed.
pub record Memory : Type 0 where
  pub root : Bool
  pub item : ℕ → Bool
  pub buffer : Bool
  pub grown : ℕ → Bool
  pub junk : ℕ → ℕ
  pub message : Bool
  pub parsed : Bool
  pub parsed_item : ℕ → Bool

-- The bytes of a msg_t with that body: everything but length and command is 0.
abbrev pub message_bytes : ℕ → ℕ → List ℕ → List ℕ
message_bytes n command body =
    n % 256
    ∷ n / 256 % 256
    ∷ n / 65536 % 256
    ∷ n / 16777216
    ∷ 0
    ∷ 0
    ∷ 0
    ∷ 0
    ∷ 0
    ∷ 0
    ∷ command % 256
    ∷ command / 256
    ∷ 0
    ∷ 0
    ∷ 0
    ∷ 0
    ∷ body

-- The msg_t that lies at some bytes.
abbrev pub message_at : List ℕ → Msg
message_at raw = record {
  length =
      get_or raw 0 0 + 256 * get_or raw 1 0 + 65536 * get_or raw 2 0 + 16777216 * get_or raw 3 0;
  command_id = get_or raw 10 0 + 256 * get_or raw 11 0;
  body = drop 16 raw;
  raw = raw;
}

-- The outcome of a call that has a store of its own.
abbrev pub aside : {S T A : Type 0} → Run S A → Cmd T A
aside (done r _) s = done r s
aside fault s = fault
aside out_of_fuel s = out_of_fuel

-- A TLV that could not be added is left out: the result is not looked at.
abbrev pub kept : Item → Option Item → Item
kept root none = root
kept root (some joined) = joined

-- A field: its type, and its value with its length.
pub add_fields : Memory → ℕ → Item → List (ℕ × List ℕ) → Run (Unit {0}) Item
add_fields memory k root [] = done root tt
add_fields memory k root ((type, value) ∷ fs) =
    and_then (add_tlv_to_object (memory.item k) root [] type (u16 (length value)) value 2)
      λ made _. add_fields memory (k + 1) (kept root made) fs

abbrev pub first_bytes : (ℕ → ℕ) → ℕ → ℕ → List ℕ
first_bytes f i zero = []
first_bytes f i (suc n) = f i ∷ first_bytes f (i + 1) n

-- From the printed tree to the message; the copy reads `tlv_len` bytes of the buffer.
pub pack_message : Memory → ℕ → Item → Option (ℕ × (ℕ → ℕ)) → Cmd Peer (Option (List ℕ))
pack_message memory command root none = pure none
pack_message memory command root (some (n, bytes)) =
    let len = object_length root in
    if not memory.message
    then pure none
    else if leb len (n + 1)
    then pure (some (message_bytes len command (first_bytes bytes 0 len)))
    else crash

pub message_of_root : Memory → ℕ → List (ℕ × List ℕ) → Option Item → Cmd Peer (Option (List ℕ))
unfolding add_fields pack_message
message_of_root memory command fields none = pure none
message_of_root memory command fields (some root) = do
  full ← aside (add_fields memory 0 root fields)
  printed ← aside (print memory.buffer memory.grown memory.junk full)
  pack_message memory command full printed

-- What all the functions below do to make a message: none where an allocation fails.
pub compose : Memory → ℕ → List (ℕ × List ℕ) → Cmd Peer (Option (List ℕ))
unfolding message_of_root
compose memory command fields = message_of_root memory command fields (create_object memory.root 2)

abbrev pub send_to : Ptr → List ℕ → Peer → Peer
send_to io raw s = record s { outbox = s.outbox ++ (io, raw) ∷ [] }

-- The end of the calls that ask the daemon for something.
pub post : Ptr → Option (List ℕ) → Cmd Peer ℤ
post io none = pure minus_one
post io (some raw) = do modify (send_to io raw); pure (pos 0)

-- A message with one name; `username` is none for NULL.
pub send_name : Memory → ℕ → ℕ → Ptr → Option Name → Cmd Peer ℤ
unfolding compose post
send_name memory command type io none = pure minus_one
send_name memory command type io (some []) = pure minus_one
send_name memory command type io (some (b ∷ bs)) =
    let send : Cmd Peer ℤ = do
      raw ← compose memory command ((type, (b ∷ bs) ++ 0 ∷ []) ∷ [])
      post io raw
    in if io == null then pure minus_one else send

pub mbus_register_object : Memory → Ptr → Option Name → Cmd Peer ℤ
unfolding send_name
mbus_register_object memory io username = send_name memory 259 7 io username

pub mbus_create_group : Memory → Ptr → Option Name → Cmd Peer ℤ
unfolding send_name
mbus_create_group memory io groupname = send_name memory 1026 8 io groupname

pub mbus_join_group : Memory → Ptr → Option Name → Cmd Peer ℤ
unfolding send_name
mbus_join_group memory io groupname = send_name memory 1027 9 io groupname

-- The text is left out where it is NULL; `text` holds `len` bytes.
abbrev pub text_field : ℕ → Option (List ℕ) → List (ℕ × List ℕ)
text_field type none = []
text_field type (some []) = []
text_field type (some (b ∷ bs)) = (type, b ∷ bs) ∷ []

pub group_msg_new : Memory → ℕ → Name → Name → Option (List ℕ) → Cmd Peer (Option (List ℕ))
unfolding compose
group_msg_new memory command my_name groupname text =
    compose memory command ((1, my_name ++ 0 ∷ []) ∷ (2, groupname ++ 0 ∷ []) ∷ text_field 3 text)

pub private_msg_new : Memory → ℕ → Name → Name → Option (List ℕ) → Cmd Peer (Option (List ℕ))
unfolding compose
private_msg_new memory command my_name peer_name text =
    compose memory command ((4, my_name ++ 0 ∷ []) ∷ (5, peer_name ++ 0 ∷ []) ∷ text_field 6 text)

-- The command is stored into the message before the test whether there is one.
pub transmit : Ptr → Option (List ℕ) → Cmd Peer ℤ
transmit io none = crash
transmit io (some raw) = do modify (send_to io raw); pure (pos 0)

-- `len` is the length that the caller gives, not above 0 where there is nothing to send.
pub mbus_sendmsg_in_group :
    Memory → Ptr → Option Name → Option Name → Option (List ℕ) → ℕ → Cmd Peer ℤ
unfolding group_msg_new transmit
mbus_sendmsg_in_group memory io (some my_name) (some groupname) text len =
    let send : Cmd Peer ℤ = do
      raw ← group_msg_new memory 1029 my_name groupname text
      transmit io raw
    in if io == null || len == 0 then pure minus_one else send
mbus_sendmsg_in_group memory io _ _ text len = pure minus_one

pub mbus_sendmsg_private :
    Memory → Ptr → Option Name → Option Name → Option (List ℕ) → ℕ → Cmd Peer ℤ
unfolding private_msg_new transmit
mbus_sendmsg_private memory io (some my_name) (some peer_name) text len =
    let send : Cmd Peer ℤ = do
      raw ← private_msg_new memory 2000 my_name peer_name text
      transmit io raw
    in if io == null || len == 0 then pure minus_one else send
mbus_sendmsg_private memory io _ _ text len = pure minus_one

abbrev pub notify : Notice → Peer → Peer
notify n s = record s { notices = s.notices ++ n ∷ [] }

-- The callback where the message has all three parts.
pub notify_parts : ℕ → Option (List ℕ) → Option (List ℕ) → Option (List ℕ) → Cmd Peer (Unit {0})
notify_parts cmd (some from) (some to) (some text) =
    modify (notify (record { cmd = cmd; from = from; to = to; text = text }))
notify_parts cmd _ _ _ = pure tt

pub mbus_handle_heartbeat : Msg → Cmd Peer (Unit {0})
mbus_handle_heartbeat msg =
    modify (notify (record { cmd = 1; from = []; to = []; text = take msg.length msg.body }))

pub mbus_handle_group_msg : Memory → Msg → Cmd Peer (Unit {0})
unfolding notify_parts
mbus_handle_group_msg memory msg = do
  root ← aside (parse_object memory.parsed memory.parsed_item msg.body msg.length 2)
  notify_parts 3 (field root 1) (field root 2) (field root 3)

pub mbus_handle_private_msg : Memory → Msg → Cmd Peer (Unit {0})
unfolding notify_parts
mbus_handle_private_msg memory msg = do
  root ← aside (parse_object memory.parsed memory.parsed_item msg.body msg.length 2)
  notify_parts 2 (field root 4) (field root 5) (field root 6)

-- `ready` says whether there is an mbus_t with a callback.
pub mbus_handle_msg : Memory → Bool → Msg → Cmd Peer (Unit {0})
unfolding mbus_handle_heartbeat mbus_handle_group_msg mbus_handle_private_msg
mbus_handle_msg memory ready msg =
    if not ready
    then pure tt
    else if msg.command_id == 1793
    then mbus_handle_heartbeat msg
    else if msg.command_id == 1029
    then mbus_handle_group_msg memory msg
    else if msg.command_id == 2000
    then mbus_handle_private_msg memory msg
    else pure tt

-- The connection of a client; `callback` is the address of mbus_handle_read. What mbus_t itself
-- holds is what it is given.
pub mbus_io_init : {A : Type 0} → Bool → (ℕ → ℕ) → Ptr → Ptr → ℕ → Ptr → Ptr → World A → World A
mbus_io_init allocated fresh mbus io fd arg callback w =
    let opened = eloop_setcb_read io callback (
      io_add_packer io 16 0
        (eloop_add_event io readable (eloop_set_event allocated fresh io fd arg w))) in
    put_io io (record (opened.ios io) { arg = mbus }) opened
