-- ===== src/Mbus/Daemon.antt =====
-- mbus/mbusd.c: the handlers of the daemon. A message has been framed already; `memory` gives the
-- answers of malloc, `iterator` whether it gives every iterator that a handler asks for. A name in a message that has no 0 at its end is read past it: a fault.
pub mod Sessions
pub mod Forward
pub mod Requests
use easymesh.Prelude.{
  ℕ, List, update, Option, ◌==◌, none, some, if◌then◌else◌, Bool, ◌++◌, [], ◌∷◌, map,
}
use easymesh.Prelude.Int.{pos}
use easymesh.Prelude.Run.{
  Ptr, null, Run, Cmd, pure, crash, modify, done, fault, out_of_fuel, ◌>>=◌, ◌>>◌, and_then,
}
use easymesh.Mbus.{Name, Client, Group, Bus, same_name, c_string}
use easymesh.Mbus.UserManager.{user_create, user_get_by_name, user_delete}
use easymesh.Mbus.GroupManager.{
  group_create, search_group, join_group, leave_group_by_name, leave_all_group,
  foreach_group_member,
}
use easymesh.Tlv.{head, node, Item, get_object_item}
use easymesh.Tlv.Parse.{parse_object}

-- msg_t: `raw` is the whole message, `body` what follows its head.
pub record Msg : Type 0 where
  pub length : ℕ
  pub command_id : ℕ
  pub body : List ℕ
  pub raw : List ℕ

pub record Memory : Type 0 where
  pub root : Bool
  pub item : ℕ → Bool
  pub client : Ptr
  pub group : Bool
  pub node : Bool
  pub iterator : Bool

-- The outcome of a call that leaves the tables alone.
pub beside : {A : Type 0} → Run (Unit {0}) A → Cmd Bus A
beside (done r _) s = done r s
beside fault s = fault
beside out_of_fuel s = out_of_fuel

-- `Kami_Tlv_ParseObject(msg->body, msg->length, MBUS_TYPE_LEN)`.
pub parse_body : Memory → Msg → Cmd Bus (Option Item)
unfolding beside
parse_body memory msg = beside (parse_object memory.root memory.item msg.body msg.length 2)

pub value_of : Option Item → Option (List ℕ)
value_of none = none
value_of (some i) = some (head i).value

-- The value of the first item of a type; none where there is no item.
pub field : Option Item → ℕ → Option (List ℕ)
unfolding value_of
field none type = none
field (some root) type = value_of (get_object_item root type (pos 0))

pub with_string : Option Name → (Name → Cmd Bus (Unit {0})) → Cmd Bus (Unit {0})
with_string none k = crash
with_string (some name) k = k name

-- A value that the code uses as a string.
pub use_name : List ℕ → (Name → Cmd Bus (Unit {0})) → Cmd Bus (Unit {0})
unfolding c_string with_string
use_name value k = with_string (c_string value) k

-- A field that the code uses as a string if it is there.
pub use_field : Option (List ℕ) → (Name → Cmd Bus (Unit {0})) → Cmd Bus (Unit {0})
unfolding use_name
use_field none k = pure tt
use_field (some value) k = use_name value k

pub io_write : Ptr → List ℕ → Bus → Bus
io_write io bytes s = record s { outbox = s.outbox ++ (io, bytes) ∷ [] }

pub handle_heartbeat : Msg → Ptr → Cmd Bus (Unit {0})
unfolding io_write
handle_heartbeat msg io = modify (io_write io msg.raw)

-- `io->arg = cli; cli->io = io`.
pub set_io : Ptr → Ptr → List Client → List Client
set_io cli io [] = []
set_io cli io (c ∷ cs) = (if c.self == cli then record c { io = io } else c) ∷ set_io cli io cs

pub attach : Ptr → Ptr → Bus → Bus
unfolding set_io
attach cli io s = record s { g_clients = set_io cli io s.g_clients; arg = update s.arg io cli }

-- The login once the name has been looked up.
pub login_found : Memory → Ptr → Name → Option Client → Cmd Bus (Unit {0})
unfolding user_create attach
login_found memory io name (some _) s = done tt s
login_found memory io name none s =
    let created = user_create memory.client name s in
    if created.0 == null then done tt created.1 else done tt (attach created.0 io created.1)

pub login : Memory → Ptr → Name → Cmd Bus (Unit {0})
unfolding user_get_by_name login_found
login memory io name = user_get_by_name memory.iterator name >>= login_found memory io name

pub handle_login_request : Memory → Msg → Ptr → Cmd Bus (Unit {0})
unfolding parse_body field use_field login
handle_login_request memory msg io = do
  root ← parse_body memory msg
  use_field (field root 7) (login memory io)

pub create_found : Memory → Name → Option Group → Cmd Bus (Unit {0})
unfolding group_create
create_found memory name (some _) s = done tt s
create_found memory name none s = done tt (group_create memory.group name s).1

pub create_group : Memory → Name → Cmd Bus (Unit {0})
unfolding search_group create_found
create_group memory name = search_group memory.iterator name >>= create_found memory name

pub handle_create_group : Memory → Msg → Cmd Bus (Unit {0})
unfolding parse_body field use_field create_group
handle_create_group memory msg = do
  root ← parse_body memory msg
  use_field (field root 8) (create_group memory)

-- The client at an address; reading freed memory is a fault.
unfoldable pub client_at : Ptr → List Client → Option Client
client_at p [] = none
client_at p (c ∷ cs) = let rest = client_at p cs in if c.self == p then some c else rest

-- What the handlers do with `io->arg`: nothing where it is NULL.
pub with_client : Ptr → (Client → Cmd Bus (Unit {0})) → Cmd Bus (Unit {0})
unfolding client_at
with_client io k s =
    let run : Run Bus (Unit {0}) = elim (client_at (s.arg io) s.g_clients) [
      | none ↦ fault
      | some c ↦ k c s
    ] in
    if s.arg io == null then done tt s else run

pub join_named : Memory → Client → Name → Option Group → Cmd Bus (Unit {0})
unfolding join_group
join_named memory c name none = pure tt
join_named memory c name (some _) =
    join_group memory.iterator memory.node (some c.name) (some name) >> pure tt

pub join : Memory → Client → Name → Cmd Bus (Unit {0})
unfolding search_group join_named
join memory c name = search_group memory.iterator name >>= join_named memory c name

pub handle_join_group : Memory → Msg → Ptr → Cmd Bus (Unit {0})
unfolding with_client parse_body field use_field join
handle_join_group memory msg io =
    with_client io λ c. do root ← parse_body memory msg; use_field (field root 9) (join memory c)

pub handle_leave_group : Memory → Msg → Ptr → Cmd Bus (Unit {0})
unfolding with_client use_name leave_group_by_name
handle_leave_group memory msg io = with_client io λ c.
    use_name msg.body
      λ name. leave_group_by_name memory.iterator (some c.name) (some name) >> pure tt

pub send_data_to_user : Client → List ℕ → Bus → Bus
unfolding io_write
send_data_to_user c bytes s = if c.io == null then s else io_write c.io bytes s

-- To a client, if the lookup has found one.
pub deliver_to : List ℕ → Option Client → Cmd Bus (Unit {0})
unfolding send_data_to_user
deliver_to bytes none s = done tt s
deliver_to bytes (some peer) s = done tt (send_data_to_user peer bytes s)

pub group_cb : Bool → Name → List ℕ → Name → Cmd Bus (Unit {0})
unfolding same_name user_get_by_name deliver_to
group_cb iterates from bytes username s =
    if same_name username from
    then done tt s
    else and_then (user_get_by_name iterates username s) (deliver_to bytes)

pub forward_msg_in_group : Bool → Group → Name → List ℕ → Cmd Bus (Unit {0})
unfolding foreach_group_member group_cb
forward_msg_in_group iterates g from bytes =
    foreach_group_member iterates g.group_name (group_cb iterates from bytes)

pub forward_found : Bool → Msg → Client → Option Group → Cmd Bus (Unit {0})
unfolding forward_msg_in_group
forward_found iterates msg c none = pure tt
forward_found iterates msg c (some g) = forward_msg_in_group iterates g c.name msg.raw

-- An empty group name is given up on.
pub forward : Bool → Msg → Client → Name → Cmd Bus (Unit {0})
unfolding search_group forward_found
forward iterates msg c [] = pure tt
forward iterates msg c (b ∷ bs) = search_group iterates (b ∷ bs) >>= forward_found iterates msg c

-- The text of the message is printed as a string as well.
pub handle_group_msg : Memory → Msg → Ptr → Cmd Bus (Unit {0})
unfolding with_client parse_body field use_name forward
handle_group_msg memory msg io = with_client io λ c. do
  root ← parse_body memory msg
  elim (field root 1) [
    | none ↦ pure tt
    | some _ ↦ elim (field root 3) [
      | none ↦ pure tt
      | some text ↦ elim (field root 2) [
        | none ↦ pure tt
        | some name ↦ use_name text λ _. use_name name (forward memory.iterator msg c)
      ]
    ]
  ]

pub deliver : Bool → Msg → Name → Cmd Bus (Unit {0})
unfolding user_get_by_name deliver_to
deliver iterates msg name = user_get_by_name iterates name >>= deliver_to msg.raw

-- Sender, receiver and text of a private message. The code tests the sender twice and reads the
-- receiver without a test whether the message has one.
pub private_fields :
    Bool → Msg → Option (List ℕ) → Option (List ℕ) → Option (List ℕ) → Cmd Bus (Unit {0})
unfolding use_name deliver
private_fields iterates msg none receiver text = pure tt
private_fields iterates msg (some _) receiver none = pure tt
private_fields iterates msg (some _) none (some _) = crash
private_fields iterates msg (some _) (some value) (some _) = use_name value (deliver iterates msg)

pub handle_private_msg : Memory → Msg → Ptr → Cmd Bus (Unit {0})
unfolding with_client parse_body private_fields
handle_private_msg memory msg io = with_client io λ c. do
  root ← parse_body memory msg
  private_fields memory.iterator msg (field root 4) (field root 5) (field root 6)

pub handle_msg : Memory → Msg → Ptr → Cmd Bus (Unit {0})
unfolding handle_heartbeat handle_login_request handle_create_group handle_join_group
    handle_leave_group handle_group_msg handle_private_msg
handle_msg memory msg io =
    if msg.command_id == 1793
    then handle_heartbeat msg io
    else if msg.command_id == 259
    then handle_login_request memory msg io
    else if msg.command_id == 1026
    then handle_create_group memory msg
    else if msg.command_id == 1027
    then handle_join_group memory msg io
    else if msg.command_id == 1028
    then handle_leave_group memory msg io
    else if msg.command_id == 1029
    then handle_group_msg memory msg io
    else if msg.command_id == 2000
    then handle_private_msg memory msg io
    else pure tt

pub handle_close : Bool → Ptr → Cmd Bus (Unit {0})
unfolding with_client leave_all_group user_delete
handle_close iterates io =
    with_client io
      λ c. do _ ← leave_all_group iterates c.name; _ ← user_delete iterates c.name; pure tt
