-- ===== src/Agent.antt =====
-- agent/core.c and the bus handlers of agent/main.c: the interfaces of the device with their
-- neighbours, and the answers to the other processes. A list of the C code is a List here, from its
-- head on. The messages and frames that go out are logged.
pub mod Neighbours
pub mod Cmdu
pub mod Controller
pub mod Info
mod Tests
use easymesh.Prelude.{
  ℕ, zero, suc, List, [], ◌∷◌, ◌++◌, Bool, if◌then◌else◌, not, ltb, Option, none, some, ◌==◌, ◌-◌,
  ◌+◌, ◌*◌, length, take, get_or, true, false,
}
use easymesh.Prelude.Run.{done, fault, Cmd, pure, crash, modify}
use easymesh.Mbus.{Name, same_name}

-- nbr_1905dev and NetworkInterface, with the fields that the code below uses.
pub record Neighbour : Type 0 where
  pub al_addr : List ℕ
  pub sup_service : ℕ

pub record NetworkInterface : Type 0 where
  pub ifname : Name
  pub addr : List ℕ
  pub al_addr : List ℕ
  pub nbr_1905 : List Neighbour

-- A call of mbus_sendmsg_private.
pub record Post : Type 0 where
  pub sender : Name
  pub receiver : Name
  pub text : List ℕ

-- `frames` are the calls of if_send, with the name of the interface.
pub record Mesh : Type 0 where
  pub interfaces : List NetworkInterface
  pub frames : List (Name × List ℕ)
  pub posts : List Post

-- mesh_packet_t, with the fields that are read here.
pub record MeshPacket : Type 0 where
  pub to : ℕ
  pub ifname : Name
  pub packet : List ℕ

abbrev pub sup_service_controller : ℕ
sup_service_controller = 0

abbrev pub pkt_network : ℕ
pkt_network = 1

pub get_if_by_name : Name → List NetworkInterface → Option NetworkInterface
unfolding same_name
get_if_by_name ifname [] = none
get_if_by_name ifname (i ∷ is) =
    let rest = get_if_by_name ifname is in if same_name ifname i.ifname then some i else rest

pub add_1905_nbr : Neighbour → NetworkInterface → NetworkInterface
add_1905_nbr nbr i = record i { nbr_1905 = i.nbr_1905 ++ nbr ∷ [] }

-- memcmp of two addresses of six bytes is same_name of their bytes.
pub search_among : List ℕ → List Neighbour → Option Neighbour
unfolding same_name
search_among almac [] = none
search_among almac (d ∷ ds) =
    let rest = search_among almac ds in if same_name almac d.al_addr then some d else rest

-- `iterates` is whether malloc gives the iterator: without it the loop reads through NULL.
pub search_1905_nbr : Bool → List ℕ → Cmd NetworkInterface (Option Neighbour)
unfolding search_among
search_1905_nbr iterates almac i =
    if iterates then done (search_among almac i.nbr_1905) i else fault

-- The iterator is a node ahead, so that it goes on behind a node that is freed.
pub del_among : List ℕ → List Neighbour → List Neighbour
unfolding same_name
del_among almac [] = []
del_among almac (d ∷ ds) =
    let rest = del_among almac ds in if same_name almac d.al_addr then rest else d ∷ rest

pub del_1905_nbr : Bool → List ℕ → Cmd NetworkInterface (Unit {0})
unfolding del_among
del_1905_nbr iterates almac i =
    if iterates then done tt (record i { nbr_1905 = del_among almac i.nbr_1905 }) else fault

pub find_controller_interface : List Neighbour → Option Neighbour
find_controller_interface [] = none
find_controller_interface (d ∷ ds) =
    let rest = find_controller_interface ds in
    if d.sup_service == sup_service_controller then some d else rest

-- The interface is returned with the neighbour, in place of copies of its addresses and its name.
pub found_on :
    NetworkInterface
    → Option Neighbour
    → Option (NetworkInterface × Neighbour)
    → Option (NetworkInterface × Neighbour)
found_on i none rest = rest
found_on i (some d) rest = some (i, d)

pub find_controller : List NetworkInterface → Option (NetworkInterface × Neighbour)
unfolding find_controller_interface found_on
find_controller [] = none
find_controller (i ∷ is) = found_on i (find_controller_interface i.nbr_1905) (find_controller is)

pub forwarded : List ℕ → Option NetworkInterface → Mesh → Mesh
forwarded bytes none s = s
forwarded bytes (some i) s = record s { frames = s.frames ++ (i.ifname, bytes) ∷ [] }

pub forward_cmdu_to_interface : MeshPacket → Mesh → Mesh
unfolding get_if_by_name forwarded
forward_cmdu_to_interface pkt s = forwarded pkt.packet (get_if_by_name pkt.ifname s.interfaces) s

pub forward_cmdu : MeshPacket → Mesh → Mesh
unfolding forward_cmdu_to_interface
forward_cmdu pkt s = if pkt.to == pkt_network then forward_cmdu_to_interface pkt s else s

-- "umesh" and "gmesh".
abbrev pub g_mesh_user_name : Name
g_mesh_user_name = 117 ∷ 109 ∷ 101 ∷ 115 ∷ 104 ∷ []

abbrev pub g_mesh_group_name : Name
g_mesh_group_name = 103 ∷ 109 ∷ 101 ∷ 115 ∷ 104 ∷ []

pub _mesh_handle_group_msg : Name → MeshPacket → Mesh → Mesh
unfolding same_name forward_cmdu
_mesh_handle_group_msg to pkt s = if same_name to g_mesh_group_name then forward_cmdu pkt s else s

abbrev pub zeros : ℕ → List ℕ
zeros zero = []
zeros (suc n) = 0 ∷ zeros n

-- strncpy of at most 15 bytes into 16 that are 0.
pub ifname_field : Name → List ℕ
ifname_field name = take 15 name ++ zeros (16 - length (take 15 name))

-- The message of the answer: its id, and a controller_info_t.
pub controller_info : NetworkInterface → Neighbour → List ℕ
unfolding ifname_field
controller_info i d = 1 ∷ 0 ∷ (d.al_addr ++ (i.al_addr ++ (i.addr ++ ifname_field i.ifname)))

pub answer : Name → Name → Option (NetworkInterface × Neighbour) → Mesh → Mesh
unfolding controller_info
answer from to none s = s
answer from to (some (i, d)) s = record s {
  posts = s.posts ++ record { sender = to; receiver = from; text = controller_info i d } ∷ [];
}

pub _mesh_handle_private_msg : Name → Name → List ℕ → Cmd Mesh (Unit {0})
unfolding same_name find_controller answer
_mesh_handle_private_msg from to message =
    if not (same_name to g_mesh_user_name)
    then pure tt
    else if ltb (length message) 2
    then crash
    else if get_or message 0 0 + 256 * get_or message 1 0 == 0
    then modify (λ s. answer from to (find_controller s.interfaces) s)
    else pure tt
