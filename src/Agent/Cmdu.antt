-- ===== src/Agent/Cmdu.antt =====
-- agent/cmdu.c: what the agent does with a message of the network. A message is in a buffer of
-- zeros that is longer than a header, so that bytes which were not received read as 0. What goes out
-- of TLVs is logged as a header and the TLVs in place of the bytes that Kami_Tlv_Print makes.
pub mod Known
use easymesh.Prelude.{
  ℕ, zero, suc, List, [], ◌∷◌, ◌++◌, Bool, if◌then◌else◌, Option, none, some, ◌==◌, ◌+◌, ◌*◌, ◌/◌,
  ◌%◌, get_or,
}
use easymesh.Prelude.Run.{Run, Cmd, done, fault, out_of_fuel, and_then, modify}
use easymesh.Mbus.{same_name}
use easymesh.Agent.{
  NetworkInterface, Neighbour, search_1905_nbr, add_1905_nbr, sup_service_controller,
}

-- A call of if_send.
pub data Frame : Type 0 where
  bytes : List ℕ → Frame
  fields : List ℕ → List (ℕ × List ℕ) → Frame

pub record Wire : Type 0 where
  pub interface : NetworkInterface
  pub sent : List Frame

abbrev pub msg_topology_discovery : ℕ
msg_topology_discovery = 0

abbrev pub msg_topology_query : ℕ
msg_topology_query = 2

abbrev pub msg_topology_response : ℕ
msg_topology_response = 3

abbrev pub msg_ap_capability_query : ℕ
msg_ap_capability_query = 32769

abbrev pub msg_ap_capability_report : ℕ
msg_ap_capability_report = 32770

-- `n` bytes of a message.
abbrev pub bytes_of : List ℕ → ℕ → ℕ → List ℕ
bytes_of raw i zero = []
bytes_of raw i (suc n) = get_or raw i 0 ∷ bytes_of raw (i + 1) n

abbrev pub type_of : List ℕ → ℕ
type_of raw = 256 * get_or raw 16 0 + get_or raw 17 0

abbrev pub source_of : List ℕ → List ℕ
source_of raw = bytes_of raw 6 6

-- The id is stored as it was read.
abbrev pub id_of : List ℕ → List ℕ
id_of raw = bytes_of raw 18 2

-- cmdu_raw_msg up to its TLVs, with protocol 0x893a and the flag of the last fragment.
pub header : List ℕ → List ℕ → ℕ → List ℕ → List ℕ
header dest source type id =
    dest ++ (source ++ (137 ∷ 58 ∷ 0 ∷ 0 ∷ type / 256 ∷ type % 256 ∷ (id ++ 0 ∷ 128 ∷ [])))

abbrev pub emit : Frame → Wire → Wire
emit f w = record w { sent = w.sent ++ f ∷ [] }

pub send_topology_query : List ℕ → List ℕ → Wire → Wire
unfolding header
send_topology_query dest id w =
    emit (bytes (header dest w.interface.addr msg_topology_query id ++ 0 ∷ 0 ∷ 0 ∷ [])) w

pub send_topology_discovery : Wire → Wire
unfolding header
send_topology_discovery w =
    emit
      (fields
        (header (1 ∷ 128 ∷ 194 ∷ 0 ∷ 0 ∷ 19 ∷ []) w.interface.al_addr msg_topology_discovery
          (0 ∷ 0 ∷ []))
        ((1, w.interface.al_addr)
          ∷ (2, w.interface.addr)
          ∷ (11, 0 ∷ 12 ∷ 231 ∷ 255 ∷ 0 ∷ 12 ∷ 231 ∷ 0 ∷ [])
          ∷ (0, [])
          ∷ []))
      w

-- The loop over the neighbours writes each over the one before.
pub last_neighbour : List ℕ → List Neighbour → List ℕ
last_neighbour addr [] = addr
last_neighbour addr (d ∷ ds) = last_neighbour d.al_addr ds

pub topology_response : List ℕ → List ℕ → Wire → Wire
unfolding header last_neighbour
topology_response dest id w =
    let i = w.interface in
    emit
      (fields (header dest i.al_addr msg_topology_response id) (
        (3, i.al_addr ++ (1 ∷ (i.addr ++ 0 ∷ 0 ∷ 0 ∷ [])))
        ∷ (4, 1 ∷ 1 ∷ i.addr)
        ∷ (7, i.addr ++ (last_neighbour (0 ∷ 0 ∷ 0 ∷ 0 ∷ 0 ∷ 0 ∷ []) i.nbr_1905 ++ 128 ∷ []))
        ∷ (128, 1 ∷ 1 ∷ [])
        ∷ (0, [])
        ∷ []))
      w

-- `iterates` is whether malloc gives the iterator over the neighbours.
pub send_topology_response : Bool → List ℕ → List ℕ → Cmd Wire (Unit {0})
unfolding topology_response
send_topology_response iterates dest id w =
    if iterates then done tt (topology_response dest id w) else fault

-- The new neighbour, and a question to it; `allocated` is the answer of malloc.

pub discovered : Bool → List ℕ → List ℕ → Option Neighbour → Wire → Wire
unfolding add_1905_nbr send_topology_query
discovered allocated source id (some d) w = w
discovered allocated source id none w =
    if allocated
    then send_topology_query source id (record w {
      interface =
          add_1905_nbr (record { al_addr = source; sup_service = sup_service_controller })
            w.interface;
    })
    else w

-- The body of the report of the capabilities.
abbrev pub capa : List ℕ
capa =
    161 ∷ 0 ∷ 1 ∷ 128 ∷ 133 ∷ 0 ∷ 32 ∷ 0 ∷ 0 ∷ 0 ∷ 0 ∷ 1 ∷ 1 ∷ 1 ∷ 8 ∷ 115 ∷ 0 ∷ 0 ∷ 116 ∷ 0 ∷ 0
    ∷ 118 ∷ 0 ∷ 0 ∷ 119 ∷ 0 ∷ 0 ∷ 125 ∷ 0 ∷ 0 ∷ 126 ∷ 0 ∷ 0 ∷ 128 ∷ 0 ∷ 0 ∷ 129 ∷ 0 ∷ 0 ∷ 133 ∷ 0
    ∷ 17 ∷ 0 ∷ 0 ∷ 0 ∷ 0 ∷ 1 ∷ 0 ∷ 1 ∷ 3 ∷ 81 ∷ 0 ∷ 0 ∷ 83 ∷ 0 ∷ 0 ∷ 84 ∷ 0 ∷ 0 ∷ 134 ∷ 0 ∷ 7 ∷ 0
    ∷ 0 ∷ 0 ∷ 0 ∷ 1 ∷ 0 ∷ 92 ∷ 134 ∷ 0 ∷ 7 ∷ 0 ∷ 0 ∷ 0 ∷ 0 ∷ 1 ∷ 1 ∷ 94 ∷ 135 ∷ 0 ∷ 12 ∷ 0 ∷ 0 ∷ 0
    ∷ 0 ∷ 1 ∷ 0 ∷ 255 ∷ 250 ∷ 255 ∷ 250 ∷ 7 ∷ 0 ∷ 135 ∷ 0 ∷ 12 ∷ 0 ∷ 0 ∷ 0 ∷ 0 ∷ 1 ∷ 1 ∷ 255 ∷ 250
    ∷ 255 ∷ 250 ∷ 39 ∷ 64 ∷ 136 ∷ 0 ∷ 13 ∷ 0 ∷ 0 ∷ 0 ∷ 0 ∷ 1 ∷ 0 ∷ 4 ∷ 250 ∷ 255 ∷ 250 ∷ 255 ∷ 36
    ∷ 0 ∷ 136 ∷ 0 ∷ 17 ∷ 0 ∷ 0 ∷ 0 ∷ 0 ∷ 1 ∷ 1 ∷ 8 ∷ 250 ∷ 255 ∷ 250 ∷ 255 ∷ 250 ∷ 255 ∷ 250 ∷ 255
    ∷ 37 ∷ 52 ∷ 0 ∷ 0 ∷ 0 ∷ []

pub send_ap_capa_report : List ℕ → List ℕ → Wire → Wire
unfolding header
send_ap_capa_report dest id w =
    emit (bytes (header dest w.interface.al_addr msg_ap_capability_report id ++ capa)) w

-- A step of the interface, as one of what goes over it.
abbrev pub on_interface : {A : Type 0} → Run NetworkInterface A → Wire → Run Wire A
on_interface (done a i) w = done a (record w { interface = i })
on_interface fault w = fault
on_interface out_of_fuel w = out_of_fuel

-- A discovery of another device.
pub heard : Bool → Bool → List ℕ → List ℕ → Cmd Wire (Unit {0})
unfolding search_1905_nbr discovered
heard iterates allocated source id w =
    and_then (on_interface (search_1905_nbr iterates source w.interface) w)
      λ r. modify (discovered allocated source id r)

pub cmdu_handle : Bool → Bool → List ℕ → Cmd Wire (Unit {0})
unfolding same_name heard send_topology_response send_ap_capa_report
cmdu_handle iterates allocated raw w =
    let source = source_of raw in
    let own = same_name w.interface.al_addr source in
    if type_of raw == msg_topology_discovery
    then (if own then done tt w else heard iterates allocated source (id_of raw) w)
    else if type_of raw == msg_topology_query
    then (if own then done tt w else send_topology_response iterates source (id_of raw) w)
    else if type_of raw == msg_ap_capability_query
    then (if own then done tt w else done tt (send_ap_capa_report source (id_of raw) w))
    else done tt w
