-- ===== src/CfgMgr.antt =====
-- cfg_mgr/cfg_mgr.c: the configuration manager, which gets the two radios of a device configured by
-- the controller. What it sends is logged in `actions`, with what a message is made from in place
-- of its bytes; so are the calls of reset_timer for its own timer. A packet is as long as its
-- packet_len says; one that is shorter than its header is read past its end, a fault.
pub mod Handle
pub mod Fsm
pub mod Fuel
pub mod Reassembly
mod Tests
use easymesh.Prelude.{
  ℕ, zero, suc, List, [], ◌∷◌, ◌++◌, Bool, if◌then◌else◌, leb, ltb, not, ◌&&◌, Option, none, some,
  ◌==◌, ◌+◌, ◌-◌, ◌*◌, ◌/◌, ◌%◌, length, take, drop, get_or,
}
use easymesh.Prelude.Int.{ℤ, pos, negsuc, minus_one}
use easymesh.Prelude.Run.{
  Run, Cmd, pure, crash, starve, modify, get, done, fault, out_of_fuel, ◌>>=◌, ◌>>◌,
}
use easymesh.Tlv.{Item, head, get_object_item, u16}
use easymesh.Tlv.Parse.{parse_object}
use easymesh.Tlv.Print.{PrintBuffer, ensure, copy}

-- enum ConfigStatus, without the prefix AUTOCONF_.
pub data ConfigStatus : Type 0 where
  unconfigured : ConfigStatus
  backhaul_ready : ConfigStatus
  send_m1 : ConfigStatus
  wait_m2 : ConfigStatus
  configured : ConfigStatus

pub record Radio : Type 0 where
  pub auto_conf_band : ℕ
  pub conf_state : ConfigStatus

-- Where a message goes: the addresses and the interface.
pub record Route : Type 0 where
  pub al_addr : List ℕ
  pub if_addr : List ℕ
  pub ifname : List ℕ
  pub dest : List ℕ

-- `message_m1` is what cfgmgr_send_wsc_m1 puts on the bus, with the id as it stands in the
-- message and the band; `search` is cfgmgr_send_autoconfiguration_search, with the same;
-- `controller_info_req` asks the mesh process; `rearm` is reset_timer, with the milliseconds.
pub data Action : Type 0 where
  message_m1 : Route → ℕ → ℕ → Action
  search : Route → ℕ → ℕ → Action
  controller_info_req : Action
  rearm : ℕ → Action

-- cfg_mgr_t. m2buf_t has the fields of the printer's buffer.
pub record CfgMgr : Type 0 where
  pub backhaul : Route
  pub m2buf : PrintBuffer
  pub radio_24g : Radio
  pub radio_5g : Radio
  pub msgid : ℕ
  pub actions : List Action

-- mesh_packet_t, and what malloc and realloc answer while a message is parsed or kept. `packet` says
-- whether packet_create gives a packet, for the message that goes out for each radio; the answer to
-- a renew is the first.
pub record Packet : Type 0 where
  pub from : ℕ
  pub route : Route
  pub packet : List ℕ

pub record Memory : Type 0 where
  pub root : Bool
  pub item : ℕ → Bool
  pub grown : ℕ → Bool
  pub packet : ℕ → Bool

abbrev pub header_size : ℕ
header_size = 22

-- The fields of cmdu_raw_msg that the code reads. A number has its high byte first.
abbrev pub msg_type : List ℕ → ℕ
msg_type raw = 256 * get_or raw 16 0 + get_or raw 17 0

-- As the host reads it, low byte first.
abbrev pub raw_msg_id : List ℕ → ℕ
raw_msg_id raw = get_or raw 18 0 + 256 * get_or raw 19 0

-- Flags_last_fragment is the high bit of its byte.
abbrev pub last_fragment : List ℕ → Bool
last_fragment raw = leb 128 (get_or raw 21 0)

abbrev pub src_addr : List ℕ → List ℕ
src_addr raw = take 6 (drop 6 raw)

abbrev pub tlvs : List ℕ → List ℕ
tlvs raw = drop header_size raw

abbrev pub htons : ℕ → ℕ
htons n = n % 256 * 256 + n / 256 % 256

abbrev pub act : Action → CfgMgr → CfgMgr
act a s = record s { actions = s.actions ++ a ∷ [] }

-- `radios[band].conf_state = state`, for a band of 0 or 1.
abbrev pub set_state : ℕ → ConfigStatus → CfgMgr → CfgMgr
set_state zero state s = record s { radio_24g = record (s.radio_24g) { conf_state = state } }
set_state (suc _) state s = record s { radio_5g = record (s.radio_5g) { conf_state = state } }

abbrev pub no_addr : List ℕ
no_addr = 0 ∷ 0 ∷ 0 ∷ 0 ∷ 0 ∷ 0 ∷ []

-- Right after memset; `allocated` says whether malloc gives the 2048 bytes, which hold `fresh`.
pub cfg_mgr_init : Bool → (ℕ → ℕ) → CfgMgr
cfg_mgr_init allocated fresh = record {
  backhaul = record { al_addr = no_addr; if_addr = no_addr; ifname = []; dest = no_addr };
  m2buf = record { buffer = fresh; present = allocated; length = 2048; offset = 0 };
  radio_24g = record { auto_conf_band = 0; conf_state = unconfigured };
  radio_5g = record { auto_conf_band = 1; conf_state = unconfigured };
  msgid = 26;
  actions = [];
}

-- Line by line the same function as Kami_Tlv_Ensure.
pub cfg_mgr_ensure_m2buf : (ℕ → Bool) → ℕ → Cmd PrintBuffer Bool
cfg_mgr_ensure_m2buf = ensure

-- What ends both: packet_create and, where it gives a packet, mbus_sendmsg_in_group.
abbrev pub send_packet : Bool → Action → CfgMgr → CfgMgr
send_packet created a s = record s {
  actions = (if created then s.actions ++ a ∷ [] else s.actions);
}

-- `msg_id` is 0 where the code passes 0, and the id goes into 16 bits.
pub cfgmgr_send_wsc_m1 : Bool → Route → ℕ → ℕ → CfgMgr → CfgMgr
cfgmgr_send_wsc_m1 created route msg_id band s =
    send_packet created
      (message_m1 route (if ltb 0 msg_id then u16 msg_id else htons (s.msgid + 1)) band) s

pub cfgmgr_send_autoconfiguration_search : Bool → Radio → CfgMgr → CfgMgr
cfgmgr_send_autoconfiguration_search created radio s =
    send_packet created (search s.backhaul (htons s.msgid) radio.auto_conf_band)
      (record s { msgid = u16 (s.msgid + 1) })

-- The outcome of a parse, which leaves the manager alone.
abbrev pub beside : {A : Type 0} → Run (Unit {0}) A → Cmd CfgMgr A
beside (done r _) s = done r s
beside fault s = fault
beside out_of_fuel s = out_of_fuel

pub value_of : Option Item → Option (List ℕ)
value_of none = none
value_of (some i) = some (head i).value

pub first_value : Option Item → ℕ → Option (List ℕ)
unfolding value_of
first_value none type = none
first_value (some root) type = value_of (get_object_item root type (pos 0))

-- The band that a value states; a read of an empty value is past its end.
pub band_of : Option (List ℕ) → Cmd CfgMgr ℤ
band_of none = pure minus_one
band_of (some []) = crash
band_of (some (b ∷ _)) = pure (if b == 1 then pos 1 else if b == 0 then pos 0 else minus_one)

pub cfgmgr_parse_autoconfiguration_renew : Memory → List ℕ → Cmd CfgMgr ℤ
unfolding first_value band_of
cfgmgr_parse_autoconfiguration_renew memory raw = do
  root ← beside (parse_object memory.root memory.item (tlvs raw) (length raw - header_size) 1)
  band_of (first_value root 16)

pub cfgmgr_parse_autoconfiguration_response : Memory → List ℕ → Cmd CfgMgr ℤ
unfolding first_value band_of
cfgmgr_parse_autoconfiguration_response memory raw = do
  root ← beside (parse_object memory.root memory.item (tlvs raw) (length raw - header_size) 1)
  band_of (first_value root 16)

-- The id is raised by one without a change of its byte order.
pub renew_band : Memory → Packet → ℤ → Cmd CfgMgr (Unit {0})
renew_band memory pkt (negsuc _) = pure tt
renew_band memory pkt (pos band) = modify (
    cfgmgr_send_wsc_m1 (memory.packet 0) (record (pkt.route) { dest = src_addr pkt.packet })
      (raw_msg_id pkt.packet + 1) band)

pub cfgmgr_handle_autoconfiguration_renew : Memory → Packet → Cmd CfgMgr (Unit {0})
unfolding cfgmgr_parse_autoconfiguration_renew renew_band
cfgmgr_handle_autoconfiguration_renew memory pkt = do
  band ← cfgmgr_parse_autoconfiguration_renew memory pkt.packet
  renew_band memory pkt band

pub response_band : ℤ → Cmd CfgMgr (Unit {0})
response_band (negsuc _) = pure tt
response_band (pos band) = modify (λ s. act (rearm 10) (set_state band send_m1 s))

pub cfgmgr_handle_autoconfiguration_response : Memory → Packet → Cmd CfgMgr (Unit {0})
unfolding cfgmgr_parse_autoconfiguration_response response_band
cfgmgr_handle_autoconfiguration_response memory pkt = do
  band ← cfgmgr_parse_autoconfiguration_response memory pkt.packet
  response_band band

-- What a WSC element does to its radio, by the value of its RF bands.
pub wsc_band : Option (List ℕ) → Cmd CfgMgr (Unit {0})
wsc_band none = pure tt
wsc_band (some []) = crash
wsc_band (some (b ∷ _)) = modify λ s.
    if b == 2
    then act (rearm 10) (set_state 1 configured s)
    else if b == 1
    then act (rearm 10) (set_state 0 configured s)
    else s

-- The loop over the WSC elements; `rest` is what follows the next one. It ends where the parse of
-- one fails.
pub wsc_object : Cmd CfgMgr (Unit {0}) → Option Item → Cmd CfgMgr (Unit {0})
unfolding first_value wsc_band
wsc_object rest none = pure tt
wsc_object rest (some wsc) = wsc_band (value_of (get_object_item wsc 4156 (pos 0))) >> rest

pub wsc_element : Memory → Cmd CfgMgr (Unit {0}) → Option Item → Cmd CfgMgr (Unit {0})
unfolding wsc_object
wsc_element memory rest none = pure tt
wsc_element memory rest (some i) = do
  wsc ← beside (parse_object memory.root memory.item (head i).value (head i).length 2)
  wsc_object rest wsc

pub wsc_loop : Memory → ℕ → Item → ℕ → Cmd CfgMgr (Unit {0})
unfolding wsc_element
wsc_loop memory zero root i = starve
wsc_loop memory (suc k) root i =
    wsc_element memory (wsc_loop memory k root (i + 1)) (get_object_item root 17 (pos i))

pub wsc_elements : Memory → ℕ → Option Item → Cmd CfgMgr (Unit {0})
unfolding wsc_loop
wsc_elements memory fuel none = pure tt
wsc_elements memory fuel (some root) = wsc_loop memory fuel root 0

-- `raw` is the message of `len` bytes in the buffer.
pub cfgmgr_parse_autoconfiguration_wsc : Memory → ℕ → List ℕ → Cmd CfgMgr (Unit {0})
unfolding wsc_elements
cfgmgr_parse_autoconfiguration_wsc memory fuel raw =
    if ltb (length raw) header_size then crash else do
      root ← beside (parse_object memory.root memory.item (tlvs raw) (length raw - header_size) 1)
      wsc_elements memory fuel root
