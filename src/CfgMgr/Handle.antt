-- ===== src/CfgMgr/Handle.antt =====
-- cfg_mgr/cfg_mgr.c: the fragments of a WSC message, the handlers of what the bus brings, and the
-- timer of the state machine. `fuel` bounds the loop over the WSC elements.
use easymesh.Prelude.{
  ℕ, List, ◌∷◌, ◌++◌, false, ◌==◌, ◌*◌, true, take, none, suc, length, drop, some, ◌&&◌, ◌+◌, [],
  ltb, if◌then◌else◌, Option, Bool, get_or, not, zero,
}
use easymesh.Prelude.Run.{Run, Cmd, ◌>>◌, modify, done, pure, ◌>>=◌, crash, fault, get, out_of_fuel}
use easymesh.Mbus.{Name, same_name, c_string}
use easymesh.CfgMgr.{
  CfgMgr, Packet, Memory, Radio, unconfigured, backhaul_ready, send_m1, wait_m2, configured, act,
  controller_info_req, rearm, set_state, header_size, msg_type, last_fragment, tlvs,
  cfg_mgr_ensure_m2buf, cfgmgr_send_wsc_m1, cfgmgr_send_autoconfiguration_search,
  cfgmgr_parse_autoconfiguration_wsc, cfgmgr_handle_autoconfiguration_renew,
  cfgmgr_handle_autoconfiguration_response,
}
use easymesh.Tlv.Print.{PrintBuffer, copy}

-- Room for some bytes, and their copy behind what is there; false where there is none.
unfoldable pub store : (ℕ → Bool) → List ℕ → Cmd PrintBuffer Bool
store grown bytes = do
  ok ← cfg_mgr_ensure_m2buf grown (length bytes)
  p ← get
  let write : Cmd PrintBuffer Bool = do
    copy p.offset bytes
    modify (λ q. record q { offset = q.offset + length bytes })
    pure true
  if ok then write else pure false

-- A step on the buffer of the manager.
abbrev pub within : Run PrintBuffer Bool → Cmd CfgMgr Bool
within (done ok p) s = done ok (record s { m2buf = p })
within fault s = fault
within out_of_fuel s = out_of_fuel

unfoldable pub in_m2buf : Cmd PrintBuffer Bool → Cmd CfgMgr Bool
in_m2buf run s = within (run s.m2buf) s

-- The `n` bytes from an index of a buffer on.
abbrev pub bytes_at : (ℕ → ℕ) → ℕ → ℕ → List ℕ
bytes_at f i zero = []
bytes_at f i (suc n) = f i ∷ bytes_at f (i + 1) n

abbrev pub held : CfgMgr → List ℕ
held s = bytes_at s.m2buf.buffer 0 s.m2buf.offset

abbrev pub empty_m2buf : CfgMgr → CfgMgr
empty_m2buf s = record s { m2buf = record (s.m2buf) { offset = 0 } }

unfoldable pub last_part : Memory → ℕ → Bool → Cmd CfgMgr (Unit {0})
last_part memory fuel false s = done tt s
last_part memory fuel true s =
    (do cfgmgr_parse_autoconfiguration_wsc memory fuel (held s); modify empty_m2buf) s

-- The first fragment is kept with its header, a later one without.
unfoldable pub part_of : CfgMgr → List ℕ → List ℕ
part_of s raw = if s.m2buf.offset == 0 then raw else tlvs raw

unfoldable pub cfgmgr_handle_autoconfiguration_wsc : Memory → ℕ → Packet → Cmd CfgMgr (Unit {0})
unfolding in_m2buf store last_part part_of
cfgmgr_handle_autoconfiguration_wsc memory fuel pkt s =
    if not (last_fragment pkt.packet)
    then (in_m2buf (store memory.grown (part_of s pkt.packet)) >> pure tt) s
    else (in_m2buf (store memory.grown (tlvs pkt.packet)) >>= last_part memory fuel) s

unfoldable pub cfgmgr_handle_packet : Memory → ℕ → Packet → Cmd CfgMgr (Unit {0})
unfolding cfgmgr_handle_autoconfiguration_wsc cfgmgr_handle_autoconfiguration_renew
    cfgmgr_handle_autoconfiguration_response
cfgmgr_handle_packet memory fuel pkt =
    if ltb (length pkt.packet) header_size
    then crash
    else if pkt.from == 2 && msg_type pkt.packet == 9
    then pure tt
    else if msg_type pkt.packet == 10
    then cfgmgr_handle_autoconfiguration_renew memory pkt
    else if msg_type pkt.packet == 9
    then cfgmgr_handle_autoconfiguration_wsc memory fuel pkt
    else if msg_type pkt.packet == 8
    then cfgmgr_handle_autoconfiguration_response memory pkt
    else pure tt

-- "gmesh", "umesh", "ucfgmgr", "ucfgmgr_config" and "reconfig".
abbrev pub g_mesh_group_name : Name
g_mesh_group_name = 103 ∷ 109 ∷ 101 ∷ 115 ∷ 104 ∷ []

abbrev pub g_mesh_user_name : Name
g_mesh_user_name = 117 ∷ 109 ∷ 101 ∷ 115 ∷ 104 ∷ []

abbrev pub g_cfgmgr_user_name : Name
g_cfgmgr_user_name = 117 ∷ 99 ∷ 102 ∷ 103 ∷ 109 ∷ 103 ∷ 114 ∷ []

abbrev pub config_user_name : Name
config_user_name = g_cfgmgr_user_name ++ (95 ∷ 99 ∷ 111 ∷ 110 ∷ 102 ∷ 105 ∷ 103 ∷ [])

abbrev pub reconfig : Name
reconfig = 114 ∷ 101 ∷ 99 ∷ 111 ∷ 110 ∷ 102 ∷ 105 ∷ 103 ∷ []

unfoldable pub _cfgmgr_handle_group_msg : Memory → ℕ → Name → Packet → Cmd CfgMgr (Unit {0})
unfolding cfgmgr_handle_packet same_name
_cfgmgr_handle_group_msg memory fuel to pkt =
    if same_name to g_mesh_group_name then cfgmgr_handle_packet memory fuel pkt else pure tt

-- What snprintf takes from an array of 16 bytes; none where it has no 0 and is read past its end.
unfoldable pub interface_name : List ℕ → Option Name
unfolding c_string
interface_name bytes = c_string bytes

-- controller_info_t at some bytes.
unfoldable pub with_backhaul : List ℕ → Option Name → Cmd CfgMgr (Unit {0})
with_backhaul info none = crash
with_backhaul info (some ifname) = modify λ s. record s {
  backhaul = record {
    dest = take 6 info;
    al_addr = take 6 (drop 6 info);
    if_addr = take 6 (drop 12 info);
    ifname = take 15 ifname;
  };
}

abbrev pub ready : Radio → Radio
ready r = elim r.conf_state [ configured ↦ r | _ ↦ record r { conf_state = backhaul_ready } ]

abbrev pub all_ready : CfgMgr → CfgMgr
all_ready s =
    act (rearm 10) (record s { radio_24g = ready s.radio_24g; radio_5g = ready s.radio_5g })

unfoldable pub cfgmgr_handle_priv_msg_from_mesh : List ℕ → Cmd CfgMgr (Unit {0})
unfolding with_backhaul interface_name
cfgmgr_handle_priv_msg_from_mesh message =
    let info = drop 2 message in
    let respond : Cmd CfgMgr (Unit {0}) = do
      with_backhaul info (interface_name (drop 18 info))
      modify all_ready
    in if ltb (length message) 2
      then crash
      else if not (get_or message 0 0 + 256 * get_or message 1 0 == 1)
      then pure tt
      else if ltb (length info) 34
      then crash
      else respond

unfoldable pub external_command : Option Name → Cmd CfgMgr (Unit {0})
unfolding same_name
external_command none = crash
external_command (some command) =
    if same_name command reconfig
    then modify (λ s. act (rearm 10) (set_state 1 unconfigured (set_state 0 unconfigured s)))
    else pure tt

unfoldable pub cfgmgr_handle_external_command : List ℕ → Cmd CfgMgr (Unit {0})
unfolding external_command c_string
cfgmgr_handle_external_command message = external_command (c_string message)

unfoldable pub _cfgmgr_handle_private_msg : Name → Name → List ℕ → Cmd CfgMgr (Unit {0})
unfolding cfgmgr_handle_priv_msg_from_mesh cfgmgr_handle_external_command same_name
_cfgmgr_handle_private_msg from to message =
    if not (same_name to g_cfgmgr_user_name)
    then pure tt
    else if same_name from g_mesh_user_name
    then cfgmgr_handle_priv_msg_from_mesh message
    else if same_name from config_user_name
    then cfgmgr_handle_external_command message
    else pure tt

-- One turn of the loop of the timer; `asked` is find_controller_msg_send.
unfoldable pub tick_radio : Memory → ℕ → Radio → Bool → CfgMgr → Bool × CfgMgr
unfolding cfgmgr_send_autoconfiguration_search cfgmgr_send_wsc_m1
tick_radio memory i radio asked s = elim radio.conf_state [
  | unconfigured ↦ (true, if asked then s else act controller_info_req s)
  | backhaul_ready ↦ (asked, cfgmgr_send_autoconfiguration_search (memory.packet i) radio s)
  | send_m1 ↦ (
    asked,
    set_state i unconfigured
        (cfgmgr_send_wsc_m1 (memory.packet i) s.backhaul 0 radio.auto_conf_band s),
  )
  | wait_m2 ↦ (asked, s)
  | configured ↦ (asked, s)
]

-- With a manager; without one the code reads through NULL.
unfoldable pub cfgmgr_autoconf_search_timer_cb : Memory → CfgMgr → CfgMgr
unfolding tick_radio
cfgmgr_autoconf_search_timer_cb memory s =
    let (asked, t) = tick_radio memory 0 s.radio_24g false s in
    let (_, u) = tick_radio memory 1 t.radio_5g asked t in act (rearm 5000) u

-- What the bus and the timer bring.
pub data Event : Type 0 where
  heartbeat : Event
  group_msg : Name → Packet → Event
  private_msg : Name → Name → List ℕ → Event
  timer : Event

-- cfgmgr_handle_msg, and the callback of the timer.
unfoldable pub cfgmgr_handle_msg : Memory → ℕ → Event → Cmd CfgMgr (Unit {0})
unfolding _cfgmgr_handle_group_msg _cfgmgr_handle_private_msg cfgmgr_autoconf_search_timer_cb
cfgmgr_handle_msg memory fuel heartbeat = pure tt
cfgmgr_handle_msg memory fuel (group_msg to pkt) = _cfgmgr_handle_group_msg memory fuel to pkt
cfgmgr_handle_msg memory fuel (private_msg from to message) =
    _cfgmgr_handle_private_msg from to message
cfgmgr_handle_msg memory fuel timer = modify (cfgmgr_autoconf_search_timer_cb memory)
