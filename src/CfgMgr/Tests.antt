-- ===== src/CfgMgr/Tests.antt =====
-- cfg_mgr/cfg_mgr.c.
use easymesh.Tlv.Parse.{parse_object}
use easymesh.Tlv.{Head, get_object_item, tlv, next, get_among, node, end}
use easymesh.Tlv.Encode.{encode_items}
use easymesh.Tlv.Print.{PrintBuffer, int_max}
use easymesh.Tlv.Parse.Roundtrip.{PlainTlvs, PlainTlv, parse_object-encode}
use easymesh.Mbus.{same_name, c_string}
use easymesh.Prelude.{
  ℕ, List, ◌++◌, ◌∷◌, [], ◌≡◌, true, refl, some, arith, ◌+◌, ◌≤◌, length, inl, ◌-◌,
}
use easymesh.Prelude.Run.{done, fault, ◌>>◌, modify}
use easymesh.CfgMgr.{
  CfgMgr, Packet, Memory, Action, cfg_mgr_init, cfgmgr_handle_autoconfiguration_response,
  unconfigured, message_m1, rearm, tlvs, header_size, first_value, value_of, act, wait_m2,
}
use easymesh.CfgMgr.Handle.{
  Event, private_msg, cfgmgr_handle_msg, config_user_name, _cfgmgr_handle_private_msg,
  cfgmgr_handle_autoconfiguration_wsc, g_cfgmgr_user_name, cfgmgr_handle_external_command, reconfig,
  external_command, cfgmgr_autoconf_search_timer_cb,
}
use easymesh.CfgMgr.Fsm.{Moved}
use easymesh.CfgMgr.Fsm.Reach.{start, event, handle_msg-Moved, Reachable-radios}
use easymesh.CfgMgr.Fsm.Retry.{response-m1}
use easymesh.CfgMgr.Reassembly.{Room}
use easymesh.CfgMgr.Reassembly.Whole.{wsc-headless}

abbrev plenty : Memory
plenty = record { root = true; item = λ _. true; grown = λ _. true; packet = λ _. true }

abbrev begin : CfgMgr
begin = cfg_mgr_init true (λ _. 0)

abbrev raw_of : ℕ → ℕ → List ℕ → List ℕ
raw_of type flag body =
    0 ∷ 0 ∷ 0 ∷ 0 ∷ 0 ∷ 0 ∷ 0 ∷ 0 ∷ 0 ∷ 0 ∷ 0 ∷ 0 ∷ 137 ∷ 58 ∷ 0 ∷ 0 ∷ 0 ∷ type ∷ 0 ∷ 27 ∷ 0 ∷ flag
    ∷ body

abbrev packet_of : List ℕ → Packet
packet_of raw = record {
  from = 1;
  route = record { al_addr = []; if_addr = []; ifname = []; dest = [] };
  packet = raw;
}

abbrev band_head : Head
band_head = record { type = 16; type_len = 1; length = 1; obj_type = tlv; value = 1 ∷ [] }

abbrev response : Packet
response = packet_of (raw_of 8 128 (encode_items (next (node band_head end) end)))

abbrev all_room : (n : ℕ) → n + 1 ≤ int_max → Room plenty begin.m2buf n
unfolding cfg_mgr_init
all_room n small = record {
  grants = λ _. refl;
  present = refl;
  room = omega arith;
  small = omega (arith, small);
}

wsc-headless_example :
    (q : PrintBuffer) × (cfgmgr_handle_autoconfiguration_wsc plenty 9
        (packet_of (raw_of 9 128 (3 ∷ [])))
        begin
      ≡ fault)
unfolding cfg_mgr_init
wsc-headless_example =
    wsc-headless plenty 9 (packet_of (raw_of 9 128 (3 ∷ []))) begin refl refl
      (all_room 1 (omega arith))

abbrev told : Event
told = private_msg config_user_name g_cfgmgr_user_name (reconfig ++ 0 ∷ [])

handle_msg-Moved_example : Moved told begin (act (rearm 10) begin)
unfolding cfg_mgr_init cfgmgr_handle_msg _cfgmgr_handle_private_msg cfgmgr_handle_external_command
    external_command same_name c_string
handle_msg-Moved_example = handle_msg-Moved plenty 9 told begin (act (rearm 10) begin) refl

Reachable-radios_example :
    ¬ ((act (rearm 10) begin).radio_24g.conf_state ≡ wait_m2)
    × ¬ ((act (rearm 10) begin).radio_5g.conf_state ≡ wait_m2)
    × ((act (rearm 10) begin).radio_24g.auto_conf_band ≡ 0)
    × ((act (rearm 10) begin).radio_5g.auto_conf_band ≡ 1)
unfolding cfg_mgr_init cfgmgr_handle_msg _cfgmgr_handle_private_msg cfgmgr_handle_external_command
    external_command same_name c_string
Reachable-radios_example = Reachable-radios (event plenty 9 told (start true (λ _. 0)) refl)

parsed :
    (g : Head) × (parse_object true
        (λ _. true)
        (tlvs response.packet)
        (length response.packet - header_size)
        1
      ≡ done (some (node g (next (node band_head end) end))) tt)
unfolding PlainTlvs encode_items
parsed =
    let plain : PlainTlv 1 band_head = record {
      plain = record { width = refl; type = inl (refl, omega arith); length_fits = omega arith };
      kind = refl;
      value_fits = refl;
    } in
    parse_object-encode 1 band_head end (plain, omega arith)

-- A manager that has been told the way to the controller.
abbrev linked : CfgMgr
linked = record begin {
  backhaul = record {
    al_addr = 2 ∷ 0 ∷ 0 ∷ 0 ∷ 0 ∷ 4 ∷ [];
    if_addr = 2 ∷ 0 ∷ 0 ∷ 0 ∷ 0 ∷ 3 ∷ [];
    ifname = 101 ∷ 110 ∷ 115 ∷ 51 ∷ 50 ∷ [];
    dest = 2 ∷ 0 ∷ 0 ∷ 0 ∷ 0 ∷ 2 ∷ [];
  };
}

response-m1_example :
    (t : CfgMgr) × ((cfgmgr_handle_autoconfiguration_response plenty response
          >> modify (cfgmgr_autoconf_search_timer_cb plenty))
        linked
      ≡ done tt t)
    × (logs : List Action) × (id : ℕ) × (t.actions
        ≡ (linked.actions ++ rearm 10 ∷ [])
          ++ (logs
              ++ message_m1 linked.backhaul id linked.radio_5g.auto_conf_band ∷ rearm 5000 ∷ []))
    × (t.radio_5g.conf_state ≡ unconfigured)
unfolding first_value value_of get_object_item get_among
response-m1_example =
    response-m1 plenty response (node parsed.0 (next (node band_head end) end)) [] linked parsed.1
      refl refl
