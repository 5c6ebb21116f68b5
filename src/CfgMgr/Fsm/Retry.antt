-- ===== src/CfgMgr/Fsm/Retry.antt =====
-- cfg_mgr/cfg_mgr.c: what follows a response of the controller.
use easymesh.Tlv.Parse.{parse_object}
use easymesh.Prelude.{
  ℕ, List, ◌++◌, ◌∷◌, [], ◌≡◌, Bool, true, false, refl, some, sym, ◌∙◌, ap, ◌+◌, ◌-◌, length,
}
use mathlib.Core.List.{append-nil, append_assoc}
use easymesh.Prelude.Run.{done, ◌>>◌, modify}
use easymesh.CfgMgr.{
  tlvs, header_size, first_value, band_of, response_band, CfgMgr, Packet, send_m1, wait_m2,
  unconfigured, backhaul_ready, configured, message_m1, search, controller_info_req, rearm,
  cfgmgr_send_autoconfiguration_search, cfgmgr_send_wsc_m1, ConfigStatus, Radio, Action, htons,
  set_state, act, cfgmgr_handle_autoconfiguration_response, cfgmgr_parse_autoconfiguration_response,
  band_of, response_band, Memory,
}
use easymesh.CfgMgr.Handle.{tick_radio, cfgmgr_autoconf_search_timer_cb}
use easymesh.CfgMgr.Fsm.Reach.{tick_low}
use easymesh.Tlv.{Item}

-- The 2.4 GHz radio's part of a tick logs some messages and leaves the route alone.
tick_logs :
    (memory : Memory) (asked : Bool) (s : CfgMgr) (c : ConfigStatus) (created : Bool)
    → s.radio_24g.conf_state ≡ c
    → memory.packet 0 ≡ created
    → (logs : List Action) × ((tick_radio memory 0 s.radio_24g asked s).1.actions
        ≡ s.actions ++ logs)
      × ((tick_radio memory 0 s.radio_24g asked s).1.backhaul ≡ s.backhaul)
unfolding tick_radio cfgmgr_send_autoconfiguration_search cfgmgr_send_wsc_m1
tick_logs memory true s unconfigured k e p = ([], rw e (sym (append-nil s.actions)), rw e refl)
tick_logs memory false s unconfigured k e p = (controller_info_req ∷ [], rw e refl, rw e refl)
tick_logs memory asked s backhaul_ready true e p =
    (search s.backhaul (htons s.msgid) s.radio_24g.auto_conf_band ∷ [], rw (e, p) refl, rw e refl)
tick_logs memory asked s backhaul_ready false e p =
    ([], rw (e, p) (sym (append-nil s.actions)), rw e refl)
tick_logs memory asked s send_m1 true e p = (
  message_m1 s.backhaul (htons (s.msgid + 1)) s.radio_24g.auto_conf_band ∷ [],
  rw (e, p) refl,
  rw e refl,
)
tick_logs memory asked s send_m1 false e p = ([], rw (e, p) (sym (append-nil s.actions)), rw e refl)
tick_logs memory asked s wait_m2 k e p = ([], rw e (sym (append-nil s.actions)), rw e refl)
tick_logs memory asked s configured k e p = ([], rw e (sym (append-nil s.actions)), rw e refl)

tick_m1 :
    (memory : Memory) (asked : Bool) (s : CfgMgr) (r : Radio)
    → s.radio_5g ≡ r
    → r.conf_state ≡ send_m1
    → memory.packet 1 ≡ true
    → (tick_radio memory 1 s.radio_5g asked s).1
      ≡ set_state 1 unconfigured
          (act (message_m1 s.backhaul (htons (s.msgid + 1)) r.auto_conf_band) s)
unfolding tick_radio cfgmgr_send_wsc_m1
tick_m1 memory asked s r e at sends =
    rw (ap (λ (x : Radio). x.conf_state) e ∙ at, sends) (rw⁻¹ e refl)

timer-m1 :
    (memory : Memory) (s : CfgMgr)
    → s.radio_5g.conf_state ≡ send_m1
    → memory.packet 1 ≡ true
    → (logs : List Action) × (id : ℕ) × ((cfgmgr_autoconf_search_timer_cb memory s).actions
        ≡ s.actions
          ++ (logs ++ message_m1 s.backhaul id s.radio_5g.auto_conf_band ∷ rearm 5000 ∷ []))
      × ((cfgmgr_autoconf_search_timer_cb memory s).radio_5g.conf_state ≡ unconfigured)
unfolding cfgmgr_autoconf_search_timer_cb
timer-m1 memory s e sends =
    let step = tick_radio memory 0 s.radio_24g false s in
    let (logs, logged, route) =
      tick_logs memory false s s.radio_24g.conf_state (memory.packet 0) refl refl in
    let (low, high) = tick_low memory false s s.radio_24g.conf_state refl in
    let last = tick_m1 memory step.0 step.1 s.radio_5g high e sends in
    (
      logs,
      htons (step.1.msgid + 1),
      ap (λ (t : CfgMgr). t.actions ++ rearm 5000 ∷ []) last
          ∙ (rw (logged, route) (simp append_assoc)),
      ap (λ (t : CfgMgr). t.radio_5g.conf_state) last,
    )

-- On a response whose TLVs parse and whose first TLV of type 16 has a value that begins with 1,
-- followed by a run of the timer's callback in which packet_create gives a packet for the 5 GHz
-- radio, both return, the timer has been set to 10 ms and at the end to 5000 ms, the last message
-- is an M1 for the band of that radio along the route that the manager holds, and that radio is
-- unconfigured.
pub response-m1 :
    (memory : Memory) (pkt : Packet) (root : Item) (bytes : List ℕ) (s : CfgMgr)
    → parse_object memory.root memory.item (tlvs pkt.packet) (length pkt.packet - header_size) 1
      ≡ done (some root) tt
    → first_value (some root) 16 ≡ some (1 ∷ bytes)
    → memory.packet 1 ≡ true
    → (t : CfgMgr) × ((cfgmgr_handle_autoconfiguration_response memory pkt
            >> modify (cfgmgr_autoconf_search_timer_cb memory))
          s
        ≡ done tt t)
      × (logs : List Action) × (id : ℕ) × (t.actions
          ≡ (s.actions ++ rearm 10 ∷ [])
            ++ (logs ++ message_m1 s.backhaul id s.radio_5g.auto_conf_band ∷ rearm 5000 ∷ []))
      × (t.radio_5g.conf_state ≡ unconfigured)
unfolding cfgmgr_handle_autoconfiguration_response cfgmgr_parse_autoconfiguration_response band_of
    response_band
response-m1 memory pkt root bytes s parsed band sends =
    let (logs, id, sent, back) =
      timer-m1 memory (act (rearm 10) (set_state 1 send_m1 s)) refl sends in
    (
      cfgmgr_autoconf_search_timer_cb memory (act (rearm 10) (set_state 1 send_m1 s)),
      rw (parsed, band) refl,
      logs,
      id,
      sent,
      back,
    )
