-- ===== src/CfgMgr/Fsm/Reach.antt =====
-- cfg_mgr/cfg_mgr.c: the timer's turn over the two radios, and the states that a run can reach.
use mathlib.Core.Path.{subst}
use easymesh.CfgMgr.{
  send_m1, wait_m2, unconfigured, backhaul_ready, configured, ConfigStatus, Radio, CfgMgr,
  cfgmgr_send_autoconfiguration_search, Memory, cfg_mgr_init, cfgmgr_send_wsc_m1,
}
use easymesh.CfgMgr.Handle.{
  Event, heartbeat, group_msg, private_msg, timer, tick_radio, cfgmgr_autoconf_search_timer_cb,
  cfgmgr_handle_msg,
}
use easymesh.Prelude.Run.{done}
use easymesh.Prelude.{ℕ, ◌≡◌, Bool, true, false, refl, sym, ap, ◌∙◌}
use easymesh.CfgMgr.Fsm.{
  Edge, stays, found, reset, answered, granted, sent, Moved, Leaves, leaves, Leaves-done,
  Moved-stays,
}
use easymesh.CfgMgr.Fsm.Events.{private-Moved, group-Moved}

-- What a tick makes of a radio.
abbrev pub after_tick : ConfigStatus → ConfigStatus
after_tick send_m1 = unconfigured
after_tick unconfigured = unconfigured
after_tick backhaul_ready = backhaul_ready
after_tick wait_m2 = wait_m2
after_tick configured = configured

tick_Edge : (c : ConfigStatus) → Edge timer c (after_tick c)
tick_Edge send_m1 = sent
tick_Edge unconfigured = stays
tick_Edge backhaul_ready = stays
tick_Edge wait_m2 = stays
tick_Edge configured = stays

pub tick_low :
    (memory : Memory) (asked : Bool) (s : CfgMgr) (c : ConfigStatus)
    → s.radio_24g.conf_state ≡ c
    → ((tick_radio memory 0 s.radio_24g asked s).1.radio_24g
        ≡ record (s.radio_24g) { conf_state = after_tick c })
      × ((tick_radio memory 0 s.radio_24g asked s).1.radio_5g ≡ s.radio_5g)
unfolding tick_radio cfgmgr_send_autoconfiguration_search cfgmgr_send_wsc_m1
tick_low memory true s unconfigured e = (rw e refl, rw e refl)
tick_low memory false s unconfigured e = (rw e refl, rw e refl)
tick_low memory asked s backhaul_ready e = (rw e refl, rw e refl)
tick_low memory asked s send_m1 e = (rw e refl, rw e refl)
tick_low memory asked s wait_m2 e = (rw e refl, rw e refl)
tick_low memory asked s configured e = (rw e refl, rw e refl)

tick_high :
    (memory : Memory) (asked : Bool) (s : CfgMgr) (c : ConfigStatus)
    → s.radio_5g.conf_state ≡ c
    → ((tick_radio memory 1 s.radio_5g asked s).1.radio_5g
        ≡ record (s.radio_5g) { conf_state = after_tick c })
      × ((tick_radio memory 1 s.radio_5g asked s).1.radio_24g ≡ s.radio_24g)
unfolding tick_radio cfgmgr_send_autoconfiguration_search cfgmgr_send_wsc_m1
tick_high memory true s unconfigured e = (rw e refl, rw e refl)
tick_high memory false s unconfigured e = (rw e refl, rw e refl)
tick_high memory asked s backhaul_ready e = (rw e refl, rw e refl)
tick_high memory asked s send_m1 e = (rw e refl, rw e refl)
tick_high memory asked s wait_m2 e = (rw e refl, rw e refl)
tick_high memory asked s configured e = (rw e refl, rw e refl)

timer-radios :
    (memory : Memory) (s : CfgMgr)
    → ((cfgmgr_autoconf_search_timer_cb memory s).radio_24g
        ≡ record (s.radio_24g) { conf_state = after_tick s.radio_24g.conf_state })
      × ((cfgmgr_autoconf_search_timer_cb memory s).radio_5g
          ≡ record (s.radio_5g) { conf_state = after_tick s.radio_5g.conf_state })
unfolding cfgmgr_autoconf_search_timer_cb
timer-radios memory s =
    let t = (tick_radio memory 0 s.radio_24g false s) in
    let (low, high) = tick_low memory false s s.radio_24g.conf_state refl in
    let (last, same) = tick_high memory t.0 t.1 t.1.radio_5g.conf_state refl in
    (same ∙ low, last ∙ ap (λ (r : Radio). record r { conf_state = after_tick r.conf_state }) high)

timer-Moved :
    (memory : Memory) (s : CfgMgr) → Moved timer s (cfgmgr_autoconf_search_timer_cb memory s)
timer-Moved memory s =
    let (low, high) = timer-radios memory s in
    record {
      low =
          subst (λ r. Edge timer s.radio_24g.conf_state r.conf_state) (sym low)
            (tick_Edge s.radio_24g.conf_state);
      high =
          subst (λ r. Edge timer s.radio_5g.conf_state r.conf_state) (sym high)
            (tick_Edge s.radio_5g.conf_state);
      low_band = ap (λ r. r.auto_conf_band) low;
      high_band = ap (λ r. r.auto_conf_band) high;
    }

handle_msg-Leaves :
    (memory : Memory) (fuel : ℕ) (e : Event) (s : CfgMgr)
    → Leaves (Moved e s) (cfgmgr_handle_msg memory fuel e s)
unfolding cfgmgr_handle_msg
handle_msg-Leaves memory fuel heartbeat s = leaves Moved-stays
handle_msg-Leaves memory fuel (group_msg to pkt) s = group-Moved memory fuel to pkt s
handle_msg-Leaves memory fuel (private_msg from to message) s = private-Moved from to message s
handle_msg-Leaves memory fuel timer s = leaves (timer-Moved memory s)

-- Whatever arrives, if cfgmgr_handle_msg or the callback of the timer returns, each radio keeps
-- its band, and its state is as before or has moved along an edge: to BACKHAUL_READY by a message
-- of the mesh process to the manager unless it is CONFIGURED, to UNCONFIGURED by one of the
-- configuration client, to SEND_M1 by a response in the group, to CONFIGURED by a WSC message in
-- the group that is not local, or from SEND_M1 to UNCONFIGURED by the timer.
pub handle_msg-Moved :
    (memory : Memory) (fuel : ℕ) (e : Event) (s t : CfgMgr)
    → cfgmgr_handle_msg memory fuel e s ≡ done tt t
    → Moved e s t
handle_msg-Moved memory fuel e s t run =
    Leaves-done (subst (λ r. Leaves (Moved e s) r) run (handle_msg-Leaves memory fuel e s))

-- The states after any number of events, with any answers of malloc and realloc.
pub data Reachable : CfgMgr → Type 0 where
  start : (allocated : Bool) (fresh : ℕ → ℕ) → Reachable (cfg_mgr_init allocated fresh)
  event :
      {s t : CfgMgr} (memory : Memory) (fuel : ℕ) (e : Event)
      → Reachable s
      → cfgmgr_handle_msg memory fuel e s ≡ done tt t
      → Reachable t

not_waiting : {e : Event} {b c : ConfigStatus} → Edge e b c → ¬ (b ≡ wait_m2) → ¬ (c ≡ wait_m2)
not_waiting stays n = n
not_waiting (found _ _ _) n = λ q. cc
not_waiting (reset _ _) n = λ q. cc
not_waiting (answered _ _) n = λ q. cc
not_waiting (granted _ _ _) n = λ q. cc
not_waiting sent n = λ q. cc

-- In every state that any sequence of events can reach from cfg_mgr_init, neither radio is in
-- AUTOCONF_WAIT_M2, the first has band 0 and the second band 1.
pub Reachable-radios :
    {s : CfgMgr}
    → Reachable s
    → ¬ (s.radio_24g.conf_state ≡ wait_m2)
      × ¬ (s.radio_5g.conf_state ≡ wait_m2)
      × (s.radio_24g.auto_conf_band ≡ 0)
      × (s.radio_5g.auto_conf_band ≡ 1)
unfolding cfg_mgr_init
Reachable-radios (start allocated fresh) = ((λ q. cc), (λ q. cc), refl, refl)
Reachable-radios (event memory fuel e r run) =
    let before = Reachable-radios r in
    let m = handle_msg-Moved memory fuel e _ _ run in
    (
      not_waiting m.low before.0,
      not_waiting m.high before.1,
      m.low_band ∙ before.2,
      m.high_band ∙ before.3,
    )
