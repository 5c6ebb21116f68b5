-- ===== src/CfgMgr/Fsm.antt =====
-- cfg_mgr/cfg_mgr.c: which events move a radio from which state of the configuration to which.
pub mod Edges
pub mod Events
pub mod Reach
pub mod Retry
use easymesh.Prelude.{ℕ, List, ◌++◌, ◌∷◌, [], ◌≡◌, Bool, true, false, ◌==◌, zero, suc, refl}
use easymesh.Prelude.Run.{Run, Cmd, done, fault, out_of_fuel, and_then}
use easymesh.Mbus.{Name, same_name}
use easymesh.CfgMgr.{
  CfgMgr, ConfigStatus, Packet, Radio, unconfigured, backhaul_ready, send_m1, wait_m2, configured,
  msg_type, Memory,
}
use easymesh.CfgMgr.Handle.{
  Event, heartbeat, group_msg, private_msg, timer, g_mesh_group_name, g_cfgmgr_user_name,
  g_mesh_user_name, config_user_name, cfgmgr_handle_msg,
}

-- `found` is the answer of the mesh process, `answered` a response of the controller, `granted` an
-- M2, `sent` the timer after an M1, `reset` the external command.
pub data Edge : Event → ConfigStatus → ConfigStatus → Type 0 where
  stays : {e : Event} {c : ConfigStatus} → Edge e c c
  found :
      {from to : Name} {message : List ℕ} {c : ConfigStatus}
      → ¬ (c ≡ configured)
      → same_name to g_cfgmgr_user_name ≡ true
      → same_name from g_mesh_user_name ≡ true
      → Edge (private_msg from to message) c backhaul_ready
  reset :
      {from to : Name} {message : List ℕ} {c : ConfigStatus}
      → same_name to g_cfgmgr_user_name ≡ true
      → same_name from config_user_name ≡ true
      → Edge (private_msg from to message) c unconfigured
  answered :
      {to : Name} {pkt : Packet} {c : ConfigStatus}
      → same_name to g_mesh_group_name ≡ true
      → msg_type pkt.packet ≡ 8
      → Edge (group_msg to pkt) c send_m1
  granted :
      {to : Name} {pkt : Packet} {c : ConfigStatus}
      → same_name to g_mesh_group_name ≡ true
      → msg_type pkt.packet ≡ 9
      → ¬ (pkt.from ≡ 2)
      → Edge (group_msg to pkt) c configured
  sent : Edge timer send_m1 unconfigured

-- Both radios go along an edge and keep their bands.
pub record Moved (e : Event) (s t : CfgMgr) : Type 0 where
  pub low : Edge e s.radio_24g.conf_state t.radio_24g.conf_state
  pub high : Edge e s.radio_5g.conf_state t.radio_5g.conf_state
  pub low_band : t.radio_24g.auto_conf_band ≡ s.radio_24g.auto_conf_band
  pub high_band : t.radio_5g.auto_conf_band ≡ s.radio_5g.auto_conf_band

-- The state that a run leaves has `P`, if it leaves one.
pub data Leaves {A : Type 0} (P : CfgMgr → Type 0) : Run CfgMgr A → Type 0 where
  leaves : {a : A} {s : CfgMgr} → P s → Leaves P (done a s)
  breaks : Leaves P fault
  starves : Leaves P out_of_fuel

module _ {A : Type 0} {P : CfgMgr → Type 0} where
  pub Leaves-done : {a : A} {s : CfgMgr} → Leaves P (done a s) → P s
  Leaves-done (leaves p) = p

  pub Leaves-bind :
      {B : Type 0} {r : Run CfgMgr A} {k : A → Cmd CfgMgr B}
      → Leaves P r
      → ((a : A) (s : CfgMgr) → P s → Leaves P (k a s))
      → Leaves P (and_then r k)
  Leaves-bind (leaves p) next = next _ _ p
  Leaves-bind breaks next = breaks
  Leaves-bind starves next = starves

module _ {e : Event} {s : CfgMgr} where
  pub Moved-stays : Moved e s s
  Moved-stays = record { low = stays; high = stays; low_band = refl; high_band = refl }
