-- ===== src/CfgMgr/Fsm/Events.antt =====
-- cfg_mgr/cfg_mgr.c: what a message of the bus or a tick of the timer makes of the radios, and the
-- states that a run can reach.
use easymesh.CfgMgr.{
  send_m1, wait_m2, unconfigured, backhaul_ready, configured, header_size, msg_type,
}
use easymesh.CfgMgr.Fsm.Edges.{parse_wsc-Moved, response-Moved, renew-Moved}
use easymesh.Tlv.Print.{PrintBuffer}
use easymesh.Mbus.{c_string, Name, same_name}
use easymesh.CfgMgr.Handle.{
  Event, in_m2buf, last_part, cfgmgr_handle_autoconfiguration_wsc, external_command, ready, within,
  store, reconfig, part_of, held, with_backhaul, cfgmgr_handle_priv_msg_from_mesh,
  _cfgmgr_handle_private_msg, _cfgmgr_handle_group_msg, all_ready, interface_name,
  cfgmgr_handle_external_command, cfgmgr_handle_packet, private_msg, group_msg, g_cfgmgr_user_name,
  g_mesh_group_name, g_mesh_user_name, config_user_name,
}
use easymesh.CfgMgr.{
  Packet, CfgMgr, ConfigStatus, configured, backhaul_ready, Memory, last_fragment, unconfigured,
  tlvs,
}
use easymesh.Prelude.Run.{Run, Cmd, done, fault, out_of_fuel, modify, ◌>>◌}
use easymesh.Prelude.{
  ℕ, List, ◌≡◌, Bool, true, false, ◌==◌, refl, ltb, if◌then◌else◌, Option, none, some, inr, inl,
  Bool-cases, ◌+◌, get_or, arith, length, ◌*◌, ◌&&◌, not, drop,
}
use easymesh.CfgMgr.Fsm.{
  Edge, stays, found, reset, answered, granted, Moved, Leaves, leaves, breaks, starves, Leaves-bind,
  Moved-stays,
}

module _ {e : Event} {s : CfgMgr} where
  m2buf-Moved :
      (run : Cmd PrintBuffer Bool) (t : CfgMgr) → Moved e s t → Leaves (Moved e s) (in_m2buf run t)
  unfolding in_m2buf
  m2buf-Moved run t p = kept (run t.m2buf)
    where
      kept : (r : Run PrintBuffer Bool) → Leaves (Moved e s) (within r t)
      kept (done a q) =
          leaves
            (record { low = p.low; high = p.high; low_band = p.low_band; high_band = p.high_band })
      kept fault = breaks
      kept out_of_fuel = starves

  last_part-Moved :
      (memory : Memory) (fuel : ℕ) (edge : (b : ConfigStatus) → Edge e b configured) (ok : Bool)
      (t : CfgMgr)
      → Moved e s t
      → Leaves (Moved e s) (last_part memory fuel ok t)
  unfolding last_part
  last_part-Moved memory fuel edge false t p = leaves p
  last_part-Moved memory fuel edge true t p =
      Leaves-bind (parse_wsc-Moved edge memory fuel (held t) t p) (λ _ u q.
        leaves
          (record { low = q.low; high = q.high; low_band = q.low_band; high_band = q.high_band }))

  wsc-Moved :
      (memory : Memory) (fuel : ℕ) (pkt : Packet) (edge : (b : ConfigStatus) → Edge e b configured)
      (t : CfgMgr)
      → Moved e s t
      → Leaves (Moved e s) (cfgmgr_handle_autoconfiguration_wsc memory fuel pkt t)
  unfolding cfgmgr_handle_autoconfiguration_wsc
  wsc-Moved memory fuel pkt edge t p = elim (Bool-cases (last_fragment pkt.packet)) [
    | inl last ↦ rw last (
        Leaves-bind (m2buf-Moved (store memory.grown (tlvs pkt.packet)) t p)
          (λ ok u q. last_part-Moved memory fuel edge ok u q))
    | inr more ↦ rw more (
        Leaves-bind (m2buf-Moved (store memory.grown (part_of t pkt.packet)) t p)
          (λ _ u q. leaves q))
  ]

  external-Moved :
      (command : Option Name) (t : CfgMgr)
      → ((b : ConfigStatus) → Edge e b unconfigured)
      → Moved e s t
      → Leaves (Moved e s) (external_command command t)
  unfolding external_command
  external-Moved none t edge p = breaks
  external-Moved (some command) t edge p = elim (Bool-cases (same_name command reconfig)) [
    | inl is ↦ rw is (
        leaves
          (record { low = edge _; high = edge _; low_band = p.low_band; high_band = p.high_band }))
    | inr other ↦ rw other (leaves p)
  ]

ready-Edge :
    {e : Event} (band : ℕ) (c : ConfigStatus)
    → ((b : ConfigStatus) → ¬ (b ≡ configured) → Edge e b backhaul_ready)
    → Edge e c (ready (record { auto_conf_band = band; conf_state = c })).conf_state
ready-Edge band unconfigured edge = edge _ (λ q. cc)
ready-Edge band backhaul_ready edge = stays
ready-Edge band send_m1 edge = edge _ (λ q. cc)
ready-Edge band wait_m2 edge = edge _ (λ q. cc)
ready-Edge band configured edge = stays

ready_band :
    (band : ℕ) (c : ConfigStatus)
    → (ready (record { auto_conf_band = band; conf_state = c })).auto_conf_band ≡ band
ready_band band unconfigured = refl
ready_band band backhaul_ready = refl
ready_band band send_m1 = refl
ready_band band wait_m2 = refl
ready_band band configured = refl

module _ {A : Type 0} {P : CfgMgr → Type 0} {t : CfgMgr} where
  Leaves-if :
      (b : Bool) (r q : Cmd CfgMgr A)
      → (b ≡ true → Leaves P (r t))
      → (b ≡ false → Leaves P (q t))
      → Leaves P ((if b then r else q) t)
  Leaves-if true r q first second = first refl
  Leaves-if false r q first second = second refl

module _ {e : Event} (t : CfgMgr)
    (edge : (b : ConfigStatus) → ¬ (b ≡ configured) → Edge e b backhaul_ready) where
  ready-Moved :
      (info : List ℕ) (name : Option Name)
      → Leaves (Moved e t) ((with_backhaul info name >> modify all_ready) t)
  unfolding with_backhaul
  ready-Moved info none = breaks
  ready-Moved info (some name) = leaves (record {
    low = ready-Edge t.radio_24g.auto_conf_band t.radio_24g.conf_state edge;
    high = ready-Edge t.radio_5g.auto_conf_band t.radio_5g.conf_state edge;
    low_band = ready_band t.radio_24g.auto_conf_band t.radio_24g.conf_state;
    high_band = ready_band t.radio_5g.auto_conf_band t.radio_5g.conf_state;
  })

  mesh-Moved : (message : List ℕ) → Leaves (Moved e t) (cfgmgr_handle_priv_msg_from_mesh message t)
  unfolding cfgmgr_handle_priv_msg_from_mesh
  mesh-Moved message =
      let info = drop 2 message in
      Leaves-if (ltb (length message) 2) _ _ (λ _. breaks)
        (λ _.
          Leaves-if (not (get_or message 0 0 + 256 * get_or message 1 0 == 1)) _ _
            (λ _. leaves Moved-stays)
            (λ _.
              Leaves-if (ltb (length info) 34) _ _ (λ _. breaks)
                (λ _. ready-Moved info (interface_name (drop 18 info)))))

pub private-Moved :
    (from to : Name) (message : List ℕ) (t : CfgMgr)
    → Leaves (Moved (private_msg from to message) t) (_cfgmgr_handle_private_msg from to message t)
unfolding _cfgmgr_handle_private_msg cfgmgr_handle_external_command
private-Moved from to message t =
    Leaves-if (not (same_name to g_cfgmgr_user_name)) _ _ (λ _. leaves Moved-stays)
      (λ us.
        let here : same_name to g_cfgmgr_user_name ≡ true = ground (arith, us) in
        Leaves-if (same_name from g_mesh_user_name) _ _
          (λ mesh. mesh-Moved t (λ b differs. found differs here mesh) message)
          (λ _.
            Leaves-if (same_name from config_user_name) _ _
              (λ config. external-Moved (c_string message) t (λ b. reset here config) Moved-stays)
              (λ _. leaves Moved-stays)))

pub group-Moved :
    (memory : Memory) (fuel : ℕ) (to : Name) (pkt : Packet) (t : CfgMgr)
    → Leaves (Moved (group_msg to pkt) t) (_cfgmgr_handle_group_msg memory fuel to pkt t)
unfolding _cfgmgr_handle_group_msg cfgmgr_handle_packet
group-Moved memory fuel to pkt t =
    Leaves-if (same_name to g_mesh_group_name) _ _
      (λ here.
        Leaves-if (ltb (length pkt.packet) header_size) _ _ (λ _. breaks)
          (λ _.
            Leaves-if (pkt.from == 2 && msg_type pkt.packet == 9) _ _ (λ _. leaves Moved-stays)
              (λ other.
                Leaves-if (msg_type pkt.packet == 10) _ _
                  (λ _. renew-Moved memory pkt t Moved-stays)
                  (λ _.
                    Leaves-if (msg_type pkt.packet == 9) _ _
                      (λ m2.
                        wsc-Moved memory fuel pkt
                          (λ b.
                            granted here (ground (arith, m2))
                              (λ local. ground (arith, m2, other, local)))
                          t Moved-stays)
                      (λ _.
                        Leaves-if (msg_type pkt.packet == 8) _ _
                          (λ is.
                            response-Moved memory pkt t (λ b. answered here (ground (arith, is)))
                              Moved-stays)
                          (λ _. leaves Moved-stays))))))
      (λ _. leaves Moved-stays)
