-- ===== src/CfgMgr/Fsm/Edges.antt =====
-- cfg_mgr/cfg_mgr.c: every handler moves both radios along an edge.
use easymesh.Tlv.Parse.{parse_object}
use easymesh.CfgMgr.{
  CfgMgr, beside, band_of, cfgmgr_handle_autoconfiguration_renew, ConfigStatus,
  cfgmgr_handle_autoconfiguration_response, cfgmgr_parse_autoconfiguration_renew, act,
  cfgmgr_parse_autoconfiguration_response, configured, renew_band, rearm, response_band, wsc_band,
  wsc_element, wsc_loop, cfgmgr_parse_autoconfiguration_wsc, cfgmgr_send_wsc_m1, set_state, Memory,
  wsc_elements, send_m1, first_value, header_size, wsc_object, value_of, tlvs,
}
use easymesh.CfgMgr.Handle.{Event}
use easymesh.Prelude.Run.{Cmd, done, Run, fault, out_of_fuel}
use easymesh.Prelude.Int.{negsuc, pos, ℤ}
use easymesh.CfgMgr.{Packet}
use easymesh.Tlv.{head, Item, get_object_item}
use easymesh.Prelude.{
  ℕ, List, ◌∷◌, [], Bool, true, false, ◌==◌, zero, suc, ltb, if◌then◌else◌, Option, none, some, ◌+◌,
  Bool-cases, inl, inr, length, ◌-◌,
}
use easymesh.CfgMgr.Fsm.{Edge, Moved, Leaves, leaves, breaks, starves, Leaves-bind}

module _ {e : Event} {s : CfgMgr} where
  Moved-if : (b : Bool) {t u : CfgMgr} → Moved e s t → Moved e s u → Moved e s (if b then t else u)
  Moved-if true p q = p
  Moved-if false p q = q

  beside-Moved :
      {A : Type 0} (r : Run (Unit {0}) A) (t : CfgMgr)
      → Moved e s t
      → Leaves (Moved e s) (beside r t)
  beside-Moved (done a _) t p = leaves p
  beside-Moved fault t p = breaks
  beside-Moved out_of_fuel t p = starves

  band_of-Moved :
      (v : Option (List ℕ)) (t : CfgMgr) → Moved e s t → Leaves (Moved e s) (band_of v t)
  unfolding band_of
  band_of-Moved none t p = leaves p
  band_of-Moved (some []) t p = breaks
  band_of-Moved (some (b ∷ bs)) t p = leaves p

  parse_renew-Moved :
      (memory : Memory) (raw : List ℕ) (t : CfgMgr)
      → Moved e s t
      → Leaves (Moved e s) (cfgmgr_parse_autoconfiguration_renew memory raw t)
  unfolding cfgmgr_parse_autoconfiguration_renew
  parse_renew-Moved memory raw t p =
      Leaves-bind (beside-Moved _ t p) (λ root u q. band_of-Moved (first_value root 16) u q)

  pub renew-Moved :
      (memory : Memory) (pkt : Packet) (t : CfgMgr)
      → Moved e s t
      → Leaves (Moved e s) (cfgmgr_handle_autoconfiguration_renew memory pkt t)
  unfolding cfgmgr_handle_autoconfiguration_renew renew_band cfgmgr_send_wsc_m1
  renew-Moved memory pkt t p =
      Leaves-bind (parse_renew-Moved memory pkt.packet t p) (λ band u q. renew_band-Moved band u q)
    where
      renew_band-Moved :
          (band : ℤ) (u : CfgMgr) → Moved e s u → Leaves (Moved e s) (renew_band memory pkt band u)
      renew_band-Moved (negsuc n) u q = leaves q
      renew_band-Moved (pos n) u q =
          leaves
            (record { low = q.low; high = q.high; low_band = q.low_band; high_band = q.high_band })

  set_state-Moved :
      (band : ℕ) (c : ConfigStatus) {t : CfgMgr}
      → ((b : ConfigStatus) → Edge e b c)
      → Moved e s t
      → Moved e s (act (rearm 10) (set_state band c t))
  set_state-Moved zero c edge p = record {
    low = edge _;
    high = p.high;
    low_band = p.low_band;
    high_band = p.high_band;
  }
  set_state-Moved (suc _) c edge p = record {
    low = p.low;
    high = edge _;
    low_band = p.low_band;
    high_band = p.high_band;
  }

  parse_response-Moved :
      (memory : Memory) (raw : List ℕ) (t : CfgMgr)
      → Moved e s t
      → Leaves (Moved e s) (cfgmgr_parse_autoconfiguration_response memory raw t)
  unfolding cfgmgr_parse_autoconfiguration_response
  parse_response-Moved memory raw t p =
      Leaves-bind (beside-Moved _ t p) (λ root u q. band_of-Moved (first_value root 16) u q)

  pub response-Moved :
      (memory : Memory) (pkt : Packet) (t : CfgMgr)
      → ((b : ConfigStatus) → Edge e b send_m1)
      → Moved e s t
      → Leaves (Moved e s) (cfgmgr_handle_autoconfiguration_response memory pkt t)
  unfolding cfgmgr_handle_autoconfiguration_response response_band
  response-Moved memory pkt t edge p =
      Leaves-bind (parse_response-Moved memory pkt.packet t p)
        (λ band u q. response_band-Moved band u q)
    where
      response_band-Moved :
          (band : ℤ) (u : CfgMgr) → Moved e s u → Leaves (Moved e s) (response_band band u)
      response_band-Moved (negsuc n) u q = leaves q
      response_band-Moved (pos n) u q = leaves (set_state-Moved n send_m1 edge q)

module _ {e : Event} {s : CfgMgr} (edge : (b : ConfigStatus) → Edge e b configured) where
  wsc_band-Moved :
      (v : Option (List ℕ)) (t : CfgMgr) → Moved e s t → Leaves (Moved e s) (wsc_band v t)
  unfolding wsc_band
  wsc_band-Moved none t p = leaves p
  wsc_band-Moved (some []) t p = breaks
  wsc_band-Moved (some (b ∷ bs)) t p = leaves (
      Moved-if (b == 2) (set_state-Moved 1 configured edge p)
        (Moved-if (b == 1) (set_state-Moved 0 configured edge p) p))

  wsc_object-Moved :
      (rest : Cmd CfgMgr (Unit {0})) (wsc : Option Item) (t : CfgMgr)
      → ((u : CfgMgr) → Moved e s u → Leaves (Moved e s) (rest u))
      → Moved e s t
      → Leaves (Moved e s) (wsc_object rest wsc t)
  unfolding wsc_object
  wsc_object-Moved rest none t next p = leaves p
  wsc_object-Moved rest (some wsc) t next p =
      Leaves-bind (wsc_band-Moved (value_of (get_object_item wsc 4156 (pos 0))) t p)
        (λ _ v r. next v r)

  wsc_element-Moved :
      (memory : Memory) (rest : Cmd CfgMgr (Unit {0})) (i : Option Item) (t : CfgMgr)
      → ((u : CfgMgr) → Moved e s u → Leaves (Moved e s) (rest u))
      → Moved e s t
      → Leaves (Moved e s) (wsc_element memory rest i t)
  unfolding wsc_element
  wsc_element-Moved memory rest none t next p = leaves p
  wsc_element-Moved memory rest (some i) t next p =
      Leaves-bind
        (beside-Moved (parse_object memory.root memory.item (head i).value (head i).length 2) t p)
        (λ wsc u q. wsc_object-Moved rest wsc u next q)

  wsc_loop-Moved :
      (memory : Memory) (fuel : ℕ) (root : Item) (i : ℕ) (t : CfgMgr)
      → Moved e s t
      → Leaves (Moved e s) (wsc_loop memory fuel root i t)
  unfolding wsc_loop
  wsc_loop-Moved memory zero root i t p = starves
  wsc_loop-Moved memory (suc k) root i t p =
      wsc_element-Moved memory (wsc_loop memory k root (i + 1)) _ t
        (λ u q. wsc_loop-Moved memory k root (i + 1) u q) p

  pub parse_wsc-Moved :
      (memory : Memory) (fuel : ℕ) (raw : List ℕ) (t : CfgMgr)
      → Moved e s t
      → Leaves (Moved e s) (cfgmgr_parse_autoconfiguration_wsc memory fuel raw t)
  unfolding cfgmgr_parse_autoconfiguration_wsc wsc_elements
  parse_wsc-Moved memory fuel raw t p = elim (Bool-cases (ltb (length raw) header_size)) [
    | inl short ↦ rw short breaks
    | inr long ↦ rw long (
        Leaves-bind
          (beside-Moved
            (parse_object memory.root memory.item (tlvs raw) (length raw - header_size) 1) t p)
          (λ root u q. elements root u q))
  ]
    where
      elements :
          (root : Option Item) (u : CfgMgr)
          → Moved e s u
          → Leaves (Moved e s) (wsc_elements memory fuel root u)
      elements none u q = leaves q
      elements (some root) u q = wsc_loop-Moved memory fuel root 0 u q
