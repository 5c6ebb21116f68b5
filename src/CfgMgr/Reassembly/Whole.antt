-- ===== src/CfgMgr/Reassembly/Whole.antt =====
-- cfg_mgr/cfg_mgr.c: the message that the fragments of one WSC message make together.
use easymesh.Tlv.Parse.{parse_object}
use easymesh.CfgMgr.Reassembly.{Room, last-parsed, held-Wrote}
use easymesh.Tlv.Print.{PrintBuffer}
use easymesh.Prelude.{
  ℕ, List, ◌∷◌, [], ◌≡◌, true, false, refl, ◌+◌, length, arith, ◌++◌, length-drop, ltb,
  if◌then◌else◌, ◌-◌, inr, drop, Bool-cases, inl, drop-add,
}
use easymesh.Prelude.Run.{◌>>◌, modify, Cmd, pure, crash, ◌>>=◌}
use easymesh.CfgMgr.{
  CfgMgr, Packet, Memory, tlvs, last_fragment, cfgmgr_parse_autoconfiguration_wsc, header_size,
  beside, wsc_elements,
}
use easymesh.CfgMgr.Handle.{cfgmgr_handle_autoconfiguration_wsc, empty_m2buf}

pub each : Memory → ℕ → List Packet → Cmd CfgMgr (Unit {0})
each memory fuel [] = pure tt
each memory fuel (pkt ∷ pkts) =
    cfgmgr_handle_autoconfiguration_wsc memory fuel pkt >> each memory fuel pkts

unfoldable pub tails : List Packet → List ℕ
tails [] = []
tails (pkt ∷ pkts) = tlvs pkt.packet ++ tails pkts

-- None of them is the last fragment.
unfoldable pub AllMore : List Packet → Type 0
AllMore [] = Unit {0}
AllMore (pkt ∷ pkts) = (last_fragment pkt.packet ≡ false) × AllMore pkts

-- The first fragment with its header, and the TLVs of the others.
unfoldable pub message_of : Packet → List Packet → Packet → List ℕ
message_of first rest last = first.packet ++ (tails rest ++ tlvs last.packet)

pub wsc_fragments : Memory → ℕ → Packet → List Packet → Packet → Cmd CfgMgr (Unit {0})
wsc_fragments memory fuel first rest last =
    cfgmgr_handle_autoconfiguration_wsc memory fuel first
    >> each memory fuel rest
    >> cfgmgr_handle_autoconfiguration_wsc memory fuel last

-- Where a WSC message arrives in one fragment, marked as the last, the buffer is empty and the
-- TLVs fit into it where allocations succeed, the handler parses what is left of the TLVs without
-- their first 22 bytes; if the message is shorter than two headers, it reads past the end.
pub wsc-headless :
    (memory : Memory) (fuel : ℕ) (pkt : Packet) (s : CfgMgr)
    → last_fragment pkt.packet ≡ true
    → s.m2buf.offset ≡ 0
    → Room memory s.m2buf (length (tlvs pkt.packet))
    → (q : PrintBuffer) × (cfgmgr_handle_autoconfiguration_wsc memory fuel pkt s
        ≡ (if ltb (length pkt.packet) 44
              then crash
              else beside (
                  parse_object memory.root memory.item
                    (drop 44 pkt.packet)
                    (length pkt.packet - 44)
                    1)
                >>= wsc_elements memory fuel
                >> modify empty_m2buf)
            (record s { m2buf = q }))
unfolding cfgmgr_parse_autoconfiguration_wsc
wsc-headless memory fuel pkt s last empty r =
    let room : Room memory s.m2buf (length (tlvs pkt.packet) + 0) = record {
      grants = r.grants;
      present = r.present;
      room = r.room;
      small = omega (arith, r.small);
    } in
    let (q, run, w) = last-parsed memory fuel pkt s last room in
    let whole = held-Wrote s q (tlvs pkt.packet) empty w in
    let size = length-drop header_size pkt.packet in
    (
      q,
      rw (run, whole)
          (elim (Bool-cases (ltb (length pkt.packet) 44)) [
            | inl short ↦
                let few : ltb (length (tlvs pkt.packet)) header_size ≡ true =
                  ground (arith, size, short) in
                rw (short, few) refl
            | inr long ↦
                let enough : ltb (length (tlvs pkt.packet)) header_size ≡ false =
                  ground (arith, size, long) in
                let rest : length (tlvs pkt.packet) - header_size ≡ length pkt.packet - 44 =
                  omega (arith, size) in
                rw (long, enough, rest, drop-add 22 22 pkt.packet) refl
          ]),
    )
