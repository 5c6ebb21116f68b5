-- ===== src/CfgMgr/Reassembly.antt =====
-- cfg_mgr/cfg_mgr.c: the fragments of a WSC message, as the buffer keeps them.
pub mod Whole
use mathlib.Core.Path.{subst}
use easymesh.Tlv.Print.{PrintBuffer, int_max}
use easymesh.Prelude.{
  ℕ, List, ◌∷◌, [], ◌≡◌, Bool, true, false, suc, refl, ◌+◌, ◌≤◌, ◌<◌, length, get_or, arith, ap,
  ◌++◌, ◌==◌, length-append, ◌*◌, length-drop, ltb, ◌∙◌,
}
use easymesh.Prelude.Run.{done, ◌>>◌, modify, Cmd, pure, fault}
use easymesh.CfgMgr.{
  CfgMgr, Packet, Memory, tlvs, last_fragment, cfgmgr_parse_autoconfiguration_wsc,
  cfg_mgr_ensure_m2buf, header_size,
}
use easymesh.CfgMgr.Handle.{
  cfgmgr_handle_autoconfiguration_wsc, store, in_m2buf, held, bytes_at, empty_m2buf, last_part,
  part_of,
}
use easymesh.Tlv.Print.Write.{Wrote, ensure-done, copy-done, Wrote-append}

store-done :
    (grown : ℕ → Bool) (bs : List ℕ) (p : PrintBuffer)
    → ((n : ℕ) → grown n ≡ true)
    → p.present ≡ true
    → p.offset < p.length
    → length bs + p.offset + 1 ≤ int_max
    → (q : PrintBuffer) × (store grown bs p ≡ done true q) × Wrote p bs q
unfolding store cfg_mgr_ensure_m2buf
store-done grown bs p grants present room small =
    let (n, enough, fits) = ensure-done grown (length bs) p grants present room small in
    let (f, copied, at) = copy-done bs p.offset (record p { length = n }) (omega (arith, fits)) in
    (
      record p { length = n; buffer = f; offset = p.offset + length bs },
      rw (enough, copied) refl,
      record {
        present = present;
        offset = refl;
        room = omega (arith, fits);
        below = λ i b. ground (arith, at i, b);
        written = λ i b. ground (arith, at (p.offset + i), b);
      },
    )

bytes_at-list :
    (bs : List ℕ) (f : ℕ → ℕ) (i : ℕ)
    → ((k : ℕ) → k < length bs → f (i + k) ≡ get_or bs k 0)
    → bytes_at f i (length bs) ≡ bs
bytes_at-list [] f i same = refl
bytes_at-list (b ∷ bs) f i same =
    rw (bytes_at-list bs f (i + 1) (λ k lt. ground (arith, same (suc k), lt)))
      (ap (λ c. c ∷ bs) (ground (arith, same 0)))

-- Room in the buffer for some more bytes, where every allocation is granted.
pub record Room (memory : Memory) (p : PrintBuffer) (n : ℕ) : Type 0 where
  pub grants : (k : ℕ) → memory.grown k ≡ true
  pub present : p.present ≡ true
  pub room : p.offset < p.length
  pub small : n + p.offset + 1 ≤ int_max

pub Room-after :
    {memory : Memory} {p q : PrintBuffer} {bs : List ℕ} (n : ℕ)
    → Room memory p (length bs + n)
    → Wrote p bs q
    → Room memory q n
Room-after n r w = record {
  grants = r.grants;
  present = w.present;
  room = w.room;
  small = omega (arith, r.small, w.offset);
}

pub stored :
    (memory : Memory) (s : CfgMgr) (bs : List ℕ) (n : ℕ)
    → Room memory s.m2buf (length bs + n)
    → (q : PrintBuffer) × (in_m2buf (store memory.grown bs) s ≡ done true (record s { m2buf = q }))
      × Wrote s.m2buf bs q
unfolding in_m2buf
stored memory s bs n r =
    let (q, run, w) =
      store-done memory.grown bs s.m2buf r.grants r.present r.room (omega (arith, r.small)) in
    (q, rw run refl, w)

pub fragment-stored :
    (memory : Memory) (fuel : ℕ) (pkt : Packet) (s : CfgMgr) (bs : List ℕ) (n : ℕ)
    → last_fragment pkt.packet ≡ false
    → part_of s pkt.packet ≡ bs
    → Room memory s.m2buf (length bs + n)
    → (q : PrintBuffer) × (cfgmgr_handle_autoconfiguration_wsc memory fuel pkt s
        ≡ done tt (record s { m2buf = q }))
      × Wrote s.m2buf bs q
unfolding cfgmgr_handle_autoconfiguration_wsc
fragment-stored memory fuel pkt s bs n more part r =
    let (q, run, w) = stored memory s bs n r in (q, rw (more, part, run) refl, w)

pub last-parsed :
    (memory : Memory) (fuel : ℕ) (pkt : Packet) (s : CfgMgr)
    → last_fragment pkt.packet ≡ true
    → Room memory s.m2buf (length (tlvs pkt.packet) + 0)
    → (q : PrintBuffer) × (cfgmgr_handle_autoconfiguration_wsc memory fuel pkt s
        ≡ (cfgmgr_parse_autoconfiguration_wsc memory fuel (held (record s { m2buf = q }))
              >> modify empty_m2buf)
            (record s { m2buf = q }))
      × Wrote s.m2buf (tlvs pkt.packet) q
unfolding cfgmgr_handle_autoconfiguration_wsc last_part
last-parsed memory fuel pkt s last r =
    let (q, run, w) = stored memory s (tlvs pkt.packet) 0 r in (q, rw (last, run) refl, w)

pub held-Wrote :
    (s : CfgMgr) (q : PrintBuffer) (bs : List ℕ)
    → s.m2buf.offset ≡ 0
    → Wrote s.m2buf bs q
    → held (record s { m2buf = q }) ≡ bs
held-Wrote s q bs empty w =
    let size : q.offset ≡ length bs = omega (arith, w.offset, empty) in
    rw size (
      bytes_at-list bs q.buffer 0
        (λ k b. subst (λ i. q.buffer i ≡ get_or bs k 0) (omega (arith, empty)) (w.written k b)))
