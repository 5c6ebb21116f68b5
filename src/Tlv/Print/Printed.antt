-- ===== src/Tlv/Print/Printed.antt =====
-- agent/tlv_parser.c: Kami_Tlv_PrintValue writes the byte form of an item.
use easymesh.Prelude.{
  ℕ, List, length, Bool, refl, sym, ◌≡◌, leb, ◌∙◌, inl, take, ◌<◌, true, ◌+◌, ap, inr, arith,
  length-append, ◌++◌, ◌≤◌, ◌∷◌, [],
}
use easymesh.Prelude.Int.{pos}
use easymesh.Prelude.Run.{Returns, returns}
use easymesh.Tlv.{Head, tlv}
use easymesh.Tlv.Encode.{FitsHead, encode_head}
use easymesh.Tlv.Print.{PrintBuffer, int_max, print_tlv, print_header}
use easymesh.Tlv.Print.Write.{Wrote, ensure-done, copy-done, head-done, get_or-append}

pub length-encode_head : (h : Head) → FitsHead h → length (encode_head h) ≡ h.type_len + 2
length-encode_head h v = elim v.width [ inl e ↦ rw e refl | inr e ↦ rw e refl ]

take-length : (xs : List ℕ) → take (length xs) xs ≡ xs
take-length [] = refl
take-length (x ∷ xs) = ap (◌∷◌ x) (take-length xs)

module _ (realloc : ℕ → Bool) (grants : (n : ℕ) → realloc n ≡ true) where
  pub print_header-Wrote :
      (h : Head) (p : PrintBuffer)
      → FitsHead h
      → p.present ≡ true
      → p.offset < p.length
      → h.type_len + 2 + p.offset + 1 ≤ int_max
      → Returns (λ r q. (r ≡ pos 0) × Wrote p (encode_head h) q) (print_header realloc h p)
  unfolding print_header
  print_header-Wrote h p v present room small =
      let (n, grew, fits) = ensure-done realloc (h.type_len + 2) p grants present room small in
      let (e, f, typed, sized, below, at) =
        head-done h (record p { length = n }) v (omega (arith, fits)) in
      let size = length-encode_head h v in
      rw (grew, typed, sized)
        (returns (
          refl,
          record {
            present = present;
            offset = omega (arith, size);
            room = omega (arith, fits);
            below = below;
            written = λ i b. at i (omega (arith, b, size));
          },
        ))

  pub print_tlv-Wrote :
      (h : Head) (p : PrintBuffer)
      → FitsHead h
      → h.obj_type ≡ tlv
      → p.present ≡ true
      → p.offset < p.length
      → h.length + h.type_len + 2 + p.offset + 1 ≤ int_max
      → Returns (λ r q. (r ≡ pos 0) × Wrote p (encode_head h ++ h.value) q) (print_tlv realloc h p)
  unfolding print_tlv
  print_tlv-Wrote h p v kind present room small =
      let (n, grew, fits) =
        ensure-done realloc (h.length + h.type_len + 2) p grants present room small in
      let (e, f, typed, sized, below, at) =
        head-done h (record p { length = n }) v (omega (arith, fits)) in
      let size = length-encode_head h v in
      let whole : take h.length h.value ≡ h.value =
        ap (λ n. take n h.value) (sym (v.value_fits kind)) ∙ take-length h.value in
      let enough : leb h.length (length h.value) ≡ true = ground (arith, v.value_fits kind) in
      let (g, copied, then_at) =
        copy-done h.value (p.offset + h.type_len + 2) (record p { length = n; buffer = f })
          (omega (arith, fits, v.value_fits kind)) in
      rw (grew, enough, typed, sized, whole, copied)
        (returns (
          refl,
          record {
            present = present;
            offset = omega (arith, size, length-append (encode_head h) h.value, v.value_fits kind);
            room = omega (arith, fits);
            below = λ i b. ground (arith, then_at i, below i b);
            written = λ i b. ground (
              arith,
              then_at (p.offset + i),
              at i,
              get_or-append (encode_head h) h.value i,
              size,
              length-append (encode_head h) h.value,
            );
          },
        ))
