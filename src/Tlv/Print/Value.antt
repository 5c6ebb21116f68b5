-- ===== src/Tlv/Print/Value.antt =====
-- agent/tlv_parser.c: Kami_Tlv_PrintValue and Kami_Tlv_Print on trees of items.
use easymesh.Prelude.{
  ℕ, List, ◌≡◌, Bool, [], arith, refl, ◌+◌, length, ◌≤◌, length-append, ◌<◌, true, some, get_or, ap,
  ◌∙◌, sym,
}
use easymesh.Prelude.Int.{ℤ, pos}
use easymesh.Prelude.Run.{Returns, returns, Returns-bind, Returns-mono, Run}
use easymesh.Tlv.{Item, Items, node, next, end, tlv, array, object, invalid}
use easymesh.Tlv.Encode.{Fits, FitsAll, encode, encode_items, encode_head}
use easymesh.Tlv.Print.{PrintBuffer, int_max, print_value, print_items, unless_failed, print}
use easymesh.Tlv.Print.Write.{Wrote, Wrote-append}
use easymesh.Tlv.Print.Printed.{print_header-Wrote, print_tlv-Wrote, length-encode_head}

Wrote-none : (p : PrintBuffer) → p.present ≡ true → p.offset < p.length → Wrote p [] p
Wrote-none p present room = record {
  present = present;
  offset = omega arith;
  room = room;
  below = λ i b. refl;
  written = λ i b. absurd (omega (arith, b));
}

-- The buffer is there and has room, and what is to be printed stays within an `int`.
record Open (p : PrintBuffer) (bs : List ℕ) : Type 0 where
  present : p.present ≡ true
  room : p.offset < p.length
  small : length bs + p.offset + 1 ≤ int_max

module _ (realloc : ℕ → Bool) (grants : (n : ℕ) → realloc n ≡ true) where
  abbrev Prints : List ℕ → PrintBuffer → Run PrintBuffer ℤ → Type 0
  Prints bs p = Returns (λ r q. (r ≡ pos 0) × Wrote p bs q)

  mutual
    unfolding print_value unless_failed encode Fits

    print_value-Wrote :
        (i : Item) (p : PrintBuffer)
        → Fits i
        → Open p (encode i)
        → Prints (encode i) p (print_value realloc i p)
    print_value-Wrote (node h cs) p =
        elim h.obj_type
          as (λ o.
            Fits (node (record h { obj_type = o }) cs)
            → Open p (encode (node (record h { obj_type = o }) cs))
            → Prints (encode (node (record h { obj_type = o }) cs)) p
                (print_value realloc (node (record h { obj_type = o }) cs) p)) [
                  | tlv ↦ λ v o.
                      let size = length-append (encode_head h) h.value in
                      print_tlv-Wrote realloc grants (record h { obj_type = tlv }) p v.0 refl
                        o.present o.room
                        (omega (
                          arith,
                          o.small,
                          size,
                          length-encode_head (record h { obj_type = tlv }) v.0,
                          v.0.value_fits refl,
                        ))
                  | array ↦ λ v o.
                      let k = record h { obj_type = array } in
                      let size = length-append (encode_head k) (encode_items cs) in
                      let head_size = length-encode_head k v.0 in
                      Returns-bind
                        (print_header-Wrote realloc grants k p v.0 o.present o.room
                          (omega (arith, o.small, size, head_size)))
                        λ r q (zero_returned, w). rw zero_returned (
                          Returns-mono
                            (print_items-Wrote cs q v.1 (record {
                              present = w.present;
                              room = w.room;
                              small = omega (arith, o.small, size, w.offset);
                            }))
                            λ r s (e, x). (e, Wrote-append w x))
                  | object ↦ λ v o.
                      print_items-Wrote cs p v.1
                        (record { present = o.present; room = o.room; small = o.small })
                  | invalid ↦ λ v o. absurd (v.0.valid refl)
                ]

    print_items-Wrote :
        (js : Items) (p : PrintBuffer)
        → FitsAll js
        → Open p (encode_items js)
        → Prints (encode_items js) p (print_items realloc js p)
    print_items-Wrote end p v o = returns (refl, Wrote-none p o.present o.room)
    print_items-Wrote (next j js) p v o =
        let size = length-append (encode j) (encode_items js) in
        Returns-bind
          (print_value-Wrote j p v.0
            (record { present = o.present; room = o.room; small = omega (arith, o.small, size) }))
          λ r q (zero_returned, w). rw zero_returned (
            Returns-mono
              (print_items-Wrote js q v.1 (record {
                present = w.present;
                room = w.room;
                small = omega (arith, o.small, size, w.offset);
              }))
              λ r s (e, x). (e, Wrote-append w x))

  -- Where the first malloc and every realloc succeed and the byte form of a tree is shorter than
  -- INT_MAX, Kami_Tlv_Print returns a buffer that starts with exactly that byte form, for trees
  -- whose fields fit their widths; no write leaves the buffer, which grows as it is needed.
  pub print-encode :
      (i : Item) (junk : ℕ → ℕ)
      → Fits i
      → length (encode i) + 1 ≤ int_max
      → Returns
          (λ r _.
            (f : ℕ → ℕ) × (r ≡ some (length (encode i), f))
            × ((k : ℕ) → k < length (encode i) → f k ≡ get_or (encode i) k 0))
          (print true realloc junk i)
  unfolding print
  print-encode i junk v small =
      let start : PrintBuffer = record {
        buffer = junk;
        present = true;
        length = 256;
        offset = 0;
      } in
      Returns-bind
        (print_value-Wrote i start v
          (record { present = refl; room = omega arith; small = omega (arith, small) }))
        λ r q (zero_returned, w).
          let size : q.offset ≡ length (encode i) = omega (arith, w.offset) in
          rw (zero_returned, grants (q.offset + 1), size)
            (returns (
              q.buffer,
              refl,
              λ k b.
                  let start_at : 0 + k ≡ k = omega arith in
                  ap (λ n. q.buffer n) (sym start_at) ∙ w.written k b,
            ))
