-- ===== src/Tlv/Parse/Turn.antt =====
-- agent/tlv_parser.c: one turn of the loop of Kami_Tlv_ParseObject.
use easymesh.Prelude.Run.{fault}
use easymesh.Prelude.{
  ℕ, List, drop, ◌≡◌, ◌<◌, ap, ◌+◌, leb, length, suc, arith, false, refl, ◌≤◌, true, take, ◌++◌,
  sym, ◌∙◌, some,
}
use easymesh.Tlv.{
  Head, Item, Items, node, end, tlv, append_item, grow, create_tlv, add_tlv_to_object,
  add_item_to_object, join, item_at, increment, u16, big2littles_type,
}
use easymesh.Tlv.Encode.{encode_head}
use easymesh.Tlv.Parse.{parse_loop, continues}
use easymesh.Tlv.Parse.Read.{Framed, Plain, load_u16-type, load_u16-length, drop-value}

increment-tlv :
    (root h : Head) → h.obj_type ≡ tlv → u16 (root.type_len + 2 + h.length) ≡ increment root h
unfolding increment
increment-tlv root h kind = rw kind refl

-- One turn of the loop.
module _ (memory : List ℕ) (offset len : ℕ) (h : Head) (p : Framed len h) (tail : List ℕ)
    (here : drop offset memory ≡ encode_head h ++ tail) where
  pub turn_added :
      (k size : ℕ) (root : Head) (cs : Items)
      → Plain len h
      → continues size offset len ≡ true
      → h.length ≤ length tail
      → h.obj_type ≡ tlv
      → take h.length tail ≡ h.value
      → parse_loop (suc k) (λ _. true) memory size len offset (node root cs)
        ≡ parse_loop k
            (λ _. true)
            memory
            size
            len
            (offset + len + 2 + h.length)
            (node (grow (increment root h) root) (append_item cs (node h end)))
  unfolding parse_loop add_tlv_to_object create_tlv add_item_to_object join item_at
  turn_added k size root cs plain more fits kind value =
      let (raw, t, read, typed, exact) = load_u16-type memory offset len h p tail here in
      let type : big2littles_type raw len ≡ some h.type = typed ∙ ap some (exact plain) in
      let (raw_len, read_len, same) = load_u16-length memory offset len h p tail here in
      let inside : leb h.length (length tail) ≡ true = ground (arith, fits) in
      let step = λ (n m : ℕ) (i : Head).
        parse_loop k (λ _. true) memory size len (offset + len + 2 + n)
          (node (grow m root) (append_item cs (node i end))) in
      let h0 = record h { type_len = len; obj_type = tlv } in
      let m0 = u16 (root.type_len + 2 + h.length) in
      let back : record h { type_len = len; obj_type = tlv } ≡ h =
        λ i. record h { type_len = sym p.width i; obj_type = sym kind i } in
      let inc : u16 (root.type_len + 2 + h.length) ≡ increment root h = increment-tlv root h kind in
      rw
        (
          more,
          read,
          read_len,
          type,
          same,
          drop-value memory offset len h p tail here,
          inside,
          value,
        )
        (ap (λ n. step n m0 h0) same
          ∙ ap (λ m. step h.length m h0) inc
          ∙ ap (λ i. step h.length (increment root h) i) back)

  pub turn_fault :
      (k size : ℕ) (root : Item)
      → continues size offset len ≡ true
      → length tail < h.length
      → parse_loop (suc k) (λ _. true) memory size len offset root ≡ fault
  unfolding parse_loop add_tlv_to_object create_tlv
  turn_fault k size root more short =
      let (raw, t, read, type, exact) = load_u16-type memory offset len h p tail here in
      let (raw_len, read_len, same) = load_u16-length memory offset len h p tail here in
      let outside : leb h.length (length tail) ≡ false = ground (arith, short) in
      rw (more, read, read_len, type, same, drop-value memory offset len h p tail here, outside)
        refl
