-- ===== src/Tlv/Fields.antt =====
-- agent/tlv_parser.c: an object that gets its TLVs one after the other.
use easymesh.Prelude.{
  ℕ, some, [], ◌<◌, ◌≡◌, List, true, ◌+◌, length, ◌%◌, leb, arith, take_of_le, refl, le→leb,
}
use easymesh.Prelude.Run.{done}
use easymesh.Tlv.{
  Items, Head, node, end, tlv, object, u16, grow, increment, append_item, create_tlv, join, item_at,
  add_item_to_object, add_tlv_to_object, create_object, object_length,
}

abbrev pub field_head : ℕ → List ℕ → Head
field_head type value = record {
  type = type;
  type_len = 2;
  length = length value;
  obj_type = tlv;
  value = value;
}

abbrev pub object_head : ℕ → Head
object_head n = record { type = 0; type_len = 2; length = n; obj_type = object; value = [] }

pub add_tlv_to_object-added :
    (n : ℕ) (cs : Items) (type : ℕ) (value : List ℕ)
    → length value < 65536
    → add_tlv_to_object true (node (object_head n) cs) [] type (u16 (length value)) value 2
      ≡ done
          (some (
            node
              (object_head (u16 (n + u16 (4 + length value))))
              (append_item cs (node (field_head type value) end))))
          tt
unfolding add_tlv_to_object create_tlv add_item_to_object item_at join increment grow
add_tlv_to_object-added n cs type value small =
    let fit : length value % 65536 ≡ length value = omega (arith, small) in
    let whole : leb (length value) (length value) ≡ true = le→leb _ _ (omega arith) in
    rw (fit, whole, take_of_le (length value) value (omega arith)) refl

pub create_object-empty : create_object true 2 ≡ some (node (object_head 0) end)
unfolding create_object
create_object-empty = refl

pub object_length-object : (n : ℕ) (cs : Items) → object_length (node (object_head n) cs) ≡ n
unfolding object_length
object_length-object n cs = refl
