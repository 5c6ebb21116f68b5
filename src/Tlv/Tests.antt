-- ===== src/Tlv/Tests.antt =====
-- agent/tlv_parser.c: the theorems at concrete items and messages.
use easymesh.Tlv.Print.Value.{print-encode}
use easymesh.Tlv.Print.{int_max, print}
use easymesh.Tlv.{item_at, head}
use easymesh.Tlv.Parse.Roundtrip.{PlainTlv, parse_object-fault, parse_object-encode, PlainTlvs}
use easymesh.Tlv.Encode.{encode_items, encode_head, Fits, encode}
use easymesh.Tlv.Count.{Counted, weight, add_item_to_object-Counted}
use easymesh.Tlv.Parse.Read.{Plain}
use easymesh.Tlv.Parse.Read.{Framed}
use easymesh.Tlv.Parse.{parse_object}
use easymesh.Prelude.Run.{fault, done, Returns}
use easymesh.Prelude.{
  ℕ, true, arith, List, ◌∷◌, [], ◌%◌, inl, ◌≡◌, some, refl, ◌+◌, length, ◌++◌, get_or, ◌≤◌, ◌<◌,
}
use easymesh.Tlv.{Head, Item, node, end, next, tlv, object, array, add_item_to_object}

abbrev tlv_head : ℕ → List ℕ → Head
tlv_head type value = record {
  type = type;
  type_len = 1;
  length = length value;
  obj_type = tlv;
  value = value;
}

abbrev leaf : Item
leaf = node (tlv_head 7 (1 ∷ 2 ∷ [])) end

abbrev inner : Item
inner =
    node (record { type = 16; type_len = 1; length = 5; obj_type = array; value = [] })
      (next leaf end)

abbrev tree : Item
tree =
    node (record { type = 0; type_len = 1; length = 8; obj_type = object; value = [] })
      (next inner end)

leaf-Counted : Counted 1 leaf
unfolding Counted
leaf-Counted = (
  record { width = refl; valid = λ e. absurd (ground (arith, e)); sum = λ e. absurd (e refl) },
  tt,
)

tree-Counted : Counted 1 tree
unfolding Counted
tree-Counted = (
  record { width = refl; valid = λ e. absurd (ground (arith, e)); sum = λ e. refl },
  (
    (
      record { width = refl; valid = λ e. absurd (ground (arith, e)); sum = λ e. refl },
      (leaf-Counted, tt),
    ),
    tt,
  ),
)

tree-item : item_at tree (0 ∷ []) ≡ some inner
unfolding item_at
tree-item = refl

add_item_to_object-Counted_example :
    (r : Item) × (add_item_to_object tree (0 ∷ []) leaf ≡ some r)
    × Counted 1 r
    × (weight (head r) % 65536 ≡ (weight (head tree) + weight (head leaf)) % 65536)
add_item_to_object-Counted_example =
    add_item_to_object-Counted 1 tree (0 ∷ []) inner leaf tree-Counted leaf-Counted tree-item

seven : Plain 1 (tlv_head 7 (1 ∷ 2 ∷ []))
seven = record { width = refl; type = inl (refl, omega arith); length_fits = omega arith }

parse_object-encode_example :
    (g : Head) × (parse_object true
        (λ _. true)
        (encode_items (next leaf (next leaf end)))
        (length (encode_items (next leaf (next leaf end))))
        1
      ≡ done (some (node g (next leaf (next leaf end)))) tt)
unfolding PlainTlvs
parse_object-encode_example =
    let plain : PlainTlv 1 (tlv_head 7 (1 ∷ 2 ∷ [])) = record {
      plain = seven;
      kind = refl;
      value_fits = refl;
    } in
    parse_object-encode 1 (tlv_head 7 (1 ∷ 2 ∷ [])) (next leaf end) (plain, (plain, omega arith))

-- A type of one byte that the parser does not read back as it is.
abbrev high_head : Head
high_head = tlv_head 133 (1 ∷ 2 ∷ [])

parse_object-fault_example :
    parse_object true
      (λ _. true)
      (encode_head high_head ++ 1 ∷ [])
      (length (encode_head high_head ++ 1 ∷ []))
      1
    ≡ fault
parse_object-fault_example =
    let framed : Framed 1 high_head = record {
      width = refl;
      type = inl (refl, omega arith);
      length_fits = omega arith;
    } in
    parse_object-fault 1 high_head (1 ∷ []) framed (omega arith) (omega arith)

leaf-Fits : Fits leaf
unfolding Fits
leaf-Fits = (
  record {
    width = inl refl;
    type_fits = omega arith;
    length_fits = omega arith;
    value_fits = λ _. refl;
    valid = λ e. absurd (ground (arith, e));
  },
  tt,
)

tree-Fits : Fits tree
unfolding Fits
tree-Fits = (
  record {
    width = inl refl;
    type_fits = omega arith;
    length_fits = omega arith;
    value_fits = λ e. absurd (ground (arith, e));
    valid = λ e. absurd (ground (arith, e));
  },
  (
    (
      record {
        width = inl refl;
        type_fits = omega arith;
        length_fits = omega arith;
        value_fits = λ e. absurd (ground (arith, e));
        valid = λ e. absurd (ground (arith, e));
      },
      (leaf-Fits, tt),
    ),
    tt,
  ),
)

tree_small : length (encode tree) + 1 ≤ int_max
unfolding encode
tree_small = omega arith

print-encode_example :
    Returns
      (λ r _.
        (f : ℕ → ℕ) × (r ≡ some (length (encode tree), f))
        × ((k : ℕ) → k < length (encode tree) → f k ≡ get_or (encode tree) k 0))
      (print true (λ _. true) (λ _. 170) tree)
print-encode_example = print-encode (λ _. true) (λ n. refl) tree (λ _. 170) tree-Fits tree_small
