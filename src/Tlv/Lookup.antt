-- ===== src/Tlv/Lookup.antt =====
-- agent/tlv_parser.c: Kami_Tlv_GetObjectItem, child by child.
use easymesh.Prelude.{ℕ, ◌≡◌, ◌≢◌, true, some, ◌==◌, refl, none, false, arith}
use easymesh.Prelude.Int.{ℤ, pos}
use easymesh.Tlv.{Item, Items, Head, node, end, next, head, get_object_item}

module _ (g : Head) (t : ℕ) where
  pub get_object_item-hit :
      (j : Item) (js : Items)
      → (head j).type ≡ t
      → get_object_item (node g (next j js)) t (pos 0) ≡ some j
  unfolding get_object_item
  get_object_item-hit j js e =
      let same : ((head j).type == t) ≡ true = ground (arith, e) in rw same refl

  pub get_object_item-miss :
      (j : Item) (js : Items) (i : ℤ)
      → (head j).type ≢ t
      → get_object_item (node g (next j js)) t i ≡ get_object_item (node g js) t i
  unfolding get_object_item
  get_object_item-miss j js i ne =
      let other : ((head j).type == t) ≡ false = ground (arith, ne) in rw other refl

  pub get_object_item-end : (i : ℤ) → get_object_item (node g end) t i ≡ none
  unfolding get_object_item
  get_object_item-end i = refl
