-- ===== src/Tlv/Encode.antt =====
-- agent/tlv_parser.c: the byte form of an item, on its own.
use easymesh.Prelude.{
  ℕ, List, if◌then◌else◌, ◌/◌, ◌++◌, ◌≡◌, ◌==◌, ◌%◌, ◌≢◌, ◌⊎◌, ◌∷◌, ◌^◌, [], ◌<◌, length,
}
use easymesh.Tlv.{Item, Items, Head, node, end, next, tlv, array, object, invalid}

-- A type of `type_len` bytes and a length of two, both with the high byte first.
abbrev pub encode_type : ℕ → ℕ → List ℕ
encode_type type type_len = if type_len == 2 then type / 256 ∷ type % 256 ∷ [] else type ∷ []

abbrev pub encode_length : ℕ → List ℕ
encode_length n = n / 256 ∷ n % 256 ∷ []

abbrev pub encode_head : Head → List ℕ
encode_head h = encode_type h.type h.type_len ++ encode_length h.length

unfoldable mutual
  pub encode : Item → List ℕ
  encode (node h cs) = elim h.obj_type [
    | tlv ↦ encode_head h ++ h.value
    | array ↦ encode_head h ++ encode_items cs
    | object ↦ encode_items cs
    | invalid ↦ []
  ]

  pub encode_items : Items → List ℕ
  encode_items end = []
  encode_items (next j js) = encode j ++ encode_items js

-- The width of the type is 1 or 2, and the fields fit their widths; a TLV's value is as long as its
-- length says.
pub record FitsHead (h : Head) : Type 0 where
  pub width : (h.type_len ≡ 1) ⊎ (h.type_len ≡ 2)
  pub type_fits : h.type < 256 ^ h.type_len
  pub length_fits : h.length < 65536
  pub value_fits : h.obj_type ≡ tlv → length h.value ≡ h.length
  pub valid : h.obj_type ≢ invalid

unfoldable mutual
  pub Fits : Item → Type 0
  Fits (node h cs) = FitsHead h × FitsAll cs

  pub FitsAll : Items → Type 0
  FitsAll end = Unit {0}
  FitsAll (next j js) = Fits j × FitsAll js
