-- ===== src/Tlv.antt =====
-- agent/tlv_parser.c and include/tlv_parser.h: trees of type-length-value items, and their byte form.
-- An item owns its children, so a tree is a value here: a call on an inner item names it by the
-- indices on the way from the root. The host is little endian, as the names of the swaps say.
pub mod Swap
pub mod Encode
pub mod Lookup
pub mod Count
pub mod Fields
pub mod Print
pub mod Parse
mod Tests
use easymesh.Prelude.{
  ℕ, List, Option, some, none, Bool, true, false, leb, ◌∷◌, if◌then◌else◌, not, take, zero, suc,
  ◌%◌, ◌/◌, ◌+◌, ◌*◌, ltb, ◌==◌, [], length,
}
use easymesh.Prelude.Int.{ℤ, pos, minus_one, negsuc}
use easymesh.Prelude.Run.{Run, Cmd, pure, crash, starve, modify, get, done, fault, ◌>>=◌, and_then}

-- unsigned short.
abbrev pub u16 : ℕ → ℕ
u16 n = n % 65536

-- `(num >> 8) | (num << 8)`: the two operands share no bit.
pub little2bigs : ℕ → ℕ
little2bigs num = u16 (num / 256 + num * 256)

pub big2littles : ℕ → ℕ
big2littles be = u16 (be * 256 + be / 256)

-- For a length other than 1 and 2 the C code returns an uninitialised variable.
pub little2bigs_type : ℕ → ℕ → Option ℕ
little2bigs_type num len =
    if len == 2 then some (u16 (num * 256 + num / 256)) else if len == 1 then some num else none

-- `*((char *)&be)`: the low byte as a signed `char`.
pub signed_char : ℕ → ℕ
signed_char be = if ltb (be % 256) 128 then be % 256 else u16 (be % 256 + 65280)

pub big2littles_type : ℕ → ℕ → Option ℕ
unfolding signed_char
big2littles_type be len =
    if len == 2
    then some (u16 (be * 256 + be / 256))
    else if len == 1
    then some (signed_char be)
    else none

pub little2bigs_len : ℕ → ℕ
little2bigs_len num = u16 (num * 256 + num / 256)

pub big2littles_len : ℕ → ℕ
big2littles_len be = u16 (be * 256 + be / 256)

pub data ObjType : Type 0 where
  invalid : ObjType
  tlv : ObjType
  object : ObjType
  array : ObjType

-- The fields of struct tagKamiTlv that are not links.
pub record Head : Type 0 where
  pub type : ℕ
  pub type_len : ℕ
  pub length : ℕ
  pub obj_type : ObjType
  pub value : List ℕ

mutual
  pub data Item : Type 0 where
    node : Head → Items → Item

  -- The list that starts at `child`.
  pub data Items : Type 0 where
    end : Items
    next : Item → Items → Items

abbrev pub head : Item → Head
head (node h cs) = h

abbrev pub child : Item → Items
child (node h cs) = cs

-- `allocated` says whether `malloc` succeeds.
pub create_object : Bool → ℕ → Option Item
create_object allocated type_len =
    if allocated
    then some (
        node (record { type = 0; type_len = type_len; length = 0; obj_type = object; value = [] })
          end)
    else none

pub create_array : Bool → ℕ → ℕ → Option Item
create_array allocated type len =
    if allocated
    then some (
        node (record { type = type; type_len = len; length = 0; obj_type = array; value = [] }) end)
    else none

-- `memory` is what lies at pValue: the copy of `length` bytes stays inside it, or the call faults.
pub create_tlv : Bool → ℕ → ℕ → List ℕ → ℕ → Run (Unit {0}) (Option Item)
create_tlv allocated type len memory type_len =
    let made =
      node
        (record {
          type = type;
          type_len = type_len;
          length = len;
          obj_type = tlv;
          value = take len memory;
        })
        end in
    if not allocated
    then done none tt
    else if leb len (length memory)
    then done (some made) tt
    else fault

pub append_item : Items → Item → Items
append_item end i = next i end
append_item (next j js) i = next j (append_item js i)

-- How much an item adds to the `length` of the object it joins and of all that hold it.
pub increment : Head → Head → ℕ
increment parent item = elim item.obj_type [
  | tlv ↦ u16 (parent.type_len + 2 + item.length)
  | array ↦ u16 (parent.type_len + 2 + item.length)
  | object ↦ item.length
  | invalid ↦ 0
]

pub grow : ℕ → Head → Head
grow n h = record h { length = u16 (h.length + n) }

-- The item at a path.
mutual
  pub item_at : Item → List ℕ → Option Item
  item_at i [] = some i
  item_at (node h cs) (k ∷ path) = item_among cs k path

  pub item_among : Items → ℕ → List ℕ → Option Item
  item_among end k path = none
  item_among (next j js) zero path = item_at j path
  item_among (next j js) (suc k) path = item_among js k path

-- The loop over the parents is the way back up the path.
mutual
  unfolding append_item grow

  pub join : ℕ → Item → List ℕ → Item → Option Item
  join n (node h cs) [] i = some (node (grow n h) (append_item cs i))
  join n (node h cs) (k ∷ path) i = elim (join_among n cs k path i) [
    | none ↦ none
    | some js ↦ some (node (grow n h) js)
  ]

  pub join_among : ℕ → Items → ℕ → List ℕ → Item → Option Items
  join_among n end k path i = none
  join_among n (next j js) zero path i = elim (join n j path i) [
    | none ↦ none
    | some joined ↦ some (next joined js)
  ]
  join_among n (next j js) (suc k) path i = elim (join_among n js k path i) [
    | none ↦ none
    | some joined ↦ some (next j joined)
  ]

-- Kami_Tlv_AddItemToObject on the item at `path`; a path that leads nowhere has no counterpart.
pub add_item_to_object : Item → List ℕ → Item → Option Item
unfolding item_at increment join
add_item_to_object root path i = elim (item_at root path) [
  | none ↦ none
  | some parent ↦ join (increment (head parent) (head i)) root path i
]

-- The outcomes: a fault, a failed allocation, or the tree with the new item.
pub add_tlv_to_object : Bool → Item → List ℕ → ℕ → ℕ → List ℕ → ℕ → Run (Unit {0}) (Option Item)
unfolding create_tlv add_item_to_object
add_tlv_to_object allocated root path type len memory type_len =
    and_then (create_tlv allocated type len memory type_len)
      λ made. pure (elim made [ none ↦ none | some i ↦ add_item_to_object root path i ])

-- `idx--`.
pub decrement : ℤ → ℤ
decrement (pos zero) = minus_one
decrement (pos (suc n)) = pos n
decrement (negsuc n) = negsuc (suc n)

-- The item of that type that has `idx` of them in front of it; a negative count never meets 0.
unfoldable pub get_among : Items → ℕ → ℤ → Option Item
unfolding decrement
get_among end type idx = none
get_among (next j js) type idx =
    let rest = get_among js type (decrement idx) in
    let skip = get_among js type idx in
    if not ((head j).type == type)
    then skip
    else elim idx [ pos zero ↦ some j | pos (suc _) ↦ rest | negsuc _ ↦ rest ]

unfoldable pub get_object_item : Item → ℕ → ℤ → Option Item
unfolding get_among
get_object_item i type idx = get_among (child i) type idx

pub item_index : Items → ℕ → Option Item
item_index end k = none
item_index (next j js) zero = some j
item_index (next j js) (suc k) = item_index js k

pub get_object_item_index : Item → ℤ → Option Item
unfolding item_index
get_object_item_index i (pos k) = item_index (child i) k
get_object_item_index i (negsuc _) = item_index (child i) 0

unfoldable pub count : Items → ℕ
count end = 0
count (next j js) = count js + 1

pub get_object_number : Item → ℕ
unfolding count
get_object_number i = count (child i)

pub object_length : Item → ℕ
object_length i = (head i).length
