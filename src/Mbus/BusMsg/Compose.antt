-- ===== src/Mbus/BusMsg/Compose.antt =====
-- mbus/bus_msg.c: a message that is built holds exactly the byte form of its fields.
use easymesh.Tlv.Fields.{
  field_head, object_head, add_tlv_to_object-added, create_object-empty, object_length-object,
}
use easymesh.Prelude.{
  ℕ, List, ◌≡◌, some, ◌∷◌, [], length, ◌<◌, true, ◌+◌, get_or, refl, arith, inr, sym, suc, ap,
  length-append, ◌∙◌, le→leb, leb,
}
use easymesh.Prelude.Run.{done, Returns-inv}
use easymesh.Mbus.BusMsg.{
  Peer, Memory, message_bytes, add_fields, first_bytes, pack_message, message_of_root, compose,
}
use easymesh.Tlv.{Item, Items, node, end, next, u16, append_item, create_object, object_length}
use easymesh.Tlv.Print.{PrintBuffer, print}
use easymesh.Tlv.Print.Value.{print-encode}
use easymesh.Tlv.Encode.{encode, encode_items, Fits, FitsAll, FitsHead}
use easymesh.Tlv.Parse.Roundtrip.{append_all, append_item-append_all, append_all-end}

-- The TLVs of some fields.
abbrev pub items_of : List (ℕ × List ℕ) → Items
items_of [] = end
items_of ((type, value) ∷ fields) = next (node (field_head type value) end) (items_of fields)

abbrev pub size_of : List (ℕ × List ℕ) → ℕ
size_of [] = 0
size_of ((type, value) ∷ fields) = length value + 4 + size_of fields

-- Types and lengths of two bytes.
abbrev pub AreFields : List (ℕ × List ℕ) → Type 0
AreFields [] = Unit
AreFields ((type, value) ∷ fields) = (type < 65536) × (length value < 65536) × AreFields fields

-- No allocation fails.
pub record IsPlenty (m : Memory) : Type 0 where
  pub root : m.root ≡ true
  pub item : m.item ≡ (λ _. true)
  pub buffer : m.buffer ≡ true
  pub grown : (n : ℕ) → m.grown n ≡ true
  pub message : m.message ≡ true
  pub parsed : m.parsed ≡ true
  pub parsed_item : m.parsed_item ≡ (λ _. true)

add_fields-Built :
    (m : Memory) (fields : List (ℕ × List ℕ)) (k n : ℕ) (cs : Items)
    → m.item ≡ (λ _. true)
    → AreFields fields
    → n + size_of fields < 65536
    → add_fields m k (node (object_head n) cs) fields
      ≡ done (node (object_head (n + size_of fields)) (append_all cs (items_of fields))) tt
unfolding add_fields
add_fields-Built m [] k n cs got v small =
    let total : n ≡ n + 0 = omega arith in
    ap (λ t. done (node (object_head t) cs) tt) total
    ∙ ap (λ js. done (node (object_head (n + 0)) js) tt) (sym (append_all-end cs))
add_fields-Built m ((type, value) ∷ fields) k n cs got v small =
    let i : Item = node (field_head type value) end in
    let n' = u16 (n + u16 (4 + length value)) in
    let size : n' ≡ n + (length value + 4) = omega arith in
    let total : n + (length value + 4) + size_of fields ≡ n + (length value + 4 + size_of fields) =
      omega arith in
    let allowed : m.item k ≡ true = ap (λ f. f k) got in
    rw (allowed, add_tlv_to_object-added n cs type value v.1, size)
      (add_fields-Built m fields (k + 1) (n + (length value + 4)) (append_item cs i) got v.2
          (omega arith)
        ∙ ap (λ t. done (node (object_head t) (append_all (append_item cs i) (items_of fields))) tt)
            total
        ∙ ap (λ js. done (node (object_head (n + (length value + 4 + size_of fields))) js) tt)
            (append_item-append_all cs i (items_of fields)))

items_of-FitsAll : (fields : List (ℕ × List ℕ)) → AreFields fields → FitsAll (items_of fields)
unfolding Fits
items_of-FitsAll [] v = tt
items_of-FitsAll ((type, value) ∷ fields) v = (
  (
    record {
      width = inr refl;
      type_fits = omega (arith, v.0);
      length_fits = v.1;
      value_fits = λ _. refl;
      valid = λ e. absurd (ground arith);
    },
    tt,
  ),
  items_of-FitsAll fields v.2,
)

pub length-encode_items :
    (fields : List (ℕ × List ℕ)) → length (encode_items (items_of fields)) ≡ size_of fields
unfolding encode
length-encode_items [] = refl
length-encode_items ((type, value) ∷ fields) =
    omega (arith, length-append value (encode_items (items_of fields)), length-encode_items fields)

length-first_bytes :
    (f : ℕ → ℕ) (xs : List ℕ) (i : ℕ)
    → ((k : ℕ) → k < length xs → f (i + k) ≡ get_or xs k 0)
    → first_bytes f i (length xs) ≡ xs
length-first_bytes f [] i h = refl
length-first_bytes f (x ∷ xs) i h =
    let zero_off : i + 0 ≡ i = omega arith in
    let tail =
      length-first_bytes f xs (i + 1) (λ k b. ap f (omega arith) ∙ h (suc k) (omega arith)) in
    rw tail (ap (λ b. b ∷ xs) (ap f (sym zero_off) ∙ h 0 (omega arith)))

-- What the printer gives for the object that holds the fields.
printed_form :
    (m : Memory) (fields : List (ℕ × List ℕ))
    → IsPlenty m
    → AreFields fields
    → size_of fields < 65536
    → (f : ℕ → ℕ) × (state : PrintBuffer) × (print m.buffer m.grown m.junk
          (node (object_head (size_of fields)) (items_of fields))
        ≡ done (some (length (encode_items (items_of fields)), f)) state)
      × ((k : ℕ)
          → k < length (encode_items (items_of fields))
          → f k ≡ get_or (encode_items (items_of fields)) k 0)
unfolding encode Fits
printed_form m fields v fs small =
    let head_fits : FitsHead (object_head (size_of fields)) = record {
      width = inr refl;
      type_fits = omega arith;
      length_fits = small;
      value_fits = λ e. absurd (ground arith);
      valid = λ e. absurd (ground arith);
    } in
    let (r, state, ran, (f, shape, same)) = Returns-inv (
      print-encode m.grown v.grown (node (object_head (size_of fields)) (items_of fields)) m.junk
        (head_fits, items_of-FitsAll fields fs) (omega (arith, length-encode_items fields))) in
    (f, state, rw v.buffer (ran ∙ ap (λ o. done o state) shape), same)

-- The message that some fields make.
abbrev pub message_of : ℕ → List (ℕ × List ℕ) → List ℕ
message_of command fields =
    message_bytes (length (encode_items (items_of fields))) command (encode_items (items_of fields))

pub compose-message_of :
    (m : Memory) (command : ℕ) (fields : List (ℕ × List ℕ)) (s : Peer)
    → IsPlenty m
    → AreFields fields
    → size_of fields < 65536
    → compose m command fields s ≡ done (some (message_of command fields)) s
unfolding compose message_of_root pack_message encode
compose-message_of m command fields s v fs small =
    let cs = items_of fields in
    let made : create_object m.root 2 ≡ some (node (object_head 0) end) =
      rw v.root create_object-empty in
    let built = add_fields-Built m fields 0 0 end v.item fs (omega arith) in
    let size : 0 + size_of fields ≡ size_of fields = omega arith in
    let (f, state, ran, same) = printed_form m fields v fs small in
    rw (made, built, size, ran)
      (let bytes = encode_items (items_of fields) in
        let long : object_length (node (object_head (size_of fields)) cs) ≡ length bytes =
          object_length-object (size_of fields) cs ∙ sym (length-encode_items fields) in
        let inside : leb (length bytes) (length bytes + 1) ≡ true = le→leb _ _ (omega arith) in
        let zero_on : (k : ℕ) → k < length bytes → f (0 + k) ≡ get_or bytes k 0 =
          λ k b. let e : 0 + k ≡ k = omega arith in ap f e ∙ same k b in
        rw (v.message, long, inside, length-first_bytes f bytes 0 zero_on) refl)
