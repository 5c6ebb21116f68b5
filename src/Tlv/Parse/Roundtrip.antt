-- ===== src/Tlv/Parse/Roundtrip.antt =====
-- agent/tlv_parser.c: Kami_Tlv_ParseObject on the byte form of TLVs, and on a message that is too
-- short.
use mathlib.Core.Path.{subst}
use mathlib.Core.List.{append_assoc}
use easymesh.Tlv.Parse.Turn.{turn_added, turn_fault}
use easymesh.Prelude.Run.{fault, done}
use easymesh.Prelude.{
  ℕ, List, drop, ◌≡◌, ◌<◌, ap, ◌+◌, length, suc, arith, false, refl, true, take, ◌++◌, sym, ◌∙◌,
  some, zero, inl, inr, length-append, ltb, drop-append_length, take-append_length, ◌-◌, [],
}
use easymesh.Tlv.{
  Head, Item, Items, node, end, next, tlv, append_item, grow, increment, create_object, object,
}
use easymesh.Tlv.Encode.{encode_head, encode, encode_items}
use easymesh.Tlv.Parse.{parse_loop, continues, parse_object}
use easymesh.Tlv.Parse.Read.{Plain, drop-value, drop-drop, Plain-Framed, Framed}

-- A TLV without children that the parser reads back unchanged.
pub record PlainTlv (len : ℕ) (h : Head) : Type 0 where
  pub plain : Plain len h
  pub kind : h.obj_type ≡ tlv
  pub value_fits : length h.value ≡ h.length

-- TLVs in a row; the last has a value that is not empty.
unfoldable pub PlainTlvs : ℕ → Items → Type 0
PlainTlvs len end = Unit {0}
PlainTlvs len (next (node h end) end) = PlainTlv len h × (0 < h.length)
PlainTlvs len (next (node h end) (next j js)) = PlainTlv len h × PlainTlvs len (next j js)
PlainTlvs len (next (node h (next k ks)) js) = ⊥

abbrev pub append_all : Items → Items → Items
append_all end ks = ks
append_all (next j js) ks = next j (append_all js ks)

pub append_item-append_all :
    (js : Items) (i : Item) (ks : Items)
    → append_all (append_item js i) ks ≡ append_all js (next i ks)
unfolding append_item
append_item-append_all end i ks = refl
append_item-append_all (next j js) i ks = ap (next j) (append_item-append_all js i ks)

length-encode_head : (len : ℕ) (h : Head) → Plain len h → length (encode_head h) ≡ len + 2
length-encode_head len h p = elim p.type [
  | inl (e, _) ↦ let one : h.type_len ≡ 1 = p.width ∙ e in rw (one, e) refl
  | inr (e, _) ↦ let two : h.type_len ≡ 2 = p.width ∙ e in rw (two, e) refl
]

-- The encoding of a row that starts with a TLV.
encode_items-next :
    (h : Head) (js : Items)
    → h.obj_type ≡ tlv
    → encode_items (next (node h end) js) ≡ encode_head h ++ (h.value ++ encode_items js)
unfolding encode
encode_items-next h js kind = rw (kind, append_assoc (encode_head h) h.value (encode_items js)) refl

tail_PlainTlvs :
    (len : ℕ) (h : Head) (js : Items)
    → PlainTlvs len (next (node h end) js)
    → PlainTlv len h × PlainTlvs len js
unfolding PlainTlvs
tail_PlainTlvs len h end (p, b) = (p, tt)
tail_PlainTlvs len h (next j js) (p, ps) = (p, ps)

length-encode_items-next :
    (len : ℕ) (h : Head) (js : Items)
    → PlainTlv len h
    → length (encode_items (next (node h end) js)) ≡ len + 2 + h.length + length (encode_items js)
length-encode_items-next len h js q = omega (
  arith,
  ap (λ xs. length xs) (encode_items-next h js q.kind),
  length-append (encode_head h) (h.value ++ encode_items js),
  length-append h.value (encode_items js),
  length-encode_head len h q.plain,
  q.value_fits,
)

not_over :
    (len : ℕ) (h : Head) (js : Items)
    → PlainTlvs len (next (node h end) js)
    → 0 < h.length + length (encode_items js)
unfolding PlainTlvs
not_over len h end (p, b) = omega arith
not_over len h (next (node g end) js) (p, ps) =
    let (q, _) = tail_PlainTlvs len g js ps in omega (arith, length-encode_items-next len g js q)
not_over len h (next (node g (next _ _)) js) (p, ps) = absurd ps

pub append_all-end : (cs : Items) → append_all cs end ≡ cs
append_all-end end = refl
append_all-end (next j js) = ap (next j) (append_all-end js)

parse_loop-encode :
    (ts : Items) (k len offset : ℕ) (memory : List ℕ) (root : Head) (cs : Items)
    → PlainTlvs len ts
    → drop offset memory ≡ encode_items ts
    → length memory ≡ offset + length (encode_items ts)
    → length (encode_items ts) < k
    → (g : Head) × (parse_loop k (λ _. true) memory (length memory) len offset (node root cs)
        ≡ done (some (node g (append_all cs ts))) tt)
unfolding parse_loop encode continues PlainTlvs
parse_loop-encode end zero len offset memory root cs p here size fuel = absurd (omega arith)
parse_loop-encode end (suc k) len offset memory root cs p here size fuel =
    let over : ltb (length memory) offset ≡ false = ground (arith, size) in
    let none_left : ltb (len + 2) (length memory - offset) ≡ false = ground (arith, size) in
    (root, rw (over, none_left, append_all-end cs) refl)
parse_loop-encode (next (node h (next _ _)) js) k len offset memory root cs p here size fuel =
    absurd p
parse_loop-encode (next (node h end) js) zero len offset memory root cs p here size fuel =
    absurd (omega arith)
parse_loop-encode (next (node h end) js) (suc k) len offset memory root cs p here size fuel =
    let (q, ps) = tail_PlainTlvs len h js p in
    let total = length-encode_items-next len h js q in
    let left = not_over len h js p in
    let tail = h.value ++ encode_items js in
    let sum = length-append h.value (encode_items js) in
    let next_here : drop offset memory ≡ encode_head h ++ tail =
      here ∙ encode_items-next h js q.kind in
    let value : take h.length tail ≡ h.value =
      ap (λ n. take n tail) (sym q.value_fits) ∙ take-append_length h.value (encode_items js) in
    let rest : drop h.length tail ≡ encode_items js =
      ap (λ n. drop n tail) (sym q.value_fits) ∙ drop-append_length h.value (encode_items js) in
    let following : drop (offset + len + 2 + h.length) memory ≡ encode_items js =
      sym (drop-drop memory (offset + len + 2) h.length)
      ∙ ap (λ xs. drop h.length xs)
          (drop-value memory offset len h (Plain-Framed q.plain) tail next_here)
      ∙ rest in
    let more : continues (length memory) offset len ≡ true = ground (arith, size, total, left) in
    let turn =
      turn_added memory offset len h (Plain-Framed q.plain) tail next_here k (length memory) root cs
        q.plain more (omega (arith, sum, q.value_fits)) q.kind value in
    let (g, run) =
      parse_loop-encode js k len (offset + len + 2 + h.length) memory (grow (increment root h) root)
        (append_item cs (node h end)) ps following (omega (arith, size, total))
        (omega (arith, fuel, total)) in
    (
      g,
      turn
          ∙ run
          ∙ ap (λ cs. done (some (node g cs)) tt) (append_item-append_all cs (node h end) js),
    )

-- Kami_Tlv_ParseObject returns the TLVs whose byte form the message is, in order and with nothing
-- else, where there is at least one, types are below 128 if they have one byte, no TLV has
-- children, the last value is not empty, and no allocation fails.
pub parse_object-encode :
    (len : ℕ) (h : Head) (js : Items)
    → PlainTlvs len (next (node h end) js)
    → (g : Head) × (parse_object true
          (λ _. true)
          (encode_items (next (node h end) js))
          (length (encode_items (next (node h end) js)))
          len
        ≡ done (some (node g (next (node h end) js))) tt)
unfolding parse_object create_object
parse_object-encode len h js p =
    let (q, ps) = tail_PlainTlvs len h js p in
    let long : ltb (length (encode_items (next (node h end) js))) (len + 2) ≡ false =
      ground (arith, length-encode_items-next len h js q) in
    let (g, run) =
      parse_loop-encode (next (node h end) js) (length (encode_items (next (node h end) js)) + 1)
        len 0 (encode_items (next (node h end) js))
        (record { type = 0; type_len = len; length = 0; obj_type = object; value = [] }) end p refl
        (omega arith) (omega arith) in
    (g, rw long run)

length-encode_head-Framed : (len : ℕ) (h : Head) → Framed len h → length (encode_head h) ≡ len + 2
length-encode_head-Framed len h p = elim p.type [
  | inl (e, b) ↦ let one : h.type_len ≡ 1 = p.width ∙ e in rw (one, e) refl
  | inr (e, b) ↦ let two : h.type_len ≡ 2 = p.width ∙ e in rw (two, e) refl
]

-- Kami_Tlv_ParseObject reads past the end of a message whose first TLV, of any type and length
-- that fit their fields, has a length that goes past it, if the message is longer than the head
-- of that TLV and no allocation fails.
pub parse_object-fault :
    (len : ℕ) (h : Head) (tail : List ℕ)
    → Framed len h
    → 0 < length tail
    → length tail < h.length
    → parse_object true (λ _. true) (encode_head h ++ tail) (length (encode_head h ++ tail)) len
      ≡ fault
unfolding parse_object create_object continues
parse_object-fault len h tail p present short =
    let message = encode_head h ++ tail in
    let size : length message ≡ len + 2 + length tail =
      omega (arith, length-append (encode_head h) tail, length-encode_head-Framed len h p) in
    let long : ltb (length message) (len + 2) ≡ false = ground (arith, size) in
    let more : continues (length message) 0 len ≡ true = ground (arith, size) in
    let fuel : length message + 1 ≡ suc (length message) = omega arith in
    let root : Item =
      node (record { type = 0; type_len = len; length = 0; obj_type = object; value = [] }) end in
    rw long (
      subst (λ k. parse_loop k (λ _. true) message (length message) len 0 root ≡ fault) (sym fuel)
        (turn_fault message 0 len h p tail refl (length message) (length message) root more short))
