-- ===== src/Tlv/Parse/Read.antt =====
-- agent/tlv_parser.c: what Kami_Tlv_ParseObject reads of one item.
use easymesh.Prelude.Run.{done}
use easymesh.Prelude.{
  sym, ℕ, List, drop, get_or, ◌≡◌, suc, zero, ◌++◌, ◌≤◌, arith, length, ◌+◌, some, ◌⊎◌, ◌∷◌, refl,
  ◌<◌, [], ◌/◌, leb, ◌%◌, ◌∙◌, true, ◌*◌, length-drop, ap, inl, inr, Bool-cases, ltb,
}
use easymesh.Tlv.{Head, big2littles_type, big2littles_len}
use easymesh.Tlv.Encode.{encode_head}
use easymesh.Tlv.Swap.{big2littles_type-one, big2littles_type-high, big2littles_type-two}
use easymesh.Tlv.Parse.{load_u16}

get_or-drop : (xs : List ℕ) (n i : ℕ) → get_or (drop n xs) i 0 ≡ get_or xs (n + i) 0
get_or-drop xs zero i = ground arith
get_or-drop [] (suc n) i = refl
get_or-drop (x ∷ xs) (suc n) i = ground (arith, get_or-drop xs n i)

drop-nil : (n : ℕ) → drop {A = ℕ} n [] ≡ []
drop-nil zero = refl
drop-nil (suc n) = refl

pub drop-drop : (xs : List ℕ) (n m : ℕ) → drop m (drop n xs) ≡ drop (n + m) xs
drop-drop xs zero m = ground arith
drop-drop [] (suc n) m = drop-nil m ∙ sym (drop-nil (suc n + m))
drop-drop (x ∷ xs) (suc n) m =
    let e : suc n + m ≡ suc (n + m) = omega arith in rw e (drop-drop xs n m)

-- The head of an item that the parser reads back unchanged: a type of one byte is below 128.
pub record Plain (len : ℕ) (h : Head) : Type 0 where
  pub width : h.type_len ≡ len
  pub type : ((len ≡ 1) × (h.type < 128)) ⊎ ((len ≡ 2) × (h.type < 65536))
  pub length_fits : h.length < 65536

-- The head of an item whose fields fit into their bytes.
pub record Framed (len : ℕ) (h : Head) : Type 0 where
  pub width : h.type_len ≡ len
  pub type : ((len ≡ 1) × (h.type < 256)) ⊎ ((len ≡ 2) × (h.type < 65536))
  pub length_fits : h.length < 65536

pub Plain-Framed : {len : ℕ} {h : Head} → Plain len h → Framed len h
Plain-Framed p = record {
  width = p.width;
  type = elim p.type [ inl (e, b) ↦ inl (e, omega (arith, b)) | inr w ↦ inr w ];
  length_fits = p.length_fits;
}

Plain-below : {len : ℕ} {h : Head} → Plain len h → len ≡ 1 → h.type < 128
Plain-below p one = elim p.type [ inl (e, b) ↦ b | inr (e, b) ↦ absurd (omega (arith, one, e)) ]

module _ (memory : List ℕ) (offset len : ℕ) (h : Head) (p : Framed len h) (tail : List ℕ)
    (here : drop offset memory ≡ encode_head h ++ tail) where
  -- The bytes from `offset` on, for either width.
  shape :
      ((len ≡ 1)
        × (h.type < 256)
        × (drop offset memory ≡ h.type ∷ h.length / 256 ∷ h.length % 256 ∷ tail))
      ⊎ ((len ≡ 2)
          × (h.type < 65536)
          × (drop offset memory
              ≡ h.type / 256 ∷ h.type % 256 ∷ h.length / 256 ∷ h.length % 256 ∷ tail))
  shape = elim p.type [
    | inl (e, b) ↦ let one : h.type_len ≡ 1 = p.width ∙ e in inl (e, b, here ∙ rw one refl)
    | inr (e, b) ↦ let two : h.type_len ≡ 2 = p.width ∙ e in inr (e, b, here ∙ rw two refl)
  ]

  pub room : offset + len + 2 + length tail ≤ length memory
  room = elim shape [
    | inl (e, b, bytes) ↦ omega (arith, length-drop offset memory, ap (λ xs. length xs) bytes)
    | inr (e, b, bytes) ↦ omega (arith, length-drop offset memory, ap (λ xs. length xs) bytes)
  ]

  byte : (i : ℕ) → get_or memory (offset + i) 0 ≡ get_or (drop offset memory) i 0
  byte i = sym (get_or-drop memory offset i)

  -- The type as the parser reads it, which is the type of the item if that is plain.
  pub load_u16-type :
      (raw : ℕ) × (t : ℕ) × (load_u16 memory offset ≡ done raw tt)
      × (big2littles_type raw len ≡ some t)
      × (Plain len h → t ≡ h.type)
  unfolding load_u16
  load_u16-type =
      let inside : leb (offset + 2) (length memory) ≡ true = ground (arith, room, p.type) in
      let start : offset + 0 ≡ offset = omega arith in
      elim shape [
        | inl (e, b, bytes) ↦
            let first : get_or memory offset 0 ≡ h.type =
              ap (λ n. get_or memory n 0) (sym start) ∙ byte 0 ∙ ap (λ xs. get_or xs 0 0) bytes in
            let raw = h.type + 256 * get_or memory (offset + 1) 0 in
            elim (Bool-cases (ltb h.type 128)) [
              | inl low ↦ (
                raw,
                h.type,
                rw (inside, first) refl,
                rw e (big2littles_type-one h.type _ (ground (arith, low))),
                λ q. refl,
              )
              | inr large ↦ (
                raw,
                h.type + 65280,
                rw (inside, first) refl,
                rw e (big2littles_type-high h.type _ (ground (arith, large)) b),
                λ q. absurd (ground (arith, large, Plain-below q e)),
              )
            ]
        | inr (e, b, bytes) ↦
            let first : get_or memory offset 0 ≡ h.type / 256 =
              ap (λ n. get_or memory n 0) (sym start) ∙ byte 0 ∙ ap (λ xs. get_or xs 0 0) bytes in
            let second : get_or memory (offset + 1) 0 ≡ h.type % 256 =
              byte 1 ∙ ap (λ xs. get_or xs 1 0) bytes in
            (
              h.type / 256 + 256 * (h.type % 256),
              h.type,
              rw (inside, first, second) refl,
              rw e (big2littles_type-two h.type b),
              λ q. refl,
            )
      ]

  high : get_or memory (offset + len) 0 ≡ h.length / 256
  high = byte len ∙ elim shape [
    | inl (e, b, bytes) ↦ rw (e, bytes) refl
    | inr (e, b, bytes) ↦ rw (e, bytes) refl
  ]

  low : get_or memory (offset + len + 1) 0 ≡ h.length % 256
  low =
      let next : offset + len + 1 ≡ offset + (len + 1) = omega arith in
      rw next (
        byte (len + 1) ∙ elim shape [
          | inl (e, b, bytes) ↦ rw (e, bytes) refl
          | inr (e, b, bytes) ↦ rw (e, bytes) refl
        ])

  pub load_u16-length :
      (raw : ℕ) × (load_u16 memory (offset + len) ≡ done raw tt) × (big2littles_len raw ≡ h.length)
  unfolding load_u16 big2littles_len
  load_u16-length =
      let inside : leb (offset + len + 2) (length memory) ≡ true = ground (arith, room) in
      (
        h.length / 256 + 256 * (h.length % 256),
        rw (inside, high, low) refl,
        omega (arith, p.length_fits),
      )

  pub drop-value : drop (offset + len + 2) memory ≡ tail
  drop-value =
      let next : offset + len + 2 ≡ offset + (len + 2) = omega arith in
      rw next (
        sym (drop-drop memory offset (len + 2)) ∙ elim shape [
          | inl (e, b, bytes) ↦ rw (e, bytes) refl
          | inr (e, b, bytes) ↦ rw (e, bytes) refl
        ])
