-- ===== src/Tlv/Count.antt =====
-- agent/tlv_parser.c: the `length` of containers under Kami_Tlv_AddItemToObject.
use mathlib.Core.Path.{subst}
use mathlib.Core.Option.{some-injective}
use easymesh.Prelude.{
  ℕ, List, ◌+◌, ◌≡◌, ◌≢◌, ◌%◌, arith, some, suc, refl, ◌∷◌, zero, [], ◌∙◌, sym, ap, none, Option,
}
use easymesh.Tlv.{
  Item, Items, Head, node, end, next, tlv, array, object, invalid, join, join_among, item_at,
  item_among, append_item, grow, increment, add_item_to_object, head,
}

-- How many bytes an item takes in the container around it.
abbrev pub weight : Head → ℕ
weight h = elim h.obj_type [
  | tlv ↦ h.type_len + 2 + h.length
  | array ↦ h.type_len + 2 + h.length
  | object ↦ h.length
  | invalid ↦ 0
]

abbrev pub total : Items → ℕ
total end = 0
total (next j js) = weight (head j) + total js

-- An item of a tree whose types have the width `len`.
pub record CountedHead (len : ℕ) (h : Head) (cs : Items) : Type 0 where
  pub width : h.type_len ≡ len
  pub valid : h.obj_type ≢ invalid
  pub sum : h.obj_type ≢ tlv → h.length ≡ total cs % 65536

-- The length of every container is the sum of what it holds, as a 16-bit number.
unfoldable mutual
  pub Counted : ℕ → Item → Type 0
  Counted len (node h cs) = CountedHead len h cs × CountedAll len cs

  pub CountedAll : ℕ → Items → Type 0
  CountedAll len end = Unit {0}
  CountedAll len (next j js) = Counted len j × CountedAll len js

grow-weight :
    (n : ℕ) (h : Head) → h.obj_type ≢ invalid → weight (grow n h) % 65536 ≡ (weight h + n) % 65536
unfolding grow
grow-weight n h valid =
    elim h.obj_type
        as (λ o.
          h.obj_type ≡ o
          → weight (record (grow n h) { obj_type = o }) % 65536
            ≡ (weight (record h { obj_type = o }) + n) % 65536) [
              | tlv ↦ λ _. omega arith
              | array ↦ λ _. omega arith
              | object ↦ λ _. omega arith
              | invalid ↦ λ e. absurd (valid e)
            ]
      refl

increment-like :
    (parent h : Head) → parent.type_len ≡ h.type_len → increment parent h % 65536 ≡ weight h % 65536
unfolding increment
increment-like parent h e =
    elim h.obj_type
      as (λ o.
        increment parent (record h { obj_type = o }) % 65536
        ≡ weight (record h { obj_type = o }) % 65536) [
          | tlv ↦ omega arith
          | array ↦ omega arith
          | object ↦ refl
          | invalid ↦ refl
        ]

Counted-width : {len : ℕ} (i : Item) → Counted len i → (head i).type_len ≡ len
unfolding Counted
Counted-width (node h cs) (w, ws) = w.width

module _ (len : ℕ) (i : Item) (c : Counted len i) where
  append_item-total : (js : Items) → total (append_item js i) ≡ total js + weight (head i)
  unfolding append_item
  append_item-total end = omega arith
  append_item-total (next j js) = omega (arith, append_item-total js)

  append_item-Counted : (js : Items) → CountedAll len js → CountedAll len (append_item js i)
  unfolding append_item Counted
  append_item-Counted end w = (c, tt)
  append_item-Counted (next j js) (w, ws) = (w, append_item-Counted js ws)

  increment-weight :
      (parent : Head)
      → parent.type_len ≡ len
      → (increment parent (head i)) % 65536 ≡ weight (head i) % 65536
  increment-weight parent e = increment-like parent (head i) (e ∙ sym (Counted-width i c))

  -- What the loop over the parents does to one of them.
  grown :
      (n : ℕ) (h : Head) (cs ds : Items)
      → n % 65536 ≡ weight (head i) % 65536
      → CountedHead len h cs
      → total ds % 65536 ≡ (total cs + n) % 65536
      → CountedHead len (grow n h) ds
  unfolding grow
  grown n h cs ds e w t = record {
    width = w.width;
    valid = w.valid;
    sum = λ ne. omega (arith, w.sum ne);
  }

  mutual
    unfolding join item_at Counted

    join-Counted :
        (n : ℕ) (root : Item) (path : List ℕ) (p : Item)
        → n % 65536 ≡ weight (head i) % 65536
        → Counted len root
        → item_at root path ≡ some p
        → (r : Item) × (join n root path i ≡ some r)
          × Counted len r
          × (weight (head r) % 65536 ≡ (weight (head root) + n) % 65536)
    join-Counted n (node h cs) [] p e (w, ws) at = (
      node (grow n h) (append_item cs i),
      refl,
      (grown n h cs _ e w (omega (arith, append_item-total cs)), append_item-Counted cs ws),
      grow-weight n h w.valid,
    )
    join-Counted n (node h cs) (k ∷ path) p e (w, ws) at =
        let (ds, joins, counted, sum) = join_among-Counted n cs k path p e ws at in
        (
          node (grow n h) ds,
          ap
              (λ o. elim o as (λ _. Option Item) [
                | none ↦ none
                | some js ↦ some (node (grow n h) js)
              ])
              joins,
          (grown n h cs ds e w sum, counted),
          grow-weight n h w.valid,
        )

    join_among-Counted :
        (n : ℕ) (cs : Items) (k : ℕ) (path : List ℕ) (p : Item)
        → n % 65536 ≡ weight (head i) % 65536
        → CountedAll len cs
        → item_among cs k path ≡ some p
        → (ds : Items) × (join_among n cs k path i ≡ some ds)
          × CountedAll len ds
          × (total ds % 65536 ≡ (total cs + n) % 65536)
    join_among-Counted n end k path p e ws at = absurd (ground (arith, at))
    join_among-Counted n (next j js) zero path p e (w, ws) at =
        let (r, joins, counted, sum) = join-Counted n j path p e w at in
        (
          next r js,
          ap
              (λ o. elim o as (λ _. Option Items) [
                | none ↦ none
                | some joined ↦ some (next joined js)
              ])
              joins,
          (counted, ws),
          omega (arith, sum),
        )
    join_among-Counted n (next j js) (suc k) path p e (w, ws) at =
        let (ds, joins, counted, sum) = join_among-Counted n js k path p e ws at in
        (
          next j ds,
          ap
              (λ o. elim o as (λ _. Option Items) [
                | none ↦ none
                | some joined ↦ some (next j joined)
              ])
              joins,
          (w, counted),
          omega (arith, sum),
        )

mutual
  unfolding item_at Counted

  item_at-Counted :
      (len : ℕ) (root : Item) (path : List ℕ) (p : Item)
      → Counted len root
      → item_at root path ≡ some p
      → Counted len p
  item_at-Counted len root [] p c e = subst (Counted len) (some-injective _ _ e) c
  item_at-Counted len (node h cs) (k ∷ path) p (w, ws) e = item_among-Counted len cs k path p ws e

  item_among-Counted :
      (len : ℕ) (cs : Items) (k : ℕ) (path : List ℕ) (p : Item)
      → CountedAll len cs
      → item_among cs k path ≡ some p
      → Counted len p
  item_among-Counted len end k path p ws e = absurd (ground (arith, e))
  item_among-Counted len (next j js) zero path p (w, ws) e = item_at-Counted len j path p w e
  item_among-Counted len (next j js) (suc k) path p (w, ws) e =
      item_among-Counted len js k path p ws e

-- In a tree with one type width, where the 16-bit length of every container is the sum of what it
-- holds, Kami_Tlv_AddItemToObject at a path that leads to an item succeeds and keeps this so for
-- every container. The root gains what the new item weighs, as a 16-bit number.
pub add_item_to_object-Counted :
    (len : ℕ) (root : Item) (path : List ℕ) (p i : Item)
    → Counted len root
    → Counted len i
    → item_at root path ≡ some p
    → (r : Item) × (add_item_to_object root path i ≡ some r)
      × Counted len r
      × (weight (head r) % 65536 ≡ (weight (head root) + weight (head i)) % 65536)
unfolding add_item_to_object
add_item_to_object-Counted len root path p i c w at =
    let width = Counted-width p (item_at-Counted len root path p c at) in
    let inc = increment-weight len i w (head p) width in
    let (r, joins, counted, sum) = join-Counted len i w _ root path p inc c at in
    (
      r,
      ap
            (λ o. elim o as (λ _. Option Item) [
              | none ↦ none
              | some parent ↦ join (increment (head parent) (head i)) root path i
            ])
            at
          ∙ joins,
      counted,
      omega (arith, sum, inc),
    )
