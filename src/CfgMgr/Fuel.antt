-- ===== src/CfgMgr/Fuel.antt =====
-- cfg_mgr/cfg_mgr.c: how many turns the loop over the WSC elements takes.
use easymesh.Prelude.{
  ℕ, zero, suc, ◌≡◌, ◌≤◌, ◌<◌, ◌+◌, refl, ap, Bool-cases, inl, inr, ltb, arith, none,
}
use easymesh.Prelude.Int.{pos}
use easymesh.Tlv.{Item, Items, next, end, get_among, get_object_item, count, child}
use easymesh.CfgMgr.{Memory, wsc_loop, wsc_element}

-- There are no more items of a type than items.
get_among-none : (js : Items) (type i : ℕ) → count js ≤ i → get_among js type (pos i) ≡ none
unfolding get_among count
get_among-none end type i few = refl
get_among-none (next j js) type zero few = absurd (omega (arith, few))
get_among-none (next j js) type (suc i) few =
    let rest = get_among-none js type i (omega (arith, few)) in
    let skipped = get_among-none js type (suc i) (omega (arith, few)) in
    ground (arith, rest, skipped)

-- Any fuel above the number of items gives the same run.
wsc_loop-fuel :
    (memory : Memory) (root : Item) (k m i : ℕ)
    → i ≤ count (child root)
    → count (child root) < i + k
    → count (child root) < i + m
    → wsc_loop memory k root i ≡ wsc_loop memory m root i
unfolding wsc_loop wsc_element get_object_item
wsc_loop-fuel memory root zero m i low a b = absurd (omega (arith, low, a))
wsc_loop-fuel memory root (suc k) zero i low a b = absurd (omega (arith, low, b))
wsc_loop-fuel memory root (suc k) (suc m) i low a b =
    elim (Bool-cases (ltb i (count (child root)))) [
      | inl more ↦
          ap (λ rest. wsc_element memory rest (get_object_item root 17 (pos i)))
            (wsc_loop-fuel memory root k m (i + 1) (ground (arith, more)) (omega (arith, a))
              (omega (arith, b)))
      | inr over ↦ rw (get_among-none (child root) 17 i (ground (arith, over))) refl
    ]
