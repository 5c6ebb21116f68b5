-- ===== src/Timer/Minheap/Up.antt =====
-- timer/minheap.c, min_heap_shift_up: the hole climbs until the element may fill it.
use easymesh.Prelude.{ℕ, zero, suc, ◌+◌, ◌≤◌, ◌<◌, ◌≡◌, arith, ltb, leb, Bool-cases, inl, inr}
use easymesh.Prelude.Run.{Ptr, Returns, returns, Returns-mono}
use easymesh.Timer.Minheap.{MinHeap, parent, shift_up_loop, min_heap_shift_up}
use easymesh.Timer.Minheap.Order.{
  time_of, time_at, Hole, Shifted, moved, load_slot-done, load_entry-done, place-done,
  place-Shifted, step-placed, step-indexed, step-other, time_at-moved, Shifted-moved,
}

-- The element is no later than the children of the hole.
abbrev pub Below : MinHeap → ℕ → ℕ → Ptr → Type 0
Below h n i elem = (c : ℕ) → 0 < c → c < n → parent c ≡ i → time_of h elem ≤ time_at h c

module _ {h : MinHeap} {n i : ℕ} {elem : Ptr} (v : Hole h n i elem) (pos : 0 < i) where
  abbrev climbed : MinHeap
  climbed = moved h i (h.elements (parent i))

  climbed-Hole : Hole climbed n (parent i) elem
  climbed-Hole =
      let within : parent i < n = omega (arith, v.inside) in
      record {
        inside = within;
        room = v.room;
        alive = v.alive;
        placed = step-placed v (parent i) within (omega arith);
        indexed = step-indexed v (parent i) within (omega arith);
        other = step-other v (parent i) within (omega arith);
        order = λ c p b ne up. ground (
          arith,
          v.order c,
          v.bridged c,
          time_at-moved v (parent i) within (omega arith) c,
          time_at-moved v (parent i) within (omega arith) (parent c),
        );
        bridged = λ c p b e q. ground (
          arith,
          v.order c,
          v.order (parent i),
          v.bridged c,
          time_at-moved v (parent i) within (omega arith) c,
          time_at-moved v (parent i) within (omega arith) (parent (parent i)),
        );
      }

  climbed-Below :
      Below h n i elem → time_of h elem < time_at h (parent i) → Below climbed n (parent i) elem
  climbed-Below below early c p b e = ground (
    arith,
    v.order c,
    v.other (parent i),
    time_at-moved v (parent i) (omega (arith, v.inside)) (omega arith) c,
  )

shift_up_loop-Shifted :
    (k : ℕ) {h : MinHeap} {n i : ℕ} {elem : Ptr}
    → i < k
    → Hole h n i elem
    → Below h n i elem
    → Returns (λ _. Shifted h n i elem) (shift_up_loop k i elem h)
unfolding shift_up_loop
shift_up_loop-Shifted zero f v below = absurd (omega arith)
shift_up_loop-Shifted (suc k) {h} {n} {i} {elem} f v below = elim (Bool-cases (ltb 0 i)) [
  | inr root ↦
      rw (root, place-done h i elem (omega (arith, v.inside, v.room)) v.alive)
        (returns (place-Shifted v below (λ p. absurd (ground arith))))
  | inl up ↦
      let pos : 0 < i = ground arith in
      let within : parent i < n = omega (arith, v.inside) in
      let live = v.placed (parent i) within (omega arith) in
      rw
        (
          up,
          load_slot-done h (parent i) (omega (arith, v.room)),
          load_entry-done h _ live,
          load_entry-done h elem v.alive,
        )
        (elim (Bool-cases (leb (time_at h (parent i)) (time_of h elem))) [
          | inl late ↦
              rw (late, place-done h i elem (omega (arith, v.inside, v.room)) v.alive)
                (returns (place-Shifted v below (λ p. ground arith)))
          | inr early ↦
              rw (early, place-done h i _ (omega (arith, v.inside, v.room)) live)
                (Returns-mono
                  (shift_up_loop-Shifted k (omega arith) (climbed-Hole v pos)
                    (climbed-Below v pos below (ground arith)))
                  λ _ g s. Shifted-moved v (parent i) within (omega arith) g s)
        ])
]

pub min_heap_shift_up-Shifted :
    {h : MinHeap} {n i : ℕ} {elem : Ptr}
    → Hole h n i elem
    → Below h n i elem
    → Returns (λ _. Shifted h n i elem) (min_heap_shift_up i elem h)
unfolding min_heap_shift_up
min_heap_shift_up-Shifted {i} v below = shift_up_loop-Shifted (i + 1) (omega arith) v below
