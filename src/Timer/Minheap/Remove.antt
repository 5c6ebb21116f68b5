-- ===== src/Timer/Minheap/Remove.antt =====
-- timer/minheap.c, min_heap_pop and min_heap_delete: the heap loses exactly one timer.
use easymesh.Timer.Minheap.Cut.{
  cut_then, cut-Hole, drop_last-done, set_index-done, shortened, moved-broken,
}
use easymesh.Timer.Minheap.Contents.{Removed, root_least_below}
use easymesh.Timer.Minheap.Down.{min_heap_shift_down-stays}
use easymesh.Prelude.{◌<◌, ◌≡◌, ◌+◌, ◌≤◌, suc, arith, ◌==◌, refl, false, ◌-◌}
use easymesh.Prelude.Run.{returns, Returns, pure}
use easymesh.Prelude.Int.{pos}
use easymesh.Timer.Minheap.Order.{
  IsHeap, Contains, time_at, load_slot-done, moved, time_of, load_entry-done,
}
use easymesh.Timer.Minheap.{MinHeap, ℕ, Ptr, parent, min_heap_pop, min_heap_delete}

-- On a heap in order that is not empty, min_heap_pop returns a timer that is due no later than
-- any other and takes out exactly that one. The heap stays in order, and the timer's index
-- becomes -1.
pub pop-Removed :
    (h : MinHeap)
    → IsHeap h
    → 0 < h.size
    → Returns
        (λ p g.
          (p ≡ h.elements 0)
          × ((q : Ptr) → Contains h h.size q → time_of h p ≤ time_of h q)
          × Removed h p g)
        (min_heap_pop h)
unfolding min_heap_pop
pop-Removed h v some_left =
    let full : (h.size == 0) ≡ false = ground arith in
    rw (full, load_slot-done h 0 (omega (arith, v.fits)))
      (cut_then h 0 v some_left (pure (h.elements 0)) (λ p. absurd (omega arith))
        λ g r. returns (
          refl,
          λ q (j, b, e). ground (arith, root_least_below (suc j) j (omega arith) v.sound b),
          r,
        ))

-- On a heap in order, min_heap_delete of the timer in a slot takes out exactly that one and
-- leaves a heap in order, provided that the last timer is not due before the parent of that slot.
pub delete-Removed :
    (h : MinHeap) (i : ℕ)
    → IsHeap h
    → i < h.size
    → (0 < i → time_at h (parent i) ≤ time_at h (h.size - 1))
    → Returns (λ r g. (r ≡ pos 0) × Removed h (h.elements i) g) (min_heap_delete (h.elements i) h)
unfolding min_heap_delete
delete-Removed h i v b above =
    let full : (h.size == 0) ≡ false = ground arith in
    rw (full, load_entry-done h (h.elements i) (v.sound.placed i b), v.sound.indexed i b)
      (cut_then h i v b (pure (pos 0)) above λ g r. returns (refl, r))

-- On a heap in order, where the last timer is due before the parent of the slot, and the slot is
-- neither the root nor the last, min_heap_delete of the timer in the slot returns, and the slot
-- then holds a timer that is due before the one of its parent.
pub delete_breaks_order :
    (h : MinHeap) (i : ℕ)
    → IsHeap h
    → 0 < i
    → i + 1 < h.size
    → time_at h (h.size - 1) < time_at h (parent i)
    → Returns
        (λ r g. (i < g.size) × (time_at g i < time_at g (parent i)))
        (min_heap_delete (h.elements i) h)
unfolding min_heap_delete
delete_breaks_order h i v up b early =
    let full : (h.size == 0) ≡ false = ground arith in
    let hole = cut-Hole h i v (omega arith) (omega arith) in
    let stays =
      min_heap_shift_down-stays hole
        (λ c p q e. ground (arith, v.sound.order c, v.sound.order i)) in
    rw
      (
        full,
        load_entry-done h (h.elements i) (v.sound.placed i (omega arith)),
        v.sound.indexed i (omega arith),
        drop_last-done h (omega arith) v.fits,
        stays,
        set_index-done (moved (shortened h) i (h.elements (h.size - 1))) (h.elements i)
            (v.sound.placed i (omega arith)),
      )
      (returns (moved-broken h i v (omega arith) up (omega arith) early))
