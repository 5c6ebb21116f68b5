-- ===== src/Timer/Minheap/Push.antt =====
-- timer/minheap.c, min_heap_push: the heap gains exactly one timer.
use easymesh.Timer.Minheap.Contents.{Pushed}
use easymesh.Timer.Minheap.Up.{min_heap_shift_up-Shifted}
use easymesh.Prelude.{
  ◌<◌, ◌≡◌, ◌+◌, ◌≤◌, true, arith, if◌then◌else◌, ltb, Bool-cases, ◌^◌, ◌==◌, ◌*◌, refl, ◌⊎◌, ◌%◌,
  ◌↔◌, inl, inr, false, lt→ltb,
}
use easymesh.Prelude.Run.{done, returns, Returns-bind, Returns}
use easymesh.Prelude.Int.{minus_one, pos}
use easymesh.Timer.Minheap.Order.{IsHeap, Contains, Hole, ContainsBut, Shifted}
use easymesh.Timer.Minheap.{MinHeap, ℕ, Ptr, min_heap_ensure_capacity, Bool, min_heap_push}

-- With room, or where realloc succeeds, the array holds `n` slots afterwards.
ensure_capacity-done :
    (grown : Bool) (n : ℕ) (h : MinHeap)
    → (n ≤ h.capacity) ⊎ (grown ≡ true)
    → (c : ℕ) × (min_heap_ensure_capacity grown n h ≡ done (pos 0) (record h { capacity = c }))
      × (n ≤ c)
      × (h.capacity ≤ c)
unfolding min_heap_ensure_capacity
ensure_capacity-done grown n h (inl b) = (h.capacity, ground arith, b, omega arith)
ensure_capacity-done grown n h (inr e) = elim (Bool-cases (ltb h.capacity n)) [
  | inr room ↦ (h.capacity, ground arith, ground arith, omega arith)
  | inl less ↦ (
    (if ltb (if h.capacity == 0 then 8 else h.capacity * 2 % 2 ^ 32) n
        then n
        else if h.capacity == 0
        then 8
        else h.capacity * 2 % 2 ^ 32),
    ground arith,
    ground arith,
    ground arith,
  )
]

module _ (h : MinHeap) (elem : Ptr) (grown : Bool) (v : IsHeap h) (room : h.size + 1 < 2 ^ 31)
    (live : h.live elem ≡ true) (new : ¬ Contains h h.size elem) where
  push-Hole : (c : ℕ) → h.size + 1 ≤ c → Hole (record h { capacity = c }) (h.size + 1) h.size elem
  push-Hole c b = record {
    inside = omega arith;
    room = b;
    alive = live;
    placed = λ j p ne. v.sound.placed j (omega arith);
    indexed = λ j p ne. v.sound.indexed j (omega arith);
    other = λ j p ne e. new (j, omega arith, e);
    order = λ d p q ne up. v.sound.order d p (omega arith);
    bridged = λ d p q e. absurd (omega arith);
  }

  push-contents : (p : Ptr) → ContainsBut h (h.size + 1) h.size p ↔ Contains h h.size p
  push-contents p =
      (λ (j, b, ne, q). (j, omega arith, q), λ (j, b, q). (j, omega arith, omega arith, q))

  Shifted-Pushed :
      (c : ℕ) (g : MinHeap)
      → h.size + 1 ≤ c
      → Shifted (record h { capacity = c }) (h.size + 1) h.size elem g
      → Pushed h elem (record g { size = (g.size + 1) % 2 ^ 32 })
  Shifted-Pushed c g b s =
      let sized : (g.size + 1) % 2 ^ 32 ≡ h.size + 1 = omega (arith, s.size) in
      record {
        heap = record {
          sound = record {
            placed = λ j q. s.sound.placed j (omega arith);
            indexed = λ j q. s.sound.indexed j (omega arith);
            order = λ d p q. s.sound.order d p (omega arith);
          };
          fits = omega (arith, s.capacity);
          small = omega arith;
        };
        size = sized;
        contents = λ p. (
          λ (j, q, e). elim ((s.contents p).0 (j, omega arith, e)) [
            | inl d ↦ inl ((push-contents p).0 d)
            | inr d ↦ inr d
          ],
          λ d.
              let (j, q, e) =
                (s.contents p).1 (elim d [ inl w ↦ inl ((push-contents p).1 w) | inr w ↦ inr w ]) in
              (j, omega arith, e),
        );
        kept = record {
          live = s.live;
          entries = s.entries;
          others = λ p ne out. s.others p ne (λ d. out ((push-contents p).0 d));
        };
      }

  -- On a heap in order with fewer than 2^31 - 1 timers, where realloc succeeds or the array has
  -- room, min_heap_push returns 0 and adds exactly the timer. The heap stays in order, every
  -- entry knows its slot, and no other field of an entry changes.
  pub push-Pushed :
      (h.size < h.capacity) ⊎ (grown ≡ true)
      → Returns (λ r g. (r ≡ pos 0) × Pushed h elem g) (min_heap_push grown elem h)
  unfolding min_heap_push
  push-Pushed space =
      let fits : (h.size + 1) % 2 ^ 32 ≡ h.size + 1 = omega arith in
      let (c, grew, enough, more) =
        ensure_capacity-done grown (h.size + 1) h
          (elim space [ inl b ↦ inl (omega arith) | inr e ↦ inr e ]) in
      rw (fits, grew)
        (Returns-bind
          (min_heap_shift_up-Shifted (push-Hole c enough) (λ d p q e. absurd (omega arith)))
          λ _ g s. returns (refl, Shifted-Pushed c g enough s))

-- A full heap that realloc cannot grow is left as it is, and min_heap_push returns -1.
pub push-full :
    (h : MinHeap) (elem : Ptr)
    → h.size + 1 < 2 ^ 32
    → h.capacity ≤ h.size
    → min_heap_push false elem h ≡ done minus_one h
unfolding min_heap_push min_heap_ensure_capacity
push-full h elem small full =
    let fits : (h.size + 1) % 2 ^ 32 ≡ h.size + 1 = omega arith in
    rw (fits, lt→ltb h.capacity (h.size + 1) (omega arith))
