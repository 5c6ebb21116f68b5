-- ===== src/Timer/Minheap/Down.antt =====
-- timer/minheap.c, min_heap_shift_down: the hole sinks along the smaller children.
use easymesh.Prelude.{
  ℕ, zero, suc, ◌+◌, ◌*◌, ◌/◌, ◌≤◌, ◌<◌, ◌≡◌, arith, ltb, if◌then◌else◌, Bool-cases, inl, inr, ◌≢◌,
  ◌⊎◌, true, le→ltb, refl, lt→ltb,
}
use native.Mathlib.Numerals.{add-one}
use native.Mathlib.Decide.{ℕ_discrete}
use easymesh.Prelude.Run.{Ptr, Returns, returns, Returns-mono, done}
use easymesh.Timer.Minheap.{MinHeap, parent, min_child, shift_down_loop, min_heap_shift_down}
use easymesh.Timer.Minheap.Order.{
  time_of, time_at, Hole, Shifted, moved, load_slot-done, load_entry-done, place-done,
  place-Shifted, step-placed, step-indexed, step-other, time_at-moved, Shifted-moved,
}

-- The element is no earlier than the parent of the hole.
abbrev pub Above : MinHeap → ℕ → Ptr → Type 0
Above h i elem = 0 < i → time_at h (parent i) ≤ time_of h elem

-- The child that the loop takes.
least_child : MinHeap → ℕ → ℕ
least_child h i =
    if ltb (2 * i + 2) h.size
    then if ltb (time_at h (2 * i + 2)) (time_at h (2 * i + 1)) then 2 * i + 2 else 2 * i + 1
    else 2 * i + 1

-- It is a child, and no child is smaller.
record IsLeast (h : MinHeap) (i c : ℕ) : Type 0 where
  positive : 0 < c
  within : c < h.size
  child : parent c ≡ i
  least : (d : ℕ) → 0 < d → d < h.size → parent d ≡ i → time_at h c ≤ time_at h d

child-cases : (d i : ℕ) → 0 < d → parent d ≡ i → (d ≡ 2 * i + 1) ⊎ (d ≡ 2 * i + 2)
child-cases d i p e = elim (ℕ_discrete d (2 * i + 1)) [ yes q ↦ inl q | no q ↦ inr (omega arith) ]

least_child-IsLeast : (h : MinHeap) (i : ℕ) → i < h.size / 2 → IsLeast h i (least_child h i)
unfolding least_child
least_child-IsLeast h i b = elim (Bool-cases (ltb (2 * i + 2) h.size)) [
  | inr single ↦ rw single (record {
    positive = omega arith;
    within = omega arith;
    child = omega arith;
    least = λ d p q e. ground (arith, child-cases d i p e);
  })
  | inl both ↦ rw both (elim (Bool-cases (ltb (time_at h (2 * i + 2)) (time_at h (2 * i + 1)))) [
    | inl right ↦ rw right (record {
      positive = omega arith;
      within = ground arith;
      child = omega arith;
      least = λ d p q e. ground (arith, child-cases d i p e);
    })
    | inr left ↦ rw left (record {
      positive = omega arith;
      within = ground arith;
      child = omega arith;
      least = λ d p q e. ground (arith, child-cases d i p e);
    })
  ])
]

module _ {h : MinHeap} {n i : ℕ} {elem : Ptr} (v : Hole h n i elem) (size : h.size ≡ n)
    (inner : i < h.size / 2) where
  -- `min_child` reads slots in use only.
  min_child-done : min_child i h ≡ done (h.elements (least_child h i), least_child h i) h
  unfolding min_child least_child
  min_child-done =
      let at = λ (j : ℕ) (b : j < h.size) (ne : j ≢ i).
        load_entry-done h (h.elements j) (v.placed j (omega arith) ne) in
      rw (load_slot-done h (2 * i + 1) (omega (arith, v.room)))
        (elim (Bool-cases (ltb (2 * i + 2) h.size)) [
          | inr single ↦ rw single
          | inl both ↦
              rw
                (
                  both,
                  load_slot-done h (2 * i + 2) (ground (arith, v.room)),
                  at (2 * i + 2) (ground arith) (omega arith),
                  at (2 * i + 1) (omega arith) (omega arith),
                )
                (elim (Bool-cases (ltb (time_at h (2 * i + 2)) (time_at h (2 * i + 1)))) [
                  | inl right ↦ rw right
                  | inr left ↦ rw left
                ])
        ])

module _ {h : MinHeap} {n i : ℕ} {elem : Ptr} (v : Hole h n i elem) (c : ℕ) (size : h.size ≡ n)
    (l : IsLeast h i c) where
  sunk-Hole : Hole (moved h i (h.elements c)) n c elem
  sunk-Hole =
      let within : c < n = omega (arith, l.within) in
      let apart : c ≢ i = omega (arith, l.positive, l.child) in
      record {
        inside = within;
        room = v.room;
        alive = v.alive;
        placed = step-placed v c within apart;
        indexed = step-indexed v c within apart;
        other = step-other v c within apart;
        order = λ d p b ne up. ground (
          arith,
          v.order d,
          v.bridged c,
          l.least d,
          l.child,
          l.positive,
          time_at-moved v c within apart d,
          time_at-moved v c within apart (parent d),
        );
        bridged = λ d p b e q. ground (
          arith,
          v.order d,
          l.child,
          l.positive,
          time_at-moved v c within apart d,
          time_at-moved v c within apart (parent c),
        );
      }

  sunk-Above : time_at h c ≤ time_of h elem → Above (moved h i (h.elements c)) c elem
  sunk-Above late p =
      let within : c < n = omega (arith, l.within) in
      let apart : c ≢ i = omega (arith, l.positive, l.child) in
      ground (arith, l.child, v.other c, time_at-moved v c within apart (parent c))

shift_down_loop-Shifted :
    (k : ℕ) {h : MinHeap} {n i : ℕ} {elem : Ptr}
    → n < i + k
    → h.size ≡ n
    → Hole h n i elem
    → Above h i elem
    → Returns (λ _. Shifted h n i elem) (shift_down_loop (n / 2) k i elem h)
unfolding shift_down_loop
shift_down_loop-Shifted zero f size v above = absurd (omega (arith, v.inside))
shift_down_loop-Shifted (suc k) {h} {n} {i} {elem} f size v above =
    elim (Bool-cases (ltb i (n / 2))) [
      | inr leaf ↦
          rw (leaf, place-done h i elem (omega (arith, v.inside, v.room)) v.alive)
            (returns (place-Shifted v (λ c p b e. absurd (ground arith)) above))
      | inl inner ↦
          let b : i < h.size / 2 = ground arith in
          let c = least_child h i in
          let l = least_child-IsLeast h i b in
          let apart : c ≢ i = omega (arith, l.positive, l.child) in
          let within : c < n = omega (arith, l.within) in
          let live = v.placed c within apart in
          rw
            (
              inner,
              min_child-done v size b,
              load_entry-done h elem v.alive,
              load_entry-done h _ live,
            )
            (elim (Bool-cases (ltb (time_of h elem) (time_at h c))) [
              | inl early ↦
                  rw (early, place-done h i elem (omega (arith, v.inside, v.room)) v.alive)
                    (returns (place-Shifted v (λ d p q e. ground (arith, l.least d)) above))
              | inr late ↦
                  rw (late, place-done h i _ (omega (arith, v.inside, v.room)) live)
                    (Returns-mono
                      (shift_down_loop-Shifted k (omega (arith, l.positive, l.child)) size
                        (sunk-Hole v c size l) (sunk-Above v c size l (ground arith)))
                      λ _ g s. Shifted-moved v c within apart g s)
            ])
    ]

pub min_heap_shift_down-Shifted :
    {h : MinHeap} {i : ℕ} {elem : Ptr}
    → Hole h h.size i elem
    → Above h i elem
    → Returns (λ _. Shifted h h.size i elem) (min_heap_shift_down i elem h)
unfolding min_heap_shift_down
min_heap_shift_down-Shifted {h} v above =
    shift_down_loop-Shifted (h.size + 1) (omega arith) refl v above

-- At a leaf, and past the last element, the shift only places.
pub min_heap_shift_down-leaf :
    (h : MinHeap) (i : ℕ) (elem : Ptr)
    → h.size ≤ i
    → i < h.capacity
    → h.live elem ≡ true
    → min_heap_shift_down i elem h ≡ done tt (moved h i elem)
unfolding min_heap_shift_down
min_heap_shift_down-leaf h i elem past room live = rw add-one (
    unfold shift_down_loop in
    (rw (le→ltb i (h.size / 2) (omega arith)) (place-done h i elem room live)))

-- An element earlier than all the children of the hole stays there.
pub min_heap_shift_down-stays :
    {h : MinHeap} {i : ℕ} {elem : Ptr}
    → Hole h h.size i elem
    → ((c : ℕ) → 0 < c → c < h.size → parent c ≡ i → time_of h elem < time_at h c)
    → min_heap_shift_down i elem h ≡ done tt (moved h i elem)
unfolding min_heap_shift_down
min_heap_shift_down-stays {h} {i} {elem} v early = rw add-one (
    unfold shift_down_loop in
    elim (Bool-cases (ltb i (h.size / 2))) [
      | inr leaf ↦ rw (leaf, place-done h i elem (omega (arith, v.inside, v.room)) v.alive)
      | inl inner ↦
          let b : i < h.size / 2 = ground arith in
          let l = least_child-IsLeast h i b in
          let c = least_child h i in
          let live = v.placed c l.within (omega (arith, l.positive, l.child)) in
          rw (
            inner,
            min_child-done v refl b,
            load_entry-done h elem v.alive,
            load_entry-done h _ live,
            lt→ltb _ _ (early c l.positive l.within l.child),
            place-done h i elem (omega (arith, v.inside, v.room)) v.alive,
          )
    ])
