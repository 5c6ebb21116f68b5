-- ===== src/Timer/Minheap/Order.antt =====
-- timer/minheap.c: the heap order, the index that each entry stores, and an array with a hole.
use easymesh.Prelude.{
  ℕ, ◌≤◌, ◌<◌, ◌^◌, ◌≡◌, ◌≢◌, ◌↔◌, ◌⊎◌, inl, inr, refl, true, arith, lt→ltb, ◌==◌, if◌then◌else◌,
  sym, update,
}
use native.Mathlib.Decide.{ℕ_discrete}
use easymesh.Prelude.Int.{ℤ, pos}
use easymesh.Prelude.Run.{Ptr, done}
use easymesh.Timer.Minheap.{
  TimerEntry, MinHeap, load_slot, store_slot, load_entry, store_entry, set_index, place, parent,
}

abbrev pub index_of : MinHeap → Ptr → ℤ
index_of h p = (h.entry p).min_heap_idx

abbrev pub time_of : MinHeap → Ptr → ℕ
time_of h p = (h.entry p).time

abbrev pub time_at : MinHeap → ℕ → ℕ
time_at h i = time_of h (h.elements i)

-- An entry but for its index.
abbrev pub sans_index : TimerEntry → TimerEntry
sans_index e = record e { min_heap_idx = pos 0 }

-- The first `n` slots hold entries that know their place, parents no later than children.
pub record IsSound (h : MinHeap) (n : ℕ) : Type 0 where
  pub placed : (j : ℕ) → j < n → h.live (h.elements j) ≡ true
  pub indexed : (j : ℕ) → j < n → index_of h (h.elements j) ≡ pos j
  pub order : (c : ℕ) → 0 < c → c < n → time_at h (parent c) ≤ time_at h c

-- The invariant of the heap. The bound keeps `2 * index + 2` within `int`.
pub record IsHeap (h : MinHeap) : Type 0 where
  pub sound : IsSound h h.size
  pub fits : h.size ≤ h.capacity
  pub small : h.size < 2 ^ 31

-- `p` stands in one of the first `n` slots; in one other than `i`.
abbrev pub Contains : MinHeap → ℕ → Ptr → Type 0
Contains h n p = (j : ℕ) × (j < n) × (h.elements j ≡ p)

abbrev pub ContainsBut : MinHeap → ℕ → ℕ → Ptr → Type 0
ContainsBut h n i p = (j : ℕ) × (j < n) × (j ≢ i) × (h.elements j ≡ p)

-- Slot `i` is free for `elem`, and order holds among the others.
pub record Hole (h : MinHeap) (n i : ℕ) (elem : Ptr) : Type 0 where
  pub inside : i < n
  pub room : n ≤ h.capacity
  pub alive : h.live elem ≡ true
  pub placed : (j : ℕ) → j < n → j ≢ i → h.live (h.elements j) ≡ true
  pub indexed : (j : ℕ) → j < n → j ≢ i → index_of h (h.elements j) ≡ pos j
  pub other : (j : ℕ) → j < n → j ≢ i → h.elements j ≢ elem
  pub order : (c : ℕ) → 0 < c → c < n → c ≢ i → parent c ≢ i → time_at h (parent c) ≤ time_at h c
  pub bridged : (c : ℕ) → 0 < c → c < n → parent c ≡ i → 0 < i → time_at h (parent i) ≤ time_at h c

-- What a shift of `elem` into the hole leaves: the same entries but for their indices, those of
-- addresses outside the heap included.
pub record Shifted (h : MinHeap) (n i : ℕ) (elem : Ptr) (g : MinHeap) : Type 0 where
  pub sound : IsSound g n
  pub size : g.size ≡ h.size
  pub capacity : g.capacity ≡ h.capacity
  pub live : g.live ≡ h.live
  pub entries : (p : Ptr) → sans_index (g.entry p) ≡ sans_index (h.entry p)
  pub others : (p : Ptr) → p ≢ elem → ¬ ContainsBut h n i p → g.entry p ≡ h.entry p
  pub contents : (p : Ptr) → Contains g n p ↔ (ContainsBut h n i p ⊎ (p ≡ elem))

-- The store after `p` went into slot `i`.
abbrev pub moved : MinHeap → ℕ → Ptr → MinHeap
moved h i p = record h {
  elements = update h.elements i p;
  entry = update h.entry p (record (h.entry p) { min_heap_idx = pos i });
}

pub load_slot-done : (h : MinHeap) (i : ℕ) → i < h.capacity → load_slot i h ≡ done (h.elements i) h
unfolding load_slot
load_slot-done h i b = rw (lt→ltb _ _ b)

pub load_entry-done :
    (h : MinHeap) (p : Ptr) → h.live p ≡ true → load_entry p h ≡ done (h.entry p) h
unfolding load_entry
load_entry-done h p e = rw e

pub place-done :
    (h : MinHeap) (i : ℕ) (p : Ptr)
    → i < h.capacity
    → h.live p ≡ true
    → place i p h ≡ done tt (moved h i p)
unfolding place store_slot set_index load_entry store_entry
place-done h i p b e = rw (lt→ltb _ _ b, e, e)

module _ {h : MinHeap} {n i : ℕ} {elem : Ptr} (v : Hole h n i elem) where
  -- The element goes into the hole.
  pub place-Shifted :
      ((c : ℕ) → 0 < c → c < n → parent c ≡ i → time_of h elem ≤ time_at h c)
      → (0 < i → time_at h (parent i) ≤ time_of h elem)
      → Shifted h n i elem (moved h i elem)
  place-Shifted below above = record {
    sound = record {
      placed = λ j b. ground (arith, v.placed j, v.alive);
      indexed = λ j b. ground (arith, v.indexed j, v.other j);
      order = λ c p b. ground (arith, v.order c, below c, above, v.other c, v.other (parent c));
    };
    size = refl;
    capacity = refl;
    live = refl;
    entries = λ p. ground arith;
    others = λ p ne out. ground arith;
    contents = λ p. (
      λ (j, b, q). elim (ℕ_discrete j i) [
        | yes e ↦ inr (ground arith)
        | no e ↦ inl (j, b, e, ground arith)
      ],
      λ s. elim s [
        | inl (j, b, ne, q) ↦ (j, b, ground arith)
        | inr q ↦ (i, v.inside, ground arith)
      ],
    );
  }

  -- The hole moves to slot `k`, whose element fills it.
  module _ (k : ℕ) (within : k < n) (apart : k ≢ i) where
    pub step-placed : (j : ℕ) → j < n → j ≢ k → h.live (update h.elements i (h.elements k) j) ≡ true
    step-placed j b ne = ground (arith, v.placed j, v.placed k)

    pub step-indexed :
        (j : ℕ)
        → j < n
        → j ≢ k
        → index_of (moved h i (h.elements k)) (update h.elements i (h.elements k) j) ≡ pos j
    step-indexed j b ne = ground (arith, v.indexed j, v.indexed k)

    pub step-other : (j : ℕ) → j < n → j ≢ k → update h.elements i (h.elements k) j ≢ elem
    step-other j b ne = ground (arith, v.other j, v.other k)

    pub time_at-moved :
        (j : ℕ)
        → time_at (moved h i (h.elements k)) j ≡ (if j == i then time_at h k else time_at h j)
    time_at-moved j = ground arith

    ContainsBut-moved :
        (p : Ptr) → ContainsBut (moved h i (h.elements k)) n k p ↔ ContainsBut h n i p
    ContainsBut-moved p = (
      λ (j, b, ne, q). elim (ℕ_discrete j i) [
        | yes e ↦ (k, within, apart, ground arith)
        | no e ↦ (j, b, e, ground arith)
      ],
      λ (j, b, ne, q). elim (ℕ_discrete j k) [
        | yes e ↦ (i, v.inside, λ d. apart (sym d), ground arith)
        | no e ↦ (j, b, e, ground arith)
      ],
    )

    pub Shifted-moved :
        (g : MinHeap) → Shifted (moved h i (h.elements k)) n k elem g → Shifted h n i elem g
    Shifted-moved g s = record {
      sound = s.sound;
      size = s.size;
      capacity = s.capacity;
      live = s.live;
      entries = λ p. ground (arith, s.entries p);
      others = λ p ne out.
          let same = s.others p ne (λ c. out ((ContainsBut-moved p).0 c)) in
          let differs : p ≢ h.elements k = λ e. out (k, within, apart, sym e) in ground arith;
      contents = λ p. (
        λ c. elim ((s.contents p).0 c) [ inl d ↦ inl ((ContainsBut-moved p).0 d) | inr e ↦ inr e ],
        λ d. (s.contents p).1 (elim d [ inl c ↦ inl ((ContainsBut-moved p).1 c) | inr e ↦ inr e ]),
      );
    }
