-- ===== src/Timer/Minheap/Cut.antt =====
-- timer/minheap.c: the steps that min_heap_pop and min_heap_delete share.
use easymesh.Timer.Minheap.Contents.{Removed}
use easymesh.Timer.Minheap.Down.{min_heap_shift_down-leaf, min_heap_shift_down-Shifted}
use mathlib.Core.Path.{subst}
use native.Mathlib.Decide.{ℕ_discrete}
use easymesh.Prelude.{
  ◌<◌, ◌≡◌, ◌≤◌, true, arith, refl, ◌⊎◌, ◌≢◌, ◌↔◌, inl, inr, ◌-◌, sym, ◌∙◌, update,
}
use easymesh.Prelude.Run.{done, Returns-bind, Returns, null, Cmd, ◌>>=◌, ◌>>◌}
use easymesh.Prelude.Int.{minus_one}
use easymesh.Timer.Minheap.Order.{
  IsHeap, IsSound, Contains, time_at, Hole, ContainsBut, Shifted, load_slot-done, moved,
}
use easymesh.Timer.Minheap.{
  MinHeap, ℕ, Ptr, Bool, parent, drop_last, set_index, load_entry, store_entry, min_heap_shift_down,
}

-- The heap less its last slot.
abbrev pub shortened : MinHeap → MinHeap
shortened h = record h { size = h.size - 1; elements = update h.elements (h.size - 1) null }

pub drop_last-done :
    (h : MinHeap)
    → 0 < h.size
    → h.size ≤ h.capacity
    → drop_last h ≡ done (h.elements (h.size - 1)) (shortened h)
unfolding drop_last
drop_last-done h some_left fits = rw (load_slot-done h (h.size - 1) (omega arith)) (ground arith)

-- The store after `p` got the index -1.
abbrev pub unindexed : MinHeap → Ptr → MinHeap
unindexed h p = record h {
  entry = update h.entry p (record (h.entry p) { min_heap_idx = minus_one });
}

pub set_index-done :
    (h : MinHeap) (p : Ptr) → h.live p ≡ true → set_index p minus_one h ≡ done tt (unindexed h p)
unfolding set_index load_entry store_entry
set_index-done h p e = rw (e, e)

-- A timer stands in one slot only.
slot_unique :
    {h : MinHeap} {n : ℕ} (j k : ℕ)
    → IsSound h n
    → j < n
    → k < n
    → h.elements j ≡ h.elements k
    → j ≡ k
slot_unique j k v p q e = ground (arith, v.indexed j, v.indexed k)

module _ (h : MinHeap) (i : ℕ) (v : IsHeap h) (inside : i < h.size) where
  abbrev last : Ptr
  last = h.elements (h.size - 1)

  pub cut-Hole : i < h.size - 1 → Hole (shortened h) (h.size - 1) i last
  cut-Hole b = record {
    inside = b;
    room = omega (arith, v.fits);
    alive = v.sound.placed (h.size - 1) (omega arith);
    placed = λ j p ne. ground (arith, v.sound.placed j);
    indexed = λ j p ne. ground (arith, v.sound.indexed j);
    other = λ j p ne. ground (arith, v.sound.indexed j, v.sound.indexed (h.size - 1));
    order = λ c p q ne up. ground (arith, v.sound.order c);
    bridged = λ c p q e up. ground (arith, v.sound.order c, v.sound.order i);
  }

  cut-contents :
      i < h.size - 1
      → (p : Ptr)
      → (ContainsBut (shortened h) (h.size - 1) i p ⊎ (p ≡ last))
        ↔ (Contains h h.size p × (p ≢ h.elements i))
  cut-contents b p = (
    λ d. elim d [
      | inl (j, q, ne, e) ↦ (
        (j, omega arith, ground arith),
        λ w. ne (slot_unique j i v.sound (omega arith) inside (ground arith)),
      )
      | inr e ↦ (
        (h.size - 1, omega arith, sym e),
        λ w.
            absurd
              (omega (arith, slot_unique (h.size - 1) i v.sound (omega arith) inside (sym e ∙ w))),
      )
    ],
    λ ((j, q, e), ne). elim (ℕ_discrete j (h.size - 1)) [
      | yes w ↦ inr (ground arith)
      | no w ↦ inl (j, omega arith, λ z. ne (ground arith), ground arith)
    ],
  )

  Shifted-Removed :
      i < h.size - 1
      → (g : MinHeap) → Shifted (shortened h) (h.size - 1) i last g
      → Removed h (h.elements i) (unindexed g (h.elements i))
  Shifted-Removed b g s =
      let gone : (j : ℕ) → j < h.size - 1 → g.elements j ≢ h.elements i = λ j q e.
        ((cut-contents b (g.elements j)).0 ((s.contents (g.elements j)).0 (j, q, refl))).1 e in
      record {
        heap = record {
          sound = record {
            placed = λ j q. s.sound.placed j (omega (arith, s.size));
            indexed = λ j q. ground (arith, s.sound.indexed j, s.size, gone j);
            order = λ c p q. ground (arith, s.sound.order c, s.size, gone c, gone (parent c));
          };
          fits = omega (arith, s.size, s.capacity, v.fits);
          small = omega (arith, s.size, v.small);
        };
        size = omega (arith, s.size);
        contents = λ p. (
          λ (j, q, e). (cut-contents b p).0 ((s.contents p).0 (j, omega (arith, s.size), e)),
          λ d.
              let (j, q, e) = (s.contents p).1 ((cut-contents b p).1 d) in
              (j, omega (arith, s.size), e),
        );
        kept = record {
          live = s.live;
          entries = λ p. ground (arith, s.entries p);
          others = λ p ne out.
              let same =
                s.others p (λ e. out (h.size - 1, omega arith, sym e))
                  (λ (j, q, w, e). out (j, omega arith, ground arith)) in
              ground arith;
        };
        outside = ground arith;
      }

  Shifted-live :
      (g : MinHeap) → Shifted (shortened h) (h.size - 1) i last g → g.live (h.elements i) ≡ true
  Shifted-live g s =
      subst (λ (l : Ptr → Bool). l (h.elements i) ≡ true) (sym s.live) (v.sound.placed i inside)

  pub moved-broken :
      0 < i
      → i < h.size - 1
      → time_at h (h.size - 1) < time_at h (parent i)
      → (i < (unindexed (moved (shortened h) i last) (h.elements i)).size)
        × (time_at (unindexed (moved (shortened h) i last) (h.elements i)) i
            < time_at (unindexed (moved (shortened h) i last) (h.elements i)) (parent i))
  moved-broken up b early = (omega arith, ground (arith, v.sound.order i up (omega arith)))

  -- The last element is the one that goes.
  Leaf-Removed :
      i ≡ h.size - 1
      → Removed h (h.elements i) (unindexed (moved (shortened h) i last) (h.elements i))
  Leaf-Removed end = record {
    heap = record {
      sound = record {
        placed = λ j q. ground (arith, v.sound.placed j);
        indexed = λ j q. ground (arith, v.sound.indexed j, slot_unique j i v.sound);
        order = λ c p q.
            ground
              (arith, v.sound.order c, slot_unique c i v.sound, slot_unique (parent c) i v.sound);
      };
      fits = omega (arith, v.fits);
      small = omega (arith, v.small);
    };
    size = omega arith;
    contents = λ p. (
      λ (j, q, e). (
        (j, omega arith, ground arith),
        λ w. absurd (omega (arith, slot_unique j i v.sound (omega arith) inside (ground arith))),
      ),
      λ ((j, q, e), ne). (j, ground arith, ground arith),
    );
    kept = record { live = refl; entries = λ p. ground arith; others = λ p ne out. ground arith };
    outside = ground arith;
  }

  -- What pop and delete do to slot `i`, whatever follows. The last element must not be earlier than
  -- the parent of the slot that it moves to.
  pub cut_then :
      {B : Type 0} {Q : B → MinHeap → Type 0} (k : Cmd MinHeap B)
      → (0 < i → time_at h (parent i) ≤ time_at h (h.size - 1))
      → ((g : MinHeap) → Removed h (h.elements i) g → Returns Q (k g))
      → Returns Q
          ((do p ← drop_last; min_heap_shift_down i p; set_index (h.elements i) minus_one; k) h)
  cut_then k above next =
      rw (drop_last-done h (omega arith) v.fits) (elim (ℕ_discrete i (h.size - 1)) [
        | yes end ↦
            rw
              (
                min_heap_shift_down-leaf (shortened h) i last (omega arith) (omega (arith, v.fits))
                    (v.sound.placed (h.size - 1) (omega arith)),
                set_index-done (moved (shortened h) i last) (h.elements i)
                    (v.sound.placed i inside),
              )
              (next _ (Leaf-Removed end))
        | no inner ↦
            let b : i < h.size - 1 = omega arith in
            Returns-bind (min_heap_shift_down-Shifted (cut-Hole b) (λ p. ground arith)) λ _ g s.
              rw (set_index-done g (h.elements i) (Shifted-live g s))
                (next _ (Shifted-Removed b g s))
      ])
