-- ===== src/Timer/Minheap/Contents.antt =====
-- timer/minheap.c: what one operation changes of the heap's contents, and the earliest timer.
use easymesh.Prelude.{◌<◌, ◌≡◌, ◌+◌, ◌≤◌, suc, arith, ◌⊎◌, ◌≢◌, ◌↔◌, zero}
use easymesh.Prelude.Int.{minus_one}
use easymesh.Timer.Minheap.Order.{IsHeap, IsSound, sans_index, Contains, time_at, index_of}
use easymesh.Timer.Minheap.{MinHeap, ℕ, Ptr, parent}

-- Addresses outside the heap keep their entries whole, the others theirs but for the index.
pub record Kept (h g : MinHeap) (elem : Ptr) : Type 0 where
  pub live : g.live ≡ h.live
  pub entries : (p : Ptr) → sans_index (g.entry p) ≡ sans_index (h.entry p)
  pub others : (p : Ptr) → p ≢ elem → ¬ Contains h h.size p → g.entry p ≡ h.entry p

-- `g` is the heap `h` with `elem` added.
pub record Pushed (h : MinHeap) (elem : Ptr) (g : MinHeap) : Type 0 where
  pub heap : IsHeap g
  pub size : g.size ≡ h.size + 1
  pub contents : (p : Ptr) → Contains g g.size p ↔ (Contains h h.size p ⊎ (p ≡ elem))
  pub kept : Kept h g elem

-- `g` is the heap `h` with `elem` taken out, whose index is -1 from then on.
pub record Removed (h : MinHeap) (elem : Ptr) (g : MinHeap) : Type 0 where
  pub heap : IsHeap g
  pub size : g.size + 1 ≡ h.size
  pub contents : (p : Ptr) → Contains g g.size p ↔ (Contains h h.size p × (p ≢ elem))
  pub kept : Kept h g elem
  pub outside : index_of g elem ≡ minus_one

-- The earliest time is at the root.
pub root_least_below :
    (k : ℕ) {h : MinHeap} {n : ℕ} (j : ℕ) → j < k → IsSound h n → j < n → time_at h 0 ≤ time_at h j
root_least_below zero j f v b = absurd (omega arith)
root_least_below (suc k) zero f v b = omega arith
root_least_below (suc k) (suc j) f v b = omega (
  arith,
  root_least_below k (parent (suc j)) (omega arith) v (omega arith),
  v.order (suc j) (omega arith) b,
)
