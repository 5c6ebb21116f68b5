-- ===== src/KamiList/Shape.antt =====
-- util/list.c: what it is for a header and its nodes to form a list, and what the pointer writes of
-- an addition or a removal come to.
use easymesh.Prelude.Run.{Ptr, null}
use easymesh.Prelude.{
  ℕ, if◌then◌else◌, sym, length, ◌-◌, ◌≡◌, ◌+◌, ◌≢◌, ◌≤◌, true, ◌<◌, List, arith, ◌==◌, ◌∙◌,
}
use easymesh.KamiList.{Store}
use easymesh.KamiList.Sequence.{
  item, before, insert_idx, item-insert_idx, length-insert_idx, erase_idx, item-erase_idx,
  length-erase_idx,
}

-- Node `i` of the list at `l`.
pub record IsNode (s : Store) (l : Ptr) (xs : List Ptr) (i : ℕ) : Type 0 where
  pub alive : s.live (item xs i) ≡ true
  pub real : item xs i ≢ null
  pub owned : (s.node (item xs i)).list ≡ l
  pub next : (s.node (item xs i)).next ≡ item xs (i + 1)
  pub prev : (s.node (item xs i)).prev ≡ before xs i

-- The header at `l` and the nodes `xs` form a list: forward and backward links agree with the order
-- of `xs`, the ends are NULL, every node names its list, and no node stands twice.
pub record IsList (s : Store) (l : Ptr) (xs : List Ptr) : Type 0 where
  pub size : (s.header l).size ≡ length xs
  pub head : (s.header l).head ≡ item xs 0
  pub tail : (s.header l).tail ≡ before xs (length xs)
  pub nodes : (i : ℕ) → i < length xs → IsNode s l xs i
  pub unique : (i j : ℕ) → i < length xs → j < length xs → item xs i ≡ item xs j → i ≡ j

-- The store `g` is `h` with the node `p` linked in at index `k` of the list at `l`.
pub record Linked (h : Store) (l : Ptr) (xs : List Ptr) (k : ℕ) (p : Ptr) (g : Store) : Type 0 where
  pub size : (g.header l).size ≡ length xs + 1
  pub head : (g.header l).head ≡ (if k == 0 then p else item xs 0)
  pub tail : (g.header l).tail ≡ (if k == length xs then p else before xs (length xs))
  pub owned : (g.node p).list ≡ l
  pub next : (g.node p).next ≡ item xs k
  pub prev : (g.node p).prev ≡ before xs k
  pub nexts :
      (i : ℕ)
      → i < length xs
      → (g.node (item xs i)).next ≡ (if i + 1 == k then p else item xs (i + 1))
  pub prevs :
      (i : ℕ) → i < length xs → (g.node (item xs i)).prev ≡ (if i == k then p else before xs i)
  pub lists : (i : ℕ) → i < length xs → (g.node (item xs i)).list ≡ l
  pub live : g.live ≡ h.live
  pub headers : (m : Ptr) → m ≢ l → g.header m ≡ h.header m
  pub payloads : (q : Ptr) → (g.node q).payload ≡ (h.node q).payload
  pub others : (q : Ptr) → q ≢ p → ((i : ℕ) → i < length xs → item xs i ≢ q) → g.node q ≡ h.node q

-- The store `g` is `h` with node `k` of the list at `l` taken out. Its `list` field is cleared.
pub record Unlinked (h : Store) (l : Ptr) (xs : List Ptr) (k : ℕ) (g : Store) : Type 0 where
  pub size : (g.header l).size + 1 ≡ length xs
  pub head : (g.header l).head ≡ (if k == 0 then item xs 1 else item xs 0)
  pub tail : (g.header l).tail ≡ (if k + 1 == length xs then before xs k else before xs (length xs))
  pub owned : (g.node (item xs k)).list ≡ null
  pub nexts :
      (i : ℕ)
      → i < length xs
      → i ≢ k
      → (g.node (item xs i)).next ≡ (if i + 1 == k then item xs (k + 1) else item xs (i + 1))
  pub prevs :
      (i : ℕ)
      → i < length xs
      → i ≢ k
      → (g.node (item xs i)).prev ≡ (if i == k + 1 then before xs k else before xs i)
  pub lists : (i : ℕ) → i < length xs → i ≢ k → (g.node (item xs i)).list ≡ l
  pub live : g.live ≡ h.live
  pub headers : (m : Ptr) → m ≢ l → g.header m ≡ h.header m
  pub payloads : (q : Ptr) → (g.node q).payload ≡ (h.node q).payload
  pub others : (q : Ptr) → ((i : ℕ) → i < length xs → item xs i ≢ q) → g.node q ≡ h.node q

module _ {h : Store} {l : Ptr} {xs : List Ptr} (v : IsList h l xs) (k : ℕ) (within : k ≤ length xs)
    (p : Ptr) (alive : h.live p ≡ true) (real : p ≢ null)
    (fresh : (i : ℕ) → i < length xs → item xs i ≢ p) (g : Store) (w : Linked h l xs k p g) where
  linked-IsNode : (i : ℕ) → i < length xs + 1 → IsNode g l (insert_idx xs k p) i
  linked-IsNode i b =
      let at = item-insert_idx xs k p i within in
      let after = item-insert_idx xs k p (i + 1) within in
      let front = item-insert_idx xs k p (i - 1) within in
      record {
        alive = ground (arith, at, w.live, v.nodes i, v.nodes (i - 1));
        real = ground (arith, at, v.nodes i, v.nodes (i - 1));
        owned = ground (arith, at, w.owned, w.lists i, w.lists (i - 1));
        next = ground (arith, at, after, w.next, w.nexts i, w.nexts (i - 1));
        prev = ground (arith, at, front, w.prev, w.prevs i, w.prevs (i - 1));
      }

  linked_unique :
      (i j : ℕ)
      → i < length xs + 1
      → j < length xs + 1
      → item (insert_idx xs k p) i ≡ item (insert_idx xs k p) j
      → i ≡ j
  linked_unique i j b c e = ground (
    arith,
    item-insert_idx xs k p i within,
    item-insert_idx xs k p j within,
    v.unique i j,
    v.unique i (j - 1),
    v.unique (i - 1) j,
    v.unique (i - 1) (j - 1),
    fresh i,
    fresh j,
    fresh (i - 1),
    fresh (j - 1),
  )

  pub Linked-IsList : IsList g l (insert_idx xs k p)
  Linked-IsList =
      let grown = length-insert_idx xs k p in
      record {
        size = w.size ∙ sym grown;
        head = ground (arith, w.head, item-insert_idx xs k p 0 within);
        tail = ground (arith, w.tail, grown, item-insert_idx xs k p (length xs) within);
        nodes = λ i b. linked-IsNode i (omega (arith, grown));
        unique = λ i j b c. linked_unique i j (omega (arith, grown)) (omega (arith, grown));
      }

module _ {h : Store} {l : Ptr} {xs : List Ptr} (v : IsList h l xs) (k : ℕ) (within : k < length xs)
    (g : Store) (w : Unlinked h l xs k g) where
  unlinked-IsNode : (i : ℕ) → i + 1 < length xs → IsNode g l (erase_idx xs k) i
  unlinked-IsNode i b =
      let at = item-erase_idx xs k i in
      let after = item-erase_idx xs k (i + 1) in
      let front = item-erase_idx xs k (i - 1) in
      record {
        alive = ground (arith, at, w.live, v.nodes i, v.nodes (i + 1));
        real = ground (arith, at, v.nodes i, v.nodes (i + 1));
        owned = ground (arith, at, w.lists i, w.lists (i + 1));
        next = ground (arith, at, after, w.nexts i, w.nexts (i + 1));
        prev = ground (arith, at, front, w.prevs i, w.prevs (i + 1));
      }

  unlinked_unique :
      (i j : ℕ)
      → i + 1 < length xs
      → j + 1 < length xs
      → item (erase_idx xs k) i ≡ item (erase_idx xs k) j
      → i ≡ j
  unlinked_unique i j b c e = ground (
    arith,
    item-erase_idx xs k i,
    item-erase_idx xs k j,
    v.unique i j,
    v.unique i (j + 1),
    v.unique (i + 1) j,
    v.unique (i + 1) (j + 1),
  )

  pub Unlinked-IsList : IsList g l (erase_idx xs k)
  Unlinked-IsList =
      let shrunk = length-erase_idx xs k within in
      record {
        size = omega (arith, w.size, shrunk);
        head = ground (arith, w.head, item-erase_idx xs k 0);
        tail = ground (arith, w.tail, shrunk, item-erase_idx xs k (length (erase_idx xs k) - 1));
        nodes = λ i b. unlinked-IsNode i (omega (arith, shrunk));
        unique = λ i j b c. unlinked_unique i j (omega (arith, shrunk)) (omega (arith, shrunk));
      }
