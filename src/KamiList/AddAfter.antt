-- ===== src/KamiList/AddAfter.antt =====
-- util/list.c: KamiListAddAfter.
use native.Mathlib.Decide.{ℕ_discrete}
use easymesh.Prelude.Int.{pos}
use easymesh.Prelude.Run.{Ptr, Returns, returns, null}
use easymesh.Prelude.{ℕ, List, length, arith, ◌<◌, ◌≡◌, true, false, ◌==◌, ◌+◌, ◌∙◌, ◌-◌, refl}
use easymesh.KamiList.{
  grow, set_next, set_prev, set_list, set_head, set_tail, set_size, store, load, Store, add_after,
  store, load, load_header, store_header, set_next, set_prev, set_list, set_head, set_tail,
  set_size,
}
use easymesh.KamiList.Sequence.{item, item-end}
use easymesh.KamiList.Shape.{IsList}
use easymesh.KamiList.Add.{CanAdd, Added, fresh, full, Linked-Added}

module _ {h : Store} {l : Ptr} {xs : List Ptr} (v : IsList h l xs) {p : Ptr} (c : CanAdd h l p)
    (k : ℕ) (within : k < length xs) where
  no_list : (l == null) ≡ false
  no_list = ground (arith, c.place)

  no_item : (p == null) ≡ false
  no_item = ground (arith, c.real)

  no_prev : (item xs k == null) ≡ false
  no_prev = ground (arith, (v.nodes k within).real)

  own : ((h.node (item xs k)).list == l) ≡ true
  own = ground (arith, (v.nodes k within).owned)

  not_in : ((h.node p).list == l) ≡ false
  not_in = ground (arith, c.apart)

  apart : (item xs k == p) ≡ false
  apart = ground (arith, fresh v c k within)

  names : (i j : ℕ) → i < length xs → j < length xs → (item xs i == item xs j) ≡ (i == j)
  names i j b d = ground (arith, v.unique i j)

  off : (i : ℕ) → i < length xs → (item xs i == p) ≡ false
  off i b = ground (arith, fresh v c i b)

  self : (p == p) ≡ true
  self = ground arith

  back : (p == item xs k) ≡ false
  back = ground (arith, fresh v c k within)

  add_after_last :
      k + 1 ≡ length xs
      → Returns (λ r g. (r ≡ pos 0) × Added h l xs (k + 1) p g) (add_after l (item xs k) p h)
  unfolding add_after load store load_header store_header set_next set_prev set_list set_head
      set_tail set_size grow
  add_after_last last =
      let a = c.alive in
      let at = v.nodes k within in
      let b = at.alive in
      let none_follows : (h.node (item xs k)).next ≡ null =
        at.next ∙ item-end xs (k + 1) (omega arith) in
      let end : (h.header l).tail ≡ item xs k = ground (arith, v.tail) in
      let same : (item xs k == item xs k) ≡ true = ground arith in
      rw
        (
          no_list,
          no_prev,
          no_item,
          b,
          own,
          a,
          not_in,
          a,
          a,
          a,
          a,
          b,
          apart,
          none_follows,
          a,
          a,
          b,
          b,
          end,
          same,
          full v c,
        )
        (returns (
          refl,
          Linked-Added v c (k + 1) (omega arith) _ (record {
            size = ground (arith, v.size);
            head = ground (arith, v.head);
            tail = ground (arith, v.tail);
            owned = simp (self, off k within, back) (ground arith);
            next =
                simp (self, off k within, back) (ground (arith, item-end xs (k + 1) (omega arith)));
            prev = simp (self, off k within, back) (ground arith);
            nexts = λ i d.
                let field = (v.nodes i d).next in
                simp (off i d, self, apart, names i k d within) (ground (arith, field));
            prevs = λ i d.
                let field = (v.nodes i d).prev in
                simp (off i d, self, apart, names i k d within) (ground (arith, field));
            lists = λ i d.
                let field = (v.nodes i d).owned in
                simp (off i d, self, apart, names i k d within) (ground (arith, field));
            live = refl;
            headers = λ m ne. ground arith;
            payloads = λ q. ground arith;
            others = λ q ne f. ground (arith, f k);
          }),
        ))

  add_after_inner :
      k + 1 < length xs
      → Returns (λ r g. (r ≡ pos 0) × Added h l xs (k + 1) p g) (add_after l (item xs k) p h)
  unfolding add_after load store load_header store_header set_next set_prev set_list set_head
      set_tail set_size grow
  add_after_inner inner =
      let a = c.alive in
      let at = v.nodes k within in
      let b = at.alive in
      let second = v.nodes (k + 1) inner in
      let d = second.alive in
      let follows : (h.node (item xs k)).next ≡ item xs (k + 1) = at.next in
      let real : (item xs (k + 1) == null) ≡ false = ground (arith, second.real) in
      let not_end : (item xs k == (h.header l).tail) ≡ false =
        ground (arith, v.tail, v.unique k (length xs - 1)) in
      let r1 : (item xs (k + 1) == item xs k) ≡ false = ground (arith, v.unique (k + 1) k) in
      let r2 : (item xs (k + 1) == p) ≡ false = off (k + 1) inner in
      let r3 : (p == item xs (k + 1)) ≡ false = ground (arith, r2) in
      rw
        (
          no_list,
          no_prev,
          no_item,
          b,
          own,
          a,
          not_in,
          a,
          a,
          a,
          a,
          b,
          apart,
          follows,
          a,
          a,
          real,
          d,
          d,
          b,
          b,
          not_end,
          full v c,
        )
        (returns (
          refl,
          Linked-Added v c (k + 1) (omega arith) _ (record {
            size = ground (arith, v.size);
            head = ground (arith, v.head);
            tail = ground (arith, v.tail);
            owned = simp (self, off k within, back, r2, r3) (ground arith);
            next = simp (self, off k within, back, r2, r3) (ground (arith, at.next));
            prev = simp (self, off k within, back, r2, r3) (ground arith);
            nexts = λ i d.
                let field = (v.nodes i d).next in
                simp (off i d, self, apart, r2, names i k d within, names i (k + 1) d (omega arith))
                  (ground (arith, field));
            prevs = λ i d.
                let field = (v.nodes i d).prev in
                simp (off i d, self, apart, r2, names i k d within, names i (k + 1) d (omega arith))
                  (ground (arith, field));
            lists = λ i d.
                let field = (v.nodes i d).owned in
                simp (off i d, self, apart, r2, names i k d within, names i (k + 1) d (omega arith))
                  (ground (arith, field));
            live = refl;
            headers = λ m ne. ground arith;
            payloads = λ q. ground arith;
            others = λ q ne f. ground (arith, f k, f (k + 1));
          }),
        ))

  -- On a list of distinct nodes whose links agree, KamiListAddAfter of one of the nodes and a
  -- node of no or another list returns 0 and puts it right behind the first. The result is again
  -- such a list, and no other node, header or payload changes.
  add_after-Added :
      Returns (λ r g. (r ≡ pos 0) × Added h l xs (k + 1) p g) (add_after l (item xs k) p h)
  add_after-Added = elim (ℕ_discrete (k + 1) (length xs)) [
    | yes e ↦ add_after_last e
    | no ne ↦ add_after_inner (omega arith)
  ]
