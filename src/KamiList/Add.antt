-- ===== src/KamiList/Add.antt =====
-- util/list.c: KamiListAddHead and KamiListAddTail.
use easymesh.Prelude.Run.{Ptr, Returns, done, null, returns}
use easymesh.Prelude.{
  ltb, ◌+◌, false, arith, length, ℕ, ◌≢◌, true, List, ◌≤◌, ◌<◌, ◌-◌, ◌≡◌, ◌==◌, refl,
}
use easymesh.Prelude.Int.{pos}
use native.Mathlib.Decide.{ℕ_discrete}
use easymesh.KamiList.{
  Store, refuses, add_first, add_tail, grow, load, store, load_header, store_header, add_head,
}
use easymesh.KamiList.Sequence.{item, insert_idx, item-end}
use easymesh.KamiList.Shape.{IsList, Linked, Linked-IsList}

-- What an addition asks of its item, and what it leaves.
pub record CanAdd (h : Store) (l p : Ptr) : Type 0 where
  pub place : l ≢ null
  pub real : p ≢ null
  pub alive : h.live p ≡ true
  pub apart : (h.node p).list ≢ l
  pub room : (h.header l).size < 2147483647

pub record Added (h : Store) (l : Ptr) (xs : List Ptr) (k : ℕ) (p : Ptr) (g : Store) : Type 0 where
  pub linked : Linked h l xs k p g
  pub is_list : IsList g l (insert_idx xs k p)

module _ {h : Store} {l : Ptr} {xs : List Ptr} (v : IsList h l xs) {p : Ptr}
    (c : CanAdd h l p) where
  pub fresh : (i : ℕ) → i < length xs → item xs i ≢ p
  fresh i b = ground (arith, v.nodes i, c.apart)

  pub Linked-Added :
      (k : ℕ) → k ≤ length xs → (g : Store) → Linked h l xs k p g → Added h l xs k p g
  Linked-Added k b g w = record {
    linked = w;
    is_list = Linked-IsList v k b p c.alive c.real fresh g w;
  }

  pub full : ltb ((h.header l).size + 1) 2147483648 ≡ true
  full = ground (arith, c.room)

  refuses-false : refuses l p h ≡ done false h
  unfolding refuses
  refuses-false =
      let no_list : (l == null) ≡ false = ground (arith, c.place) in
      let no_item : (p == null) ≡ false = ground (arith, c.real) in
      let not_in : ((h.node p).list == l) ≡ false = ground (arith, c.apart) in
      rw (no_list, no_item, c.alive, not_in)

  add_first-Added :
      length xs ≡ 0 → Returns (λ r g. (r ≡ pos 0) × Added h l xs 0 p g) (add_first l p h)
  unfolding add_first grow load store load_header store_header
  add_first-Added e =
      let a = c.alive in
      rw (a, a, a, a, full, a, a)
        (returns (
          refl,
          Linked-Added 0 (omega arith) _ (record {
            size = ground (arith, v.size);
            head = ground arith;
            tail = ground arith;
            owned = ground arith;
            next = ground (arith, item-end xs 0 (omega arith));
            prev = ground arith;
            nexts = λ i b. absurd (omega arith);
            prevs = λ i b. absurd (omega arith);
            lists = λ i b. absurd (omega arith);
            live = refl;
            headers = λ m ne. ground arith;
            payloads = λ q. ground arith;
            others = λ q ne _. ground arith;
          }),
        ))

  -- On a list of distinct nodes whose links agree, with fewer than 2^31 - 1 nodes,
  -- KamiListAddTail of a node of no or another list returns 0 and appends it. The result is again
  -- such a list, and no other node, header or payload changes.
  pub add_tail-Added : Returns (λ r g. (r ≡ pos 0) × Added h l xs (length xs) p g) (add_tail l p h)
  unfolding add_tail grow load store load_header store_header
  add_tail-Added = rw refuses-false (elim (ℕ_discrete (length xs) 0) [
    | yes e ↦
        let empty : ((h.header l).size == 0) ≡ true = ground (arith, v.size) in
        rw (empty, e) (add_first-Added e)
    | no ne ↦
        let some : ((h.header l).size == 0) ≡ false = ground (arith, v.size) in
        let last = v.nodes (length xs - 1) (omega arith) in
        let end : h.live (h.header l).tail ≡ true = ground (arith, last.alive, v.tail) in
        let a = c.alive in
        rw (some, a, a, a, a, full, end, end, a, a)
          (returns (
            refl,
            Linked-Added (length xs) (omega arith) _ (record {
              size = ground (arith, v.size);
              head = ground (arith, v.head);
              tail = ground (arith);
              owned = ground (arith);
              next =
                  ground
                    (arith, v.tail, fresh (length xs - 1), item-end xs (length xs) (omega arith));
              prev = ground (arith, v.tail);
              nexts = λ i b. ground (
                arith,
                v.tail,
                fresh i,
                fresh (length xs - 1),
                (v.nodes i b).next,
                v.unique i (length xs - 1),
              );
              prevs = λ i b. ground (
                arith,
                v.tail,
                fresh i,
                fresh (length xs - 1),
                (v.nodes i b).prev,
                v.unique i (length xs - 1),
              );
              lists = λ i b. ground (
                arith,
                v.tail,
                fresh i,
                fresh (length xs - 1),
                (v.nodes i b).owned,
                v.unique i (length xs - 1),
              );
              live = refl;
              headers = λ m ne. ground arith;
              payloads = λ q. ground arith;
              others = λ q ne f. ground (arith, v.tail, f (length xs - 1));
            }),
          ))
  ])

  -- On a list of distinct nodes whose links agree, KamiListAddHead of a node of no or another
  -- list returns 0 and puts it first. The result is again such a list, and no other node, header
  -- or payload changes.
  add_head-Added : Returns (λ r g. (r ≡ pos 0) × Added h l xs 0 p g) (add_head l p h)
  unfolding add_head grow load store load_header store_header
  add_head-Added = rw refuses-false (elim (ℕ_discrete (length xs) 0) [
    | yes e ↦
        let empty : ((h.header l).size == 0) ≡ true = ground (arith, v.size) in
        rw empty (add_first-Added e)
    | no ne ↦
        let some : ((h.header l).size == 0) ≡ false = ground (arith, v.size) in
        let first = v.nodes 0 (omega arith) in
        let begin : h.live (h.header l).head ≡ true = ground (arith, first.alive, v.head) in
        let a = c.alive in
        rw (some, a, a, a, a, full, begin, begin, a, a)
          (returns (
            refl,
            Linked-Added 0 (omega arith) _ (record {
              size = ground (arith, v.size);
              head = ground arith;
              tail = ground (arith, v.tail);
              owned = ground arith;
              next = ground (arith, v.head, fresh 0);
              prev = ground (arith, v.head, fresh 0);
              nexts = λ i b. ground (arith, v.head, fresh i, fresh 0, (v.nodes i b).next);
              prevs =
                  λ i b. ground (arith, v.head, fresh i, fresh 0, (v.nodes i b).prev, v.unique i 0);
              lists = λ i b. ground (arith, v.head, fresh i, fresh 0, (v.nodes i b).owned);
              live = refl;
              headers = λ m ne. ground arith;
              payloads = λ q. ground arith;
              others = λ q ne f. ground (arith, v.head, f 0);
            }),
          ))
  ])
