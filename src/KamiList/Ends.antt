-- ===== src/KamiList/Ends.antt =====
-- util/list.c: KamiListDelTail and KamiListDelHead.
use easymesh.KamiList.Sequence.{item, item-end}
use easymesh.KamiList.Shape.{IsList}
use easymesh.Prelude.Int.{pos, minus_one}
use native.Mathlib.Decide.{ℕ_discrete}
use easymesh.Prelude.Run.{Ptr, Returns, returns, null, done}
use easymesh.Prelude.{
  ℕ, List, length, arith, ◌-◌, ◌≡◌, ◌==◌, ◌≢◌, refl, ◌<◌, false, true, leb, Bool-cases, ◌||◌, inl,
  inr,
}
use easymesh.KamiList.{
  set_list, Store, del, store, load, load_header, store_header, del_head, del_tail, set_head,
  set_tail, set_next, set_prev, set_size,
}
use easymesh.KamiList.Remove.{Deleted, deleted, no_list, some, far, same}

del-stranger :
    (g : Store) (l p : Ptr) → g.live p ≡ true → (g.node p).list ≢ l → del l p g ≡ done minus_one g
unfolding del load load_header
del-stranger g l p a ne =
    let other : ((g.node p).list == l) ≡ false = ground (arith, ne) in
    elim (Bool-cases (l == null || p == null || (g.header l).size == 0)) [
      | inl t ↦ rw t refl
      | inr f ↦ rw (f, a, other) refl
    ]

module _ {h : Store} {l : Ptr} {xs : List Ptr} (v : IsList h l xs) (place : l ≢ null)
    (within : 0 < length xs) where
  del_tail_only :
      length xs ≡ 1 → Returns (λ r g. (r ≡ pos 0) × Deleted h l xs (length xs - 1) g) (del_tail l h)
  unfolding del_tail set_head set_tail set_next set_prev set_size set_list load store load_header
      store_header
  del_tail_only e =
      let end : (h.header l).tail ≡ item xs (length xs - 1) = ground (arith, v.tail) in
      let a = (v.nodes (length xs - 1) (omega arith)).alive in
      let one : leb (h.header l).size 1 ≡ true = ground (arith, v.size) in
      rw (no_list v place 0 within, some v place 0 within, end, a, a, one)
        (returns (
          refl,
          deleted v place (length xs - 1) (omega arith) _ (record {
            size = ground (arith, v.size);
            head = ground (arith, item-end xs 1 (omega arith));
            tail = ground (arith);
            owned = ground (arith);
            nexts = λ i b ne. absurd (omega arith);
            prevs = λ i b ne. absurd (omega arith);
            lists = λ i b ne. absurd (omega arith);
            live = refl;
            headers = λ m ne. ground arith;
            payloads = λ q. ground arith;
            others = λ q f. ground (arith, f (length xs - 1));
          }),
        ))

  del_tail_more :
      1 < length xs → Returns (λ r g. (r ≡ pos 0) × Deleted h l xs (length xs - 1) g) (del_tail l h)
  unfolding del_tail set_head set_tail set_next set_prev set_size set_list load store load_header
      store_header
  del_tail_more more =
      let end : (h.header l).tail ≡ item xs (length xs - 1) = ground (arith, v.tail) in
      let last = v.nodes (length xs - 1) (omega arith) in
      let a = last.alive in
      let previous = v.nodes (length xs - 2) (omega arith) in
      let b = previous.alive in
      let ahead : (h.node (item xs (length xs - 1))).prev ≡ item xs (length xs - 2) =
        ground (arith, last.prev) in
      let several : leb (h.header l).size 1 ≡ false = ground (arith, v.size) in
      let back = same v place (length xs - 1) (omega arith) in
      let here = λ (i : ℕ) (b : i < length xs) (ne : i ≢ length xs - 1).
        far v place 0 within i (length xs - 1) b (omega arith) ne in
      rw (no_list v place 0 within, some v place 0 within, end, a, a, several, a, back, ahead, b, b)
        (returns (
          refl,
          deleted v place (length xs - 1) (omega arith) _ (record {
            size = ground (arith, v.size);
            head = ground (arith, v.head);
            tail = ground (arith);
            owned = ground (arith, v.unique (length xs - 1) (length xs - 2));
            nexts = λ i b ne. ground (
              arith,
              (v.nodes i b).next,
              here i b ne,
              v.unique i (length xs - 2),
              item-end xs (length xs) (omega arith),
            );
            prevs = λ i b ne.
                ground (arith, (v.nodes i b).prev, here i b ne, v.unique i (length xs - 2));
            lists = λ i b ne.
                ground (arith, (v.nodes i b).owned, here i b ne, v.unique i (length xs - 2));
            live = refl;
            headers = λ m ne. ground arith;
            payloads = λ q. ground arith;
            others = λ q f. ground (arith, f (length xs - 1), f (length xs - 2));
          }),
        ))

  -- On a list that is not empty, of distinct nodes whose links agree, KamiListDelTail returns 0
  -- and leaves the list without its last node. Nodes outside it, other headers and all payloads
  -- are as they were.
  del_tail-Deleted : Returns (λ r g. (r ≡ pos 0) × Deleted h l xs (length xs - 1) g) (del_tail l h)
  del_tail-Deleted = elim (ℕ_discrete (length xs) 1) [
    | yes e ↦ del_tail_only e
    | no ne ↦ del_tail_more (omega arith)
  ]

  -- After KamiListDelHead on a list of two or more nodes, the second node is the head, but
  -- KamiListDel refuses it with -1 and changes nothing.
  pub del_head_orphans :
      1 < length xs
      → Returns
          (λ r g. ((g.header l).head ≡ item xs 1) × (del l (item xs 1) g ≡ done minus_one g))
          (del_head l h)
  unfolding del_head set_head set_tail set_next set_prev set_size set_list load store load_header
      store_header
  del_head_orphans more =
      let a = (v.nodes 0 within).alive in
      let second = v.nodes 1 more in
      let b = second.alive in
      let several : leb (h.header l).size 1 ≡ false = ground (arith, v.size) in
      let follow : (h.node (item xs 0)).next ≡ item xs 1 =
        ground (arith, (v.nodes 0 within).next) in
      let real : (item xs 1 == null) ≡ false = ground (arith, second.real) in
      rw
        (
          no_list v place 0 within,
          some v place 0 within,
          v.head,
          a,
          a,
          several,
          a,
          same v place 0 within,
          follow,
          b,
          b,
          b,
          b,
        )
        (returns (ground arith, del-stranger _ l _ (ground arith) (ground (arith, place))))
