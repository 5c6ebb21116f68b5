-- ===== src/KamiList/Remove/Ends.antt =====
-- util/list.c: KamiListDel of the only, the first or the last element.
use easymesh.Prelude.Int.{pos}
use easymesh.Prelude.Run.{Ptr, Returns, returns, null}
use easymesh.Prelude.{ℕ, List, length, arith, ◌≢◌, ◌≡◌, ◌<◌, ◌+◌, false, ◌-◌, ◌==◌, refl}
use easymesh.KamiList.{
  store, Store, del, detach, set_head, set_tail, set_size, set_next, set_list, set_prev, load,
  load_header, store_header,
}
use easymesh.KamiList.Sequence.{item, item-end}
use easymesh.KamiList.Shape.{IsList}
use easymesh.KamiList.Remove.{
  Deleted, deleted, no_list, no_item, some, own, one, several, same, differs,
}

module _ {h : Store} {l : Ptr} {xs : List Ptr} (v : IsList h l xs) (place : l ≢ null) (k : ℕ)
    (within : k < length xs) where
  pub del_single :
      length xs ≡ 1 → Returns (λ r g. (r ≡ pos 0) × Deleted h l xs k g) (del l (item xs k) h)
  unfolding del set_head set_tail set_size set_list load store load_header store_header
  del_single e =
      let a = (v.nodes k within).alive in
      rw
        (
          (no_list v place k within),
          (no_item v place k within),
          (some v place k within),
          a,
          (own v place k within),
          one v place k within e,
          a,
          a,
        )
        (returns (
          refl,
          deleted v place k within _ (record {
            size = ground (arith);
            head = ground (arith, item-end xs 1 (omega arith));
            tail = ground (arith);
            owned = ground (arith);
            nexts = λ i b ne. absurd (omega arith);
            prevs = λ i b ne. absurd (omega arith);
            lists = λ i b ne. absurd (omega arith);
            live = refl;
            headers = λ m ne. ground arith;
            payloads = λ q. ground arith;
            others = λ q f. ground (arith, f k);
          }),
        ))

  pub del_first :
      k ≡ 0
      → 1 < length xs
      → Returns (λ r g. (r ≡ pos 0) × Deleted h l xs k g) (del l (item xs k) h)
  unfolding del detach set_head set_tail set_next set_prev set_size set_list load store load_header
      store_header
  del_first first more =
      let a = (v.nodes k within).alive in
      let begin : (h.header l).head ≡ item xs k = ground (arith, v.head) in
      let follow = (v.nodes k within).next in
      let second = v.nodes (k + 1) (omega arith) in
      let b = second.alive in
      let real : (item xs (k + 1) == null) ≡ false = ground (arith, second.real) in
      rw
        (
          (no_list v place k within),
          (no_item v place k within),
          (some v place k within),
          a,
          (own v place k within),
          several v place k within more,
          begin,
          (same v place k within),
          a,
          follow,
          real,
          b,
          b,
          a,
          a,
          a,
          a,
          a,
          a,
        )
        (returns (
          refl,
          deleted v place k within _ (record {
            size = ground (arith, v.size);
            head = ground (arith);
            tail = ground (arith, v.tail);
            owned = ground (arith);
            nexts = λ i b ne. ground (arith, (v.nodes i b).next, v.unique i k, v.unique i (k + 1));
            prevs = λ i b ne. ground (arith, (v.nodes i b).prev, v.unique i k, v.unique i (k + 1));
            lists = λ i b ne. ground (arith, (v.nodes i b).owned, v.unique i k, v.unique i (k + 1));
            live = refl;
            headers = λ m ne. ground arith;
            payloads = λ q. ground arith;
            others = λ q f. ground (arith, f k, f (k + 1));
          }),
        ))

  pub del_last :
      k + 1 ≡ length xs
      → 1 < length xs
      → Returns (λ r g. (r ≡ pos 0) × Deleted h l xs k g) (del l (item xs k) h)
  unfolding del detach set_head set_tail set_next set_prev set_size set_list load store load_header
      store_header
  del_last last more =
      let a = (v.nodes k within).alive in
      let begin = v.head in
      let end : (h.header l).tail ≡ item xs k = ground (arith, v.tail) in
      let ahead : (h.node (item xs k)).prev ≡ item xs (k - 1) =
        ground (arith, (v.nodes k within).prev) in
      let previous = v.nodes (k - 1) (omega arith) in
      let b = previous.alive in
      let real : (item xs (k - 1) == null) ≡ false = ground (arith, previous.real) in
      rw
        (
          (no_list v place k within),
          (no_item v place k within),
          (some v place k within),
          a,
          (own v place k within),
          several v place k within more,
          begin,
          differs v place k within 0 (omega arith) (omega arith),
          end,
          (same v place k within),
          a,
          ahead,
          real,
          b,
          b,
          a,
          a,
          a,
          a,
          a,
          a,
        )
        (returns (
          refl,
          deleted v place k within _ (record {
            size = ground (arith, v.size);
            head = ground (arith, v.head);
            tail = ground (arith);
            owned = ground (arith);
            nexts = λ i b ne. ground (
              arith,
              (v.nodes i b).next,
              v.unique i k,
              v.unique i (k - 1),
              item-end xs (k + 1) (omega arith),
            );
            prevs = λ i b ne. ground (arith, (v.nodes i b).prev, v.unique i k, v.unique i (k - 1));
            lists = λ i b ne. ground (arith, (v.nodes i b).owned, v.unique i k, v.unique i (k - 1));
            live = refl;
            headers = λ m ne. ground arith;
            payloads = λ q. ground arith;
            others = λ q f. ground (arith, f k, f (k - 1));
          }),
        ))
