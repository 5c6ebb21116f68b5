-- ===== src/KamiList/Remove/Middle.antt =====
-- util/list.c: KamiListDel between two elements.
use easymesh.Prelude.Int.{pos}
use easymesh.Prelude.Run.{Ptr, Returns, returns, null}
use easymesh.Prelude.{ℕ, List, length, arith, ◌≢◌, ◌≡◌, ◌<◌, ◌+◌, false, ◌-◌, ◌==◌, refl}
use easymesh.KamiList.{
  store, Store, del, detach, set_head, set_tail, set_size, set_next, set_list, set_prev, load,
  load_header, store_header,
}
use easymesh.KamiList.Sequence.{item}
use easymesh.KamiList.Shape.{IsList}
use easymesh.KamiList.Remove.{
  Deleted, deleted, no_list, no_item, some, own, several, same, differs, names, far,
}

module _ {h : Store} {l : Ptr} {xs : List Ptr} (v : IsList h l xs) (place : l ≢ null) (k : ℕ)
    (within : k < length xs) where
  pub del_middle :
      0 < k
      → k + 1 < length xs
      → Returns (λ r g. (r ≡ pos 0) × Deleted h l xs k g) (del l (item xs k) h)
  unfolding del detach set_head set_tail set_next set_prev set_size set_list load store load_header
      store_header
  del_middle first last =
      let a = (v.nodes k within).alive in
      let begin = v.head in
      let end : (h.header l).tail ≡ item xs (length xs - 1) = ground (arith, v.tail) in
      let ahead : (h.node (item xs k)).prev ≡ item xs (k - 1) =
        ground (arith, (v.nodes k within).prev) in
      let follow = (v.nodes k within).next in
      let previous = v.nodes (k - 1) (omega arith) in
      let second = v.nodes (k + 1) (omega arith) in
      let p = previous.alive in
      let n = second.alive in
      let real : (item xs (k - 1) == null) ≡ false = ground (arith, previous.real) in
      let real2 : (item xs (k + 1) == null) ≡ false = ground (arith, second.real) in
      let r1 = far v place k within (k + 1) (k - 1) last (omega arith) (omega arith) in
      let r2 = far v place k within k (k - 1) within (omega arith) (omega arith) in
      let r3 = far v place k within k (k + 1) within last (omega arith) in
      rw
        (
          (no_list v place k within),
          (no_item v place k within),
          (some v place k within),
          a,
          (own v place k within),
          several v place k within (omega arith),
          begin,
          differs v place k within 0 (omega arith) (omega arith),
          end,
          differs v place k within (length xs - 1) (omega arith) (omega arith),
          a,
          ahead,
          real,
          follow,
          real2,
          p,
          p,
          n,
          n,
          a,
          a,
          a,
          a,
          a,
          a,
        )
        (returns (
          refl,
          deleted v place k within _ (record {
            size = ground (arith, v.size);
            head = ground (arith, v.head);
            tail = ground (arith, v.tail);
            owned = ground (arith);
            nexts = λ i b ne.
                let field = (v.nodes i b).next in
                simp
                  (
                    far v place k within i k b within ne,
                    (same v place k within),
                    r1,
                    r2,
                    r3,
                    names v place k within i (k - 1) b (omega arith),
                    names v place k within i (k + 1) b (omega arith),
                  )
                  (ground (arith, field));
            prevs = λ i b ne.
                let field = (v.nodes i b).prev in
                simp
                  (
                    far v place k within i k b within ne,
                    (same v place k within),
                    r1,
                    r2,
                    r3,
                    names v place k within i (k - 1) b (omega arith),
                    names v place k within i (k + 1) b (omega arith),
                  )
                  (ground (arith, field));
            lists = λ i b ne.
                let field = (v.nodes i b).owned in
                simp
                  (
                    far v place k within i k b within ne,
                    (same v place k within),
                    r1,
                    r2,
                    r3,
                    names v place k within i (k - 1) b (omega arith),
                    names v place k within i (k + 1) b (omega arith),
                  )
                  (ground (arith, field));
            live = refl;
            headers = λ m ne. ground arith;
            payloads = λ q. ground arith;
            others = λ q f. ground (arith, f k, f (k - 1), f (k + 1));
          }),
        ))
