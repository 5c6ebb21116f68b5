-- ===== src/KamiList/Remove/Any.antt =====
-- util/list.c: KamiListDel.
use easymesh.KamiList.Remove.Middle.{del_middle}
use easymesh.KamiList.Remove.Ends.{del_single, del_first, del_last}
use easymesh.Prelude.Int.{pos}
use native.Mathlib.Decide.{ℕ_discrete}
use easymesh.Prelude.Run.{Ptr, Returns, null}
use easymesh.Prelude.{ℕ, List, length, arith, ◌≢◌, ◌≡◌, ◌<◌, ◌+◌}
use easymesh.KamiList.{Store, del}
use easymesh.KamiList.Sequence.{item}
use easymesh.KamiList.Shape.{IsList}
use easymesh.KamiList.Remove.{Deleted}

module _ {h : Store} {l : Ptr} {xs : List Ptr} (v : IsList h l xs) (place : l ≢ null) (k : ℕ)
    (within : k < length xs) where
  -- On a list of distinct nodes whose links agree, KamiListDel of the node at an index returns 0
  -- and leaves the list of the others in the same order, with their links, the ends and the size
  -- right. Nodes outside the list, other headers and all payloads are as they were.
  pub del-Deleted : Returns (λ r g. (r ≡ pos 0) × Deleted h l xs k g) (del l (item xs k) h)
  del-Deleted = elim (ℕ_discrete (length xs) 1) [
    | yes e ↦ del_single v place k within e
    | no ne ↦ elim (ℕ_discrete k 0) [
      | yes e ↦ del_first v place k within e (omega arith)
      | no nz ↦ elim (ℕ_discrete (k + 1) (length xs)) [
        | yes e ↦ del_last v place k within e (omega arith)
        | no nl ↦ del_middle v place k within (omega arith) (omega arith)
      ]
    ]
  ]
