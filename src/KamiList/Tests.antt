-- ===== src/KamiList/Tests.antt =====
-- util/list.c: the theorems at a list of three nodes.
use easymesh.KamiList.Remove.Any.{del-Deleted}
use easymesh.KamiList.Ends.{del_head_orphans}
use easymesh.KamiList.Sequence.{item}
use easymesh.KamiList.Remove.{Deleted}
use easymesh.KamiList.Read.{visit-forward}
use easymesh.KamiList.Shape.{IsList, IsNode}
use easymesh.KamiList.Add.{CanAdd, Added, add_tail-Added}
use easymesh.Prelude.Int.{minus_one, pos}
use native.Mathlib.Decide.{ℕ_discrete}
use easymesh.Prelude.{
  ℕ, true, arith, if◌then◌else◌, List, ◌<◌, ◌≢◌, ◌∷◌, [], ltb, refl, length, ◌==◌, ◌≡◌, ◌&&◌, ◌+◌,
}
use easymesh.Prelude.Run.{Ptr, null, done, Returns, and_then}
use easymesh.KamiList.{Store, with_iter, get_iter, add_tail, del, visit, del_head}

-- The list at 100 has the nodes 1, 2 and 3; node 4 is in no list.
abbrev three : Store
three = record {
  node = λ p. record {
    next = if p == 1 then 2 else if p == 2 then 3 else null;
    prev = if p == 2 then 1 else if p == 3 then 2 else null;
    list = if ltb 0 p && ltb p 4 then 100 else null;
    payload = 7;
  };
  header = λ l.
      if l == 100
      then record { head = 1; tail = 3; size = 3 }
      else record { head = null; tail = null; size = 0 };
  live = λ p. ltb 0 p && ltb p 5;
}

abbrev nodes : List Ptr
nodes = 1 ∷ 2 ∷ 3 ∷ []

three-item : (i : ℕ) → i < 3 → item nodes i ≡ i + 1
three-item i b = elim (ℕ_discrete i 0) [
  | yes e ↦ rw e refl
  | no ne ↦ elim (ℕ_discrete i 1) [
    | yes e ↦ rw e refl
    | no ne2 ↦ let e : i ≡ 2 = omega arith in rw e refl
  ]
]

three-IsNode : (i : ℕ) → i < 3 → IsNode three 100 nodes i
three-IsNode i b = elim (ℕ_discrete i 0) [
  | yes e ↦ rw e (record {
    alive = refl;
    real = λ d. absurd (omega (arith, d));
    owned = refl;
    next = refl;
    prev = refl;
  })
  | no ne ↦ elim (ℕ_discrete i 1) [
    | yes e ↦ rw e (record {
      alive = refl;
      real = λ d. absurd (omega (arith, d));
      owned = refl;
      next = refl;
      prev = refl;
    })
    | no ne2 ↦
        let e : i ≡ 2 = omega arith in
        rw e (record {
          alive = refl;
          real = λ d. absurd (omega (arith, d));
          owned = refl;
          next = refl;
          prev = refl;
        })
  ]
]

three-IsList : IsList three 100 nodes
three-IsList = record {
  size = refl;
  head = refl;
  tail = refl;
  nodes = three-IsNode;
  unique = λ i j b c e. omega (arith, e, three-item i b, three-item j c);
}

four-CanAdd : CanAdd three 100 4
four-CanAdd = record {
  place = λ e. absurd (omega (arith, e));
  real = λ e. absurd (omega (arith, e));
  alive = refl;
  apart = λ e. absurd (omega (arith, e));
  room = omega arith;
}

place : 100 ≢ null
place e = omega (arith, e)

add_tail-Added_example :
    Returns (λ r g. (r ≡ pos 0) × Added three 100 nodes (length nodes) 4 g) (add_tail 100 4 three)
add_tail-Added_example = add_tail-Added three-IsList four-CanAdd

del-Deleted_example :
    Returns (λ r g. (r ≡ pos 0) × Deleted three 100 nodes 1 g) (del 100 (item nodes 1) three)
del-Deleted_example = del-Deleted three-IsList place 1 (omega arith)

del_head_orphans_example :
    Returns
      (λ r g. ((g.header 100).head ≡ item nodes 1) × (del 100 (item nodes 1) g ≡ done minus_one g))
      (del_head 100 three)
del_head_orphans_example = del_head_orphans three-IsList place (omega arith) (omega arith)

visit-forward_example :
    and_then (get_iter true 100 true three) (with_iter (visit (length nodes + 1)))
    ≡ done nodes three
visit-forward_example = visit-forward three-IsList true
