-- ===== src/KamiList/Read.antt =====
-- util/list.c: the iterator from the head, KamiListContains and KamiListAt.
use native.Mathlib.Decide.{ℕ_discrete}
use easymesh.Prelude.Int.{ℤ, pos, negsuc}
use easymesh.Prelude.Run.{Ptr, null, done, fault, and_then, pure, Cmd}
use easymesh.Prelude.{
  ℕ, List, length, arith, suc, inr, false, Bool, ◌∷◌, drop, ◌==◌, zero, ◌<◌, ◌≡◌, if◌then◌else◌,
  ◌+◌, refl, Bool-cases, inl, [], true, none, some, ◌≢◌, Option, sym, ap, ◌∙◌,
}
use easymesh.KamiList.{
  Store, Iterator, visit, contains_loop, contains, walk, at, resolve, next_node, load, get_iter,
  start, with_iter, load_header,
}
use easymesh.KamiList.Sequence.{item, item-end}
use easymesh.KamiList.Shape.{IsList}

drop-item : (xs : List Ptr) (k : ℕ) → k < length xs → drop k xs ≡ item xs k ∷ drop (suc k) xs
drop-item [] k b = absurd (omega arith)
drop-item (x ∷ xs) zero b = refl
drop-item (x ∷ xs) (suc k) b = drop-item xs k (omega arith)

drop-end : (xs : List Ptr) → drop (length xs) xs ≡ []
drop-end [] = refl
drop-end (x ∷ xs) = drop-end xs

length-zero : {xs : List Ptr} → length xs ≡ 0 → xs ≡ []
length-zero {xs = []} e = refl
length-zero {xs = x ∷ xs} e = absurd (omega arith)

-- Is `p` among the elements?
abbrev pub among : Ptr → List Ptr → Bool
among p [] = false
among p (x ∷ xs) = if x == p then true else among p xs

module _ {h : Store} {l : Ptr} {xs : List Ptr} (v : IsList h l xs) where
  abbrev forward : ℕ → Iterator
  forward k = record { next = item xs k; from_head = true }

  next_node-forward :
      (k : ℕ) → k < length xs → next_node (forward k) h ≡ done (item xs k, forward (suc k)) h
  unfolding next_node load
  next_node-forward k b =
      let n = v.nodes k b in
      let real : (item xs k == null) ≡ false = ground (arith, n.real) in
      rw (real, n.alive, n.next) (ground arith)

  next_node-end : next_node (forward (length xs)) h ≡ done (null, forward (length xs)) h
  unfolding next_node
  next_node-end = rw (item-end xs (length xs) (omega arith)) refl

  visit_from : (j k : ℕ) → j + k ≡ length xs → visit (suc j) (forward k) h ≡ done (drop k xs) h
  unfolding visit
  visit_from zero k e =
      let f : k ≡ length xs = omega arith in rw (f, next_node-end, drop-end xs) refl
  visit_from (suc j) k e =
      let b : k < length xs = omega arith in
      let real : (item xs k == null) ≡ false = ground (arith, (v.nodes k b).real) in
      rw (next_node-forward k b, real, visit_from j (suc k) (omega arith), drop-item xs k b) refl

  contains_from :
      (p : Ptr) (j k : ℕ)
      → j + k ≡ length xs
      → contains_loop (suc j) (forward k) p h ≡ done (among p (drop k xs)) h
  unfolding contains_loop
  contains_from p zero k e =
      let f : k ≡ length xs = omega arith in rw (f, next_node-end, drop-end xs) refl
  contains_from p (suc j) k e =
      let b : k < length xs = omega arith in
      let real : (item xs k == null) ≡ false = ground (arith, (v.nodes k b).real) in
      rw (next_node-forward k b, real)
        (elim (Bool-cases (item xs k == p)) [
          | inl t ↦ rw (t, drop-item xs k b, t) refl
          | inr f ↦ rw (f, drop-item xs k b, f) (contains_from p j (suc k) (omega arith))
        ])

  walk-item : (i k : ℕ) → i + k < length xs → walk i (item xs k) h ≡ done (item xs (i + k)) h
  unfolding walk load
  walk-item zero k b = ground arith
  walk-item (suc i) k b =
      let n = v.nodes k (omega arith) in
      let real : (item xs k == null) ≡ false = ground (arith, n.real) in
      rw (real, n.alive, n.next, walk-item i (k + 1) (omega arith)) (ground arith)

  -- On a list of distinct nodes whose links agree, a loop with an iterator from the head visits
  -- the nodes in order, each once, and ends within one step more than there are nodes, where
  -- malloc gives the iterator; where it does not, the loop reads through NULL.
  pub visit-forward :
      (allocated : Bool)
      → and_then (get_iter allocated l true h) (with_iter (visit (length xs + 1)))
        ≡ (if allocated then done xs h else fault)
  unfolding get_iter load_header start
  visit-forward false = refl
  visit-forward true =
      let steps : length xs + 1 ≡ suc (length xs) = omega arith in
      rw (v.head, steps) (visit_from (length xs) 0 (omega arith))

  -- On a list of distinct nodes whose links agree, KamiListContains of a node that is not NULL
  -- returns where malloc succeeds, and says whether the node is one of them.
  contains-among : (p : Ptr) → l ≢ null → p ≢ null → contains true l p h ≡ done (among p xs) h
  unfolding contains get_iter load_header start
  contains-among p place real =
      let no_list : (l == null) ≡ false = ground (arith, place) in
      let no_item : (p == null) ≡ false = ground (arith, real) in
      let steps : length xs + 1 ≡ suc (length xs) = omega arith in
      rw (no_list, no_item, v.size)
        (elim (ℕ_discrete (length xs) 0) [
          | yes e ↦ rw (e, length-zero e) refl
          | no ne ↦
              let some : (length xs == 0) ≡ false = ground arith in
              rw (some, v.head, steps) (contains_from p (length xs) 0 (omega arith))
        ])

  at_index :
      (o : Option ℕ) (first : Ptr)
      → first ≡ item xs 0
      → ((k : ℕ) → o ≡ some k → k < length xs)
      → elim o as (λ _. Cmd Store Ptr) [ none ↦ pure null | some k ↦ walk k first ] h
        ≡ done (elim o [ none ↦ null | some k ↦ item xs k ]) h
  at_index none first e b = refl
  at_index (some k) first e b =
      let bound = b k refl in
      let same : k + 0 ≡ k = omega arith in rw (e, walk-item k 0 (omega arith), same) refl

  resolve-bound : (i : ℤ) (k : ℕ) → resolve (length xs) i ≡ some k → k < length xs
  unfolding resolve
  resolve-bound (pos i) k e = ground (arith, e)
  resolve-bound (negsuc i) k e = ground (arith, e)

  -- On a list of distinct nodes whose links agree, KamiListAt returns the node at the index,
  -- counted from the end if it is negative, and NULL exactly where the index is out of range.
  at-item :
      (i : ℤ)
      → l ≢ null
      → at l i h ≡ done (elim (resolve (length xs) i) [ none ↦ null | some k ↦ item xs k ]) h
  unfolding at load_header
  at-item i place =
      let no_list : (l == null) ≡ false = ground (arith, place) in
      let sized : resolve (h.header l).size i ≡ resolve (length xs) i =
        ap (λ n. resolve n i) v.size in
      let bound =
        λ (k : ℕ) (e : resolve (h.header l).size i ≡ some k). resolve-bound i k (sym sized ∙ e) in
      rw (no_list, ← sized) (at_index _ _ v.head bound)
