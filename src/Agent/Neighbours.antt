-- ===== src/Agent/Neighbours.antt =====
-- agent/core.c: additions, searches and removals of the neighbours of an interface.
use easymesh.Prelude.Run.{done}
use easymesh.Mbus.{same_name}
use mathlib.Core.Path.{subst}
use easymesh.Prelude.{
  List, ◌≡◌, ℕ, [], ◌∷◌, ◌++◌, refl, Bool-cases, inl, inr, false, none, some, if◌then◌else◌, ◌∙◌,
  ap, Option, true,
}
use easymesh.Mbus.Names.{same_name-eq, same_name_refl, same_name_sym}
use easymesh.Agent.{
  Neighbour, NetworkInterface, search_1905_nbr, del_1905_nbr, add_1905_nbr, search_among, del_among,
}

search_among-del_among : (a : List ℕ) (ds : List Neighbour) → search_among a (del_among a ds) ≡ none
unfolding search_among del_among
search_among-del_among a [] = refl
search_among-del_among a (d ∷ ds) = elim (Bool-cases (same_name a d.al_addr)) [
  | inl is ↦ rw is (search_among-del_among a ds)
  | inr other ↦ rw (other, other) (search_among-del_among a ds)
]

search_among-other :
    (a b : List ℕ) (ds : List Neighbour)
    → same_name a b ≡ false
    → search_among b (del_among a ds) ≡ search_among b ds
unfolding search_among del_among
search_among-other a b [] differs = refl
search_among-other a b (d ∷ ds) differs = elim (Bool-cases (same_name a d.al_addr)) [
  | inl is ↦
      let e = same_name-eq a d.al_addr is in
      let skips : same_name b d.al_addr ≡ false =
        subst (λ c. same_name b c ≡ false) e (same_name_sym a b differs) in
      rw (is, skips) (search_among-other a b ds differs)
  | inr other ↦
      rw other
        (ap (λ r. if same_name b d.al_addr then some d else r) (search_among-other a b ds differs))
]

pub search_among-append :
    (a : List ℕ) (ds : List Neighbour) (d : Neighbour)
    → search_among a ds ≡ none
    → search_among a (ds ++ d ∷ []) ≡ (if same_name a d.al_addr then some d else none)
unfolding search_among
search_among-append a [] d fresh = refl
search_among-append a (c ∷ ds) d fresh = elim (Bool-cases (same_name a c.al_addr)) [
  | inl is ↦
      absurd (some≢none (subst (λ b. (if b then some c else search_among a ds) ≡ none) is fresh))
  | inr other ↦ rw other (
      search_among-append a ds d
        (subst (λ b. (if b then some c else search_among a ds) ≡ none) other fresh))
]
  where
    some≢none : some c ≡ none → ⊥
    some≢none e = cc

-- P

-- Where malloc gives the iterators, del_1905_nbr of an address returns; after it a search for the
-- address finds nothing, a search for another address gives what it gave before, and once a
-- neighbour of that address is added, the search finds it.
pub search_1905_nbr-del_1905_nbr :
    (i : NetworkInterface) (d : Neighbour) (b : List ℕ)
    → same_name d.al_addr b ≡ false
    → (t : NetworkInterface) × (r : Option Neighbour) × (del_1905_nbr true d.al_addr i ≡ done tt t)
      × (search_1905_nbr true d.al_addr t ≡ done none t)
      × (search_1905_nbr true d.al_addr (add_1905_nbr d t) ≡ done (some d) (add_1905_nbr d t))
      × (search_1905_nbr true b i ≡ done r i)
      × (search_1905_nbr true b t ≡ done r t)
unfolding search_1905_nbr del_1905_nbr add_1905_nbr
search_1905_nbr-del_1905_nbr i d b differs =
    let gone = search_among-del_among d.al_addr i.nbr_1905 in
    let left = del_among d.al_addr i.nbr_1905 in
    let back : search_among d.al_addr (left ++ d ∷ []) ≡ some d =
      search_among-append d.al_addr left d gone ∙ rw (same_name_refl d.al_addr) refl in
    (
      record i { nbr_1905 = left },
      search_among b i.nbr_1905,
      refl,
      rw gone refl,
      rw back refl,
      refl,
      rw (search_among-other d.al_addr b i.nbr_1905 differs) refl,
    )
