-- ===== src/Agent/Controller.antt =====
-- agent/core.c: which interface and which neighbour a search for the controller gives.
use easymesh.Prelude.{
  List, ◌≡◌, [], ◌∷◌, ◌++◌, refl, Bool-cases, inl, inr, none, some, ◌==◌, Option, ◌≢◌, arith, ap,
}
use easymesh.Agent.{
  NetworkInterface, Neighbour, find_controller, find_controller_interface, found_on,
  sup_service_controller,
}

-- No neighbour in the list is a controller.
unfoldable pub NoController : List Neighbour → Type 0
NoController [] = Unit {0}
NoController (d ∷ ds) = (d.sup_service ≢ sup_service_controller) × NoController ds

pub NoneHas : List NetworkInterface → Type 0
unfolding NoController
NoneHas [] = Unit {0}
NoneHas (i ∷ is) = NoController i.nbr_1905 × NoneHas is

-- The first controller among some neighbours.
pub record FirstController (ds : List Neighbour) (d : Neighbour) : Type 0 where
  pub before : List Neighbour
  pub after : List Neighbour
  pub place : ds ≡ before ++ d ∷ after
  pub none_before : NoController before
  pub is_controller : d.sup_service ≡ sup_service_controller

-- It stands on the first interface that has one.
pub record FirstOn (is : List NetworkInterface) (i : NetworkInterface) (d : Neighbour)
    : Type 0 where
  pub before : List NetworkInterface
  pub after : List NetworkInterface
  pub place : is ≡ before ++ i ∷ after
  pub none_before : NoneHas before
  pub first : FirstController i.nbr_1905 d

pub Found : List NetworkInterface → Option (NetworkInterface × Neighbour) → Type 0
unfolding NoneHas
Found is none = NoneHas is
Found is (some (i, d)) = FirstOn is i d

FoundAmong : List Neighbour → Option Neighbour → Type 0
unfolding NoController
FoundAmong ds none = NoController ds
FoundAmong ds (some d) = FirstController ds d

among_behind :
    (c : Neighbour) (ds : List Neighbour) (r : Option Neighbour)
    → c.sup_service ≢ sup_service_controller
    → FoundAmong ds r
    → FoundAmong (c ∷ ds) r
unfolding FoundAmong NoController
among_behind c ds none not_one f = (not_one, f)
among_behind c ds (some d) not_one f = record {
  before = c ∷ f.before;
  after = f.after;
  place = ap (λ (xs : List Neighbour). c ∷ xs) f.place;
  none_before = (not_one, f.none_before);
  is_controller = f.is_controller;
}

find_controller_interface-FoundAmong :
    (ds : List Neighbour) → FoundAmong ds (find_controller_interface ds)
unfolding FoundAmong NoController find_controller_interface
find_controller_interface-FoundAmong [] = tt
find_controller_interface-FoundAmong (d ∷ ds) =
    elim (Bool-cases (d.sup_service == sup_service_controller)) [
      | inl is ↦ rw is (record {
        before = [];
        after = ds;
        place = refl;
        none_before = tt;
        is_controller = ground (arith, is);
      })
      | inr other ↦ rw other (
          among_behind d ds (find_controller_interface ds) (λ e. ground (arith, other, e))
            (find_controller_interface-FoundAmong ds))
    ]

behind :
    (i : NetworkInterface) (is : List NetworkInterface) (here : Option Neighbour)
    (r : Option (NetworkInterface × Neighbour))
    → FoundAmong i.nbr_1905 here
    → Found is r
    → Found (i ∷ is) (found_on i here r)
unfolding FoundAmong Found NoneHas found_on NoController
behind i is (some d) r f g = record {
  before = [];
  after = is;
  place = refl;
  none_before = tt;
  first = f;
}
behind i is none none f g = (f, g)
behind i is none (some (j, d)) f g = record {
  before = i ∷ g.before;
  after = g.after;
  place = ap (λ (xs : List NetworkInterface). i ∷ xs) g.place;
  none_before = (f, g.none_before);
  first = g.first;
}

-- find_controller gives the first neighbour that is a controller on the first interface that has
-- one; if it gives none, no neighbour of any interface is a controller.
pub find_controller-Found : (is : List NetworkInterface) → Found is (find_controller is)
unfolding find_controller Found NoneHas
find_controller-Found [] = tt
find_controller-Found (i ∷ is) =
    behind i is (find_controller_interface i.nbr_1905) (find_controller is)
      (find_controller_interface-FoundAmong i.nbr_1905) (find_controller-Found is)
