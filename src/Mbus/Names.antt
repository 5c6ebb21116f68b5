-- ===== src/Mbus/Names.antt =====
-- mbus: comparing names, and lists of names without a repetition.
use mathlib.Core.Path.{subst}
use easymesh.Prelude.{
  ℕ, List, ◌≡◌, ◌++◌, ◌∷◌, ◌<◌, length, ap, [], inl, Bool-cases, ◌||◌, length-take, arith, refl,
  false, inr, true, ◌≤◌, take, suc, zero, sym,
}
use easymesh.Mbus.{Name, same_name, cut_name}
use easymesh.Mbus.GroupManager.{search_item, remove_user}

pub same_name_refl : (a : Name) → same_name a a ≡ true
unfolding same_name
same_name_refl [] = refl
same_name_refl (b ∷ bs) = ground (arith, same_name_refl bs)

pub same_name-eq : (a b : Name) → same_name a b ≡ true → a ≡ b
unfolding same_name
same_name-eq [] [] e = refl
same_name-eq [] (c ∷ cs) e = absurd (ground (arith, e))
same_name-eq (b ∷ bs) [] e = absurd (ground (arith, e))
same_name-eq (b ∷ bs) (c ∷ cs) e =
    let heads : b ≡ c = ground (arith, e) in
    let tails : same_name bs cs ≡ true = ground (arith, e) in
    rw (heads, same_name-eq bs cs tails) refl

pub same_name_sym : (a b : Name) → same_name a b ≡ false → same_name b a ≡ false
same_name_sym a b e = elim (Bool-cases (same_name b a)) [
  | inl t ↦
      let same : same_name a b ≡ true =
        subst (λ c. same_name a c ≡ true) (sym (same_name-eq b a t)) (same_name_refl a) in
      absurd (ground (arith, e, same))
  | inr f ↦ f
]

pub search_item-append :
    (us : List Name) (u n : Name)
    → search_item (us ++ u ∷ []) n ≡ (search_item us n || same_name u n)
unfolding search_item
search_item-append [] u n = ground arith
search_item-append (v ∷ us) u n = ground (arith, search_item-append us u n)

pub remove_user-append :
    (us : List Name) (u : Name) → search_item us u ≡ false → remove_user u (us ++ u ∷ []) ≡ us
unfolding search_item remove_user
remove_user-append [] u e = rw (same_name_refl u) refl
remove_user-append (v ∷ us) u e = elim (Bool-cases (same_name v u)) [
  | inl t ↦ absurd (ground (arith, e, t))
  | inr f ↦
      let later : search_item us u ≡ false = ground (arith, e, f) in
      rw (f, remove_user-append us u later) refl
]

unfoldable pub Distinct : List Name → Type 0
Distinct [] = Unit {0}
Distinct (n ∷ ns) = (search_item ns n ≡ false) × Distinct ns

pub remove_user-gone :
    (us : List Name) (u : Name) → Distinct us → search_item (remove_user u us) u ≡ false
unfolding search_item remove_user Distinct
remove_user-gone [] u d = refl
remove_user-gone (v ∷ us) u (fresh, d) = elim (Bool-cases (same_name v u)) [
  | inl t ↦ rw t (subst (λ n. search_item us n ≡ false) (same_name-eq v u t) fresh)
  | inr f ↦ rw (f, f) (remove_user-gone us u d)
]

-- A name that was cut differs from what was cut.
pub cut_name-differs : (n : Name) → 127 < length n → same_name (cut_name n) n ≡ false
cut_name-differs n long = elim (Bool-cases (same_name (cut_name n) n)) [
  | inl t ↦
      let same = ap (λ xs. length xs) (same_name-eq (cut_name n) n t) in
      absurd (omega (arith, same, length-take 127 n))
  | inr f ↦ f
]

take-all : {A : Type 0} (n : ℕ) (xs : List A) → length xs ≤ n → take n xs ≡ xs
take-all zero [] b = refl
take-all (suc n) [] b = refl
take-all zero (x ∷ xs) b = absurd (omega arith)
take-all (suc n) (x ∷ xs) b = ap (◌∷◌ x) (take-all n xs (omega arith))

pub cut_name-short : (n : Name) → length n ≤ 127 → cut_name n ≡ n
cut_name-short n short = take-all 127 n short
