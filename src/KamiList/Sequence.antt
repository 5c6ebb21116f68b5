-- ===== src/KamiList/Sequence.antt =====
-- Sequences of node addresses: an element put in or taken out at an index. Past the end stands NULL.
use easymesh.Prelude.{
  List, get_or, ◌++◌, ◌≡◌, ◌∷◌, ◌≤◌, refl, [], ◌+◌, length, suc, ◌==◌, ltb, ◌-◌, ◌<◌, ap, zero, ℕ,
  if◌then◌else◌, arith,
}
use easymesh.Prelude.Run.{Ptr, null}

abbrev pub insert_idx : List Ptr → ℕ → Ptr → List Ptr
insert_idx xs zero p = p ∷ xs
insert_idx [] (suc i) p = p ∷ []
insert_idx (x ∷ xs) (suc i) p = x ∷ insert_idx xs i p

abbrev pub erase_idx : List Ptr → ℕ → List Ptr
erase_idx [] i = []
erase_idx (x ∷ xs) zero = xs
erase_idx (x ∷ xs) (suc i) = x ∷ erase_idx xs i

abbrev pub item : List Ptr → ℕ → Ptr
item xs i = get_or xs i null

-- The element in front of index `i`.
abbrev pub before : List Ptr → ℕ → Ptr
before xs i = if i == 0 then null else item xs (i - 1)

pub item-end : (xs : List Ptr) (i : ℕ) → length xs ≤ i → item xs i ≡ null
item-end [] i b = refl
item-end (x ∷ xs) zero b = absurd (omega arith)
item-end (x ∷ xs) (suc i) b = item-end xs i (omega arith)

pub length-insert_idx :
    (xs : List Ptr) (k : ℕ) (p : Ptr) → length (insert_idx xs k p) ≡ length xs + 1
length-insert_idx xs zero p = omega arith
length-insert_idx [] (suc k) p = omega arith
length-insert_idx (x ∷ xs) (suc k) p = omega (arith, length-insert_idx xs k p)

pub length-erase_idx :
    (xs : List Ptr) (k : ℕ) → k < length xs → length (erase_idx xs k) + 1 ≡ length xs
length-erase_idx [] k b = absurd (omega arith)
length-erase_idx (x ∷ xs) zero b = omega arith
length-erase_idx (x ∷ xs) (suc k) b = omega (arith, length-erase_idx xs k (omega arith))

pub item-insert_idx :
    (xs : List Ptr) (k : ℕ) (p : Ptr) (i : ℕ)
    → k ≤ length xs
    → item (insert_idx xs k p) i
      ≡ (if ltb i k then item xs i else if i == k then p else item xs (i - 1))
item-insert_idx xs zero p zero b = refl
item-insert_idx xs zero p (suc i) b = ground arith
item-insert_idx [] (suc k) p i b = absurd (omega arith)
item-insert_idx (x ∷ xs) (suc k) p zero b = ground arith
item-insert_idx (x ∷ xs) (suc k) p (suc zero) b = ground (arith, item-insert_idx xs k p zero)
item-insert_idx (x ∷ xs) (suc k) p (suc (suc i)) b = ground (arith, item-insert_idx xs k p (suc i))

pub item-erase_idx :
    (xs : List Ptr) (k i : ℕ)
    → item (erase_idx xs k) i ≡ (if ltb i k then item xs i else item xs (i + 1))
item-erase_idx [] k i = ground arith
item-erase_idx (x ∷ xs) zero i = ground arith
item-erase_idx (x ∷ xs) (suc k) zero = ground arith
item-erase_idx (x ∷ xs) (suc k) (suc i) = ground (arith, item-erase_idx xs k i)

insert_idx-last : (xs : List Ptr) (p : Ptr) → insert_idx xs (length xs) p ≡ xs ++ p ∷ []
insert_idx-last [] p = refl
insert_idx-last (x ∷ xs) p = ap (◌∷◌ x) (insert_idx-last xs p)
