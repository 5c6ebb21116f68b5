-- ===== src/KamiList/Remove.antt =====
-- util/list.c: what KamiListDel reads, and what its proofs share.
pub mod Ends
pub mod Middle
pub mod Any
use easymesh.Prelude.Int.{pos}
use native.Mathlib.Decide.{ℕ_discrete}
use easymesh.Prelude.Run.{Ptr, Returns, returns, null}
use easymesh.Prelude.{ℕ, List, length, arith, ◌≢◌, ◌≡◌, ◌<◌, ◌+◌, false, ◌-◌, true, ◌==◌, refl}
use easymesh.KamiList.{
  store, Store, del, detach, set_head, set_tail, set_size, set_next, set_list, set_prev, load,
  load_header, store_header,
}
use easymesh.KamiList.Sequence.{item, erase_idx, item-end}
use easymesh.KamiList.Shape.{IsList, Unlinked, Unlinked-IsList}

pub record Deleted (h : Store) (l : Ptr) (xs : List Ptr) (k : ℕ) (g : Store) : Type 0 where
  pub unlinked : Unlinked h l xs k g
  pub is_list : IsList g l (erase_idx xs k)

module _ {h : Store} {l : Ptr} {xs : List Ptr} (v : IsList h l xs) (place : l ≢ null) (k : ℕ)
    (within : k < length xs) where
  pub deleted : (g : Store) → Unlinked h l xs k g → Deleted h l xs k g
  deleted g w = record { unlinked = w; is_list = Unlinked-IsList v k within g w }

  -- What KamiListDel tests first, and what it reads.
  pub no_list : (l == null) ≡ false
  no_list = ground (arith, place)

  pub no_item : (item xs k == null) ≡ false
  no_item = ground (arith, (v.nodes k within).real)

  pub some : ((h.header l).size == 0) ≡ false
  some = ground (arith, v.size)

  pub own : ((h.node (item xs k)).list == l) ≡ true
  own = ground (arith, (v.nodes k within).owned)

  pub one : (length xs ≡ 1) → ((h.header l).size == 1) ≡ true
  one e = ground (arith, v.size)

  pub several : 1 < length xs → ((h.header l).size == 1) ≡ false
  several b = ground (arith, v.size)

  pub same : (item xs k == item xs k) ≡ true
  same = ground arith

  pub differs : (i : ℕ) → i < length xs → i ≢ k → (item xs k == item xs i) ≡ false
  differs i b ne = ground (arith, v.unique i k)

  pub names : (i j : ℕ) → i < length xs → j < length xs → (item xs i == item xs j) ≡ (i == j)
  names i j b c = ground (arith, v.unique i j)

  pub far : (i j : ℕ) → i < length xs → j < length xs → i ≢ j → (item xs i == item xs j) ≡ false
  far i j b c ne = ground (arith, v.unique i j)
