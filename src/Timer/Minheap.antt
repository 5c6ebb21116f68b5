-- ===== src/Timer/Minheap.antt =====
-- timer/minheap.c: the heap array holds pointers to timer entries, and each entry stores the index
-- at which the array holds it. The mutex is left out: a step runs with the lock held.
pub mod Order
pub mod Up
pub mod Down
pub mod Contents
pub mod Push
pub mod Cut
pub mod Remove
use easymesh.Prelude.{
  ℕ, zero, suc, ◌+◌, ◌-◌, ◌*◌, ◌/◌, ◌%◌, ◌^◌, Bool, false, ltb, leb, ◌==◌, if◌then◌else◌, update,
}
use easymesh.Prelude.Int.{ℤ, pos, negsuc, minus_one}
use easymesh.Prelude.Run.{Ptr, null, done, fault, Cmd, pure, starve, modify, get, ◌>>=◌, ◌>>◌}

-- struct timer_entry_s; a handler is named by its address.
pub record TimerEntry : Type 0 where
  pub heap : Ptr
  pub time : ℕ
  pub interval : ℕ
  pub min_heap_idx : ℤ
  pub handler : Ptr
  pub privdata : Ptr

-- The heap with the memory that it works on. `elements` is the allocated array, of `capacity`
-- slots; `live` says which addresses hold a timer entry.
pub record MinHeap : Type 0 where
  pub elements : ℕ → Ptr
  pub size : ℕ
  pub capacity : ℕ
  pub entry : Ptr → TimerEntry
  pub live : Ptr → Bool

-- A read or write of the array faults out of its bounds, one of an entry where there is none.
pub load_slot : ℕ → Cmd MinHeap Ptr
load_slot i h = if ltb i h.capacity then done (h.elements i) h else fault

pub store_slot : ℕ → Ptr → Cmd MinHeap (Unit {0})
store_slot i p h =
    if ltb i h.capacity then done tt (record h { elements = update h.elements i p }) else fault

unfoldable pub load_entry : Ptr → Cmd MinHeap TimerEntry
load_entry p h = if h.live p then done (h.entry p) h else fault

unfoldable pub store_entry : Ptr → TimerEntry → Cmd MinHeap (Unit {0})
store_entry p e h = if h.live p then done tt (record h { entry = update h.entry p e }) else fault

pub set_index : Ptr → ℤ → Cmd MinHeap (Unit {0})
unfolding load_entry store_entry
set_index p i = do e ← load_entry p; store_entry p (record e { min_heap_idx = i })

pub min_heap_left : ℕ → Cmd MinHeap ℤ
min_heap_left index h =
    done (if ltb (2 * index + 1) h.size then pos (2 * index + 1) else minus_one) h

pub min_heap_right : ℕ → Cmd MinHeap ℤ
min_heap_right index h =
    done (if ltb (2 * index + 2) h.size then pos (2 * index + 2) else minus_one) h

unfoldable pub min_heap_create : Cmd MinHeap (Unit {0})
min_heap_create = modify λ h. record h { size = 0; capacity = 0 }

-- memset to zero, then the index -1.
abbrev pub cleared : TimerEntry
cleared = record {
  heap = null;
  time = 0;
  interval = 0;
  min_heap_idx = minus_one;
  handler = null;
  privdata = null;
}

unfoldable pub min_heap_elem_init : Ptr → Cmd MinHeap (Unit {0})
unfolding store_entry
min_heap_elem_init p = store_entry p cleared

pub min_heap_is_empty : Cmd MinHeap Bool
min_heap_is_empty h = done (0 == h.size) h

pub min_heap_size : Cmd MinHeap ℕ
min_heap_size h = done h.size h

unfoldable pub min_heap_top : Cmd MinHeap Ptr
unfolding load_slot
min_heap_top h = if h.size == 0 then done null h else load_slot 0 h

pub min_heap_elt_is_top : Ptr → Cmd MinHeap Bool
unfolding load_entry
min_heap_elt_is_top p = do
  e ← load_entry p
  pure (elim e.min_heap_idx [ pos i ↦ i == 0 | negsuc _ ↦ false ])

-- What both shifts end with: the element goes into the hole.
pub place : ℕ → Ptr → Cmd MinHeap (Unit {0})
unfolding store_slot set_index
place index elem = do store_slot index elem; set_index elem (pos index)

abbrev pub parent : ℕ → ℕ
parent index = (index - 1) / 2

pub shift_up_loop : ℕ → ℕ → Ptr → Cmd MinHeap (Unit {0})
unfolding load_slot load_entry place
shift_up_loop zero index elem = starve
shift_up_loop (suc k) index elem =
    let climb : Cmd MinHeap (Unit {0}) = do
      up ← load_slot (parent index)
      above ← load_entry up
      e ← load_entry elem
      let rise = place index up >> shift_up_loop k (parent index) elem
      if leb above.time e.time then place index elem else rise
    in if ltb 0 index then climb else place index elem

-- `index` falls in each round.
pub min_heap_shift_up : ℕ → Ptr → Cmd MinHeap (Unit {0})
unfolding shift_up_loop
min_heap_shift_up index elem = shift_up_loop (index + 1) index elem

-- The child that the loop compares with, and its index: the right one if it is there and smaller.
pub min_child : ℕ → Cmd MinHeap (Ptr × ℕ)
unfolding load_slot load_entry
min_child index = do
  left ← load_slot (2 * index + 1)
  h ← get
  let both : Cmd MinHeap (Ptr × ℕ) = do
    right ← load_slot (2 * index + 2)
    r ← load_entry right
    l ← load_entry left
    pure (if ltb r.time l.time then (right, 2 * index + 2) else (left, 2 * index + 1))
  if ltb (2 * index + 2) h.size then both else pure (left, 2 * index + 1)

-- `half` is computed once, before the loop.
pub shift_down_loop : ℕ → ℕ → ℕ → Ptr → Cmd MinHeap (Unit {0})
unfolding min_child load_entry place
shift_down_loop half zero index elem = starve
shift_down_loop half (suc k) index elem =
    let sink : Cmd MinHeap (Unit {0}) = do
      (child, child_index) ← min_child index
      e ← load_entry elem
      c ← load_entry child
      let fall = place index child >> shift_down_loop half k child_index elem
      if ltb e.time c.time then place index elem else fall
    in if ltb index half then sink else place index elem

-- `index` grows in each round and stays below `size`.
pub min_heap_shift_down : ℕ → Ptr → Cmd MinHeap (Unit {0})
unfolding shift_down_loop
min_heap_shift_down index elem = do h ← get; shift_down_loop (h.size / 2) (h.size + 1) index elem

-- `grown` says whether realloc succeeds. It returns -1 or 0, as the callers read it.
pub min_heap_ensure_capacity : Bool → ℕ → Cmd MinHeap ℤ
min_heap_ensure_capacity grown n h =
    let twice = if h.capacity == 0 then 8 else h.capacity * 2 % 2 ^ 32 in
    let a = if ltb twice n then n else twice in
    if ltb h.capacity n
    then if grown then done (pos 0) (record h { capacity = a }) else done minus_one h
    else done (pos 0) h

pub min_heap_push : Bool → Ptr → Cmd MinHeap ℤ
unfolding min_heap_ensure_capacity min_heap_shift_up
min_heap_push grown elem = do
  h ← get
  r ← min_heap_ensure_capacity grown ((h.size + 1) % 2 ^ 32)
  let go : Cmd MinHeap ℤ = do
    min_heap_shift_up h.size elem
    modify λ g. record g { size = (g.size + 1) % 2 ^ 32 }
    pure (pos 0)
  elim r [ pos zero ↦ go | _ ↦ pure minus_one ]

-- A negative index is converted to `unsigned` and is past the array.
pub min_heap_adjust : Ptr → Cmd MinHeap (Unit {0})
unfolding load_entry min_heap_shift_down
min_heap_adjust elem = do
  e ← load_entry elem
  elim e.min_heap_idx [
    | pos i ↦ min_heap_shift_down i elem
    | negsuc n ↦ min_heap_shift_down (2 ^ 32 - suc n) elem
  ]

-- The last element leaves the array; its slot becomes NULL.
pub drop_last : Cmd MinHeap Ptr
unfolding load_slot store_slot
drop_last = do
  h ← get
  last ← load_slot (h.size - 1)
  modify λ g. record g { size = g.size - 1 }
  store_slot (h.size - 1) null
  pure last

unfoldable pub min_heap_pop : Cmd MinHeap Ptr
unfolding load_slot drop_last min_heap_shift_down set_index
min_heap_pop = do
  h ← get
  let pop : Cmd MinHeap Ptr = do
    root ← load_slot 0
    last ← drop_last
    min_heap_shift_down 0 last
    set_index root minus_one
    pure root
  if h.size == 0 then pure null else pop

unfoldable pub min_heap_delete : Ptr → Cmd MinHeap ℤ
unfolding load_entry drop_last min_heap_shift_down set_index
min_heap_delete elem = do
  h ← get
  let remove : Cmd MinHeap ℤ = do
    e ← load_entry elem
    let cut = λ (i : ℕ). (do
      last ← drop_last
      min_heap_shift_down i last
      set_index elem minus_one
      pure (pos 0))
    elim e.min_heap_idx [ pos i ↦ cut i | negsuc _ ↦ pure (pos 0) ]
  if h.size == 0 then pure minus_one else remove
