-- ===== src/Timer/MhTimer.antt =====
-- timer/mh-timer.c: the timer operations over the heap. A call reads the clock once, so a reading
-- is an argument; so are malloc's and realloc's answers. The mutex is left out.
pub mod Add
pub mod Expire
use easymesh.Prelude.{
  ℕ, List, ◌*◌, ◌||◌, zero, [], ◌%◌, ◌/◌, ◌==◌, ◌+◌, if◌then◌else◌, leb, Bool, ltb, suc, ◌^◌, true,
  false, ◌∷◌, ◌-◌, update,
}
use easymesh.Prelude.Run.{
  Run, out_of_fuel, Ptr, ◌>>◌, starve, Cmd, fault, done, modify, null, pure, ◌>>=◌,
}
use easymesh.Prelude.Int.{minus_one, ℤ, pos}
use easymesh.Timer.Minheap.{
  TimerEntry, MinHeap, load_entry, store_entry, cleared, min_heap_create, min_heap_elem_init,
  min_heap_push, min_heap_delete, min_heap_top, min_heap_pop,
}

-- struct timespec.
pub record Timespec : Type 0 where
  pub tv_sec : ℕ
  pub tv_nsec : ℕ

-- Milliseconds in a `uint32_t`.
unfoldable pub current_time : Timespec → ℕ
current_time ti = (ti.tv_sec % 2 ^ 32 * 1000 % 2 ^ 32 + ti.tv_nsec / 1000000) % 2 ^ 32

-- What malloc and free do to the entries.
pub malloc_entry : Ptr → Cmd MinHeap (Unit {0})
malloc_entry p = modify λ h. record h { live = update h.live p true }

pub free_entry : Ptr → Cmd MinHeap (Unit {0})
free_entry p = modify λ h. record h { live = update h.live p false }

pub init_timer : Cmd MinHeap (Unit {0})
unfolding min_heap_create
init_timer = min_heap_create

-- `te` is what malloc returns, and `self` the address of the heap.
pub add_timer : Bool → Ptr → Ptr → Timespec → ℕ → Ptr → Ptr → Cmd MinHeap Ptr
unfolding malloc_entry min_heap_elem_init load_entry store_entry free_entry
add_timer grown self te now msec callback privdata =
    let fill : Cmd MinHeap Ptr = do
      malloc_entry te
      min_heap_elem_init te
      e ← load_entry te
      store_entry te (record e {
        handler = callback;
        time = (current_time now + msec) % 2 ^ 32;
        interval = msec;
        privdata = privdata;
        heap = self;
      })
      r ← min_heap_push grown te
      elim r [ pos zero ↦ pure te | _ ↦ free_entry te >> pure null ]
    in if te == null then pure null else fill

-- The entry is freed where it cannot be pushed.
pub reset_timer : Bool → Ptr → Timespec → ℕ → Cmd MinHeap (Unit {0})
unfolding load_entry store_entry free_entry
reset_timer grown te now msec = do
  old ← load_entry te
  let interval' = if ltb 0 msec then msec else old.interval
  store_entry te
      (record old { interval = interval'; time = (current_time now + interval') % 2 ^ 32 })
  r ← min_heap_push grown te
  elim r [ pos zero ↦ pure tt | _ ↦ free_entry te ]

pub del_timer : Ptr → Cmd MinHeap ℤ
unfolding min_heap_delete
del_timer elem = min_heap_delete elem

-- (int)a - (int)b for two `uint32_t`, cut off at 0. An overflow of `int` is a fault.
pub int_diff : ℕ → ℕ → Cmd MinHeap ℤ
int_diff a b h =
    let up = (if ltb a (2 ^ 31) then a else 0) + (if ltb b (2 ^ 31) then 0 else 2 ^ 32 - b) in
    let down = (if ltb b (2 ^ 31) then b else 0) + (if ltb a (2 ^ 31) then 0 else 2 ^ 32 - a) in
    if leb (down + 2 ^ 31) up || ltb (up + 2 ^ 31) down then fault else done (pos (up - down)) h

pub find_nearest_expire_timer : Timespec → Cmd MinHeap ℤ
unfolding min_heap_top load_entry int_diff
find_nearest_expire_timer now = do
  te ← min_heap_top
  let wait : Cmd MinHeap ℤ = do e ← load_entry te; int_diff e.time (current_time now)
  if te == null then pure minus_one else wait

-- The heap and the rest of the process, which the callbacks act on as well.
pub record Process (W : Type 0) : Type 0 where
  pub heap : MinHeap
  pub world : W

module _ {W : Type 0} where
  module _ {A : Type 0} where
    abbrev pub beside_world : Run MinHeap A → W → Run (Process W) A
    beside_world (done a h) w = done a (record { heap = h; world = w })
    beside_world fault w = fault
    beside_world out_of_fuel w = out_of_fuel

    abbrev pub on_heap : Cmd MinHeap A → Cmd (Process W) A
    on_heap run s = beside_world (run s.heap) s.world

  -- The loop. `handler f te` is the call of the function `f` with the timer.
  pub expire_loop : (Ptr → Ptr → Cmd (Process W) (Unit {0})) → ℕ → ℕ → Cmd (Process W) (Unit {0})
  unfolding min_heap_top load_entry min_heap_pop
  expire_loop handler cur zero = starve
  expire_loop handler cur (suc k) = do
    te ← on_heap min_heap_top
    let look : Cmd (Process W) (Unit {0}) = do
      e ← on_heap (load_entry te)
      let fire : Cmd (Process W) (Unit {0}) = do
        on_heap min_heap_pop
        f ← on_heap (load_entry te)
        handler f.handler te
        expire_loop handler cur k
      if ltb cur e.time then pure tt else fire
    if te == null then pure tt else look

  pub expire_timer :
      (Ptr → Ptr → Cmd (Process W) (Unit {0})) → ℕ → Timespec → Cmd (Process W) (Unit {0})
  unfolding expire_loop
  expire_timer handler fuel now = expire_loop handler (current_time now) fuel
