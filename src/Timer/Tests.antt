-- ===== src/Timer/Tests.antt =====
-- timer/minheap.c and timer/mh-timer.c: the theorems at concrete heaps.
use easymesh.Timer.Minheap.Remove.{delete-Removed, delete_breaks_order, pop-Removed}
use easymesh.Timer.MhTimer.Expire.{Once, calls, Expired, InOrder, expire_timer-Expired}
use easymesh.Timer.MhTimer.Add.{Scheduled, timer, add_timer-fails, add_timer-Scheduled}
use easymesh.Timer.Minheap.Push.{push-Pushed}
use easymesh.Timer.Minheap.Contents.{Pushed, Removed}
use easymesh.Timer.Minheap.Order.{IsHeap, Contains, time_of, time_at}
use easymesh.Timer.MhTimer.{Process, Timespec, add_timer, current_time, expire_timer}
use easymesh.Prelude.Int.{pos}
use easymesh.Prelude.{
  ℕ, false, arith, ◌+◌, ◌*◌, if◌then◌else◌, ltb, ◌==◌, inl, ◌-◌, ◌&&◌, ◌≡◌, refl, ◌<◌, ◌≤◌, ◌^◌,
  List, [], ◌++◌, ◌∷◌,
}
use easymesh.Prelude.Run.{Ptr, null, Cmd, done, Returns}
use easymesh.Timer.Minheap.{MinHeap, min_heap_push, min_heap_delete, min_heap_pop, parent}

-- Timer `p` stands in slot `p - 1`.
abbrev line : ℕ → ℕ → (Ptr → ℕ) → MinHeap
line size capacity time = record {
  elements = λ j. j + 1;
  size = size;
  capacity = capacity;
  entry = λ p. record {
    heap = 100;
    time = time p;
    interval = 0;
    min_heap_idx = pos (p - 1);
    handler = 5;
    privdata = 6;
  };
  live = λ p. ltb 0 p && ltb p (size + 1);
}

abbrev five : MinHeap
five = line 5 8 (λ p. 10 * p)

five-IsHeap : IsHeap five
five-IsHeap = record {
  sound = record {
    placed = λ j b. ground arith;
    indexed = λ j b. ground arith;
    order = λ c p b. ground arith;
  };
  fits = omega arith;
  small = omega arith;
}

-- Slots 0 to 5 are due at 10, 50, 20, 60, 70 and 30.
abbrev uneven : MinHeap
uneven = line 6 8 (λ p.
    if p == 1
    then 10
    else if p == 2
    then 50
    else if p == 3
    then 20
    else if p == 4
    then 60
    else if p == 5
    then 70
    else 30)

uneven-IsHeap : IsHeap uneven
uneven-IsHeap = record {
  sound = record {
    placed = λ j b. ground arith;
    indexed = λ j b. ground arith;
    order = λ c p b. ground arith;
  };
  fits = omega arith;
  small = omega arith;
}

outside : ¬ Contains five five.size 6
outside (j, b, e) = omega (arith, b, e)

abbrev six_live : MinHeap
six_live = record five { live = λ p. ltb 0 p && ltb p 7 }

six_live-IsHeap : IsHeap six_live
six_live-IsHeap = record {
  sound = record {
    placed = λ j b. ground arith;
    indexed = λ j b. ground arith;
    order = λ c p b. ground arith;
  };
  fits = omega arith;
  small = omega arith;
}

abbrev noon : Timespec
noon = record { tv_sec = 0; tv_nsec = 25000000 }

-- Callbacks that write down their calls.
abbrev noted : Ptr → Ptr → List (Ptr × Ptr) → List (Ptr × Ptr)
noted f p w = w ++ (f, p) ∷ []

abbrev quiet : Ptr → Ptr → Cmd (Process (List (Ptr × Ptr))) (Unit {0})
quiet f p s = done tt (record { heap = s.heap; world = noted f p s.world })

push-Pushed_example :
    Returns (λ r g. (r ≡ pos 0) × Pushed six_live 6 g) (min_heap_push false 6 six_live)
push-Pushed_example =
    push-Pushed six_live 6 false six_live-IsHeap (omega arith) refl outside (inl (omega arith))

pop-Removed_example :
    Returns
      (λ p g.
        (p ≡ uneven.elements 0)
        × ((q : Ptr) → Contains uneven uneven.size q → time_of uneven p ≤ time_of uneven q)
        × Removed uneven p g)
      (min_heap_pop uneven)
pop-Removed_example = pop-Removed uneven uneven-IsHeap (omega arith)

delete-Removed_example :
    Returns
      (λ r g. (r ≡ pos 0) × Removed five (five.elements 1) g)
      (min_heap_delete (five.elements 1) five)
delete-Removed_example = delete-Removed five 1 five-IsHeap (omega arith) (λ _. omega arith)

delete_breaks_order_example :
    Returns
      (λ r g. (3 < g.size) × (time_at g 3 < time_at g (parent 3)))
      (min_heap_delete (uneven.elements 3) uneven)
delete_breaks_order_example =
    delete_breaks_order uneven 3 uneven-IsHeap (omega arith) (omega arith) (omega arith)

expire_timer-Expired_example :
    Returns
      (λ _ u.
        (fired : List Ptr) × Expired uneven (current_time noon) fired u.heap
        × InOrder uneven 0 fired
        × Once fired
        × (u.world ≡ calls noted uneven fired []))
      (expire_timer quiet 7 noon (record { heap = uneven; world = [] }))
expire_timer-Expired_example =
    expire_timer-Expired quiet noted 7 noon uneven [] (λ f p s. refl) uneven-IsHeap refl
      (omega arith)

add_timer-Scheduled_example :
    Returns
      (λ p g. (p ≡ 6) × Scheduled five 6 (timer 100 noon 40 5 0) g)
      (add_timer false 100 6 noon 40 5 0 five)
add_timer-Scheduled_example =
    add_timer-Scheduled five 6 five-IsHeap (omega arith) outside (λ e. absurd (omega (arith, e)))
      false 100 noon 40 5 0 (inl (omega arith))

abbrev full_heap : MinHeap
full_heap = record five { capacity = 5 }

full_heap-IsHeap : IsHeap full_heap
full_heap-IsHeap = record {
  sound = record {
    placed = λ j b. ground arith;
    indexed = λ j b. ground arith;
    order = λ c p b. ground arith;
  };
  fits = omega arith;
  small = omega arith;
}

add_timer-fails_example :
    Returns
      (λ p g.
        (p ≡ null)
        × IsHeap g
        × (g.elements ≡ full_heap.elements)
        × (g.size ≡ full_heap.size)
        × (g.live 6 ≡ false))
      (add_timer false 100 6 noon 40 5 0 full_heap)
add_timer-fails_example =
    add_timer-fails full_heap 6 full_heap-IsHeap (omega arith) outside
      (λ e. absurd (omega (arith, e))) 100 noon 40 5 0 (omega arith)

noon_early : current_time noon < 2 ^ 31
unfolding current_time
noon_early = omega arith
