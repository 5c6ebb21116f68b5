-- ===== src/Timer/MhTimer/Add.antt =====
-- timer/mh-timer.c: add_timer and reset_timer put a timer into the heap with its due time, and
-- find_nearest_expire_timer is the time until the first one.
use easymesh.Timer.MhTimer.Expire.{min_heap_top-done}
use easymesh.Timer.Minheap.Push.{push-Pushed, push-full}
use easymesh.Timer.Minheap.Order.{IsHeap, Contains, sans_index, time_at, time_of, load_entry-done}
use easymesh.Timer.Minheap.Contents.{Pushed, root_least_below}
use easymesh.Prelude.Run.{Ptr, null, Returns, Returns-bind, returns, done}
use easymesh.Prelude.{
  ℕ, false, ◌%◌, ==_refl, ◌≢◌, ◌==◌, Bool, ◌≡◌, ◌^◌, ◌<◌, ◌⊎◌, ◌+◌, ◌↔◌, arith, true, if◌then◌else◌,
  ◌≤◌, ltb, refl, ◌-◌, ap, suc, sym, ◌∙◌, update,
}
use easymesh.Prelude.Int.{minus_one, pos}
use mathlib.Core.Path.{fun_ext}
use easymesh.Timer.Minheap.{
  TimerEntry, MinHeap, load_entry, store_entry, cleared, min_heap_elem_init, parent,
}
use easymesh.Timer.MhTimer.{
  Timespec, current_time, malloc_entry, free_entry, add_timer, reset_timer, int_diff,
  find_nearest_expire_timer,
}

-- The store with the entry of one timer given anew.
abbrev pub with_entry : MinHeap → Ptr → TimerEntry → MinHeap
with_entry h p e = record h { entry = update h.entry p e; live = update h.live p true }

other_entries-IsHeap :
    (h : MinHeap) (p : Ptr) (e : TimerEntry) (l : Ptr → Bool)
    → ((q : Ptr) → q ≢ p → l q ≡ h.live q)
    → IsHeap h
    → ¬ Contains h h.size p
    → IsHeap (record h { entry = update h.entry p e; live = l })
other_entries-IsHeap h p e l same v new =
    let ne : (j : ℕ) → j < h.size → h.elements j ≢ p = λ j b q. new (j, b, q) in
    record {
      sound = record {
        placed = λ j b. same (h.elements j) (ne j b) ∙ v.sound.placed j b;
        indexed = λ j b. ground (arith, v.sound.indexed j, ne j);
        order = λ c q b. ground (arith, v.sound.order c, ne c, ne (parent c));
      };
      fits = v.fits;
      small = v.small;
    }

with_entry-IsHeap :
    (h : MinHeap) (p : Ptr) (e : TimerEntry)
    → IsHeap h
    → ¬ Contains h h.size p
    → IsHeap (with_entry h p e)
with_entry-IsHeap h p e = other_entries-IsHeap h p e (update h.live p true) (ground arith)

-- The entry that add_timer fills in.
abbrev pub timer : Ptr → Timespec → ℕ → Ptr → Ptr → TimerEntry
timer self now msec callback privdata = record {
  heap = self;
  time = (current_time now + msec) % 2 ^ 32;
  interval = msec;
  min_heap_idx = minus_one;
  handler = callback;
  privdata = privdata;
}

-- A heap that gained the timer `te`, with entry `e` but for the index; the others' entries are the
-- same but for their indices.
pub record Scheduled (h : MinHeap) (te : Ptr) (e : TimerEntry) (g : MinHeap) : Type 0 where
  pub heap : IsHeap g
  pub contents : (p : Ptr) → Contains g g.size p ↔ (Contains h h.size p ⊎ (p ≡ te))
  pub added : sans_index (g.entry te) ≡ sans_index e
  pub others : (p : Ptr) → p ≢ te → sans_index (g.entry p) ≡ sans_index (h.entry p)

Pushed-Scheduled :
    (h g : MinHeap) (te : Ptr) (e : TimerEntry)
    → Pushed (with_entry h te e) te g
    → Scheduled h te e g
Pushed-Scheduled h g te e p = record {
  heap = p.heap;
  contents = p.contents;
  added = ground (arith, p.kept.entries te);
  others = λ q ne. ground (arith, p.kept.entries q);
}

-- The entry that reset_timer leaves: an interval of 0 stands for the old one.
abbrev pub renewed : TimerEntry → Timespec → ℕ → TimerEntry
renewed old now msec =
    let interval' = if ltb 0 msec then msec else old.interval in
    record old { interval = interval'; time = (current_time now + interval') % 2 ^ 32 }

-- Two writes to one address.
update_twice {ℓ} :
    {A : Type ℓ} (f : ℕ → A) (i : ℕ) (a b : A) → update (update f i a) i b ≡ update f i b
update_twice f i a b = fun_ext λ j. ground arith

update_self : (f : ℕ → Bool) (i : ℕ) → f i ≡ true → update f i true ≡ f
update_self f i e = fun_ext λ j. ground arith

int_diff-done :
    (a b : ℕ) (h : MinHeap) → a < 2 ^ 31 → b < 2 ^ 31 → int_diff a b h ≡ done (pos (a - b)) h
unfolding int_diff
int_diff-done a b h p q = ground arith

module _ (h : MinHeap) (te : Ptr) (v : IsHeap h) (small : h.size + 1 < 2 ^ 31)
    (new : ¬ Contains h h.size te) (real : te ≢ null) where
  -- On a heap in order with fewer than 2^31 - 1 timers, with fresh memory for the entry and room
  -- or a successful realloc, add_timer returns the entry. The heap is in order with exactly that
  -- timer added, due at the time now plus the interval, modulo 2^32.
  pub add_timer-Scheduled :
      (grown : Bool) (self : Ptr) (now : Timespec) (msec : ℕ) (callback privdata : Ptr)
      → (h.size < h.capacity) ⊎ (grown ≡ true)
      → Returns
          (λ p g. (p ≡ te) × Scheduled h te (timer self now msec callback privdata) g)
          (add_timer grown self te now msec callback privdata h)
  unfolding add_timer malloc_entry min_heap_elem_init load_entry store_entry
  add_timer-Scheduled grown self now msec callback privdata space =
      let some : (te == null) ≡ false = ground arith in
      let e = timer self now msec callback privdata in
      rw
        (
          some,
          ==_refl te,
          ==_refl te,
          update_twice {A = TimerEntry} h.entry te cleared e,
          ==_refl te,
        )
        (Returns-bind
          (push-Pushed (with_entry h te e) te grown (with_entry-IsHeap h te e v new) small
            (ground arith) new space)
          λ r g (zero_returned, p). rw zero_returned (returns (refl, Pushed-Scheduled h g te e p)))

  -- On a full heap that realloc cannot grow, add_timer returns NULL and frees the entry. The
  -- array and its size are as they were, and the heap is in order.
  pub add_timer-fails :
      (self : Ptr) (now : Timespec) (msec : ℕ) (callback privdata : Ptr)
      → h.capacity ≤ h.size
      → Returns
          (λ p g.
            (p ≡ null)
            × IsHeap g
            × (g.elements ≡ h.elements)
            × (g.size ≡ h.size)
            × (g.live te ≡ false))
          (add_timer false self te now msec callback privdata h)
  unfolding add_timer malloc_entry min_heap_elem_init load_entry store_entry free_entry
  add_timer-fails self now msec callback privdata full =
      let some : (te == null) ≡ false = ground arith in
      let e = timer self now msec callback privdata in
      rw
        (
          some,
          ==_refl te,
          ==_refl te,
          update_twice {A = TimerEntry} h.entry te cleared e,
          ==_refl te,
          push-full (with_entry h te e) te (omega arith) full,
        )
        (returns
          (refl, other_entries-IsHeap h te e _ (ground arith) v new, refl, refl, ground arith))

  -- Of a timer that is not in the heap, reset_timer makes one that is: the heap is in order with
  -- exactly that timer added, its interval replaced if the given one is not 0, and due that much
  -- after now, modulo 2^32. This is under a bound of 2^31 - 1 timers and with room or a
  -- successful realloc.
  reset_timer-Scheduled :
      (grown : Bool) (now : Timespec) (msec : ℕ)
      → h.live te ≡ true
      → (h.size < h.capacity) ⊎ (grown ≡ true)
      → Returns
          (λ _. Scheduled h te (renewed (h.entry te) now msec))
          (reset_timer grown te now msec h)
  unfolding reset_timer load_entry store_entry
  reset_timer-Scheduled grown now msec live space =
      let e = renewed (h.entry te) now msec in
      let same : record h { entry = update h.entry te e } ≡ with_entry h te e =
        ap (λ (l : Ptr → Bool). record h { entry = update h.entry te e; live = l })
          (sym (update_self h.live te live)) in
      rw (live, live, same)
        (Returns-bind
          (push-Pushed (with_entry h te e) te grown (with_entry-IsHeap h te e v new) small
            (ground arith) new space)
          λ r g (zero_returned, p). rw zero_returned (returns (Pushed-Scheduled h g te e p)))

-- On a heap in order that is not empty, with the first due time and the clock below 2^31,
-- find_nearest_expire_timer returns how long the first timer waits, which is no longer than any
-- other timer waits, and changes nothing.
nearest_least :
    (h : MinHeap) (now : Timespec)
    → IsHeap h
    → h.live null ≡ false
    → 0 < h.size
    → time_at h 0 < 2 ^ 31
    → current_time now < 2 ^ 31
    → Returns
        (λ r g.
          (g ≡ h)
          × (r ≡ pos (time_at h 0 - current_time now))
          × ((p : Ptr)
              → Contains h h.size p
              → time_at h 0 - current_time now ≤ time_of h p - current_time now))
        (find_nearest_expire_timer now h)
unfolding find_nearest_expire_timer
nearest_least h now v none_there some_left small now_small =
    let real : (h.elements 0 == null) ≡ false = ground (arith, v.sound.placed 0) in
    rw
      (
        min_heap_top-done h v some_left,
        real,
        load_entry-done h (h.elements 0) (v.sound.placed 0 some_left),
        int_diff-done (time_at h 0) (current_time now) h small now_small,
      )
      (returns (
        refl,
        refl,
        λ p (j, b, e). ground (arith, root_least_below (suc j) j (omega arith) v.sound b),
      ))
