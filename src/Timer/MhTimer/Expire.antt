-- ===== src/Timer/MhTimer/Expire.antt =====
-- timer/mh-timer.c, expire_timer: the timers that are due run in the order of their times.
use mathlib.Core.Path.{subst}
use easymesh.Timer.Minheap.Remove.{pop-Removed}
use easymesh.Timer.Minheap.Order.{
  time_of, IsHeap, Contains, load_entry-done, load_slot-done, time_at,
}
use easymesh.Timer.Minheap.Contents.{Removed, root_least_below}
use easymesh.Prelude.Run.{Ptr, done, Returns-inv, Returns-mono, Cmd, null, returns, Returns}
use easymesh.Prelude.{
  ℕ, false, inl, [], suc, zero, ◌⊎◌, Bool-cases, ◌↔◌, List, ◌==◌, ◌≤◌, ◌∷◌, ltb, ◌<◌, ◌≡◌, inr,
  arith, refl, sym, ap, ◌∙◌,
}
use native.Mathlib.Decide.{ℕ_discrete}
use easymesh.Timer.Minheap.{MinHeap, min_heap_top}
use easymesh.Timer.Minheap.{TimerEntry}
use easymesh.Timer.MhTimer.{Process, Timespec, current_time, expire_loop, expire_timer}

abbrev pub Has : Ptr → List Ptr → Type 0
Has p [] = ⊥
Has p (q ∷ l) = (p ≡ q) ⊎ Has p l

-- Each of the timers is at or after `t`, and they are in order of time.
abbrev pub InOrder : MinHeap → ℕ → List Ptr → Type 0
InOrder h t [] = Unit
InOrder h t (p ∷ l) = (t ≤ time_of h p) × InOrder h (time_of h p) l

-- What expire_timer leaves and what it ran.
pub record Expired (h : MinHeap) (cur : ℕ) (fired : List Ptr) (g : MinHeap) : Type 0 where
  pub heap : IsHeap g
  pub waiting : (p : Ptr) → Contains g g.size p ↔ (Contains h h.size p × (cur < time_of h p))
  pub ran : (p : Ptr) → Has p fired ↔ (Contains h h.size p × (time_of h p ≤ cur))

-- Each once.
abbrev pub Once : List Ptr → Type 0
Once [] = Unit
Once (p ∷ l) = ¬ Has p l × Once l

-- Callbacks that leave the timers alone, and do `after f p` to the rest of the process.
abbrev pub IsQuiet :
    {W : Type 0} → (Ptr → Ptr → Cmd (Process W) (Unit {0})) → (Ptr → Ptr → W → W) → Type 0
IsQuiet {W = W} handler after =
    (f p : Ptr) (s : Process W)
    → handler f p s ≡ done tt (record { heap = s.heap; world = after f p s.world })

-- What calls of the callbacks of some timers do, in order, each with its own timer.
abbrev pub calls : {W : Type 0} → (Ptr → Ptr → W → W) → MinHeap → List Ptr → W → W
calls after h [] w = w
calls after h (p ∷ l) w = calls after h l (after (h.entry p).handler p w)

handler-Removed :
    {h g : MinHeap} {e : Ptr} (p : Ptr) → Removed h e g → (g.entry p).handler ≡ (h.entry p).handler
handler-Removed p r = ap (λ (x : TimerEntry). x.handler) (r.kept.entries p)

calls-Removed :
    {W : Type 0} {h g : MinHeap} {e : Ptr} (after : Ptr → Ptr → W → W) (l : List Ptr) (w : W)
    → Removed h e g
    → calls after g l w ≡ calls after h l w
calls-Removed after [] w r = refl
calls-Removed after (p ∷ l) w r = rw (handler-Removed p r) (calls-Removed after l _ r)

pub min_heap_top-done :
    (h : MinHeap) → IsHeap h → 0 < h.size → min_heap_top h ≡ done (h.elements 0) h
unfolding min_heap_top
min_heap_top-done h v b =
    let full : (h.size == 0) ≡ false = ground arith in
    rw full (load_slot-done h 0 (omega (arith, v.fits)))

Removed-time : {h g : MinHeap} {e : Ptr} (p : Ptr) → Removed h e g → time_of g p ≡ time_of h p
Removed-time p r = ground (arith, r.kept.entries p)

min_heap_top-empty : (h : MinHeap) → h.size ≡ 0 → min_heap_top h ≡ done null h
unfolding min_heap_top
min_heap_top-empty h e = rw e

-- Nothing is due: nothing runs.
Expired-none :
    (h : MinHeap) (cur : ℕ) → IsHeap h → (0 < h.size → cur < time_at h 0) → Expired h cur [] h
Expired-none h cur v later =
    let due : (p : Ptr) → Contains h h.size p → cur < time_of h p =
      λ p (j, b, e). ground (arith, later, root_least_below (suc j) j (omega arith) v.sound b) in
    record {
      heap = v;
      waiting = λ p. (λ c. (c, due p c), λ c. c.0);
      ran = λ p. (λ n. absurd n, λ c. absurd (omega (arith, due p c.0)));
    }

-- The first timer runs, then the rest of the heap is served.
Expired-more :
    {h g k : MinHeap} (cur : ℕ) (p : Ptr) (later : List Ptr)
    → Contains h h.size p
    → time_of h p ≤ cur
    → Removed h p g
    → Expired g cur later k
    → Expired h cur (p ∷ later) k
Expired-more {h} {g} {k} cur p later within due r x = record {
  heap = x.heap;
  waiting = λ q. (
    λ c.
        let (d, l) = (x.waiting q).0 c in
        (((r.contents q).0 d).0, ground (arith, Removed-time q r)),
    λ (c, l).
        (x.waiting q).1
          ((r.contents q).1 (c, λ e. absurd (ground arith)), ground (arith, Removed-time q r)),
  );
  ran = λ q. (
    λ s. elim s [
      | inl e ↦ (subst (λ (z : Ptr). Contains h h.size z) (sym e) within, ground arith)
      | inr m ↦
          let (d, l) = (x.ran q).0 m in (((r.contents q).0 d).0, ground (arith, Removed-time q r))
    ],
    λ (c, l). elim (ℕ_discrete q p) [
      | yes e ↦ inl e
      | no e ↦ inr ((x.ran q).1 ((r.contents q).1 (c, e), ground (arith, Removed-time q r)))
    ],
  );
}

InOrder-Removed :
    {h g : MinHeap} {e : Ptr} (t : ℕ) (l : List Ptr) → Removed h e g → InOrder g t l → InOrder h t l
InOrder-Removed t [] r o = tt
InOrder-Removed {h} t (p ∷ l) r o =
    (ground (arith, Removed-time p r), rw (← Removed-time p r) (InOrder-Removed _ l r o.1))

-- What a run leaves of a process, and what it has called.
pub Served : {W : Type 0} → (Ptr → Ptr → W → W) → ℕ → ℕ → Process W → Process W → Type 0
Served after cur t s u =
    (fired : List Ptr) × Expired s.heap cur fired u.heap
    × InOrder s.heap t fired
    × Once fired
    × (u.world ≡ calls after s.heap fired s.world)

Served-none :
    {W : Type 0} (after : Ptr → Ptr → W → W) (cur t : ℕ) (s : Process W)
    → IsHeap s.heap
    → (0 < s.heap.size → cur < time_at s.heap 0)
    → Served after cur t s s
unfolding Served
Served-none after cur t s v later = ([], Expired-none s.heap cur v later, tt, tt, refl)

Served-more :
    {W : Type 0} (after : Ptr → Ptr → W → W) (cur t : ℕ) (h g : MinHeap) (p : Ptr) (w : W)
    (u : Process W)
    → Contains h h.size p
    → t ≤ time_of h p
    → time_of h p ≤ cur
    → Removed h p g
    → Served after cur (time_of h p) (record { heap = g; world = after (h.entry p).handler p w }) u
    → Served after cur t (record { heap = h; world = w }) u
unfolding Served
Served-more after cur t h g p w u within low due r (later, x, o, once, world) = (
  p ∷ later,
  Expired-more cur p later within due r x,
  (low, InOrder-Removed _ later r o),
  ((λ again. ((r.contents p).0 ((x.ran p).0 again).0).1 refl), once),
  world ∙ calls-Removed after later (after (h.entry p).handler p w) r,
)

expire_loop-Served :
    {W : Type 0} (handler : Ptr → Ptr → Cmd (Process W) (Unit {0})) (after : Ptr → Ptr → W → W)
    (cur : ℕ)
    → IsQuiet handler after
    → (k : ℕ) (h : MinHeap) (w : W) (t : ℕ) → h.size < k
    → IsHeap h
    → h.live null ≡ false
    → ((p : Ptr) → Contains h h.size p → t ≤ time_of h p)
    → Returns
        (λ _ u. Served after cur t (record { heap = h; world = w }) u)
        (expire_loop handler cur k (record { heap = h; world = w }))
unfolding expire_loop
expire_loop-Served handler after cur quiet zero h w t f v none_there low = absurd (omega arith)
expire_loop-Served handler after cur quiet (suc k) h w t f v none_there low =
    elim (ℕ_discrete h.size 0) [
      | yes e ↦ rw (min_heap_top-empty h e) (
          returns (
            Served-none after cur t (record { heap = h; world = w }) v (λ b. absurd (omega arith))))
      | no e ↦
          let p = h.elements 0 in
          let live = v.sound.placed 0 (omega arith) in
          let within : Contains h h.size p = (0, omega arith, refl) in
          let real : (p == null) ≡ false = ground arith in
          rw (min_heap_top-done h v (omega arith), real, load_entry-done h p live)
            (elim (Bool-cases (ltb cur (time_of h p))) [
              | inl early ↦ rw early (
                  returns (
                    Served-none after cur t (record { heap = h; world = w }) v (λ b. ground arith)))
              | inr due ↦ rw due (
                  let (q, g, popped, (root, least, r)) =
                    Returns-inv (pop-Removed h v (omega arith)) in
                  let r' : Removed h p g = subst (λ (z : Ptr). Removed h z g) root r in
                  let called : handler (g.entry p).handler p (record { heap = g; world = w })
                      ≡ done tt (record { heap = g; world = after (h.entry p).handler p w }) =
                    quiet _ p _
                    ∙ ap (λ (f : Ptr). done tt (record { heap = g; world = after f p w }))
                        (handler-Removed p r') in
                  rw (popped, load_entry-done g p (ground (arith, r.kept.live)), called)
                    (Returns-mono
                      (expire_loop-Served handler after cur quiet k g
                        (after (h.entry p).handler p w) (time_of h p) (omega (arith, r.size)) r.heap
                        (ground (arith, r.kept.live))
                        (λ z c. ground (arith, Removed-time z r, least z ((r.contents z).0 c).0)))
                      (λ _ u x.
                        Served-more after cur t h g p w u within (low p within)
                          (ground (arith, due)) r' x)))
            ])
    ]

-- With callbacks that leave the timers alone and do something of their own to the rest of the
-- process, on a heap in order and with fuel above its size, expire_timer returns. There is a list
-- of exactly the timers that are due, each once, in the order of their times; the rest of the
-- process is as the calls of their callbacks in this order make it, each with its own timer; and
-- a heap in order holds exactly the other timers.
pub expire_timer-Expired :
    {W : Type 0} (handler : Ptr → Ptr → Cmd (Process W) (Unit {0})) (after : Ptr → Ptr → W → W)
    (fuel : ℕ) (now : Timespec) (h : MinHeap) (w : W)
    → IsQuiet handler after
    → IsHeap h
    → h.live null ≡ false
    → h.size < fuel
    → Returns
        (λ _ u.
          (fired : List Ptr) × Expired h (current_time now) fired u.heap
          × InOrder h 0 fired
          × Once fired
          × (u.world ≡ calls after h fired w))
        (expire_timer handler fuel now (record { heap = h; world = w }))
unfolding expire_timer Served
expire_timer-Expired handler after fuel now h w quiet v none_there f =
    expire_loop-Served handler after (current_time now) quiet fuel h w 0 f v none_there
      (λ p c. omega arith)
