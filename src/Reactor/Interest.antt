-- ===== src/Reactor/Interest.antt =====
-- reactor/eloop_event.c: the masks in the connections agree with what epoll has been asked for.
use easymesh.Prelude.{
  Option, ℕ, if◌then◌else◌, some, ◌∷◌, List, ◌≡◌, none, not, [], false, ◌++◌, ◌==◌, arith, ==_refl,
  true, refl, ap, ◌∙◌,
}
use easymesh.Prelude.Run.{Ptr}
use easymesh.Reactor.{
  Events, World, Call, ctl_add, ctl_mod, ctl_del, closed, writable, either, without, is_none,
  eloop_add_event, eloop_del_event, Io,
}

-- What epoll watches a descriptor for.
abbrev pub Watch : Type 0
Watch = Option Events

-- One request for the descriptor `fd`; none where epoll refuses it, with EEXIST or ENOENT.
abbrev request : ℕ → Watch → Call → Option Watch
request fd s (ctl_add d e) =
    if not (d == fd) then some s else elim s [ none ↦ some (some e) | some _ ↦ none ]
request fd s (ctl_mod d e) =
    if not (d == fd) then some s else elim s [ none ↦ none | some _ ↦ some (some e) ]
request fd s (ctl_del d) =
    if not (d == fd) then some s else elim s [ none ↦ none | some _ ↦ some none ]
request fd s (closed d) = if not (d == fd) then some s else some none

-- After all the requests of a log.
abbrev pub watch_after : ℕ → Watch → List Call → Option Watch
watch_after fd s [] = some s
watch_after fd s (c ∷ cs) = elim (request fd s c) [ none ↦ none | some s' ↦ watch_after fd s' cs ]

-- A mask with no bit stands for a descriptor that is not watched.
abbrev pub watch_of : Events → Watch
watch_of e = if is_none e then none else some e

abbrev and_request : ℕ → Option Watch → Call → Option Watch
and_request fd none c = none
and_request fd (some s) c = request fd s c

last : (o : Option Watch) → (elim o as (λ _. Option Watch) [ none ↦ none | some s ↦ some s ]) ≡ o
last none = refl
last (some s) = refl

-- The requests of two logs, one after the other, given the claim for the rest of the first.
onward :
    (fd : ℕ) (cs : List Call) (c : Call) (o : Option Watch)
    → ((t : Watch) → watch_after fd t (cs ++ c ∷ []) ≡ and_request fd (watch_after fd t cs) c)
    → (elim o as (λ _. Option Watch) [ none ↦ none | some t ↦ watch_after fd t (cs ++ c ∷ []) ])
      ≡ and_request fd
          (elim o as (λ _. Option Watch) [ none ↦ none | some t ↦ watch_after fd t cs ])
          c
onward fd cs c none next = refl
onward fd cs c (some t) next = next t

watch_after-snoc :
    (fd : ℕ) (s : Watch) (cs : List Call) (c : Call)
    → watch_after fd s (cs ++ c ∷ []) ≡ and_request fd (watch_after fd s cs) c
watch_after-snoc fd s [] c = last (request fd s c)
watch_after-snoc fd s (d ∷ cs) c = onward fd cs c (request fd s d) (λ t. watch_after-snoc fd t cs c)

add_request :
    (fd : ℕ) (old e : Events)
    → is_none e ≡ false
    → request fd
        (watch_of old)
        (if is_none old then ctl_add fd (either old e) else ctl_mod fd (either old e))
      ≡ some (watch_of (either old e))
add_request fd old e some_bit = ground arith

del_request :
    (fd : ℕ) (old e : Events)
    → is_none old ≡ false
    → request fd
        (watch_of old)
        (if is_none (without old e) then ctl_del fd else ctl_mod fd (without old e))
      ≡ some (watch_of (without old e))
del_request fd old e some_bit = ground arith

module _ {A : Type 0} where
  -- epoll has refused nothing, and watches the connection's descriptor for its mask.
  abbrev pub IsWatched : Ptr → World A → Type 0
  IsWatched p w = watch_after (w.ios p).fd none w.calls ≡ some (watch_of (w.ios p).events)

  eloop_add_event-IsWatched :
      (p : Ptr) (e : Events) (w : World A)
      → is_none e ≡ false
      → IsWatched p w
      → IsWatched p (eloop_add_event p e w)
  unfolding eloop_add_event
  eloop_add_event-IsWatched p e w some_bit v =
      rw (==_refl p, watch_after-snoc, v) (add_request (w.ios p).fd (w.ios p).events e some_bit)

  eloop_del_event-IsWatched :
      (p : Ptr) (e : Events) (w : World A)
      → is_none (w.ios p).events ≡ false
      → IsWatched p w
      → IsWatched p (eloop_del_event p e w)
  unfolding eloop_del_event
  eloop_del_event-IsWatched p e w some_bit v =
      rw (==_refl p, watch_after-snoc, v) (del_request (w.ios p).fd (w.ios p).events e some_bit)

  -- What handle_write and io_write do between them to the mask.
  abbrev pub waited : Ptr → World A → World A
  waited p w = eloop_del_event p writable (eloop_add_event p writable w)

  io_with :
      (p : Ptr) (e : Events) (w : World A)
      → (eloop_add_event p e w).ios p ≡ record (w.ios p) { events = either (w.ios p).events e }
  unfolding eloop_add_event
  io_with p e w = rw (==_refl p) refl

  io_without :
      (p : Ptr) (e : Events) (w : World A)
      → (eloop_del_event p e w).ios p ≡ record (w.ios p) { events = without (w.ios p).events e }
  unfolding eloop_del_event
  io_without p e w = rw (==_refl p) refl

  -- For a connection that does not wait for EPOLLOUT and whose descriptor epoll watches for
  -- exactly the mask in it, eloop_add_event of EPOLLOUT is not refused and keeps this so, with
  -- EPOLLOUT in the mask; eloop_del_event of it afterwards is not refused, keeps this so, and
  -- leaves the connection as it was.
  pub eloop_del_event-eloop_add_event :
      (p : Ptr) (w : World A)
      → (w.ios p).events.epollout ≡ false
      → IsWatched p w
      → IsWatched p (eloop_add_event p writable w)
        × ((eloop_add_event p writable w).ios p).events.epollout ≡ true
        × IsWatched p (waited p w)
        × ((waited p w).ios p ≡ w.ios p)
  eloop_del_event-eloop_add_event p w off v =
      let up = io_with p writable w in
      let added = eloop_add_event-IsWatched p writable w refl v in
      (
        added,
        ap (λ io. io.events.epollout) up ∙ ground arith,
        eloop_del_event-IsWatched p writable (eloop_add_event p writable w)
            (ap (λ io. is_none io.events) up ∙ ground arith) added,
        io_without p writable (eloop_add_event p writable w)
            ∙ ap (λ (io : Io). record io { events = without io.events writable }) up
            ∙ ground (arith, off),
      )
