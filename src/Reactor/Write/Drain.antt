-- ===== src/Reactor/Write/Drain.antt =====
-- reactor/eloop_event.c: what is queued gets out, as long as the socket takes a byte at a time.
use mathlib.Core.List.{append-nil}
use easymesh.Prelude.{
  ℕ, List, suc, ◌<◌, ◌≡◌, refl, [], length-drop, length, ap, ◌∷◌, arith, length-append, ◌++◌, zero,
  ◌==◌, false, Bool-cases, drop, ltb→lt, ◌-◌, ◌+◌, ==_refl, inr, inl, ltb, take, ◌≤◌, if◌then◌else◌,
  Bool, true, ◌∙◌, sym,
}
use easymesh.Prelude.Run.{Cmd, done, and_then, Returns, returns, Returns-mono, Ptr}
use easymesh.Reactor.{World, Chunk, eloop_del_event, writable}
use easymesh.Reactor.Write.{
  Sender, sent, rest, took, after_answer, write_loop, handle_write, write_out, sent_all, sent_some,
}
use easymesh.Reactor.Write.Stream.{
  pending, Started, IsQueue, write_loop-Flushed, sent_all-IsQueue, rest_shorter, Written, stream,
  write_out-Written, load,
}

-- send takes at least a byte of what it is given.
abbrev pub IsLive : Sender → Type 0
IsLive kernel =
    (t fd : ℕ) (bytes : List ℕ) → 0 < length bytes → (k : ℕ) × (kernel t fd bytes ≡ sent (suc k))

Started-pending : (q : List Chunk) → Started q → pending q ≡ [] → q ≡ []
Started-pending [] s e = refl
Started-pending (c ∷ cs) s e = absurd (
    omega
      (arith, s.0, length-drop c.offset c.text, length-append (rest c) (pending cs), ap length e))

length_zero : (l : List ℕ) → length l ≤ 0 → l ≡ []
length_zero [] h = refl
length_zero (b ∷ l) h = absurd (omega arith)

module _ {A : Type 0} where
  -- One call of handle_write for each time that the socket is reported writable.
  abbrev pub rounds : Sender → Ptr → ℕ → Cmd (World A) (Unit {0})
  rounds kernel p zero w = done tt w
  rounds kernel p (suc n) w = and_then (handle_write true kernel p w) λ _. rounds kernel p n

  progress :
      (kernel : Sender) (p : Ptr) (c : Chunk) (cs : List Chunk) (w : World A) (k : ℕ)
      → (w.ios p).write_queue ≡ c ∷ cs
      → IsQueue (w.ios p)
      → c.offset < length c.text
      → let w' = (after_answer p c cs (write_loop kernel p cs) (sent (suc k)) w).1 in
        length (pending (w'.ios p).write_queue) < length (rest c ++ pending cs)
  unfolding after_answer
  progress kernel p c cs w k e v s =
      let z : (suc k == 0) ≡ false = ground arith in
      let w1 = took p (take (suc k) (rest c)) w in
      let sizes = length-append (rest c) (pending cs) in
      let size = length-drop c.offset c.text in
      elim (Bool-cases (ltb (suc k) (length c.text - c.offset))) [
        | inl l ↦
            rw (z, l, sent_some, ==_refl p)
              (omega (
                arith,
                sizes,
                size,
                length-append (drop (c.offset + suc k) c.text) (pending cs),
                length-drop (c.offset + suc k) c.text,
                ltb→lt _ _ l,
              ))
        | inr l ↦
            let x =
              write_loop-Flushed kernel p cs (sent_all p c cs w1)
                (unfold sent_all in rw (==_refl p) refl) (sent_all-IsQueue p c cs w1 e v) in
            rw (z, l, x.io) (omega (arith, sizes, size, rest_shorter p c cs w1 x.shorter))
      ]

  write_loop-progress :
      (kernel : Sender) (p : Ptr) (q : List Chunk) (w : World A)
      → IsLive kernel
      → (w.ios p).write_queue ≡ q
      → IsQueue (w.ios p)
      → Started q
      → let w' = (write_loop kernel p q w).1 in
        length (pending (w'.ios p).write_queue) ≤ length (pending q) - 1
  unfolding write_loop
  write_loop-progress kernel p [] w live e v s = rw e (omega arith)
  write_loop-progress kernel p (c ∷ cs) w live e v s =
      let (k, a) =
        live w.tick (w.ios p).fd (rest c) (omega (arith, length-drop c.offset c.text, s.0)) in
      rw a (omega (arith, progress kernel p c cs w k e v s.0))

  -- Taking EPOLLOUT back leaves the queue.
  queue-ended :
      (p : Ptr) (ended : Bool) (w : World A)
      → ((if ended then eloop_del_event p writable w else w).ios p).write_queue
        ≡ (w.ios p).write_queue
  unfolding eloop_del_event
  queue-ended p true w = rw (==_refl p) refl
  queue-ended p false w = refl

  write_out-progress :
      (kernel : Sender) (p : Ptr) (w : World A)
      → IsLive kernel
      → IsQueue (w.ios p)
      → length (pending ((write_out kernel p w).ios p).write_queue)
        ≤ length (pending (w.ios p).write_queue) - 1
  unfolding write_out
  write_out-progress kernel p w live v =
      let (ended, w') = write_loop kernel p (w.ios p).write_queue w in
      rw (queue-ended p ended w')
        (write_loop-progress kernel p (w.ios p).write_queue w live refl v v.started)

  Written-IsQueue : (p : Ptr) (w w' : World A) → Written p w w' → IsQueue (w'.ios p)
  Written-IsQueue p w w' x = rw x.io (record { sized = refl; started = x.started })

  -- Nothing is left, the peer has it all, and the connection waits for room no longer.
  pub record Drained (p : Ptr) (w g : World A) : Type 0 where
    pub empty : (g.ios p).write_queue ≡ []
    pub size : (g.ios p).wmem_size ≡ 0
    pub arrived : g.wire (w.ios p).fd ≡ stream p w
    pub waits : (g.ios p).events.epollout ≡ false

  Drained-now : (p : Ptr) (w w' : World A) (x : Written p w w') → x.queue ≡ [] → Drained p w w'
  Drained-now p w w' x gone = record {
    empty = ap (λ io. io.write_queue) x.io ∙ gone;
    size = ap (λ io. io.wmem_size) x.io ∙ ap load gone;
    arrived =
        ap w'.wire (sym (ap (λ io. io.fd) x.io))
        ∙ sym (append-nil _)
        ∙ ap (λ q. w'.wire (w'.ios p).fd ++ pending q) (sym (ap (λ io. io.write_queue) x.io ∙ gone))
        ∙ x.stream_kept;
    waits = ap (λ io. io.events.epollout) x.io ∙ rw (x.emptied.1 gone) (ground arith);
  }

  -- If send always takes at least one byte and malloc gives the iterators, then at most one call
  -- of handle_write more than there are bytes in a queue in order all return, and after them the
  -- queue is empty, its size is 0, the peer has been sent all that was sent or queued, in order,
  -- and the connection does not wait for EPOLLOUT.
  pub rounds-Drained :
      (kernel : Sender) (p : Ptr) (n : ℕ) (w : World A)
      → IsLive kernel
      → IsQueue (w.ios p)
      → length (pending (w.ios p).write_queue) ≤ n
      → Returns (λ _ g. Drained p w g) (rounds kernel p (suc n) w)
  unfolding handle_write
  rounds-Drained kernel p zero w live v h =
      let w' = write_out kernel p w in
      let x = write_out-Written kernel p w v in
      let at : (w'.ios p).write_queue ≡ x.queue = ap (λ io. io.write_queue) x.io in
      let short = write_out-progress kernel p w live v in
      let none_left : pending x.queue ≡ [] =
        length_zero (pending x.queue) (rw (← at) (omega (arith, short, h))) in
      let gone = Started-pending x.queue x.started none_left in returns (Drained-now p w w' x gone)
  rounds-Drained kernel p (suc n) w live v h =
      let w' = write_out kernel p w in
      let x = write_out-Written kernel p w v in
      Returns-mono
        (rounds-Drained kernel p n w' live (Written-IsQueue p w w' x)
          (omega (arith, write_out-progress kernel p w live v)))
        λ _ g d. record {
          empty = d.empty;
          size = d.size;
          arrived = ap g.wire (sym (ap (λ io. io.fd) x.io)) ∙ d.arrived ∙ x.stream_kept;
          waits = d.waits;
        }
