-- ===== src/Reactor/Write/Again.antt =====
-- reactor/eloop_event.c: io_write where the socket takes nothing.
use easymesh.Prelude.{
  true, ◌+◌, drop, arith, length, false, some, ◌-◌, take-suc, suc, [], ◌∷◌, List, refl, get_or, ◌<◌,
  take, ◌==◌, leb, ◌≡◌, ◌++◌, ℕ, ◌≤◌, ◌∙◌, ==_refl,
}
use easymesh.Prelude.Run.{Ptr, fault, and_then, Returns, returns}
use easymesh.Prelude.Int.{ℤ, pos, minus_one}
use mathlib.Core.List.{append-nil}
use easymesh.Reactor.{World, writable, put_io}
use easymesh.Reactor.Write.{
  Sender, Memory, Place, again, io_write, write_by_queue, send_now, after_send, flag_enqueue,
  enqueued, io_enqueue, append_chunk, took, bytes_from, chunk_of,
}
use easymesh.Reactor.Write.Stream.{stream}
use easymesh.Reactor.Write.Enqueue.{bytes_from_within, length-take-drop}
use easymesh.Reactor.Write.Accept.{answer, stream-eloop_add_event}

-- Both calls of malloc succeed.
abbrev pub plenty : Memory
plenty = record { node = true; copy = true }

module _ {A : Type 0} where
  io_enqueue-room :
      (p : Ptr) (d : Place) (m : ℕ) (w : World A)
      → 0 < m
      → (w.ios p).wmem_size + m < (w.ios p).wmem_max_size
      → (w.ios p).wmem_max_size < 2147483648
      → io_enqueue plenty p (some d) m w ≡ append_chunk p m (bytes_from d m) w
  unfolding io_enqueue
  io_enqueue-room p d m w b room small =
      let z : (m == 0) ≡ false = ground arith in
      let fine : leb 2147483648 ((w.ios p).wmem_size + m) ≡ false = ground arith in
      let free : leb (w.ios p).wmem_max_size ((w.ios p).wmem_size + m) ≡ false = ground arith in
      rw (z, fine, free) refl

  again_fault :
      (p : Ptr) (block : List ℕ) (n : ℕ) (w : World A)
      → (w.ios p).wmem_size + (n + 1) < (w.ios p).wmem_max_size
      → (w.ios p).wmem_max_size < 2147483648
      → after_send plenty p block 0 n (take n block) again w ≡ fault
  unfolding after_send flag_enqueue append_chunk
  again_fault p block n w room small =
      rw
        (io_enqueue-room p (record { block = block; at = minus_one }) (n + 1) (took p [] w)
          (omega arith) room small)
        refl

  -- The queue gets the byte in front of the message as well, and the call fails all the same.
  pub record Shifted (p : Ptr) (w : World A) (before : ℕ) (bytes : List ℕ) (r : ℤ) (w' : World A)
      : Type 0 where
    pub fails : r ≡ minus_one
    pub shifted : stream p w' ≡ stream p w ++ (before ∷ bytes)

  Shifted-enqueued :
      (p : Ptr) (before : ℕ) (bytes : List ℕ) (m : ℕ) (w : World A)
      → (w.ios p).write_queue ≡ []
      → length bytes + 1 ≡ m
      → Returns
          (Shifted p w before bytes)
          (and_then (append_chunk p m (some (before ∷ bytes)) (took p [] w)) (enqueued p minus_one))
  unfolding append_chunk enqueued
  Shifted-enqueued p before bytes m w e size = returns (record {
    fails = refl;
    shifted =
        stream-eloop_add_event p writable (
          put_io p
            (record (w.ios p) {
              write_queue = (w.ios p).write_queue ++ chunk_of (before ∷ bytes) ∷ [];
              wmem_size = (w.ios p).wmem_size + m;
            })
            (took p [] w))
        ∙ simp (==_refl, e, append-nil);
  })

  again_shifts :
      (p : Ptr) (block : List ℕ) (j n : ℕ) (w : World A)
      → suc j + n ≤ length block
      → (w.ios p).wmem_size + (n + 1) < (w.ios p).wmem_max_size
      → (w.ios p).wmem_max_size < 2147483648
      → (w.ios p).write_queue ≡ []
      → Returns
          (Shifted p w (get_or block j 0) (take n (drop (suc j) block)))
          (after_send plenty p block (suc j) n (take n (drop (suc j) block)) again w)
  unfolding after_send flag_enqueue
  again_shifts p block j n w within room small e =
      let z : (suc j == 0) ≡ false = ground arith in
      let back : suc j - 1 ≡ j = omega arith in
      let more : n + 1 ≡ suc n = omega arith in
      rw
        (
          z,
          back,
          io_enqueue-room p (record { block = block; at = pos j }) (n + 1) (took p [] w)
              (omega arith) room small,
          more,
          bytes_from_within block j (suc n) (omega arith),
          take-suc j n block 0 (omega arith),
        )
        (Shifted-enqueued p (get_or block j 0) (take n (drop (suc j) block)) (suc n) w e
          (omega (arith, length-take-drop block (suc j) n within)))

  -- On an empty queue with enough room, where malloc succeeds and send answers EAGAIN, io_write
  -- of a message in the middle of a block returns -1, but queues the byte in front of the message
  -- and then the message. At the start of its block it reads outside the block.
  pub io_write-again :
      (kernel : Sender) (p : Ptr) (block : List ℕ) (j n : ℕ) (w : World A)
      → (w.ios p).write_queue ≡ []
      → (w.ios p).wmem_size + (n + 1) < (w.ios p).wmem_max_size
      → (w.ios p).wmem_max_size < 2147483648
      → suc j + n ≤ length block
      → ((bytes : List ℕ) → answer kernel p bytes w ≡ again)
      → Returns
          (Shifted p w (get_or block j 0) (take n (drop (suc j) block)))
          (io_write kernel plenty p block (suc j) n w)
        × (io_write kernel plenty p block 0 n w ≡ fault)
  unfolding io_write write_by_queue send_now
  io_write-again kernel p block j n w e room small within stuck = (
    rw (e, bytes_from_within block (suc j) n within, stuck (take n (drop (suc j) block)))
        (again_shifts p block j n w within room small e),
    rw (e, bytes_from_within block 0 n (omega arith), stuck (take n block))
        (again_fault p block n w room small),
  )
