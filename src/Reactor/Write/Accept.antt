-- ===== src/Reactor/Write/Accept.antt =====
-- reactor/eloop_event.c: io_write puts a message behind what was written before.
use easymesh.Reactor.Write.Enqueue.{
  stored, refused, queued_io, Enqueued, io_enqueue-Enqueued, length-take-drop, bytes_from_within,
  pending-append, queued_io-IsQueue,
}
use easymesh.Prelude.{
  List, length, ◌∷◌, arith, ◌+◌, drop, [], sym, refl, ◌≡◌, ◌<◌, ℕ, ◌++◌, take, ◌≤◌, inr, ◌==◌,
  Bool-cases, inl, ◌≢◌, ==_refl, ◌∙◌, ap, ltb, take-add, take-append-drop, ◌-◌, take_of_le, ltb→lt,
  ltb→le, drop-take, drop-add,
}
use easymesh.Prelude.Run.{Ptr, Returns, returns, Returns-bind, Returns-mono}
use easymesh.Reactor.Write.{
  sent, again, broken, Memory, enqueued, flag_enqueue, took, after_send, Sent, again, Sender,
  write_by_queue, io_write, send_now,
}
use easymesh.Prelude.Int.{minus_one, pos, ℤ}
use mathlib.Core.List.{append-nil, append_assoc}
use easymesh.Reactor.{put_io, Events, eloop_add_event, Chunk, World, writable}
use easymesh.Reactor.Write.Stream.{stream, IsQueue}

rest_of :
    (block : List ℕ) (i n k : ℕ)
    → take (n - k) (drop (i + k) block) ≡ drop k (take n (drop i block))
rest_of block i n k = rw (drop-add i k block, drop-take k n (drop i block)) refl

module _ {A : Type 0} where
  -- What io_write leaves. All of the message is behind what was written before, unless the call
  -- fails; then a part of it may be.
  pub record Accepted (p : Ptr) (w : World A) (bytes : List ℕ) (r : ℤ) (w' : World A) : Type 0 where
    pub queue_ok : IsQueue (w'.ios p)
    pub whole : r ≢ minus_one → stream p w' ≡ stream p w ++ bytes
    pub part : r ≡ minus_one → (k : ℕ) × (stream p w' ≡ stream p w ++ take k bytes)
    pub others : (q : Ptr) → q ≢ p → w'.ios q ≡ w.ios q

  pub stream-eloop_add_event :
      (p : Ptr) (e : Events) (w : World A) → stream p (eloop_add_event p e w) ≡ stream p w
  unfolding eloop_add_event
  stream-eloop_add_event p e w = rw (==_refl p) refl

  eloop_add_event-IsQueue :
      (p : Ptr) (e : Events) (w : World A)
      → IsQueue (w.ios p)
      → IsQueue ((eloop_add_event p e w).ios p)
  unfolding eloop_add_event
  eloop_add_event-IsQueue p e w v = rw (==_refl p) (record { sized = v.sized; started = v.started })

  stream-queued :
      (p : Ptr) (bytes : List ℕ) (w : World A)
      → stream p (put_io p (queued_io (w.ios p) bytes) w) ≡ stream p w ++ bytes
  stream-queued p bytes w = rw (==_refl p, pending-append, append-nil, append_assoc) refl

  Enqueued-Accepted :
      (p : Ptr) (nsend : ℕ) (bytes : List ℕ) {r : ℤ} (w : World A) {w' : World A}
      → IsQueue (w.ios p)
      → Enqueued p w bytes r w'
      → Returns (Accepted p w bytes) (enqueued p (pos nsend) r w')
  unfolding enqueued
  Enqueued-Accepted p nsend bytes w v refused = returns (record {
    queue_ok = v;
    whole = λ ne. absurd (ne refl);
    part = λ _. (0, sym (append-nil _));
    others = λ q n. refl;
  })
  Enqueued-Accepted p nsend bytes w v (stored some_bytes room) = returns (record {
    queue_ok =
        eloop_add_event-IsQueue p writable (put_io p (queued_io (w.ios p) bytes) w)
          (rw (==_refl p) (queued_io-IsQueue (w.ios p) bytes some_bytes v));
    whole = λ _.
        stream-eloop_add_event p writable (put_io p (queued_io (w.ios p) bytes) w)
        ∙ stream-queued p bytes w;
    part = λ e. absurd (ground arith);
    others = λ q n. unfold eloop_add_event in (ground arith);
  })

  flag_enqueue-Accepted :
      (memory : Memory) (p : Ptr) (block : List ℕ) (i n nsend : ℕ) (w : World A)
      → i + n ≤ length block
      → (w.ios p).wmem_size + n < 2147483648
      → IsQueue (w.ios p)
      → Returns
          (Accepted p w (take n (drop i block)))
          (flag_enqueue memory p (record { block = block; at = pos i }) n (pos nsend) w)
  unfolding flag_enqueue
  flag_enqueue-Accepted memory p block i n nsend w within small v =
      Returns-bind (io_enqueue-Enqueued memory p block i n w within small)
        λ r g x. Enqueued-Accepted p nsend (take n (drop i block)) w v x

  stream-took :
      (p : Ptr) (bytes back : List ℕ) (w : World A)
      → (w.ios p).write_queue ≡ []
      → stream p (took p bytes w) ++ back ≡ stream p w ++ (bytes ++ back)
  stream-took p bytes back w e =
      rw (==_refl (w.ios p).fd, e, append-nil, append-nil, append_assoc) refl

  -- A part of the message has gone out at once; the rest is to follow.
  Accepted-after :
      (p : Ptr) (k : ℕ) (bytes : List ℕ) (w : World A) (r : ℤ) (w' : World A)
      → (w.ios p).write_queue ≡ []
      → Accepted p (took p (take k bytes) w) (drop k bytes) r w'
      → Accepted p w bytes r w'
  Accepted-after p k bytes w r w' e x = record {
    queue_ok = x.queue_ok;
    whole = λ ne.
        x.whole ne
        ∙ stream-took p (take k bytes) (drop k bytes) w e
        ∙ ap (λ l. stream p w ++ l) (take-append-drop k bytes);
    part = λ f.
        let (j, same) = x.part f in
        (
          k + j,
          same
              ∙ stream-took p (take k bytes) (take j (drop k bytes)) w e
              ∙ ap (λ l. stream p w ++ l) (take-add k j bytes),
        );
    others = x.others;
  }

  Accepted-failed :
      (p : Ptr) (k : ℕ) (bytes : List ℕ) (w : World A)
      → (w.ios p).write_queue ≡ []
      → IsQueue (w.ios p)
      → Accepted p w bytes minus_one (took p (take k bytes) w)
  Accepted-failed p k bytes w e v = record {
    queue_ok = v;
    whole = λ ne. absurd (ne refl);
    part = λ _. (
      k,
      sym (append-nil _)
          ∙ stream-took p (take k bytes) [] w e
          ∙ ap (λ l. stream p w ++ l) (append-nil _),
    );
    others = λ q n. refl;
  }

  after_part :
      (memory : Memory) (p : Ptr) (block : List ℕ) (i n k : ℕ) (w : World A)
      → k < n
      → i + n ≤ length block
      → (w.ios p).wmem_size + n < 2147483648
      → IsQueue (w.ios p)
      → (w.ios p).write_queue ≡ []
      → Returns (Accepted p w (take n (drop i block))) (
          flag_enqueue memory p
            (record { block = block; at = pos (i + k) })
            (n - k)
            (pos k)
            (took p (take k (take n (drop i block))) w))
  after_part memory p block i n k w l within small v e =
      let bytes = take n (drop i block) in
      let w' = took p (take k bytes) w in
      let run : Returns (Accepted p w' (drop k bytes))
          (flag_enqueue memory p (record { block = block; at = pos (i + k) }) (n - k) (pos k) w') =
        rw (← rest_of block i n k) (
          flag_enqueue-Accepted memory p block (i + k) (n - k) k w' (omega arith) (omega arith)
            v) in
      Returns-mono run (λ r g x. Accepted-after p k bytes w r g e x)

  after_all :
      (p : Ptr) (bytes : List ℕ) (n k : ℕ) (w : World A)
      → length bytes ≤ k
      → IsQueue (w.ios p)
      → (w.ios p).write_queue ≡ []
      → Accepted p w bytes (pos n) (took p (take k bytes) w)
  after_all p bytes n k w h v e = record {
    queue_ok = v;
    whole = λ _.
        sym (append-nil _)
        ∙ stream-took p (take k bytes) [] w e
        ∙ ap (λ l. stream p w ++ l) (append-nil _ ∙ take_of_le k bytes h);
    part = λ f. absurd (ground arith);
    others = λ q n. refl;
  }

  after_send-Accepted :
      (memory : Memory) (p : Ptr) (block : List ℕ) (i n : ℕ) (o : Sent) (w : World A)
      → o ≢ again
      → i + n ≤ length block
      → (w.ios p).wmem_size + n < 2147483648
      → IsQueue (w.ios p)
      → (w.ios p).write_queue ≡ []
      → Returns
          (Accepted p w (take n (drop i block)))
          (after_send memory p block i n (take n (drop i block)) o w)
  unfolding after_send
  after_send-Accepted memory p block i n again w ne within small v e = absurd (ne refl)
  after_send-Accepted memory p block i n broken w ne within small v e =
      returns (Accepted-failed p 0 (take n (drop i block)) w e v)
  after_send-Accepted memory p block i n (sent k) w ne within small v e =
      elim (Bool-cases (k == 0)) [
        | inl z ↦ rw z (returns (Accepted-failed p k (take n (drop i block)) w e v))
        | inr z ↦ elim (Bool-cases (ltb k n)) [
          | inl l ↦ rw (z, l) (after_part memory p block i n k w (ltb→lt _ _ l) within small v e)
          | inr l ↦
              rw (z, l)
                (returns (
                  after_all p (take n (drop i block)) n k w
                    (omega (arith, length-take-drop block i n within, ltb→le _ _ l)) v e))
        ]
      ]

  -- The answer of send to io_write.
  abbrev pub answer : Sender → Ptr → List ℕ → World A → Sent
  answer kernel p bytes w = kernel w.tick (w.ios p).fd bytes

  write_by_queue-Accepted :
      (kernel : Sender) (memory : Memory) (p : Ptr) (block : List ℕ) (i n : ℕ) (q : List Chunk)
      (w : World A)
      → ((w.ios p).write_queue ≡ [] → answer kernel p (take n (drop i block)) w ≢ again)
      → i + n ≤ length block
      → (w.ios p).wmem_size + n < 2147483648
      → IsQueue (w.ios p)
      → (w.ios p).write_queue ≡ q
      → Returns
          (Accepted p w (take n (drop i block)))
          (write_by_queue kernel memory p block i n q w)
  unfolding write_by_queue send_now
  write_by_queue-Accepted kernel memory p block i n [] w ready within small v e =
      rw (bytes_from_within block i n within) (
        after_send-Accepted memory p block i n (answer kernel p (take n (drop i block)) w) w
          (ready e) within small v e)
  write_by_queue-Accepted kernel memory p block i n (c ∷ cs) w ready within small v e =
      flag_enqueue-Accepted memory p block i n 0 w within small v

  -- Where the queue is in order, the bytes of the message are in memory, no int overflows, and
  -- send does not answer EAGAIN or EINTR on an empty queue, io_write returns. Unless it returns
  -- -1, all that the connection has sent or queued is what it was with the whole message behind
  -- it; at -1 a part of the message may be behind it. The queue stays in order and no other
  -- connection changes.
  pub io_write-Accepted :
      (kernel : Sender) (memory : Memory) (p : Ptr) (block : List ℕ) (i n : ℕ) (w : World A)
      → ((w.ios p).write_queue ≡ [] → answer kernel p (take n (drop i block)) w ≢ again)
      → i + n ≤ length block
      → (w.ios p).wmem_size + n < 2147483648
      → IsQueue (w.ios p)
      → Returns (Accepted p w (take n (drop i block))) (io_write kernel memory p block i n w)
  unfolding io_write
  io_write-Accepted kernel memory p block i n w ready within small v =
      write_by_queue-Accepted kernel memory p block i n (w.ios p).write_queue w ready within small v
        refl
