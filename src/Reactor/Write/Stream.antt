-- ===== src/Reactor/Write/Stream.antt =====
-- reactor/eloop_event.c: what reaches the peer is what was written, in order and once.
use easymesh.Prelude.{
  List, ◌≡◌, length, true, Bool, ◌∷◌, false, ◌≤◌, ◌+◌, ◌≢◌, [], ◌<◌, ℕ, ◌↔◌, ◌++◌, arith, take, ◌-◌,
  ==_refl, refl, drop-add, take_of_le, take-append-drop, drop, length-drop, inl, ◌==◌, inr,
  Bool-cases, ltb, ltb→lt, ltb→le, ◌∙◌, if◌then◌else◌, ==_iff, length-append,
}
use easymesh.Reactor.Write.{
  again, broken, sent, Sender, write_loop, rest, sent, took, sent_some, sent_all, after_answer,
  Sent, handle_write, write_out,
}
use easymesh.Prelude.Run.{Ptr, Returns, returns, fault}
use mathlib.Core.List.{append-nil, append_assoc}
use easymesh.Reactor.{Chunk, Io, World, Events, writable, without, eloop_del_event}

-- The bytes that are queued but not sent.
abbrev pub pending : List Chunk → List ℕ
pending [] = []
pending (c ∷ cs) = rest c ++ pending cs

abbrev pub load : List Chunk → ℕ
load [] = 0
load (c ∷ cs) = length c.text + load cs

-- Each chunk has a byte left.
abbrev pub Started : List Chunk → Type 0
Started [] = Unit
Started (c ∷ cs) = (c.offset < length c.text) × Started cs

pub record IsQueue (io : Io) : Type 0 where
  pub sized : io.wmem_size ≡ load io.write_queue
  pub started : Started io.write_queue

-- The events of the connection after the loop.
abbrev pub events_after : Bool → Events → Events
events_after ended events = if ended then without events writable else events

split_at :
    (k : ℕ) (front bytes back : List ℕ)
    → (front ++ take k bytes) ++ (drop k bytes ++ back) ≡ front ++ (bytes ++ back)
split_at k front bytes back =
    rw (append_assoc, ← append_assoc (take k bytes) (drop k bytes) back, take-append-drop k bytes)
      refl

module _ {A : Type 0} where
  -- All that the connection has been given to write.
  abbrev pub stream : Ptr → World A → List ℕ
  stream p w = w.wire (w.ios p).fd ++ pending (w.ios p).write_queue

  -- The loop sends from the front of the queue, loses nothing, and leaves the rest.
  pub record Flushed (p : Ptr) (w : World A) (ended : Bool) (w' : World A) : Type 0 where
    pub queue : List Chunk
    pub io : w'.ios p ≡ record (w.ios p) { write_queue = queue; wmem_size = load queue }
    pub others : (q : Ptr) → q ≢ p → w'.ios q ≡ w.ios q
    pub shorter : length (pending queue) ≤ length (pending (w.ios p).write_queue)
    pub stream_kept : stream p w' ≡ stream p w
    pub started : Started queue
    pub emptied : (ended ≡ true) ↔ (queue ≡ [])

  Flushed-none :
      (p : Ptr) (w : World A) {q : List Chunk}
      → (w.ios p).write_queue ≡ q
      → IsQueue (w.ios p)
      → q ≢ []
      → Flushed p w false (took p [] w)
  Flushed-none p w {q} e v ne = record {
    queue = (w.ios p).write_queue;
    io = ground (arith, v.sized);
    shorter = omega arith;
    others = λ q n. refl;
    stream_kept = simp (==_refl, append-nil);
    started = v.started;
    emptied = (λ h. absurd (ground arith), λ h. absurd (ground arith));
  }

  Flushed-some :
      (p : Ptr) (c : Chunk) (cs : List Chunk) (k : ℕ) (w : World A)
      → (w.ios p).write_queue ≡ c ∷ cs
      → IsQueue (w.ios p)
      → k < length c.text - c.offset
      → Flushed p w false (sent_some p c cs k (took p (take k (rest c)) w))
  unfolding sent_some
  Flushed-some p c cs k w e v h = record {
    queue = record c { offset = c.offset + k } ∷ cs;
    io = rw (==_refl p, v.sized, e) refl;
    shorter = rw e (
        omega (
          arith,
          length-append (drop (c.offset + k) c.text) (pending cs),
          length-append (rest c) (pending cs),
          length-drop (c.offset + k) c.text,
          length-drop c.offset c.text,
        ));
    others = λ q n. ground arith;
    stream_kept =
        rw (==_refl p, ==_refl (w.ios p).fd, e, drop-add c.offset k c.text)
          (split_at k (w.wire (w.ios p).fd) (rest c) (pending cs));
    started = ground arith;
    emptied = (λ h. absurd (ground arith), λ h. absurd (ground arith));
  }

  pub rest_shorter :
      (p : Ptr) (c : Chunk) (cs : List Chunk) (w : World A) {n : ℕ}
      → n ≤ length (pending ((sent_all p c cs w).ios p).write_queue)
      → n ≤ length (pending cs)
  unfolding sent_all
  rest_shorter p c cs w h = rw (==_refl p) at h

  Flushed-all :
      (p : Ptr) (c : Chunk) (cs : List Chunk) (k : ℕ) (w : World A) {ended : Bool} {w' : World A}
      → (w.ios p).write_queue ≡ c ∷ cs
      → IsQueue (w.ios p)
      → length (rest c) ≤ k
      → Flushed p (sent_all p c cs (took p (take k (rest c)) w)) ended w'
      → Flushed p w ended w'
  unfolding sent_all
  Flushed-all p c cs k w e v h x = record {
    queue = x.queue;
    io = rw (x.io, ==_refl p) refl;
    shorter = rw e (
        omega (
          arith,
          rest_shorter p c cs (took p (take k (rest c)) w) x.shorter,
          length-append (rest c) (pending cs),
        ));
    others = λ q n. x.others q n ∙ ground arith;
    stream_kept =
        rw (x.stream_kept, ==_refl p, ==_refl (w.ios p).fd, e, take_of_le k (rest c) h)
          (append_assoc (w.wire (w.ios p).fd) (rest c) (pending cs));
    started = x.started;
    emptied = x.emptied;
  }

  pub sent_all-IsQueue :
      (p : Ptr) (c : Chunk) (cs : List Chunk) (w : World A)
      → (w.ios p).write_queue ≡ c ∷ cs
      → IsQueue (w.ios p)
      → IsQueue ((sent_all p c cs w).ios p)
  unfolding sent_all
  sent_all-IsQueue p c cs w e v = rw (==_refl p) (ground arith)

  after_answer-Flushed :
      (p : Ptr) (c : Chunk) (cs : List Chunk) (on : World A → Bool × World A) (o : Sent)
      (w : World A)
      → (w.ios p).write_queue ≡ c ∷ cs
      → IsQueue (w.ios p)
      → ((g : World A)
          → (g.ios p).write_queue ≡ cs
          → IsQueue (g.ios p)
          → Flushed p g (on g).0 (on g).1)
      → let (ended, w') = after_answer p c cs on o w in Flushed p w ended w'
  unfolding after_answer
  after_answer-Flushed p c cs on again w e v next =
      Flushed-none p w e v (λ h. absurd (ground arith))
  after_answer-Flushed p c cs on broken w e v next =
      Flushed-none p w e v (λ h. absurd (ground arith))
  after_answer-Flushed p c cs on (sent k) w e v next = elim (Bool-cases (k == 0)) [
    | inl z ↦ rw (z) (rw ((==_iff k 0).0 z) (Flushed-none p w e v (λ h. absurd (ground arith))))
    | inr z ↦ elim (Bool-cases (ltb k (length c.text - c.offset))) [
      | inl l ↦ rw (z, l) (Flushed-some p c cs k w e v (ltb→lt _ _ l))
      | inr l ↦
          rw (z, l)
            (Flushed-all p c cs k w e v (omega (arith, length-drop c.offset c.text, ltb→le _ _ l)) (
              next (sent_all p c cs (took p (take k (rest c)) w)) (rw (==_refl p) refl)
                (sent_all-IsQueue p c cs (took p (take k (rest c)) w) e v)))
    ]
  ]

  pub write_loop-Flushed :
      (kernel : Sender) (p : Ptr) (cs : List Chunk) (w : World A)
      → (w.ios p).write_queue ≡ cs
      → IsQueue (w.ios p)
      → let (ended, w') = write_loop kernel p cs w in Flushed p w ended w'
  unfolding write_loop
  write_loop-Flushed kernel p [] w e v = record {
    queue = [];
    io = ground (arith, v.sized);
    shorter = omega arith;
    others = λ q n. refl;
    stream_kept = refl;
    started = tt;
    emptied = (λ h. refl, λ h. refl);
  }
  write_loop-Flushed kernel p (c ∷ cs) w e v =
      after_answer-Flushed p c cs (write_loop kernel p cs) (kernel w.tick (w.ios p).fd (rest c)) w e
        v (λ g eg vg. write_loop-Flushed kernel p cs g eg vg)

  -- What handle_write leaves of the connection.
  pub record Written (p : Ptr) (w : World A) (w' : World A) : Type 0 where
    pub queue : List Chunk
    pub ended : Bool
    pub io : w'.ios p ≡ record (w.ios p) {
      write_queue = queue;
      wmem_size = load queue;
      events = events_after ended (w.ios p).events;
    }
    pub others : (q : Ptr) → q ≢ p → w'.ios q ≡ w.ios q
    pub shorter : length (pending queue) ≤ length (pending (w.ios p).write_queue)
    pub stream_kept : stream p w' ≡ stream p w
    pub started : Started queue
    pub emptied : (ended ≡ true) ↔ (queue ≡ [])

  Written-Flushed :
      (p : Ptr) (w w' : World A) (ended : Bool)
      → Flushed p w ended w'
      → Written p w (if ended then eloop_del_event p writable w' else w')
  unfolding eloop_del_event
  Written-Flushed p w w' true x = record {
    queue = x.queue;
    ended = true;
    io = rw (==_refl p, x.io) refl;
    shorter = x.shorter;
    others = λ q n. ground (arith, x.others q n);
    stream_kept = rw (==_refl p) x.stream_kept;
    started = x.started;
    emptied = x.emptied;
  }
  Written-Flushed p w w' false x = record {
    queue = x.queue;
    ended = false;
    io = x.io;
    shorter = x.shorter;
    others = x.others;
    stream_kept = x.stream_kept;
    started = x.started;
    emptied = x.emptied;
  }

  pub write_out-Written :
      (kernel : Sender) (p : Ptr) (w : World A)
      → IsQueue (w.ios p)
      → Written p w (write_out kernel p w)
  unfolding write_out
  write_out-Written kernel p w v =
      let (ended, w') = write_loop kernel p (w.ios p).write_queue w in
      Written-Flushed p w w' ended (write_loop-Flushed kernel p (w.ios p).write_queue w refl v)

  -- On a queue in order, where malloc gives the iterator, handle_write returns and leaves a queue
  -- in order, no longer than before, and its size is the sum of its chunks. What is sent and what
  -- is still queued together are as before. It takes EPOLLOUT back exactly if the queue is empty.
  -- No other field of the connection and no other connection changes. Where malloc does not give
  -- the iterator, handle_write reads through NULL.
  pub handle_write-Written :
      (kernel : Sender) (p : Ptr) (w : World A)
      → IsQueue (w.ios p)
      → Returns (λ _ g. Written p w g) (handle_write true kernel p w)
        × (handle_write false kernel p w ≡ fault)
  unfolding handle_write
  handle_write-Written kernel p w v = (returns (write_out-Written kernel p w v), refl)
