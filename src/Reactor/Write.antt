-- ===== src/Reactor/Write.antt =====
-- reactor/eloop_event.c, the way out: io_enqueue, io_write and handle_write. `kernel` answers send:
-- with the number of the call, the descriptor and the bytes. A length is that of a buffer in memory.
pub mod Stream
pub mod Enqueue
pub mod Accept
pub mod Again
pub mod Drain
use easymesh.Prelude.{
  ℕ, List, [], ◌∷◌, ◌++◌, Bool, true, false, not, if◌then◌else◌, leb, ltb, Option, none, some,
  update, ◌==◌, ◌+◌, ◌-◌, length, take, drop,
}
use easymesh.Prelude.Int.{ℤ, pos, negsuc, minus_one}
use easymesh.Prelude.Run.{Ptr, Run, Cmd, done, fault, ◌>>=◌}
use easymesh.Reactor.{Chunk, Io, World, put_io, writable, eloop_add_event, eloop_del_event}

-- What send returns: a count, or -1 with errno EAGAIN or EINTR, or -1 with another one.
pub data Sent : Type 0 where
  sent : ℕ → Sent
  again : Sent
  broken : Sent

abbrev pub Sender : Type 0
Sender = ℕ → ℕ → List ℕ → Sent

-- The answers of the two calls of malloc.
pub record Memory : Type 0 where
  pub node : Bool
  pub copy : Bool

-- A pointer into a block of memory.
pub record Place : Type 0 where
  pub block : List ℕ
  pub at : ℤ

-- The bytes from there on; none where that leaves the block.
abbrev pub bytes_from : Place → ℕ → Option (List ℕ)
bytes_from d n = elim d.at [
  | pos i ↦ if leb (i + n) (length d.block) then some (take n (drop i d.block)) else none
  | negsuc _ ↦ none
]

abbrev pub chunk_of : List ℕ → Chunk
chunk_of bytes = record { text = bytes; offset = 0 }

-- What is still to be sent of a chunk.
abbrev pub rest : Chunk → List ℕ
rest c = drop c.offset c.text

module _ {A : Type 0} where
  pub append_chunk : Ptr → ℕ → Option (List ℕ) → Cmd (World A) ℤ
  append_chunk p n none w = fault
  append_chunk p n (some bytes) w =
      let io = w.ios p in
      done (pos n) (
        put_io p
          (record io {
            write_queue = io.write_queue ++ chunk_of bytes ∷ [];
            wmem_size = io.wmem_size + n;
          })
          w)

  -- `data` is none where it is NULL. An overflow of `int` is a fault.
  pub io_enqueue : Memory → Ptr → Option Place → ℕ → Cmd (World A) ℤ
  unfolding append_chunk
  io_enqueue memory p none n w = done minus_one w
  io_enqueue memory p (some d) n w =
      if n == 0
      then done minus_one w
      else if leb 2147483648 ((w.ios p).wmem_size + n)
      then fault
      else if leb (w.ios p).wmem_max_size ((w.ios p).wmem_size + n)
      then done minus_one w
      else if not memory.node
      then done minus_one w
      else if not memory.copy
      then done minus_one w
      else append_chunk p n (bytes_from d n) w

  -- What the kernel has taken in one call.
  abbrev pub took : Ptr → List ℕ → World A → World A
  took p bytes w = record w {
    wire = update w.wire (w.ios p).fd (w.wire (w.ios p).fd ++ bytes);
    tick = w.tick + 1;
  }

  -- The end of io_write at flag 1. The value is `nsend`.
  pub enqueued : Ptr → ℤ → ℤ → Cmd (World A) ℤ
  unfolding eloop_add_event
  enqueued p nsend (negsuc _) w = done minus_one w
  enqueued p nsend (pos _) w = done nsend (eloop_add_event p writable w)

  pub flag_enqueue : Memory → Ptr → Place → ℕ → ℤ → Cmd (World A) ℤ
  unfolding io_enqueue enqueued
  flag_enqueue memory p d n nsend = do r ← io_enqueue memory p (some d) n; enqueued p nsend r

  -- The answer of send. At EAGAIN `nsend` is -1, so `data + nsend` is a byte further to the front
  -- and `len - nsend` is one more than `len`.
  pub after_send : Memory → Ptr → List ℕ → ℕ → ℕ → List ℕ → Sent → Cmd (World A) ℤ
  unfolding flag_enqueue
  after_send memory p block i n bytes again w =
      flag_enqueue memory p
        (record { block = block; at = if i == 0 then minus_one else pos (i - 1) }) (n + 1) minus_one
        (took p [] w)
  after_send memory p block i n bytes broken w = done minus_one (took p [] w)
  after_send memory p block i n bytes (sent k) w =
      let w' = took p (take k bytes) w in
      if k == 0
      then done minus_one w'
      else if ltb k n
      then flag_enqueue memory p (record { block = block; at = pos (i + k) }) (n - k) (pos k) w'
      else done (pos n) w'

  pub send_now : Sender → Memory → Ptr → List ℕ → ℕ → ℕ → Option (List ℕ) → Cmd (World A) ℤ
  unfolding after_send
  send_now kernel memory p block i n none w = fault
  send_now kernel memory p block i n (some bytes) w =
      after_send memory p block i n bytes (kernel w.tick (w.ios p).fd bytes) w

  pub write_by_queue : Sender → Memory → Ptr → List ℕ → ℕ → ℕ → List Chunk → Cmd (World A) ℤ
  unfolding send_now flag_enqueue
  write_by_queue kernel memory p block i n [] =
      send_now kernel memory p block i n (bytes_from (record { block = block; at = pos i }) n)
  write_by_queue kernel memory p block i n (_ ∷ _) =
      flag_enqueue memory p (record { block = block; at = pos i }) n (pos 0)

  -- `data` points to index `i` of the block.
  pub io_write : Sender → Memory → Ptr → List ℕ → ℕ → ℕ → Cmd (World A) ℤ
  unfolding write_by_queue
  io_write kernel memory p block i n w =
      write_by_queue kernel memory p block i n (w.ios p).write_queue w

  abbrev pub set_queue : Ptr → List Chunk → World A → World A
  set_queue p q w = put_io p (record (w.ios p) { write_queue = q }) w

  -- A chunk that is sent to its end leaves the queue.
  pub sent_all : Ptr → Chunk → List Chunk → World A → World A
  sent_all p c cs w =
      let io = w.ios p in
      put_io p (record io { write_queue = cs; wmem_size = io.wmem_size - length c.text }) w

  pub sent_some : Ptr → Chunk → List Chunk → ℕ → World A → World A
  sent_some p c cs k w = set_queue p (record c { offset = c.offset + k } ∷ cs) w

  -- What the loop does after an answer for the chunk in front; `on` is the rest of the loop.
  pub after_answer :
      Ptr → Chunk → List Chunk → (World A → Bool × World A) → Sent → World A → Bool × World A
  unfolding sent_all sent_some
  after_answer p c cs on again w = (false, took p [] w)
  after_answer p c cs on broken w = (false, took p [] w)
  after_answer p c cs on (sent k) w =
      let w' = took p (take k (rest c)) w in
      if k == 0
      then (false, w')
      else if ltb k (length c.text - c.offset)
      then (false, sent_some p c cs k w')
      else on (sent_all p c cs w')

  -- The loop over the queue. The iterator has moved on before its node is freed. The value says
  -- whether the queue came to its end.
  pub write_loop : Sender → Ptr → List Chunk → World A → Bool × World A
  unfolding after_answer
  write_loop kernel p [] w = (true, w)
  write_loop kernel p (c ∷ cs) w =
      after_answer p c cs (write_loop kernel p cs) (kernel w.tick (w.ios p).fd (rest c)) w

  -- handle_write with its iterator.
  pub write_out : Sender → Ptr → World A → World A
  unfolding write_loop eloop_del_event
  write_out kernel p w =
      let (ended, w') = write_loop kernel p (w.ios p).write_queue w in
      if ended then eloop_del_event p writable w' else w'

  -- `iterates` is whether malloc gives the iterator: without it the loop reads through NULL.
  pub handle_write : Bool → Sender → Ptr → Cmd (World A) (Unit {0})
  unfolding write_out
  handle_write iterates kernel p w = if iterates then done tt (write_out kernel p w) else fault
