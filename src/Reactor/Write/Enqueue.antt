-- ===== src/Reactor/Write/Enqueue.antt =====
-- reactor/eloop_event.c: io_enqueue puts a message at the end of the queue or changes nothing.
use mathlib.Core.Path.{subst}
use easymesh.Prelude.{
  List, some, length, ◌∷◌, arith, length-drop, ◌+◌, drop, [], le→leb, sym, length-take, refl, ◌≡◌,
  ◌<◌, ℕ, ◌++◌, take, ◌≤◌, leb, inr, false, ◌==◌, Bool-cases, inl, leb→lt,
}
use easymesh.Prelude.Run.{Ptr, Returns, returns}
use easymesh.Reactor.Write.{io_enqueue, chunk_of, bytes_from, append_chunk, rest, Memory}
use easymesh.Prelude.Int.{minus_one, pos, ℤ}
use mathlib.Core.List.{append_assoc}
use easymesh.Reactor.{put_io, Io, Chunk, World}
use easymesh.Reactor.Write.Stream.{pending, load, Started, IsQueue}

nonzero : (n : ℕ) → (n == 0) ≡ false → 0 < n
nonzero n h = ground arith

pub pending-append : (q r : List Chunk) → pending (q ++ r) ≡ pending q ++ pending r
pending-append [] r = refl
pending-append (c ∷ q) r =
    rw (pending-append q r) (sym (append_assoc (rest c) (pending q) (pending r)))

load-append : (q r : List Chunk) → load (q ++ r) ≡ load q + load r
load-append [] r = omega arith
load-append (c ∷ q) r = omega (arith, load-append q r)

Started-append : (q r : List Chunk) → Started q → Started r → Started (q ++ r)
Started-append [] r s t = t
Started-append (c ∷ q) r s t = (s.0, Started-append q r s.1 t)

-- The queue of a connection with one chunk more.
abbrev pub queued_io : Io → List ℕ → Io
queued_io io bytes = record io {
  write_queue = io.write_queue ++ chunk_of bytes ∷ [];
  wmem_size = io.wmem_size + length bytes;
}

pub queued_io-IsQueue :
    (io : Io) (bytes : List ℕ) → 0 < length bytes → IsQueue io → IsQueue (queued_io io bytes)
queued_io-IsQueue io bytes h v = record {
  sized = omega (arith, load-append io.write_queue (chunk_of bytes ∷ []), v.sized);
  started = Started-append io.write_queue (chunk_of bytes ∷ []) v.started (h, tt);
}

pub bytes_from_within :
    (block : List ℕ) (i n : ℕ)
    → i + n ≤ length block
    → bytes_from (record { block = block; at = pos i }) n ≡ some (take n (drop i block))
bytes_from_within block i n h = rw (le→leb (i + n) (length block) h) refl

pub length-take-drop :
    (block : List ℕ) (i n : ℕ) → i + n ≤ length block → length (take n (drop i block)) ≡ n
length-take-drop block i n h = omega (arith, length-take n (drop i block), length-drop i block)

module _ {A : Type 0} where
  -- What io_enqueue leaves: nothing has changed, or the bytes are the last chunk and there was room.
  pub data Enqueued (p : Ptr) (w : World A) (bytes : List ℕ) : ℤ → World A → Type 0 where
    refused : Enqueued p w bytes minus_one w
    stored :
        0 < length bytes
        → (w.ios p).wmem_size + length bytes < (w.ios p).wmem_max_size
        → Enqueued p w bytes (pos (length bytes)) (put_io p (queued_io (w.ios p) bytes) w)

  append_chunk-Enqueued :
      (p : Ptr) (bytes : List ℕ) (w : World A) (n : ℕ)
      → length bytes ≡ n
      → 0 < n
      → (w.ios p).wmem_size + n < (w.ios p).wmem_max_size
      → Returns (Enqueued p w bytes) (append_chunk p n (some bytes) w)
  unfolding append_chunk
  append_chunk-Enqueued p bytes w n e b room =
      subst (λ m. Returns (Enqueued p w bytes) (append_chunk p m (some bytes) w)) e
        (returns (stored (omega (arith, e, b)) (omega (arith, e, room))))

  -- For bytes that are in memory, with no overflow of int, io_enqueue returns. Either it returns
  -- -1 and nothing has changed, or it returns the length, the bytes are a new chunk at the end of
  -- the queue, and the size of the queue has grown by the length and is below its maximum.
  pub io_enqueue-Enqueued :
      (memory : Memory) (p : Ptr) (block : List ℕ) (i n : ℕ) (w : World A)
      → i + n ≤ length block
      → (w.ios p).wmem_size + n < 2147483648
      → Returns
          (Enqueued p w (take n (drop i block)))
          (io_enqueue memory p (some (record { block = block; at = pos i })) n w)
  unfolding io_enqueue
  io_enqueue-Enqueued memory p block i n w within small =
      let block' = take n (drop i block) in
      let size : length block' ≡ n = length-take-drop block i n within in
      let fine : leb 2147483648 ((w.ios p).wmem_size + n) ≡ false = ground arith in
      elim (Bool-cases (n == 0)) [
        | inl z ↦ rw z (returns refused)
        | inr z ↦ elim (Bool-cases (leb (w.ios p).wmem_max_size ((w.ios p).wmem_size + n))) [
          | inl full ↦ rw (z, fine, full) (returns refused)
          | inr room ↦ elim (Bool-cases memory.node) [
            | inr no_node ↦ rw (z, fine, room, no_node) (returns refused)
            | inl node ↦ elim (Bool-cases memory.copy) [
              | inr no_copy ↦ rw (z, fine, room, node, no_copy) (returns refused)
              | inl copy ↦
                  rw (z, fine, room, node, copy, bytes_from_within block i n within)
                    (append_chunk-Enqueued p block' w n size (nonzero n z) (leb→lt _ _ room))
            ]
          ]
        ]
      ]
