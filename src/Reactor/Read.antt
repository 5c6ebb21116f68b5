-- ===== src/Reactor/Read.antt =====
-- reactor/eloop_event.c, the way in: __read_cb, handle_read and eloop_handle_data. `call` runs the
-- callback at an address on a connection; it may change any of the state. The host is little
-- endian. A negative head or length of a buffer, which no access survives, is a fault at once.
pub mod Frames
pub mod Inlet
pub mod Deliver
pub mod Stuck
use easymesh.Prelude.{
  ℕ, zero, suc, List, [], ◌∷◌, Bool, if◌then◌else◌, leb, ltb, Option, none, some, ◌==◌, ◌+◌, ◌-◌,
  ◌*◌, length, get_or, ◌&&◌, not,
}
use easymesh.Prelude.Int.{ℤ, pos, negsuc}
use easymesh.Prelude.Run.{
  Ptr, null, Cmd, pure, crash, starve, modify, get, done, fault, ◌>>=◌, ◌>>◌, Run,
}
use easymesh.Reactor.{Io, World, put_io, io_buf_size, eloop_reset_io}
use easymesh.Reactor.Write.{Sender, handle_write}

-- What recv returns: bytes, none of them where the peer has closed, or -1 with EAGAIN or
-- EWOULDBLOCK, or -1 with another errno.
pub data Received : Type 0 where
  got : List ℕ → Received
  blocked : Received
  failed : Received

-- With the number of the call, the descriptor and the room.
abbrev pub Receiver : Type 0
Receiver = ℕ → ℕ → ℕ → Received

-- The four bytes at an address as an `int`.
abbrev pub word_at : (ℕ → ℕ) → ℕ → ℕ
word_at cells i = cells i + 256 * cells (i + 1) + 65536 * cells (i + 2) + 16777216 * cells (i + 3)

abbrev pub int_of : ℕ → ℤ
int_of n = if ltb n 2147483648 then pos n else negsuc (4294967295 - n)

-- `nbody + io->pack.nheader`; none where the `int` overflows.
abbrev pub plus_header : ℤ → ℕ → Option ℤ
plus_header (pos n) nheader =
    if ltb (n + nheader) 2147483648 then some (pos (n + nheader)) else none
plus_header (negsuc n) nheader =
    some (if leb (suc n) nheader then pos (nheader - suc n) else negsuc (n - nheader))

-- The size of the packet at index `at` of the buffer; none for a read outside it.
pub packet_size : Io → ℕ → Option ℤ
packet_size io at = elim io.buf [
  | none ↦ none
  | some cells ↦
      if leb (at + io.pack.len_offset + 4) io_buf_size
      then plus_header (int_of (word_at cells (at + io.pack.len_offset))) io.pack.nheader
      else none
]

-- What recv leaves in the buffer.
abbrev pub store_bytes : (ℕ → ℕ) → ℕ → List ℕ → ℕ → ℕ
store_bytes cells tail bytes j =
    if leb tail j && ltb j (tail + length bytes) then get_or bytes (j - tail) 0 else cells j

-- What memmove to the front leaves.
abbrev pub moved : (ℕ → ℕ) → ℕ → ℕ → ℕ → ℕ
moved cells head len j = if ltb j len then cells (head + j) else cells j

module _ {A : Type 0} where
  -- `io->head += size; io->len -= size`.
  pub consume : Ptr → ℕ → Cmd (World A) (Unit {0})
  consume p size w =
      let io = w.ios p in
      if leb size io.len
      then done tt (put_io p (record io { head = io.head + size; len = io.len - size }) w)
      else fault

  pub give_back : Ptr → ℕ → Cmd (World A) (Unit {0})
  give_back p size w =
      let io = w.ios p in
      if leb size io.head
      then done tt (put_io p (record io { head = io.head - size; len = io.len + size }) w)
      else fault

  module _ (call : Ptr → Ptr → Cmd (World A) (Unit {0})) where
    pub on_read : Ptr → Cmd (World A) (Unit {0})
    on_read p w = if (w.ios p).on_read == null then fault else call (w.ios p).on_read p w

    -- One turn of the loop for a packet of that size, with the loop for what follows. A size below
    -- 0 takes the loop backwards, out of the buffer where it is too far.
    pub take_packet :
        (ℕ → ℕ → Cmd (World A) (Unit {0})) → Ptr → ℕ → ℕ → Option ℤ → Cmd (World A) (Unit {0})
    unfolding on_read consume give_back
    take_packet loop p at len none w = fault
    take_packet loop p at len (some (pos size)) w =
        if ltb len size
        then done tt w
        else (do on_read p; consume p size; loop (at + size) (len - size)) w
    take_packet loop p at len (some (negsuc size)) w =
        if leb (suc size) at
        then (do on_read p; give_back p (suc size); loop (at - suc size) (len + suc size)) w
        else fault

    -- The loop of __read_cb, with `buf` as an index into the buffer.
    pub read_loop : ℕ → Ptr → ℕ → ℕ → Cmd (World A) (Unit {0})
    unfolding take_packet packet_size
    read_loop zero p at len w = starve w
    read_loop (suc k) p at len w =
        if ltb len (w.ios p).pack.nheader
        then done tt w
        else take_packet (read_loop k p) p at len (packet_size (w.ios p) at) w

    pub read_cb : ℕ → Ptr → Cmd (World A) (Unit {0})
    unfolding read_loop
    read_cb fuel p w = read_loop fuel p (w.ios p).head (w.ios p).len w

    -- The end of handle_read: at the end of the buffer, what is left moves to its front.
    pub compact : Ptr → Cmd (World A) (Unit {0})
    compact p w =
        let io = w.ios p in
        let run : Run (World A) (Unit {0}) = elim io.buf [
          | none ↦ fault
          | some cells ↦
              if leb (io.head + io.len) io_buf_size
              then done tt (
                  put_io p
                    (record io { buf = some (moved cells io.head io.len); head = 0; tail = io.len })
                    w)
              else fault
        ] in
        if leb io_buf_size io.tail then run else done tt w

    pub received : ℕ → Ptr → List ℕ → Cmd (World A) (Unit {0})
    unfolding read_cb compact
    received fuel p bytes w =
        let io = w.ios p in
        let run : Run (World A) (Unit {0}) = elim io.buf [
          | none ↦ fault
          | some cells ↦ (read_cb fuel p >> compact p) (
              put_io p
                (record io {
                  buf = some (store_bytes cells io.tail bytes);
                  tail = io.tail + length bytes;
                  len = io.len + length bytes;
                })
                w)
        ] in
        if leb (io.tail + length bytes) io_buf_size then run else fault

    -- `iterates` is whether malloc gives the iterator over the write queue.
    pub after_recv : Bool → ℕ → Ptr → Received → Cmd (World A) (Unit {0})
    unfolding received eloop_reset_io
    after_recv iterates fuel p blocked w = done tt w
    after_recv iterates fuel p failed w = done tt w
    after_recv iterates fuel p (got []) w =
        (do
          (if (w.ios p).on_close == null then pure tt else call (w.ios p).on_close p)
          eloop_reset_io iterates p)
          w
    after_recv iterates fuel p (got (b ∷ bs)) w = received fuel p (b ∷ bs) w

    pub handle_read : Bool → Receiver → ℕ → Ptr → Cmd (World A) (Unit {0})
    unfolding after_recv eloop_reset_io
    handle_read iterates receiver fuel p w =
        let io = w.ios p in
        if leb io_buf_size io.tail
        then eloop_reset_io iterates p w
        else after_recv iterates fuel p (receiver w.tick io.fd (io_buf_size - io.tail))
            (record w { tick = w.tick + 1 })

    pub on_accept : Ptr → Cmd (World A) (Unit {0})
    on_accept p w = if (w.ios p).on_accept == null then fault else call (w.ios p).on_accept p w

    pub handle_in : Bool → Receiver → ℕ → Ptr → Cmd (World A) (Unit {0})
    unfolding on_accept on_read handle_read
    handle_in iterates receiver fuel p w =
        if not (w.ios p).what.epollin
        then done tt w
        else if (w.ios p).is_accept
        then on_accept p w
        else if (w.ios p).has_packer
        then handle_read iterates receiver fuel p w
        else on_read p w

    -- `what` is read again after the callbacks of the way in.
    pub eloop_handle_data : Bool → Sender → Receiver → ℕ → Ptr → Cmd (World A) (Unit {0})
    unfolding handle_in
    eloop_handle_data iterates sender receiver fuel p = handle_in iterates receiver fuel p >> λ w.
        if (w.ios p).what.epollout then handle_write iterates sender p w else done tt w
