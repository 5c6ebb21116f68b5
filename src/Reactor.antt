-- ===== src/Reactor.antt =====
-- reactor/eloop_event.c and eloop_event.h: the connections of the event loop. An io_buf_t is named by
-- its index in the loop's table, so its link to the loop is left out; the write queue is the
-- sequence that its KamiList holds. `A` is the state of the application whose callbacks run.
pub mod Interest
pub mod Write
pub mod Read
pub mod Turn
mod Tests
use easymesh.Prelude.{
  ℕ, List, [], ◌∷◌, ◌++◌, Bool, true, false, ◌||◌, ◌&&◌, not, if◌then◌else◌, leb, Option, none,
  some, update, ◌==◌,
}
use easymesh.Prelude.Int.{ℤ, pos}
use easymesh.Prelude.Run.{Ptr, null, Cmd, pure, crash, modify, done, ◌>>=◌, ◌>>◌, fault}

abbrev pub io_buf_size : ℕ
io_buf_size = 8192

abbrev pub max_epoll_events : ℕ
max_epoll_events = 1024

abbrev pub max_wmem_size : ℕ
max_wmem_size = 16384

-- A mask of epoll: the bits EPOLLIN and EPOLLOUT are the only ones in use.
pub record Events : Type 0 where
  pub epollin : Bool
  pub epollout : Bool

abbrev pub no_events : Events
no_events = record { epollin = false; epollout = false }

abbrev pub readable : Events
readable = record { epollin = true; epollout = false }

abbrev pub writable : Events
writable = record { epollin = false; epollout = true }

abbrev pub either : Events → Events → Events
either a b = record { epollin = a.epollin || b.epollin; epollout = a.epollout || b.epollout }

-- `a & ~b`.
abbrev pub without : Events → Events → Events
without a b = record {
  epollin = a.epollin && not b.epollin;
  epollout = a.epollout && not b.epollout;
}

abbrev pub is_none : Events → Bool
is_none e = not (e.epollin || e.epollout)

pub record Pack : Type 0 where
  pub nheader : ℕ
  pub len_offset : ℕ

-- io_write_queue_t: `text` is the allocated copy, whose size is `len`.
pub record Chunk : Type 0 where
  pub text : List ℕ
  pub offset : ℕ

-- io_buf_t; callbacks are named by their addresses. `buf` is NULL or has IO_BUF_SIZE cells.
pub record Io : Type 0 where
  pub fd : ℕ
  pub buf : Option (ℕ → ℕ)
  pub len : ℕ
  pub head : ℕ
  pub tail : ℕ
  pub on_accept : Ptr
  pub on_read : Ptr
  pub on_write : Ptr
  pub on_close : Ptr
  pub arg : Ptr
  pub events : Events
  pub what : Events
  pub is_accept : Bool
  pub pack : Pack
  pub has_packer : Bool
  pub write_queue : List Chunk
  pub wmem_max_size : ℕ
  pub wmem_size : ℕ

-- The calls of epoll_ctl and close, with the descriptor and the mask.
pub data Call : Type 0 where
  ctl_add : ℕ → Events → Call
  ctl_mod : ℕ → Events → Call
  ctl_del : ℕ → Call
  closed : ℕ → Call

-- The table of the loop, and logs that the program does not keep: what the kernel was asked, what
-- it took for each descriptor, and how many answers it has given.
pub record World (A : Type 0) : Type 0 where
  pub ios : Ptr → Io
  pub calls : List Call
  pub wire : ℕ → List ℕ
  pub tick : ℕ
  pub app : A

-- What is left by `memset(io, 0, sizeof(io_buf_t))`.
abbrev pub cleared_io : Io
cleared_io = record {
  fd = 0;
  buf = none;
  len = 0;
  head = 0;
  tail = 0;
  on_accept = null;
  on_read = null;
  on_write = null;
  on_close = null;
  arg = null;
  events = no_events;
  what = no_events;
  is_accept = false;
  pack = record { nheader = 0; len_offset = 0 };
  has_packer = false;
  write_queue = [];
  wmem_max_size = 0;
  wmem_size = 0;
}

module _ {A : Type 0} where
  abbrev pub put_io : Ptr → Io → World A → World A
  put_io p io w = record w { ios = update w.ios p io }

  abbrev pub note : Call → World A → World A
  note c w = record w { calls = w.calls ++ c ∷ [] }

  pub io_add_packer : Ptr → ℕ → ℕ → World A → World A
  io_add_packer p nheader body_offset w =
      put_io p
        (record (w.ios p) {
          pack = record { nheader = nheader; len_offset = body_offset };
          has_packer = true;
        })
        w

  -- `allocated` says whether malloc succeeds; the new buffer's cells are `fresh`.
  pub eloop_set_event : Bool → (ℕ → ℕ) → Ptr → ℕ → Ptr → World A → World A
  eloop_set_event allocated fresh p fd arg w =
      let io = w.ios p in
      let buf' : Option (ℕ → ℕ) = elim io.buf [
        | some cells ↦ some cells
        | none ↦ if allocated then some fresh else none
      ] in
      put_io p (record io { fd = fd; arg = arg; buf = buf'; wmem_max_size = max_wmem_size }) w

  -- The write queue is freed node by node, then the record is cleared. Without the iterator over
  -- the queue, which malloc may refuse, the loop reads through NULL.
  pub eloop_reset_io : Bool → Ptr → Cmd (World A) (Unit {0})
  eloop_reset_io iterates p w =
      if iterates then done tt (note (closed (w.ios p).fd) (put_io p cleared_io w)) else fault

  pub eloop_add_event : Ptr → Events → World A → World A
  eloop_add_event p events w =
      let io = w.ios p in
      let all = either io.events events in
      let asked = if is_none io.events then ctl_add io.fd all else ctl_mod io.fd all in
      put_io p (record io { events = all }) (note asked w)

  pub eloop_del_event : Ptr → Events → World A → World A
  eloop_del_event p events w =
      let io = w.ios p in
      let left = without io.events events in
      let asked = if is_none left then ctl_del io.fd else ctl_mod io.fd left in
      put_io p (record io { events = left }) (note asked w)

  pub eloop_setcb_accept : Ptr → Ptr → World A → World A
  eloop_setcb_accept p on_accept w =
      put_io p (record (w.ios p) { on_accept = on_accept; is_accept = true }) w

  pub eloop_setcb_read : Ptr → Ptr → World A → World A
  eloop_setcb_read p on_read w = put_io p (record (w.ios p) { on_read = on_read }) w

  pub eloop_setcb_write : Ptr → Ptr → World A → World A
  eloop_setcb_write p on_write w = put_io p (record (w.ios p) { on_write = on_write }) w

  pub eloop_setcb_close : Ptr → Ptr → World A → World A
  eloop_setcb_close p on_close w = put_io p (record (w.ios p) { on_close = on_close }) w

  -- `loop->ios[fd]`, with the loop as the argument of the connection; there are MAX_EPOLL_EVENTS.
  pub eloop_addlistener : Bool → (ℕ → ℕ) → Ptr → ℕ → Ptr → Cmd (World A) ℤ
  unfolding eloop_set_event eloop_setcb_accept eloop_add_event
  eloop_addlistener allocated fresh loop fd cb = if leb max_epoll_events fd then crash else do
    modify (eloop_set_event allocated fresh fd fd loop)
    modify (eloop_setcb_accept fd cb)
    modify (eloop_add_event fd readable)
    pure (pos 0)
