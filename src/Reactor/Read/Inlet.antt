-- ===== src/Reactor/Read/Inlet.antt =====
-- reactor/eloop_event.c, __read_cb: the part of a connection that its way in works on.
use mathlib.Core.List.{append_assoc}
use easymesh.Prelude.{
  Option, ℕ, List, ◌-◌, ◌+◌, ◌≤◌, arith, ◌<◌, leb, true, ap, some, ltb, ◌≡◌, length-append, refl,
  ◌++◌, ◌∷◌, length, ◌≢◌, ◌∙◌,
}
use easymesh.Prelude.Run.{Ptr, null}
use easymesh.Prelude.Int.{pos}
use easymesh.Reactor.{Io, Pack, io_buf_size}
use easymesh.Reactor.Read.{packet_size}
use easymesh.Reactor.Read.Frames.{
  window, length-window, concat, stated, IsPartial, word-stated, ArePackets, window-back,
}

-- The part of a connection that belongs to its way in.
pub record Inlet : Type 0 where
  pub cells : Option (ℕ → ℕ)
  pub head : ℕ
  pub len : ℕ
  pub tail : ℕ
  pub pack : Pack
  pub on_read : Ptr

abbrev pub inlet : Io → Inlet
inlet io = record {
  cells = io.buf;
  head = io.head;
  len = io.len;
  tail = io.tail;
  pack = io.pack;
  on_read = io.on_read;
}

pub packet_size_of :
    (io : Io) {cells : ℕ → ℕ} (front back : List ℕ)
    → io.buf ≡ some cells
    → window cells io.head io.len ≡ front ++ back
    → io.pack.len_offset + 4 ≤ length front
    → io.head + io.len ≤ io_buf_size
    → stated io.pack front + io.pack.nheader < 2147483648
    → packet_size io io.head ≡ some (pos (stated io.pack front + io.pack.nheader))
unfolding packet_size
packet_size_of io {cells} front back b e o fits small =
    let sized : io.len ≡ length front + length back =
      omega (arith, length-window cells io.head io.len, length-append front back, ap length e) in
    let inside : leb (io.head + io.pack.len_offset + 4) io_buf_size ≡ true = ground arith in
    let positive : ltb (stated io.pack front) 2147483648 ≡ true = ground arith in
    let fine : ltb (stated io.pack front + io.pack.nheader) 2147483648 ≡ true = ground arith in
    rw (b, inside, word-stated io.pack cells io.head io.len front back e o, positive, fine) refl

-- What the loop needs to know of the way in.
pub record IsFramed (io : Inlet) (packets : List (List ℕ)) (left : List ℕ) : Type 0 where
  pub cells : ℕ → ℕ
  pub buffer : io.cells ≡ some cells
  pub fits : io.head + io.len ≤ io_buf_size
  pub header : io.pack.len_offset + 4 ≤ io.pack.nheader
  pub reader : io.on_read ≢ null
  pub packets_ok : ArePackets io.pack packets
  pub bytes : window cells io.head io.len ≡ concat packets ++ left
  pub left_ok : IsPartial io.pack left

pub IsFramed-long :
    (io : Inlet) (packet : List ℕ) (packets : List (List ℕ)) (left : List ℕ)
    → IsFramed io (packet ∷ packets) left
    → length packet ≤ io.len
IsFramed-long io packet packets left v = omega (
  arith,
  length-window v.cells io.head io.len,
  ap length v.bytes,
  length-append (packet ++ concat packets) left,
  length-append packet (concat packets),
)

pub IsFramed-rest :
    (io : Inlet) (packet : List ℕ) (packets : List (List ℕ)) (left : List ℕ)
    → IsFramed io (packet ∷ packets) left
    → IsFramed
        (record io { head = io.head + length packet; len = io.len - length packet })
        packets
        left
IsFramed-rest io packet packets left v = record {
  cells = v.cells;
  buffer = v.buffer;
  fits = omega (arith, v.fits, IsFramed-long io packet packets left v);
  header = v.header;
  reader = v.reader;
  packets_ok = v.packets_ok.1;
  bytes =
      window-back v.cells io.head io.len packet (concat packets ++ left)
        (v.bytes ∙ append_assoc packet (concat packets) left);
  left_ok = v.left_ok;
}
