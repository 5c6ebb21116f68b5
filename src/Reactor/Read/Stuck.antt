-- ===== src/Reactor/Read/Stuck.antt =====
-- reactor/eloop_event.c, __read_cb: a header that keeps the loop going for ever.
use mathlib.Core.Path.{subst}
use easymesh.Prelude.Int.{pos}
use easymesh.Prelude.Run.{Ptr, null, out_of_fuel, done, Returns, Cmd, Returns-inv}
use easymesh.Prelude.{
  ◌+◌, ◌-◌, some, ◌<◌, arith, ℕ, suc, ◌≢◌, true, zero, ◌≡◌, ◌≤◌, refl, leb, ltb, le→ltb, false,
  le→leb, ◌==◌, ==_refl, ◌∙◌, ap, sym,
}
use easymesh.Reactor.{Io, World, put_io, io_buf_size}
use easymesh.Reactor.Read.{word_at, packet_size, consume, on_read, take_packet, read_loop, read_cb}
use easymesh.Reactor.Read.Inlet.{Inlet, inlet}

-- The way in has a header whose body length is the header's own, negated.
pub record IsLooping (io : Inlet) : Type 0 where
  pub cells : ℕ → ℕ
  pub buffer : io.cells ≡ some cells
  pub header : io.pack.nheader ≤ io.len
  pub positive : 0 < io.pack.nheader
  pub small : io.pack.nheader ≤ 2147483648
  pub inside : io.head + io.pack.len_offset + 4 ≤ io_buf_size
  pub reader : io.on_read ≢ null
  pub word : word_at cells (io.head + io.pack.len_offset) + io.pack.nheader ≡ 4294967296

packet_size-zero : (io : Io) → IsLooping (inlet io) → packet_size io io.head ≡ some (pos 0)
unfolding packet_size
packet_size-zero io v =
    let word = word_at v.cells (io.head + io.pack.len_offset) in
    let inside : leb (io.head + io.pack.len_offset + 4) io_buf_size ≡ true = le→leb _ _ v.inside in
    let sign : ltb word 2147483648 ≡ false = le→ltb _ _ (omega (arith, v.word, v.small)) in
    let less : leb (suc (4294967295 - word)) io.pack.nheader ≡ true =
      le→leb _ _ (omega (arith, v.word, v.positive)) in
    let zero' : io.pack.nheader - suc (4294967295 - word) ≡ 0 = omega (arith, v.word, v.positive) in
    rw (v.buffer, inside, sign, less, zero') refl

module _ {A : Type 0} (call : Ptr → Ptr → Cmd (World A) (Unit {0})) where
  -- A callback that returns and leaves the way in to the loop.
  abbrev pub IsCalm : Ptr → Type 0
  IsCalm p =
      (w : World A)
      → Returns (λ _ g. inlet (g.ios p) ≡ inlet (w.ios p)) (call (w.ios p).on_read p w)

  abbrev unmoved : Ptr → World A → World A
  unmoved p w = put_io p (record (w.ios p) { head = (w.ios p).head + 0; len = (w.ios p).len - 0 }) w

  consume_nothing :
      (p : Ptr) (w : World A)
      → consume p 0 w
        ≡ done tt
            (put_io p (record (w.ios p) { head = (w.ios p).head + 0; len = (w.ios p).len - 0 }) w)
  unfolding consume
  consume_nothing p w = let e : leb 0 (w.ios p).len ≡ true = ground arith in rw e refl

  read_loop_again :
      (p : Ptr) (k : ℕ) (w g : World A)
      → IsCalm p
      → IsLooping (inlet (w.ios p))
      → inlet (g.ios p) ≡ inlet (w.ios p)
      → ((g' : World A)
          → IsLooping (inlet (g'.ios p))
          → read_loop call k p (g'.ios p).head (g'.ios p).len g' ≡ out_of_fuel)
      → read_loop call k p ((w.ios p).head + 0) ((w.ios p).len - 0) (unmoved p g) ≡ out_of_fuel
  read_loop_again p k w g calm v same stuck =
      let g' = unmoved p g in
      let at : inlet (g'.ios p)
          ≡ record (inlet (w.ios p)) { head = (w.ios p).head + 0; len = (w.ios p).len - 0 } =
        rw (==_refl p) (ap (λ (i : Inlet). record i { head = i.head + 0; len = i.len - 0 }) same) in
      let still : record (inlet (w.ios p)) { head = (w.ios p).head + 0; len = (w.ios p).len - 0 }
          ≡ inlet (w.ios p) =
        ground arith in
      subst (λ (i : Inlet). read_loop call k p i.head i.len g' ≡ out_of_fuel) at
        (stuck g' (subst IsLooping (sym (at ∙ still)) v))

  read_loop-stuck :
      (p : Ptr) (k : ℕ) (w : World A)
      → IsCalm p
      → IsLooping (inlet (w.ios p))
      → read_loop call k p (w.ios p).head (w.ios p).len w ≡ out_of_fuel
  unfolding read_loop take_packet on_read
  read_loop-stuck p zero w calm v = refl
  read_loop-stuck p (suc k) w calm v =
      let enough : ltb (w.ios p).len (w.ios p).pack.nheader ≡ false = le→ltb _ _ v.header in
      let not_less : ltb (w.ios p).len 0 ≡ false = le→ltb _ _ (omega arith) in
      let present : ((w.ios p).on_read == null) ≡ false = ground (arith, v.reader) in
      let (u, g, ran, same) = Returns-inv (calm w) in
      rw (enough, packet_size-zero (w.ios p) v, not_less, present, ran, consume_nothing p g)
        (read_loop_again p k w g calm v same (λ g' v'. read_loop-stuck p k g' calm v'))

  -- Where the buffer holds a header that states minus its own length as the length of the body,
  -- and the callback returns and leaves the way in alone, __read_cb does not end within any fuel.
  pub read_cb-stuck :
      (p : Ptr) (fuel : ℕ) (w : World A)
      → IsCalm p
      → IsLooping (inlet (w.ios p))
      → read_cb call fuel p w ≡ out_of_fuel
  unfolding read_cb
  read_cb-stuck p fuel w calm v = read_loop-stuck p fuel w calm v
