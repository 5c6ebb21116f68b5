-- ===== src/Reactor/Read/Deliver.antt =====
-- reactor/eloop_event.c, __read_cb: the callback runs once for each packet, in order.
use easymesh.Reactor.Read.Inlet.{
  inlet, packet_size_of, IsFramed, Inlet, IsFramed-long, IsFramed-rest,
}
use mathlib.Core.Path.{subst}
use mathlib.Core.List.{append-nil, append_assoc}
use easymesh.Prelude.{
  ℕ, List, ◌-◌, ◌+◌, ◌≤◌, arith, ◌<◌, [], suc, true, ap, some, ltb, ◌≡◌, length-append, refl, ◌++◌,
  ◌∷◌, length, sym, le→leb, ◌≢◌, false, ◌∙◌, ◌==◌, ==_refl, zero,
}
use easymesh.Prelude.Run.{done, Ptr, Cmd, Returns, null, ◌>>◌, Returns-bind, returns, Returns-mono}
use easymesh.Reactor.{World, put_io, io_buf_size}
use easymesh.Reactor.Read.{consume, on_read, take_packet, read_loop, read_cb}
use easymesh.Reactor.Read.Frames.{
  window, length-window, concat, stated, IsPacket, IsPartial, headless, short, window-front,
}

module _ {A : Type 0} (seen : A → List (List ℕ)) (call : Ptr → Ptr → Cmd (World A) (Unit {0})) where
  -- A callback that takes the packet at the head, and leaves the way in to the loop. `seen` is
  -- the record that it keeps.
  abbrev pub Delivers : Ptr → Type 0
  Delivers p =
      (w : World A) (cells : ℕ → ℕ) (packet : List ℕ)
      → (w.ios p).buf ≡ some cells
      → IsPacket (w.ios p).pack packet
      → (w.ios p).pack.len_offset + 4 ≤ length packet
      → window cells (w.ios p).head (length packet) ≡ packet
      → Returns
          (λ _ g. (inlet (g.ios p) ≡ inlet (w.ios p)) × (seen g.app ≡ seen w.app ++ packet ∷ []))
          (call (w.ios p).on_read p w)

  -- What is left of the connection and recorded after the packets.
  pub record Delivered (p : Ptr) (w : World A) (packets : List (List ℕ)) (g : World A)
      : Type 0 where
    pub taken : inlet (g.ios p) ≡ record (inlet (w.ios p)) {
      head = (w.ios p).head + length (concat packets);
      len = (w.ios p).len - length (concat packets);
    }
    pub recorded : seen g.app ≡ seen w.app ++ packets

  read_loop-partial :
      (p : Ptr) (k : ℕ) (w : World A) (cells : ℕ → ℕ) (left : List ℕ)
      → (w.ios p).buf ≡ some cells
      → (w.ios p).head + (w.ios p).len ≤ io_buf_size
      → (w.ios p).pack.len_offset + 4 ≤ (w.ios p).pack.nheader
      → window cells (w.ios p).head (w.ios p).len ≡ left
      → IsPartial (w.ios p).pack left
      → read_loop call (suc k) p (w.ios p).head (w.ios p).len w ≡ done tt w
  unfolding read_loop take_packet
  read_loop-partial p k w cells left b fits o e (headless h) =
      let size = length-window cells (w.ios p).head (w.ios p).len in
      let few : ltb (w.ios p).len (w.ios p).pack.nheader ≡ true =
        ground (arith, size, ap length e) in
      rw few refl
  read_loop-partial p k w cells left b fits o e (short l s f) =
      let size : (w.ios p).len ≡ length left =
        sym (length-window cells (w.ios p).head (w.ios p).len) ∙ ap length e in
      let enough : ltb (w.ios p).len (w.ios p).pack.nheader ≡ false = ground (arith, size) in
      let few : ltb (w.ios p).len (stated (w.ios p).pack left + (w.ios p).pack.nheader) ≡ true =
        ground (arith, size) in
      rw
        (
          enough,
          packet_size_of (w.ios p) left [] b (e ∙ sym (append-nil left)) (omega arith) fits f,
          few,
        )
        refl

  -- The connection behind a packet.
  abbrev advanced : Ptr → ℕ → World A → World A
  advanced p size g =
      put_io p (record (g.ios p) { head = (g.ios p).head + size; len = (g.ios p).len - size }) g

  consume-done :
      (p : Ptr) (size : ℕ) (g : World A)
      → size ≤ (g.ios p).len
      → consume p size g ≡ done tt (advanced p size g)
  unfolding consume
  consume-done p size g h = rw (le→leb size (g.ios p).len h) refl

  -- The loop at a packet: the callback, then the loop behind it.
  read_loop-packet :
      (p : Ptr) (k : ℕ) (w : World A) (cells : ℕ → ℕ) (packet back : List ℕ)
      → (w.ios p).buf ≡ some cells
      → (w.ios p).head + (w.ios p).len ≤ io_buf_size
      → (w.ios p).pack.len_offset + 4 ≤ (w.ios p).pack.nheader
      → (w.ios p).on_read ≢ null
      → IsPacket (w.ios p).pack packet
      → window cells (w.ios p).head (w.ios p).len ≡ packet ++ back
      → read_loop call (suc k) p (w.ios p).head (w.ios p).len w
        ≡ (do
          call (w.ios p).on_read p
          consume p (length packet)
          read_loop call k p ((w.ios p).head + length packet) ((w.ios p).len - length packet))
            w
  unfolding read_loop take_packet on_read
  read_loop-packet p k w cells packet back b fits o there v e =
      let size : (w.ios p).len ≡ length packet + length back =
        sym (length-window cells (w.ios p).head (w.ios p).len)
        ∙ ap length e
        ∙ length-append packet back in
      let enough : ltb (w.ios p).len (w.ios p).pack.nheader ≡ false =
        ground (arith, size, v.whole) in
      let whole : ltb (w.ios p).len (length packet) ≡ false = ground (arith, size) in
      let present : ((w.ios p).on_read == null) ≡ false = ground arith in
      rw
        (
          enough,
          packet_size_of (w.ios p) packet back b e (omega (arith, v.whole)) fits
              (omega (arith, v.whole, v.small)),
          ← v.whole,
          whole,
          present,
        )
        refl

  -- The way in behind a packet, where the callback left it alone.
  advanced-inlet :
      (p : Ptr) (size : ℕ) (w g : World A)
      → inlet (g.ios p) ≡ inlet (w.ios p)
      → inlet ((advanced p size g).ios p)
        ≡ record (inlet (w.ios p)) { head = (w.ios p).head + size; len = (w.ios p).len - size }
  advanced-inlet p size w g same =
      rw (==_refl p)
        (ap (λ (i : Inlet). record i { head = i.head + size; len = i.len - size }) same)

  Delivered-more :
      (p : Ptr) (packet : List ℕ) (packets : List (List ℕ)) (w g f : World A)
      → inlet (g.ios p) ≡ record (inlet (w.ios p)) {
        head = (w.ios p).head + length packet;
        len = (w.ios p).len - length packet;
      }
      → seen g.app ≡ seen w.app ++ packet ∷ []
      → Delivered p g packets f
      → Delivered p w (packet ∷ packets) f
  Delivered-more p packet packets w g f at wrote x = record {
    taken =
        x.taken
        ∙ ap
            (λ (i : Inlet). record i {
              head = i.head + length (concat packets);
              len = i.len - length (concat packets);
            })
            at
        ∙ ground (arith, length-append packet (concat packets));
    recorded =
        x.recorded ∙ ap (λ l. l ++ packets) wrote ∙ append_assoc (seen w.app) (packet ∷ []) packets;
  }

  read_loop-Delivered :
      (p : Ptr) (packets : List (List ℕ)) (k : ℕ) (w : World A) (left : List ℕ)
      → Delivers p
      → IsFramed (inlet (w.ios p)) packets left
      → length packets ≤ k
      → Returns
          (λ _ g. Delivered p w packets g)
          (read_loop call (suc k) p (w.ios p).head (w.ios p).len w)
  read_loop-Delivered p [] k w left delivers v b =
      rw (read_loop-partial p k w v.cells left v.buffer v.fits v.header v.bytes v.left_ok)
        (returns (record { taken = ground arith; recorded = sym (append-nil _) }))
  read_loop-Delivered p (packet ∷ packets) zero w left delivers v b = absurd (omega arith)
  read_loop-Delivered p (packet ∷ packets) (suc k) w left delivers v b =
      let split = v.bytes ∙ append_assoc packet (concat packets) left in
      rw
        (read_loop-packet p (suc k) w v.cells packet (concat packets ++ left) v.buffer v.fits
          v.header v.reader v.packets_ok.0 split)
        (Returns-bind
          (delivers w v.cells packet v.buffer v.packets_ok.0
            (omega (arith, v.header, v.packets_ok.0.whole))
            (window-front v.cells (w.ios p).head (w.ios p).len packet (concat packets ++ left)
              split))
          λ u g (same, wrote).
            let g' = advanced p (length packet) g in
            let at = advanced-inlet p (length packet) w g same in
            let fits : length packet ≤ (g.ios p).len = omega (
              arith,
              ap (λ (i : Inlet). i.len) same,
              IsFramed-long (inlet (w.ios p)) packet packets left v,
            ) in
            let ih =
              read_loop-Delivered p packets k g' left delivers
                (subst (λ i. IsFramed i packets left) (sym at)
                  (IsFramed-rest (inlet (w.ios p)) packet packets left v))
                (omega arith) in
            rw (consume-done p (length packet) g fits) (
              Returns-mono
                (subst
                  (λ (i : Inlet).
                    Returns (λ _ f. Delivered p g' packets f)
                      (read_loop call (suc k) p i.head i.len g'))
                  at ih)
                λ u f x. Delivered-more p packet packets w g' f at wrote x))

  -- Where the bytes in the buffer are some whole packets and a part of another, and the callback
  -- handles the packet at the head and leaves the way in alone, __read_cb with fuel above the
  -- number of packets returns. The callback has had exactly those packets, in order, and the
  -- buffer is left at the part.
  pub read_cb-Delivered :
      (p : Ptr) (packets : List (List ℕ)) (left : List ℕ) (fuel : ℕ) (w : World A)
      → Delivers p
      → IsFramed (inlet (w.ios p)) packets left
      → length packets < fuel
      → Returns (λ _ g. Delivered p w packets g) (read_cb call fuel p w)
  unfolding read_cb
  read_cb-Delivered p packets left zero w delivers v b = absurd (omega arith)
  read_cb-Delivered p packets left (suc k) w delivers v b =
      read_loop-Delivered p packets k w left delivers v (omega arith)
