-- ===== src/Reactor/Tests.antt =====
-- reactor: the theorems at an event loop with one connection.
use easymesh.Prelude.{
  List, some, arith, length, ◌∷◌, ◌≡◌, refl, true, none, ◌++◌, get_or, ◌∙◌, ℕ, ◌+◌, sym, [], Option,
  ap, false,
}
use easymesh.Prelude.Run.{Returns, Ptr, fault, returns, Cmd, done, out_of_fuel}
use easymesh.Prelude.Int.{pos}
use mathlib.Core.List.{append-nil}
use easymesh.Reactor.{
  Io, World, ctl_add, cleared_io, readable, max_wmem_size, eloop_add_event, writable,
}
use easymesh.Reactor.Interest.{eloop_del_event-eloop_add_event, IsWatched, waited}
use easymesh.Reactor.Write.{Sender, sent, again, io_write, io_enqueue, handle_write}
use easymesh.Reactor.Write.Stream.{IsQueue, Written, handle_write-Written}
use easymesh.Reactor.Write.Enqueue.{Enqueued, io_enqueue-Enqueued}
use easymesh.Reactor.Write.Accept.{Accepted, io_write-Accepted}
use easymesh.Reactor.Write.Again.{Shifted, plenty, io_write-again}
use easymesh.Reactor.Write.Drain.{rounds, Drained, rounds-Drained, IsLive}
use easymesh.Reactor.Read.{word_at, read_cb}
use easymesh.Reactor.Read.Frames.{window, headless, word-stated}
use easymesh.Reactor.Read.Inlet.{inlet, IsFramed}
use easymesh.Reactor.Read.Deliver.{Delivered, Delivers, read_cb-Delivered}
use easymesh.Reactor.Read.Stuck.{read_cb-stuck}

-- Two packets of a header of four bytes, and a byte of a third.
abbrev wire_bytes : List ℕ
wire_bytes = 1 ∷ 0 ∷ 0 ∷ 0 ∷ 9 ∷ 0 ∷ 0 ∷ 0 ∷ 0 ∷ 7 ∷ []

abbrev connection : Io
connection = record cleared_io {
  fd = 5;
  buf = some (λ i. get_or wire_bytes i 0);
  len = 10;
  tail = 10;
  on_read = 3;
  events = readable;
  pack = record { nheader = 4; len_offset = 0 };
  has_packer = true;
  write_queue =
      record { text = 1 ∷ 2 ∷ 3 ∷ []; offset = 1 } ∷ record { text = 4 ∷ []; offset = 0 } ∷ [];
  wmem_max_size = max_wmem_size;
  wmem_size = 4;
}

abbrev looped : World (List (List ℕ))
looped = record {
  ios = λ _. connection;
  calls = ctl_add 5 readable ∷ [];
  wire = λ _. [];
  tick = 0;
  app = [];
}

abbrev idle : World (List (List ℕ))
idle = record looped { ios = λ _. record connection { write_queue = []; wmem_size = 0 } }

-- A socket that takes a byte at a time, and one that takes nothing.
abbrev slow : Sender
slow _ _ _ = sent 1

abbrev full : Sender
full _ _ _ = again

abbrev queue_ok : IsQueue connection
queue_ok = record { sized = refl; started = (omega arith, (omega arith, tt)) }

handle_write-Written_example :
    Returns (λ _ g. Written 5 looped g) (handle_write true slow 5 looped)
    × (handle_write false slow 5 looped ≡ fault)
handle_write-Written_example = handle_write-Written slow 5 looped queue_ok

io_enqueue-Enqueued_example :
    Returns
      (Enqueued 5 looped (8 ∷ 9 ∷ []))
      (io_enqueue plenty 5 (some (record { block = 7 ∷ 8 ∷ 9 ∷ []; at = pos 1 })) 2 looped)
io_enqueue-Enqueued_example =
    io_enqueue-Enqueued plenty 5 (7 ∷ 8 ∷ 9 ∷ []) 1 2 looped (omega arith) (omega arith)

io_write-Accepted_example :
    Returns (Accepted 5 idle (8 ∷ 9 ∷ [])) (io_write slow plenty 5 (7 ∷ 8 ∷ 9 ∷ []) 1 2 idle)
io_write-Accepted_example =
    io_write-Accepted slow plenty 5 (7 ∷ 8 ∷ 9 ∷ []) 1 2 idle (λ _. ground arith) (omega arith)
      (omega arith) (record { sized = refl; started = tt })

io_write-again_example :
    Returns (Shifted 5 idle 7 (8 ∷ 9 ∷ [])) (io_write full plenty 5 (7 ∷ 8 ∷ 9 ∷ []) 1 2 idle)
    × (io_write full plenty 5 (7 ∷ 8 ∷ 9 ∷ []) 0 2 idle ≡ fault)
io_write-again_example =
    io_write-again full 5 (7 ∷ 8 ∷ 9 ∷ []) 0 2 idle refl (omega arith) (omega arith) (omega arith)
      (λ _. refl)

slow-IsLive : IsLive slow
slow-IsLive t fd bytes h = (0, refl)

rounds-Drained_example : Returns (λ _ g. Drained 5 looped g) (rounds slow 5 4 looped)
rounds-Drained_example = rounds-Drained slow 5 3 looped slow-IsLive queue_ok (omega arith)

eloop_del_event-eloop_add_event_example :
    IsWatched 5 (eloop_add_event 5 writable looped)
    × ((eloop_add_event 5 writable looped).ios 5).events.epollout ≡ true
    × IsWatched 5 (waited 5 looped)
    × ((waited 5 looped).ios 5 ≡ looped.ios 5)
eloop_del_event-eloop_add_event_example = eloop_del_event-eloop_add_event 5 looped refl refl

-- A callback that keeps the packet at the head.
abbrev kept : Io → Option (ℕ → ℕ) → List (List ℕ) → List (List ℕ)
kept io none l = l
kept io (some cells) l =
    l ++ window cells io.head (word_at cells (io.head + io.pack.len_offset) + io.pack.nheader) ∷ []

abbrev keep : Ptr → Ptr → Cmd (World (List (List ℕ))) (Unit {0})
keep f p w = done tt (record w { app = kept (w.ios p) (w.ios p).buf w.app })

keep-Delivers : Delivers (λ l. l) keep 5
keep-Delivers w cells packet b v o e =
    let io = w.ios 5 in
    let word : word_at cells (io.head + io.pack.len_offset) + io.pack.nheader ≡ length packet =
      omega (
        arith,
        word-stated io.pack cells io.head (length packet) packet [] (e ∙ sym (append-nil packet)) o,
        v.whole,
      ) in
    let read : kept io io.buf w.app ≡ w.app ++ packet ∷ [] =
      ap (λ o. kept io o w.app) b
      ∙ ap (λ n. w.app ++ window cells io.head n ∷ []) word
      ∙ ap (λ l. w.app ++ l ∷ []) e in
    returns (refl, read)

connection-IsFramed :
    IsFramed (inlet connection) ((1 ∷ 0 ∷ 0 ∷ 0 ∷ 9 ∷ []) ∷ (0 ∷ 0 ∷ 0 ∷ 0 ∷ []) ∷ []) (7 ∷ [])
connection-IsFramed = record {
  cells = λ i. get_or wire_bytes i 0;
  buffer = refl;
  fits = omega arith;
  header = omega arith;
  reader = λ e. absurd (ground arith);
  packets_ok = (
    record { whole = refl; small = omega arith },
    (record { whole = refl; small = omega arith }, tt),
  );
  bytes = refl;
  left_ok = headless (omega arith);
}

read_cb-Delivered_example :
    Returns
      (λ _ g.
        Delivered (λ l. l) keep 5 looped ((1 ∷ 0 ∷ 0 ∷ 0 ∷ 9 ∷ []) ∷ (0 ∷ 0 ∷ 0 ∷ 0 ∷ []) ∷ []) g)
      (read_cb keep 3 5 looped)
read_cb-Delivered_example =
    read_cb-Delivered (λ l. l) keep 5 ((1 ∷ 0 ∷ 0 ∷ 0 ∷ 9 ∷ []) ∷ (0 ∷ 0 ∷ 0 ∷ 0 ∷ []) ∷ [])
      (7 ∷ []) 3 looped keep-Delivers connection-IsFramed (omega arith)

abbrev calm : Ptr → Ptr → Cmd (World (List (List ℕ))) (Unit {0})
calm f p w = done tt w

-- A header that states a body of -4 bytes.
abbrev hostile : World (List (List ℕ))
hostile = record looped {
  ios = λ _. record connection {
    buf = some (λ i. get_or (252 ∷ 255 ∷ 255 ∷ 255 ∷ []) i 0);
    len = 4;
    tail = 4;
  };
}

read_cb-stuck_example : read_cb calm 100 5 hostile ≡ out_of_fuel
read_cb-stuck_example =
    read_cb-stuck calm 5 100 hostile (λ w. returns refl)
      (record {
        cells = λ i. get_or (252 ∷ 255 ∷ 255 ∷ 255 ∷ []) i 0;
        buffer = refl;
        header = omega arith;
        positive = omega arith;
        small = omega arith;
        inside = omega arith;
        reader = λ e. absurd (ground arith);
        word = refl;
      })
