-- ===== src/Reactor/Turn.antt =====
-- reactor/eloop_event.c: eloop_run. The answers of epoll_wait are given as a sequence: none where it
-- fails, otherwise what is ready, with no connection where the pointer is NULL. `iterates` is
-- whether malloc gives every iterator of the turns, and `expire` is expire_timer on the timers of the loop.
use easymesh.Prelude.{List, ℕ, ◌∷◌, none, Option, some, [], Bool}
use easymesh.Prelude.Run.{Ptr, Cmd, modify, pure, ◌>>◌}
use easymesh.Reactor.{Events, World, put_io}
use easymesh.Reactor.Read.{Receiver, eloop_handle_data}
use easymesh.Reactor.Write.{Sender}

abbrev pub Ready : Type 0
Ready = List (Option Ptr × Events)

module _ {A : Type 0} where
  module _ (call : Ptr → Ptr → Cmd (World A) (Unit {0})) (iterates : Bool) (sender : Sender)
      (receiver : Receiver) (fuel : ℕ) (expire : Cmd (World A) (Unit {0})) where
    pub serve : Ready → Cmd (World A) (Unit {0})
    serve [] = pure tt
    serve ((none, e) ∷ rest) = serve rest
    serve ((some p, e) ∷ rest) = do
      modify (λ w. put_io p (record (w.ios p) { what = e }) w)
      eloop_handle_data call iterates sender receiver fuel p
      serve rest

    pub eloop_run : List (Option Ready) → Cmd (World A) (Unit {0})
    unfolding serve
    eloop_run [] = pure tt
    eloop_run (none ∷ later) = eloop_run later
    eloop_run (some ready ∷ later) = do serve ready; expire; eloop_run later
