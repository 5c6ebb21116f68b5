-- ===== src/Mbus/BusMsg/Tests.antt =====
-- mbus/bus_msg.c: the theorems at two clients, A and B.
use easymesh.Prelude.{◌∷◌, true, [], List, refl, arith, some, ◌≡◌, ℕ}
use easymesh.Prelude.Run.{done}
use easymesh.Prelude.Int.{pos}
use easymesh.Mbus.{Name}
use easymesh.Mbus.BusMsg.{Peer, Memory, send_to, mbus_register_object, mbus_sendmsg_private}
use easymesh.Mbus.BusMsg.Compose.{IsPlenty}
use easymesh.Mbus.BusMsg.Login.{LogsIn, mbus_register_object-login}
use easymesh.Mbus.BusMsg.Private.{Relayed, mbus_sendmsg_private-Relayed}

abbrev alice : Name
alice = 65 ∷ []

abbrev bob : Name
bob = 66 ∷ []

abbrev memory : Memory
memory = record {
  root = true;
  item = λ _. true;
  buffer = true;
  grown = λ _. true;
  junk = λ _. 170;
  message = true;
  parsed = true;
  parsed_item = λ _. true;
}

abbrev memory_ok : IsPlenty memory
memory_ok = record {
  root = refl;
  item = refl;
  buffer = refl;
  grown = λ _. refl;
  message = refl;
  parsed = refl;
  parsed_item = refl;
}

abbrev quiet : Peer
quiet = record { outbox = []; notices = [] }

mbus_register_object-login_example :
    (raw : List ℕ) × (mbus_register_object memory 11 (some alice) quiet
      ≡ done (pos 0) (send_to 11 raw quiet))
    × LogsIn alice raw
mbus_register_object-login_example =
    mbus_register_object-login memory 11 alice quiet memory_ok (λ e. absurd (omega (arith, e)))
      (λ e. absurd (ground arith)) (omega arith) (omega arith, tt)

mbus_sendmsg_private-Relayed_example :
    (raw : List ℕ) × (mbus_sendmsg_private memory 11
        (some alice)
        (some bob)
        (some (7 ∷ 8 ∷ []))
        2
        quiet
      ≡ done (pos 0) (send_to 11 raw quiet))
    × Relayed alice bob (7 ∷ 8 ∷ []) (omega arith) (omega arith) raw
mbus_sendmsg_private-Relayed_example =
    mbus_sendmsg_private-Relayed alice bob (7 ∷ 8 ∷ []) (omega arith) (omega arith) memory 11 quiet
      memory_ok (λ e. absurd (omega (arith, e))) (omega arith, tt)
