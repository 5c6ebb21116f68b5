-- ===== src/Mbus/Tests.antt =====
-- mbus: the theorems at a daemon with two clients and one group.
use easymesh.Prelude.Int.{pos}
use easymesh.Mbus.Daemon.Forward.{posted, connections, forward_msg_in_group-posted}
use easymesh.Mbus.Daemon.Sessions.{handle_private_msg-fault, login-Distinct, handle_close-gone}
use easymesh.Mbus.Tables.{DistinctUsers, Nowhere, client_names, leave_group_by_name-join_group}
use easymesh.Tlv.Encode.{encode_items}
use easymesh.Mbus.Names.{Distinct}
use easymesh.Mbus.GroupManager.{search_item, find_group, join_group, leave_group_by_name}
use easymesh.Mbus.Daemon.{
  Memory, client_at, handle_private_msg, login, handle_close, forward_msg_in_group,
}
use easymesh.Mbus.UserManager.{find_client}
use easymesh.Tlv.Parse.Roundtrip.{PlainTlvs, PlainTlv}
use easymesh.Prelude.{
  ℕ, ◌∷◌, [], ◌<◌, if◌then◌else◌, zero, ◌==◌, false, arith, ◌≡◌, suc, refl, true, none, some, inr,
  length,
}
use easymesh.Prelude.Run.{null, Returns, fault, done}
use easymesh.Mbus.{Name, Client, Group, Bus, same_name}
use easymesh.Tlv.{Head, node, next, end, tlv}

abbrev alice : Name
alice = 65 ∷ []

abbrev bob : Name
bob = 66 ∷ []

abbrev room : Group
room = record { group_name = 82 ∷ []; users = alice ∷ [] }

abbrev first_client : Client
first_client = record { self = 1; name = alice; io = 11 }

abbrev second_client : Client
second_client = record { self = 2; name = bob; io = 12 }

abbrev daemon : Bus
daemon = record {
  g_clients = first_client ∷ second_client ∷ [];
  g_groups = room ∷ [];
  arg = λ io. if io == 11 then 1 else if io == 12 then 2 else null;
  outbox = [];
}

daemon-Distinct : Distinct (client_names daemon.g_clients)
unfolding Distinct search_item same_name
daemon-Distinct = (refl, (refl, tt))

daemon-DistinctUsers : DistinctUsers daemon.g_groups
unfolding Distinct search_item
daemon-DistinctUsers = ((refl, tt), tt)

room_found : find_group (82 ∷ []) daemon.g_groups ≡ some room
unfolding find_group same_name
room_found = refl

bob_absent : search_item room.users bob ≡ false
unfolding search_item same_name
bob_absent = refl

abbrev memory : Memory
memory = record {
  root = true;
  item = λ _. true;
  client = 3;
  group = true;
  node = true;
  iterator = true;
}

login-Distinct_example :
    Returns (λ _ g. Distinct (client_names g.g_clients)) (login memory 13 (67 ∷ []) daemon)
login-Distinct_example =
    login-Distinct memory 13 (67 ∷ []) daemon (omega arith) daemon-Distinct refl

bob_at : client_at (daemon.arg 12) daemon.g_clients ≡ some second_client
unfolding client_at
bob_at = refl

handle_close-gone_example :
    Returns
      (λ _ g.
        (find_client second_client.name g.g_clients ≡ none) × Nowhere second_client.name g.g_groups)
      (handle_close true 12 daemon)
    × (handle_close false 12 daemon ≡ fault)
handle_close-gone_example =
    handle_close-gone 12 daemon second_client (λ e. absurd (omega (arith, e))) bob_at
      daemon-Distinct daemon-DistinctUsers

-- 128 times the letter A.
abbrev repeat : ℕ → Name
repeat zero = []
repeat (suc n) = 65 ∷ repeat n

abbrev part : ℕ → Head
part type = record { type = type; type_len = 2; length = 2; obj_type = tlv; value = 65 ∷ 0 ∷ [] }

part-Plain : (t : ℕ) → t < 65536 → PlainTlv 2 (part t)
part-Plain t b = record {
  plain = record { width = refl; type = inr (refl, b); length_fits = omega arith };
  kind = refl;
  value_fits = refl;
}

parts : PlainTlvs 2 (next (node (part 4) end) (next (node (part 6) end) end))
unfolding PlainTlvs
parts = (part-Plain 4 (omega arith), (part-Plain 6 (omega arith), omega arith))

handle_private_msg-fault_example :
    handle_private_msg memory
      (record {
        length = length (encode_items (next (node (part 4) end) (next (node (part 6) end) end)));
        command_id = 2000;
        body = encode_items (next (node (part 4) end) (next (node (part 6) end) end));
        raw = [];
      })
      12
      daemon
    ≡ fault
handle_private_msg-fault_example =
    handle_private_msg-fault memory 12 daemon second_client (part 4) (part 6) []
      (λ e. absurd (omega (arith, e))) bob_at refl refl refl refl parts

forward_msg_in_group-posted_example :
    forward_msg_in_group true room bob (1 ∷ 2 ∷ []) daemon
    ≡ done tt (posted daemon (connections bob daemon.g_clients room.users) (1 ∷ 2 ∷ []))
forward_msg_in_group-posted_example =
    forward_msg_in_group-posted true room room bob (1 ∷ 2 ∷ []) daemon room_found

leave_group_by_name-join_group_example :
    (t : Bus) × (join_group true true (some bob) (some (82 ∷ [])) daemon ≡ done (pos 0) t)
    × (leave_group_by_name true (some bob) (some (82 ∷ [])) t ≡ done (pos 0) daemon)
leave_group_by_name-join_group_example =
    leave_group_by_name-join_group bob (82 ∷ []) daemon room room_found bob_absent
