-- ===== src/Mbus.antt =====
-- mbus: the state of the bus daemon, and C strings. The lists of clients, groups and members are
-- kept in KamiLists, which KamiList shows to hold their nodes in order; here they are sequences.
pub mod UserManager
pub mod GroupManager
pub mod Daemon
pub mod BusMsg
pub mod Names
pub mod Tables
mod Tests
use easymesh.Prelude.{
  ℕ, List, some, true, ◌∷◌, Bool, false, Option, none, take, zero, if◌then◌else◌, [], suc, ◌==◌,
}
use easymesh.Prelude.Run.{Ptr}

-- The bytes of a string, without the 0 at its end.
abbrev pub Name : Type 0
Name = List ℕ

-- client_t; `self` is its address.
pub record Client : Type 0 where
  pub self : Ptr
  pub name : Name
  pub io : Ptr

-- group_t.
pub record Group : Type 0 where
  pub group_name : Name
  pub users : List Name

-- `arg` is the field `arg` of each io_buf_t. `outbox` logs the calls of io_write, in order.
pub record Bus : Type 0 where
  pub g_clients : List Client
  pub g_groups : List Group
  pub arg : Ptr → Ptr
  pub outbox : List (Ptr × List ℕ)

-- `strcmp(a, b) == 0`.
unfoldable pub same_name : Name → Name → Bool
same_name [] [] = true
same_name [] (c ∷ cs) = false
same_name (b ∷ bs) [] = false
same_name (b ∷ bs) (c ∷ cs) = let rest = same_name bs cs in if b == c then rest else false

-- The string at the start of some memory; none where it has no end there.
unfoldable pub c_string : List ℕ → Option Name
c_string [] = none
c_string (zero ∷ bs) = some []
c_string (suc b ∷ bs) = elim (c_string bs) [ none ↦ none | some s ↦ some (suc b ∷ s) ]

-- What snprintf leaves of a string in an array of 128 bytes.
abbrev pub cut_name : Name → Name
cut_name = take 127
