-- ===== src/Tlv/Parse.antt =====
-- agent/tlv_parser.c: Kami_Tlv_ParseObject. The message is a list of bytes; a read behind its end
-- faults. `allocated` says for each offset whether the item read there gets its memory.
pub mod Read
pub mod Turn
pub mod Roundtrip
use easymesh.Prelude.{
  ℕ, List, if◌then◌else◌, Bool, suc, [], some, ltb, get_or, none, zero, leb, true, ◌-◌, Option, ◌*◌,
  ◌+◌, length, drop,
}
use easymesh.Prelude.Run.{Run, Cmd, pure, done, fault, out_of_fuel, ◌>>=◌}
use easymesh.Tlv.{Item, big2littles_type, big2littles_len, create_object, add_tlv_to_object}

pub load_u16 : List ℕ → ℕ → Run (Unit {0}) ℕ
load_u16 memory i =
    if leb (i + 2) (length memory)
    then done (get_or memory i 0 + 256 * get_or memory (i + 1) 0) tt
    else fault

-- `iLength - iOffset > (len + sizeof(tlv_len))`: the left side is an `int` that is converted to
-- `size_t`, so a negative one is larger than any length.
pub continues : ℕ → ℕ → ℕ → Bool
continues size offset len = if ltb size offset then true else ltb (len + 2) (size - offset)

-- The loop is over when the fuel is `size`: a turn moves the offset by 2 or more.
pub parse_loop : ℕ → (ℕ → Bool) → List ℕ → ℕ → ℕ → ℕ → Item → Run (Unit {0}) (Option Item)
unfolding continues load_u16 big2littles_type big2littles_len add_tlv_to_object
parse_loop zero allocated memory size len offset root = out_of_fuel
parse_loop (suc k) allocated memory size len offset root =
    let again = λ (root : Item) (offset : ℕ). parse_loop k allocated memory size len offset root in
    let turn : Cmd (Unit {0}) (Option Item) = (do
      raw ← λ _. load_u16 memory offset
      raw_len ← λ _. load_u16 memory (offset + len)
      let value = offset + len + 2
      let type = big2littles_type raw len
      added ← λ _. elim type [
        | none ↦ fault
        | some t ↦
            add_tlv_to_object (allocated offset) root [] t (big2littles_len raw_len)
              (drop value memory) len
      ]
      elim added [
        | none ↦ pure none
        | some grown ↦ λ _. again grown (value + big2littles_len raw_len)
      ]) in
    if continues size offset len then turn tt else done (some root) tt

pub parse_object : Bool → (ℕ → Bool) → List ℕ → ℕ → ℕ → Run (Unit {0}) (Option Item)
unfolding create_object parse_loop
parse_object created allocated memory size len =
    if ltb size (len + 2) then done none tt else elim (create_object created len) [
      | none ↦ done none tt
      | some root ↦ parse_loop (size + 1) allocated memory size len 0 root
    ]
