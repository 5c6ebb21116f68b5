-- ===== src/Tlv/Print.antt =====
-- agent/tlv_parser.c: the printer, over a buffer that grows. `realloc` says for each size whether
-- the allocator grants it. A write outside the buffer faults.
pub mod Write
pub mod Printed
pub mod Value
use easymesh.Prelude.{
  ℕ, List, Bool, if◌then◌else◌, ◌∷◌, ◌*◌, Option, ◌&&◌, not, ltb, ◌/◌, suc, leb, false, ◌%◌, zero,
  some, take, update, [], ◌||◌, ◌+◌, none, true, length,
}
use easymesh.Prelude.Int.{ℤ, pos, minus_one, negsuc}
use easymesh.Prelude.Run.{Run, Cmd, pure, crash, modify, get, done, fault, ◌>>◌, ◌>>=◌}
use easymesh.Tlv.{
  tlv, array, object, invalid, Item, Items, Head, node, end, next, little2bigs_type,
  little2bigs_len,
}

-- KamiTlvPrintBuffer; `present` is false where the pointer is NULL.
pub record PrintBuffer : Type 0 where
  pub buffer : ℕ → ℕ
  pub present : Bool
  pub length : ℕ
  pub offset : ℕ

abbrev pub int_max : ℕ
int_max = 2147483647

pub store_byte : ℕ → ℕ → Cmd PrintBuffer (Unit {0})
store_byte i b p =
    if ltb i p.length then done tt (record p { buffer = update p.buffer i b }) else fault

-- A store through `tlv_type *` or `tlv_len *`, low byte first.
pub store_u16 : ℕ → ℕ → Cmd PrintBuffer (Unit {0})
unfolding store_byte
store_u16 i n = do store_byte i (n % 256); store_byte (i + 1) (n / 256)

-- `none` is the type that the swap left uninitialised.
pub store_type : Option ℕ → ℕ → Cmd PrintBuffer (Unit {0})
unfolding store_u16
store_type none i = crash
store_type (some t) i = store_u16 i t

pub copy : ℕ → List ℕ → Cmd PrintBuffer (Unit {0})
unfolding store_byte
copy i [] = pure tt
copy i (b ∷ bs) = do store_byte i b; copy (i + 1) bs

-- Whether the pointer that Kami_Tlv_Ensure returns is not NULL; it points to `offset`.
pub ensure : (ℕ → Bool) → ℕ → Cmd PrintBuffer Bool
ensure realloc needed p =
    let total = needed + p.offset + 1 in
    let size = if ltb (int_max / 2) total then int_max else total * 2 in
    if not p.present || (ltb 0 p.length && leb p.length p.offset) || ltb int_max needed
    then done false p
    else if leb total p.length
    then done true p
    else if ltb int_max total
    then done false p
    else if realloc size
    then done true (record p { length = size })
    else done false (record p { length = 0; present = false })

-- A TLV whose `length` goes past its value reads outside it; so does a type of another width than
-- 1 or 2, whose swap is not initialised.
pub print_tlv : (ℕ → Bool) → Head → Cmd PrintBuffer ℤ
unfolding ensure store_type store_u16 copy little2bigs_type little2bigs_len
print_tlv realloc h = do
  ok ← ensure realloc (h.length + h.type_len + 2)
  p ← get
  let write : Cmd PrintBuffer ℤ = do
    store_type (little2bigs_type h.type h.type_len) p.offset
    store_u16 (p.offset + h.type_len) (little2bigs_len h.length)
    copy (p.offset + h.type_len + 2) (take h.length h.value)
    modify λ q. record q { offset = q.offset + (h.length + h.type_len + 2) }
    pure (pos 0)
  if not ok then pure minus_one else if leb h.length (length h.value) then write else crash

-- What Kami_Tlv_PrintArray writes before the children.
pub print_header : (ℕ → Bool) → Head → Cmd PrintBuffer ℤ
unfolding ensure store_type store_u16 little2bigs_type little2bigs_len
print_header realloc h = do
  ok ← ensure realloc (h.type_len + 2)
  p ← get
  let write : Cmd PrintBuffer ℤ = do
    store_type (little2bigs_type h.type h.type_len) p.offset
    store_u16 (p.offset + h.type_len) (little2bigs_len h.length)
    modify λ q. record q { offset = q.offset + (h.type_len + 2) }
    pure (pos 0)
  if ok then write else pure minus_one

-- `if (...) return -1;` on a result.
pub unless_failed : ℤ → Cmd PrintBuffer ℤ → Cmd PrintBuffer ℤ
unless_failed (pos zero) rest = rest
unless_failed (pos (suc _)) rest = pure minus_one
unless_failed (negsuc _) rest = pure minus_one

mutual
  unfolding print_tlv print_header unless_failed

  pub print_value : (ℕ → Bool) → Item → Cmd PrintBuffer ℤ
  print_value realloc (node h cs) =
      let children = print_items realloc cs in
      elim h.obj_type [
        | tlv ↦ print_tlv realloc h
        | array ↦ print_header realloc h >>= λ r. unless_failed r children
        | object ↦ children
        | invalid ↦ pure minus_one
      ]

  -- The loop of Kami_Tlv_PrintObject and Kami_Tlv_PrintArray.
  pub print_items : (ℕ → Bool) → Items → Cmd PrintBuffer ℤ
  print_items realloc end = pure (pos 0)
  print_items realloc (next j js) =
      let rest = print_items realloc js in print_value realloc j >>= λ r. unless_failed r rest

-- Kami_Tlv_Print: none where it returns NULL, or the buffer it returns, cut to `offset + 1` bytes.
-- `junk` is what the fresh buffer holds.
pub print : Bool → (ℕ → Bool) → (ℕ → ℕ) → Item → Run PrintBuffer (Option (ℕ × (ℕ → ℕ)))
unfolding print_value
print allocated realloc junk i =
    let start : PrintBuffer = record {
      buffer = junk;
      present = allocated;
      length = 256;
      offset = 0;
    } in
    let run : Cmd PrintBuffer (Option (ℕ × (ℕ → ℕ))) = (do
      r ← print_value realloc i
      p ← get
      let cut : Option (ℕ × (ℕ → ℕ)) =
          if realloc (p.offset + 1) then some (p.offset, p.buffer) else none
      pure (elim r [ pos zero ↦ cut | pos (suc _) ↦ none | negsuc _ ↦ none ])) in
    if allocated then run start else done none start
