-- ===== src/Tlv/Swap.antt =====
-- agent/tlv_parser.c: the byte swaps of types and lengths.
use easymesh.Prelude.{ℕ, ◌<◌, ◌≤◌, ◌%◌, refl, true, some, ap, arith, ◌/◌, ◌+◌, ltb, false, ◌≡◌, ◌*◌}
use easymesh.Tlv.{little2bigs_len, big2littles_len, big2littles_type, signed_char}

-- The host's reading of a length that it wrote in network order.
big2littles_len-little2bigs_len : (n : ℕ) → n < 65536 → big2littles_len (little2bigs_len n) ≡ n
unfolding big2littles_len little2bigs_len
big2littles_len-little2bigs_len n b = omega arith

-- In memory a length has its high byte first.
pub little2bigs_len-bytes :
    (n : ℕ) → n < 65536 → (little2bigs_len n % 256 ≡ n / 256) × (little2bigs_len n / 256 ≡ n % 256)
unfolding little2bigs_len
little2bigs_len-bytes n b = (omega arith, omega arith)

-- The bytes of a type that a read as a `tlv_type` finds, and what the swap makes of them.
pub big2littles_type-two :
    (t : ℕ) → t < 65536 → big2littles_type (t / 256 + 256 * (t % 256)) 2 ≡ some t
unfolding big2littles_type
big2littles_type-two t b = ap some (omega arith)

pub big2littles_type-one :
    (t following : ℕ) → t < 128 → big2littles_type (t + 256 * following) 1 ≡ some t
unfolding big2littles_type signed_char
big2littles_type-one t following b =
    let low : (t + 256 * following) % 256 ≡ t = omega arith in
    let small : ltb t 128 ≡ true = ground arith in rw (low, small) refl

pub big2littles_type-high :
    (t following : ℕ)
    → 128 ≤ t
    → t < 256
    → big2littles_type (t + 256 * following) 1 ≡ some (t + 65280)
unfolding big2littles_type signed_char
big2littles_type-high t following a b =
    let low : (t + 256 * following) % 256 ≡ t = omega arith in
    let large : ltb t 128 ≡ false = ground arith in
    let same : (t + 65280) % 65536 ≡ t + 65280 = omega arith in rw (low, large, same) refl
