-- ===== src/Tlv/Print/Write.antt =====
-- agent/tlv_parser.c: room for a write, and the writes of one item's head and value.
use mathlib.Core.Path.{subst}
use easymesh.Prelude.{
  ℕ, List, if◌then◌else◌, ◌≡◌, get_or, ◌++◌, Bool, ◌+◌, zero, update, refl, ◌<◌, ◌∷◌, suc, true,
  ◌≤◌, [], ltb, ◌-◌, length, length-append, arith, not, ◌==◌, some, ◌⊎◌, Bool-cases, inl, false,
  ◌/◌, leb, ◌%◌, ◌||◌, ◌&&◌, ◌*◌, ◌^◌, inr, ap,
}
use easymesh.Prelude.Run.{done}
use easymesh.Tlv.{Head, little2bigs_type, little2bigs_len}
use easymesh.Tlv.Encode.{FitsHead, encode_head}
use easymesh.Tlv.Swap.{little2bigs_len-bytes}
use easymesh.Tlv.Print.{PrintBuffer, ensure, copy, store_byte, store_u16, store_type, int_max}

abbrev pub overwrite : (ℕ → ℕ) → ℕ → List ℕ → ℕ → ℕ
overwrite f i bs j =
    if ltb j i then f j else if ltb j (i + length bs) then get_or bs (j - i) 0 else f j

-- The buffer `q` is `p` with `bs` written at its offset, and has room for more.
pub record Wrote (p : PrintBuffer) (bs : List ℕ) (q : PrintBuffer) : Type 0 where
  pub present : q.present ≡ true
  pub offset : q.offset ≡ p.offset + length bs
  pub room : q.offset < q.length
  pub below : (i : ℕ) → i < p.offset → q.buffer i ≡ p.buffer i
  pub written : (i : ℕ) → i < length bs → q.buffer (p.offset + i) ≡ get_or bs i 0

pub get_or-append :
    (xs ys : List ℕ) (i : ℕ)
    → get_or (xs ++ ys) i 0
      ≡ (if ltb i (length xs) then get_or xs i 0 else get_or ys (i - length xs) 0)
get_or-append [] ys i = ground arith
get_or-append (x ∷ xs) ys zero = ground arith
get_or-append (x ∷ xs) ys (suc i) = ground (arith, get_or-append xs ys i)

pub Wrote-append :
    {p q r : PrintBuffer} {bs cs : List ℕ} → Wrote p bs q → Wrote q cs r → Wrote p (bs ++ cs) r
Wrote-append {p = p} {q = q} {r = r} {bs = bs} {cs = cs} v w = record {
  present = w.present;
  offset = omega (arith, v.offset, w.offset, length-append bs cs);
  room = w.room;
  below = λ i b. ground (arith, w.below i, v.below i, v.offset);
  written = λ i b. ground (
    arith,
    w.below (p.offset + i),
    v.written i,
    w.written (i - length bs),
    v.offset,
    get_or-append bs cs i,
    length-append bs cs,
  );
}

pub ensure-done :
    (realloc : ℕ → Bool) (needed : ℕ) (p : PrintBuffer)
    → ((n : ℕ) → realloc n ≡ true)
    → p.present ≡ true
    → p.offset < p.length
    → needed + p.offset + 1 ≤ int_max
    → (n : ℕ) × (ensure realloc needed p ≡ done true (record p { length = n }))
      × (needed + p.offset + 1 ≤ n)
unfolding ensure
ensure-done realloc needed p grants present room small =
    let guard : (not p.present || (ltb 0 p.length && leb p.length p.offset) || ltb int_max needed)
        ≡ false =
      ground (arith, present) in
    elim (Bool-cases (leb (needed + p.offset + 1) p.length)) [
      | inl fits ↦ (p.length, rw (guard, fits) refl, ground (arith, fits))
      | inr full ↦
          let bounded : ltb int_max (needed + p.offset + 1) ≡ false = ground (arith, small) in
          let size =
            if ltb (int_max / 2) (needed + p.offset + 1)
            then int_max
            else (needed + p.offset + 1) * 2 in
          (size, rw (guard, full, bounded, grants size) refl, ground (arith, small))
    ]

-- What copy makes of the memory.
pub copy-done :
    (bs : List ℕ) (i : ℕ) (p : PrintBuffer)
    → i + length bs ≤ p.length
    → (f : ℕ → ℕ) × (copy i bs p ≡ done tt (record p { buffer = f }))
      × ((j : ℕ) → f j ≡ overwrite p.buffer i bs j)
unfolding copy store_byte
copy-done [] i p b = (p.buffer, refl, λ j. ground arith)
copy-done (c ∷ cs) i p b =
    let inside : ltb i p.length ≡ true = ground (arith, b) in
    let (f, run, at) =
      copy-done cs (i + 1) (record p { buffer = update p.buffer i c }) (omega (arith, b)) in
    (f, rw inside run, λ j. ground (arith, at j))

store_u16-done :
    (i n : ℕ) (p : PrintBuffer)
    → i + 2 ≤ p.length
    → (f : ℕ → ℕ) × (store_u16 i n p ≡ done tt (record p { buffer = f }))
      × ((j : ℕ) → f j ≡ (if j == i then n % 256 else if j == i + 1 then n / 256 else p.buffer j))
unfolding store_u16 store_byte
store_u16-done i n p b =
    let low : ltb i p.length ≡ true = ground (arith, b) in
    let high : ltb (i + 1) p.length ≡ true = ground (arith, b) in
    (update (update p.buffer i (n % 256)) (i + 1) (n / 256), rw (low, high) refl, λ j. ground arith)

bytes_of_3 :
    (a b c i : ℕ)
    → get_or (a ∷ b ∷ c ∷ []) i 0
      ≡ (if i == 0 then a else if i == 1 then b else if i == 2 then c else 0)
bytes_of_3 a b c zero = refl
bytes_of_3 a b c (suc zero) = refl
bytes_of_3 a b c (suc (suc zero)) = refl
bytes_of_3 a b c (suc (suc (suc i))) = ground arith

bytes_of_4 :
    (a b c d i : ℕ)
    → get_or (a ∷ b ∷ c ∷ d ∷ []) i 0
      ≡ (if i == 0 then a else if i == 1 then b else if i == 2 then c else if i == 3 then d else 0)
bytes_of_4 a b c d zero = refl
bytes_of_4 a b c d (suc zero) = refl
bytes_of_4 a b c d (suc (suc zero)) = refl
bytes_of_4 a b c d (suc (suc (suc zero))) = refl
bytes_of_4 a b c d (suc (suc (suc (suc i)))) = ground arith

-- The swap of a type, and the bytes that it has in memory.
swapped :
    (h : Head)
    → FitsHead h
    → (s : ℕ) × (little2bigs_type h.type h.type_len ≡ some s)
      × (((h.type_len ≡ 1) × (s % 256 ≡ h.type))
          ⊎ ((h.type_len ≡ 2) × (s % 256 ≡ h.type / 256) × (s / 256 ≡ h.type % 256)))
unfolding little2bigs_type
swapped h v = elim v.width [
  | inl e ↦
      let small : h.type < 256 ^ 1 = subst (λ n. h.type < 256 ^ n) e v.type_fits in
      (h.type, rw e refl, inl (e, omega (arith, small)))
  | inr e ↦
      let small : h.type < 256 ^ 2 = subst (λ n. h.type < 256 ^ n) e v.type_fits in
      (
        h.type * 256 % 65536 + h.type / 256,
        rw e (ap some (omega (arith, small))),
        inr (e, omega (arith, small), omega (arith, small)),
      )
]

-- The head of an item, as the printer stores it.
pub head-done :
    (h : Head) (p : PrintBuffer)
    → FitsHead h
    → p.offset + h.type_len + 2 ≤ p.length
    → (f g : ℕ → ℕ) × (store_type (little2bigs_type h.type h.type_len) p.offset p
        ≡ done tt (record p { buffer = f }))
      × (store_u16 (p.offset + h.type_len) (little2bigs_len h.length) (record p { buffer = f })
          ≡ done tt (record p { buffer = g }))
      × ((i : ℕ) → i < p.offset → g i ≡ p.buffer i)
      × ((i : ℕ) → i < h.type_len + 2 → g (p.offset + i) ≡ get_or (encode_head h) i 0)
unfolding store_type
head-done h p v room =
    let (s, swap, bytes) = swapped h v in
    let (high, low) = little2bigs_len-bytes h.length v.length_fits in
    let (f, first, at) = store_u16-done p.offset s p (omega (arith, room, v.width)) in
    let (g, second, then_at) =
      store_u16-done (p.offset + h.type_len) (little2bigs_len h.length) (record p { buffer = f })
        (omega (arith, room)) in
    (
      f,
      g,
      rw swap first,
      second,
      λ i b. ground (arith, at i, then_at i, v.width),
      λ i b. elim bytes [
        | inl (e, low_byte) ↦
            let list : encode_head h ≡ h.type ∷ h.length / 256 ∷ h.length % 256 ∷ [] = rw e refl in
            rw list (
              ground (
                arith,
                e,
                low_byte,
                high,
                low,
                at (p.offset + i),
                then_at (p.offset + i),
                bytes_of_3 h.type (h.length / 256) (h.length % 256) i,
                b,
              ))
        | inr (e, low_byte, high_byte) ↦
            let list : encode_head h
                ≡ h.type / 256 ∷ h.type % 256 ∷ h.length / 256 ∷ h.length % 256 ∷ [] =
              rw e refl in
            rw list (
              ground (
                arith,
                e,
                low_byte,
                high_byte,
                high,
                low,
                at (p.offset + i),
                then_at (p.offset + i),
                bytes_of_4 (h.type / 256) (h.type % 256) (h.length / 256) (h.length % 256) i,
                b,
              ))
      ],
    )
