-- ===== src/Reactor/Read/Frames.antt =====
-- reactor/eloop_event.c, __read_cb: the packets of a stream, one call for each of them.
use easymesh.Prelude.{
  ℕ, List, ◌∙◌, ◌-◌, refl, ◌∷◌, ◌≤◌, suc, ◌+◌, drop, length, ap, zero, get_or, ◌<◌, ◌≡◌, [], ◌++◌,
  arith, length-append, sym, take, drop-append_length, take-append_length,
}
use easymesh.Reactor.{Pack}
use easymesh.Reactor.Read.{word_at}

-- The bytes of a buffer from an index on.
abbrev pub window : (ℕ → ℕ) → ℕ → ℕ → List ℕ
window cells h zero = []
window cells h (suc n) = cells h ∷ window cells (h + 1) n

pub length-window : (cells : ℕ → ℕ) (h n : ℕ) → length (window cells h n) ≡ n
length-window cells h zero = refl
length-window cells h (suc n) = ap suc (length-window cells (h + 1) n)

get_or-window : (cells : ℕ → ℕ) (h n i : ℕ) → i < n → get_or (window cells h n) i 0 ≡ cells (h + i)
get_or-window cells h zero i b = absurd (omega arith)
get_or-window cells h (suc n) zero b = let e : h ≡ h + 0 = omega arith in ap cells e
get_or-window cells h (suc n) (suc i) b =
    let e : h + 1 + i ≡ h + suc i = omega arith in
    get_or-window cells (h + 1) n i (omega arith) ∙ ap cells e

drop-window :
    (cells : ℕ → ℕ) (h n k : ℕ) → k ≤ n → drop k (window cells h n) ≡ window cells (h + k) (n - k)
drop-window cells h n zero b =
    let e : h ≡ h + 0 = omega arith in
    let f : n ≡ n - 0 = omega arith in ap (λ i. window cells i n) e ∙ ap (window cells (h + 0)) f
drop-window cells h zero (suc k) b = absurd (omega arith)
drop-window cells h (suc n) (suc k) b =
    let e : h + 1 + k ≡ h + suc k = omega arith in
    let f : n - k ≡ suc n - suc k = omega arith in
    drop-window cells (h + 1) n k (omega arith)
    ∙ ap (λ i. window cells i (n - k)) e
    ∙ ap (window cells (h + suc k)) f

take-window : (cells : ℕ → ℕ) (h n k : ℕ) → k ≤ n → take k (window cells h n) ≡ window cells h k
take-window cells h n zero b = refl
take-window cells h zero (suc k) b = absurd (omega arith)
take-window cells h (suc n) (suc k) b =
    ap (◌∷◌ (cells h)) (take-window cells (h + 1) n k (omega arith))

-- What a window starts with is a window, and so is what follows.
pub window-front :
    (cells : ℕ → ℕ) (h n : ℕ) (front back : List ℕ)
    → window cells h n ≡ front ++ back
    → window cells h (length front) ≡ front
window-front cells h n front back e =
    let sized : n ≡ length front + length back =
      omega (arith, length-window cells h n, length-append front back, ap length e) in
    sym (take-window cells h n (length front) (omega arith))
    ∙ ap (take (length front)) e
    ∙ take-append_length front back

pub window-back :
    (cells : ℕ → ℕ) (h n : ℕ) (front back : List ℕ)
    → window cells h n ≡ front ++ back
    → window cells (h + length front) (n - length front) ≡ back
window-back cells h n front back e =
    let sized : n ≡ length front + length back =
      omega (arith, length-window cells h n, length-append front back, ap length e) in
    sym (drop-window cells h n (length front) (omega arith))
    ∙ ap (drop (length front)) e
    ∙ drop-append_length front back

get_or-append : (xs ys : List ℕ) (i : ℕ) → i < length xs → get_or (xs ++ ys) i 0 ≡ get_or xs i 0
get_or-append [] ys i b = absurd (omega arith)
get_or-append (x ∷ xs) ys zero b = refl
get_or-append (x ∷ xs) ys (suc i) b = get_or-append xs ys i (omega arith)

abbrev pub concat : List (List ℕ) → List ℕ
concat [] = []
concat (p ∷ ps) = p ++ concat ps

-- The length that the header at the front of some bytes states.
abbrev pub stated : Pack → List ℕ → ℕ
stated pack bytes = word_at (λ i. get_or bytes i 0) pack.len_offset

-- A whole packet: as long as its header and the body that it states.
pub record IsPacket (pack : Pack) (bytes : List ℕ) : Type 0 where
  pub whole : length bytes ≡ stated pack bytes + pack.nheader
  pub small : length bytes < 2147483648

-- Less than a header, or less than the packet that the header states.
pub data IsPartial (pack : Pack) (bytes : List ℕ) : Type 0 where
  headless : length bytes < pack.nheader → IsPartial pack bytes
  short :
      pack.nheader ≤ length bytes
      → length bytes < stated pack bytes + pack.nheader
      → stated pack bytes + pack.nheader < 2147483648
      → IsPartial pack bytes

abbrev pub ArePackets : Pack → List (List ℕ) → Type 0
ArePackets pack [] = Unit
ArePackets pack (p ∷ ps) = IsPacket pack p × ArePackets pack ps

byte_of :
    (cells : ℕ → ℕ) (h n : ℕ) (front back : List ℕ) (i j : ℕ)
    → window cells h n ≡ front ++ back
    → i + j < length front
    → cells (h + i + j) ≡ get_or front (i + j) 0
byte_of cells h n front back i j e b =
    let sized : n ≡ length front + length back =
      omega (arith, length-window cells h n, length-append front back, ap length e) in
    let at : h + (i + j) ≡ h + i + j = omega arith in
    ap cells (sym at)
    ∙ sym (get_or-window cells h n (i + j) (omega arith))
    ∙ ap (λ l. get_or l (i + j) 0) e
    ∙ get_or-append front back (i + j) b

-- The header as the loop reads it is the one of the bytes in the window.
pub word-stated :
    (pack : Pack) (cells : ℕ → ℕ) (h n : ℕ) (front back : List ℕ)
    → window cells h n ≡ front ++ back
    → pack.len_offset + 4 ≤ length front
    → word_at cells (h + pack.len_offset) ≡ stated pack front
word-stated pack cells h n front back e b =
    let at : h + pack.len_offset + 0 ≡ h + pack.len_offset = omega arith in
    let at' : pack.len_offset + 0 ≡ pack.len_offset = omega arith in
    let byte : (j : ℕ)
        → j < 4
        → cells (h + pack.len_offset + j) ≡ get_or front (pack.len_offset + j) 0 =
      λ j l. byte_of cells h n front back pack.len_offset j e (omega arith) in
    let first : cells (h + pack.len_offset) ≡ get_or front pack.len_offset 0 =
      ap cells (sym at) ∙ byte 0 (omega arith) ∙ ap (λ i. get_or front i 0) at' in
    rw (first, byte 1 (omega arith), byte 2 (omega arith), byte 3 (omega arith)) refl
