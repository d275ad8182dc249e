-- ===== src/Bitmap.antt =====
-- Bitmaps of 64-bit words, as microkernel/src/mm/phys_bitmap.rs (`page_busy`, `set_bit`,
-- `clear_bit`) and libs/zfs-core/src/allocator.rs read and write them: position i is bit i % 64 of
-- word i / 64, and a set bit means in use.
pub mod Counting
use Prim.Native.Nat.{bit_and, bit_or}
use zero_os.Common.{
  ℕ, zero, suc, ◌+◌, ◌*◌, ◌-◌, ◌/◌, ◌%◌, ◌^◌, ◌≤◌, ◌<◌, ◌≡◌, refl, ◌∙◌, ap, ◌≢◌, inl, inr, Bool,
  true, false, not, ◌&&◌, ◌||◌, List, [], ◌∷◌, ◌==◌, get_or, set, length, length-set,
  get_or-set_self, get_or-set_ne, get_or-replicate, set-set, set-get_or, All, Bool-cases, ne→==,
  ==_iff, replicate, arith,
}
use zero_os.Common.Bits.{
  bit, bit-bit_or, bit-bit_and, bit-pow, bit-zero, bit-complement, bit_or-lt, bit_and-lt,
  bit_and-pow, pow-lt, eq_of_bits,
}

abbrev pub word_max : ℕ
word_max = 2 ^ 64 - 1

unfoldable pub busy : List ℕ → ℕ → Bool
busy words i = not (bit_and (get_or words (i / 64) 0) (2 ^ (i % 64)) == 0)

unfoldable pub set_bit : List ℕ → ℕ → List ℕ
set_bit words i = set words (i / 64) (bit_or (get_or words (i / 64) 0) (2 ^ (i % 64)))

-- `&= !mask`
unfoldable pub clear_bit : List ℕ → ℕ → List ℕ
clear_bit words i = set words (i / 64) (bit_and (get_or words (i / 64) 0) (word_max - 2 ^ (i % 64)))

abbrev pub IsWords : List ℕ → Type 0
IsWords words = All (λ w. w < 2 ^ 64) words

pub busy-bit : (words : List ℕ) (i : ℕ) → busy words i ≡ bit (i % 64) (get_or words (i / 64) 0)
unfolding busy
busy-bit words i = ground (arith, bit_and-pow (get_or words (i / 64) 0) (i % 64))

pub get_or-word : (words : List ℕ) (i : ℕ) → IsWords words → get_or words i 0 < 2 ^ 64
get_or-word [] i h = omega arith
get_or-word (w ∷ ws) zero h = h.0
get_or-word (w ∷ ws) (suc i) h = get_or-word ws i h.1

set-IsWords : (words : List ℕ) (i v : ℕ) → v < 2 ^ 64 → IsWords words → IsWords (set words i v)
set-IsWords [] i v lt h = tt
set-IsWords (w ∷ ws) zero v lt h = (lt, h.1)
set-IsWords (w ∷ ws) (suc i) v lt h = (h.0, set-IsWords ws i v lt h.1)

mask-lt : (i : ℕ) → 2 ^ (i % 64) < 2 ^ 64
mask-lt i = pow-lt (i % 64) 64 (omega arith)

pub set_bit-IsWords : (words : List ℕ) (i : ℕ) → IsWords words → IsWords (set_bit words i)
unfolding set_bit
set_bit-IsWords words i h =
    set-IsWords words (i / 64) _ (bit_or-lt 64 _ _ (get_or-word words (i / 64) h) (mask-lt i)) h

pub clear_bit-IsWords : (words : List ℕ) (i : ℕ) → IsWords words → IsWords (clear_bit words i)
unfolding clear_bit
clear_bit-IsWords words i h =
    set-IsWords words (i / 64) _ (bit_and-lt 64 _ _ (get_or-word words (i / 64) h)) h

pub length-set_bit : (words : List ℕ) (i : ℕ) → length (set_bit words i) ≡ length words
unfolding set_bit
length-set_bit words i = length-set words (i / 64) _

pub length-clear_bit : (words : List ℕ) (i : ℕ) → length (clear_bit words i) ≡ length words
unfolding clear_bit
length-clear_bit words i = length-set words (i / 64) _

-- Setting position i makes that position busy, and no other.
pub busy-set_bit :
    (words : List ℕ) (i j : ℕ)
    → i / 64 < length words
    → busy (set_bit words i) j ≡ (j == i || busy words j)
busy-set_bit words i j h = elim (Bool-cases (j / 64 == i / 64)) [
  | inl same ↦
      let e : j / 64 ≡ i / 64 = ground arith in
      rw (busy-bit (set_bit words i) j, busy-bit words j, e)
        (unfold set_bit in
          rw (get_or-set_self words (i / 64) (bit_or (get_or words (i / 64) 0) (2 ^ (i % 64))) 0 h)
            (ground (
              arith,
              bit-bit_or (j % 64) (get_or words (i / 64) 0) (2 ^ (i % 64)),
              bit-pow (j % 64) (i % 64),
            )))
  | inr other ↦
      let n : i / 64 ≢ j / 64 = ground arith in
      rw (busy-bit (set_bit words i) j, busy-bit words j)
        (unfold set_bit in
          rw
            (get_or-set_ne words (i / 64) (j / 64) (bit_or (get_or words (i / 64) 0) (2 ^ (i % 64)))
              0 n)
            (ground arith))
]

-- Clearing position i makes that position free, and no other.
pub busy-clear_bit :
    (words : List ℕ) (i j : ℕ)
    → IsWords words
    → i / 64 < length words
    → busy (clear_bit words i) j ≡ (not (j == i) && busy words j)
busy-clear_bit words i j v h = elim (Bool-cases (j / 64 == i / 64)) [
  | inl same ↦
      let e : j / 64 ≡ i / 64 = ground arith in
      rw (busy-bit (clear_bit words i) j, busy-bit words j, e)
        (unfold clear_bit in
          rw
            (get_or-set_self words (i / 64)
              (bit_and (get_or words (i / 64) 0) (word_max - 2 ^ (i % 64))) 0 h)
            (ground (
              arith,
              bit-bit_and (j % 64) (get_or words (i / 64) 0) (word_max - 2 ^ (i % 64)),
              bit-complement 64 (j % 64) (2 ^ (i % 64)) (omega arith) (mask-lt i),
              bit-pow (j % 64) (i % 64),
            )))
  | inr other ↦
      let n : i / 64 ≢ j / 64 = ground arith in
      rw (busy-bit (clear_bit words i) j, busy-bit words j)
        (unfold clear_bit in
          rw
            (get_or-set_ne words (i / 64) (j / 64)
              (bit_and (get_or words (i / 64) 0) (word_max - 2 ^ (i % 64))) 0 n)
            (ground arith))
]

-- A fresh bitmap has every position free.
pub busy-zeros : (n i : ℕ) → busy (replicate n 0) i ≡ false
busy-zeros n i =
    rw (busy-bit (replicate n 0) i, get_or-replicate {A = ℕ} n (i / 64) 0) (bit-zero (i % 64))

pub zeros-IsWords : (n : ℕ) → IsWords (replicate n 0)
zeros-IsWords zero = tt
zeros-IsWords (suc n) = (omega arith, zeros-IsWords n)

cleared_word :
    (w b : ℕ)
    → w < 2 ^ 64
    → b < 64
    → bit b w ≡ false
    → bit_and (bit_or w (2 ^ b)) (word_max - 2 ^ b) ≡ w
cleared_word w b lt h clear =
    eq_of_bits 64 _ w (bit_and-lt 64 _ _ (bit_or-lt 64 w (2 ^ b) lt (pow-lt b 64 h))) lt same
  where
    same : (k : ℕ) → k < 64 → bit k (bit_and (bit_or w (2 ^ b)) (word_max - 2 ^ b)) ≡ bit k w
    same k l = elim (Bool-cases (k == b)) [
      | inl here ↦
          let e : k ≡ b = ground arith in
          rw e (
            ground (
              arith,
              bit-bit_and b (bit_or w (2 ^ b)) (word_max - 2 ^ b),
              clear,
              bit-complement 64 b (2 ^ b) h (pow-lt b 64 h),
              bit-pow b b,
            ))
      | inr other ↦ ground (
        arith,
        bit-bit_and k (bit_or w (2 ^ b)) (word_max - 2 ^ b),
        bit-bit_or k w (2 ^ b),
        bit-complement 64 k (2 ^ b) l (pow-lt b 64 h),
        bit-pow k b,
      )
    ]

-- Taking a free position and giving it back restores the words.
pub clear_bit-set_bit :
    (words : List ℕ) (i : ℕ)
    → IsWords words
    → i / 64 < length words
    → busy words i ≡ false
    → clear_bit (set_bit words i) i ≡ words
unfolding clear_bit set_bit
clear_bit-set_bit words i v h free =
    rw
      (
        get_or-set_self words (i / 64) (bit_or (get_or words (i / 64) 0) (2 ^ (i % 64))) 0 h,
        set-set words (i / 64) (bit_or (get_or words (i / 64) 0) (2 ^ (i % 64)))
            (bit_and (bit_or (get_or words (i / 64) 0) (2 ^ (i % 64))) (word_max - 2 ^ (i % 64))),
        cleared_word (get_or words (i / 64) 0) (i % 64) (get_or-word words (i / 64) v) (omega arith)
            (ground (arith, busy-bit words i)),
      )
      (set-get_or words (i / 64) 0)
