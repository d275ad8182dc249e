-- ===== src/Common/Bits/Align.antt =====
-- Rounding down to a multiple of a power of two, as `x & !(align - 1)` does.
use Prim.Native.Nat.{ℕ, zero, suc, ◌+◌, ◌-◌, ◌*◌, ◌/◌, ◌%◌, ◌^◌, ◌<◌, ◌≤◌, bit_and}
use mathlib.Core.Path.{◌≡◌, refl, ap}
use native.Mathlib.Nat.{pow-suc, zero-add, suc-add, mul_assoc, mul_comm}
use native.Mathlib.Omega.{arith}
use mathlib.Core.Bool.{true}
use zero_os.Common.Bits.{bit, bit-bit_and, bit-complement, bit-zero, bit_and-lt, eq_of_bits}
use zero_os.Common.Bits.Steps.{bit_and_step}

-- A word of at most n bits is kept by the mask of n ones.
pub bit_and-ones : (n x : ℕ) → x < 2 ^ n → bit_and x (2 ^ n - 1) ≡ x
bit_and-ones n x h =
    eq_of_bits n _ x (bit_and-lt n x _ h) h
      (λ k lt. ground (arith, bit-bit_and k x (2 ^ n - 1), bit-complement n k 0 lt, bit-zero k))

bit_and-twice : (x y : ℕ) → bit_and x (2 * y) ≡ 2 * bit_and (x / 2) y
bit_and-twice x y =
    let half : 2 * y / 2 ≡ y = omega arith in
    let even : 2 * y % 2 ≡ 0 = omega arith in rw (bit_and_step x (2 * y), half, even) (omega arith)

mul_twice : (a b : ℕ) → a * 2 * b ≡ 2 * (a * b)
mul_twice a b = rw (mul_comm a 2) (mul_assoc 2 a b)

-- The mask of n ones above k zeros rounds down to a multiple of 2 ^ k.
pub bit_and-align :
    (k n x : ℕ)
    → x < 2 ^ (k + n)
    → (q : ℕ) × (bit_and x (2 ^ k * (2 ^ n - 1)) ≡ 2 ^ k * q)
      × (2 ^ k * q ≤ x)
      × (x < 2 ^ k * q + 2 ^ k)
bit_and-align zero n x h =
    let plain : x < 2 ^ n = rw (ap (λ k. 2 ^ k) (zero-add n)) at (h) in
    let one : 1 * (2 ^ n - 1) ≡ 2 ^ n - 1 = omega arith in
    (x, rw (one, bit_and-ones n x plain) (omega arith), omega arith, omega arith)
bit_and-align (suc k) n x h =
    let half : x / 2 < 2 ^ (k + n) =
      omega (arith, ap (λ k. 2 ^ k) (suc-add k n), pow-suc 2 (k + n)) in
    let (q, low, below, above) = bit_and-align k n (x / 2) half in
    let mask : 2 ^ suc k * (2 ^ n - 1) ≡ 2 * (2 ^ k * (2 ^ n - 1)) =
      rw (pow-suc 2 k) (mul_twice (2 ^ k) (2 ^ n - 1)) in
    let twice : 2 ^ suc k * q ≡ 2 * (2 ^ k * q) = rw (pow-suc 2 k) (mul_twice (2 ^ k) q) in
    (
      q,
      rw (mask, bit_and-twice x (2 ^ k * (2 ^ n - 1)), low, twice) refl,
      omega (arith, twice),
      omega (arith, twice, pow-suc 2 k),
    )

-- What is added below a multiple of a power of two leaves its bits on.
pub bit-add_below :
    (n k q x : ℕ) → x < 2 ^ n → bit k (2 ^ n * q) ≡ true → bit k (2 ^ n * q + x) ≡ true
bit-add_below zero k q x h e = let same : 2 ^ 0 * q + x ≡ 2 ^ 0 * q = omega arith in rw same e
bit-add_below (suc n) zero q x h e =
    let twice : 2 ^ suc n * q ≡ 2 * (2 ^ n * q) = rw (pow-suc 2 n) (mul_twice (2 ^ n) q) in
    absurd (ground (arith, e, twice))
bit-add_below (suc n) (suc k) q x h e =
    let twice : 2 ^ suc n * q ≡ 2 * (2 ^ n * q) = rw (pow-suc 2 n) (mul_twice (2 ^ n) q) in
    let low : (2 ^ suc n * q) / 2 ≡ 2 ^ n * q = omega (arith, twice) in
    let high : (2 ^ suc n * q + x) / 2 ≡ 2 ^ n * q + x / 2 = omega (arith, twice) in
    rw high (bit-add_below n k q (x / 2) (omega (arith, pow-suc 2 n)) (rw low at (e)))

-- The two lowest bits.
pub bit_and-three : (x : ℕ) → x < 2 ^ 64 → bit_and x 3 ≡ x % 4
bit_and-three x h =
    let none : bit_and (x / 2 / 2) 0 ≡ 0 =
      eq_of_bits 64 (bit_and (x / 2 / 2) 0) 0 (bit_and-lt 64 (x / 2 / 2) 0 (omega arith))
        (omega arith) (λ k lt. ground (arith, bit-bit_and k (x / 2 / 2) 0, bit-zero k)) in
    omega (arith, bit_and_step x 3, bit_and_step (x / 2) 1)
