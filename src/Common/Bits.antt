-- ===== src/Common/Bits.antt =====
-- The bits of a machine word: `bit k x` is bit k of x. The native operations on words act bit by
-- bit, whatever the width.
mod Steps
pub mod Align
pub mod Constants
pub mod Xor
use Steps.{bit_or_step, bit_and_step}
use Prim.Native.Nat.{
  ℕ, zero, suc, ◌+◌, ◌-◌, ◌*◌, ◌/◌, ◌%◌, ◌^◌, ◌≤◌, ◌<◌, bit_and, bit_or, bit_and-bitwise,
}
use mathlib.Core.Path.{◌≡◌, refl, sym, ap, ◌∙◌}
use mathlib.Core.Bool.{Bool, true, false, not, ◌&&◌, ◌||◌}
use native.Mathlib.Nat.{pow-suc}
use native.Mathlib.Omega.{arith}
use mathlib.Core.Logic.{◌≢◌, ◌↔◌, inl, inr}
use zero_os.Common.Tests.{◌==◌, ne→==, ==_refl, Bool-cases}

-- Bit k of x.
abbrev pub bit : ℕ → ℕ → Bool
bit zero x = x % 2 == 1
bit (suc k) x = bit k (x / 2)

half-bit_or : (x y : ℕ) → bit_or x y / 2 ≡ bit_or (x / 2) (y / 2)
half-bit_or x y = omega (arith, bit_or_step x y)

half-bit_and : (x y : ℕ) → bit_and x y / 2 ≡ bit_and (x / 2) (y / 2)
half-bit_and x y = omega (arith, bit_and_step x y)

half-pow : (j : ℕ) → 2 ^ suc j / 2 ≡ 2 ^ j
half-pow j = omega (arith, pow-suc 2 j)

pub bit-bit_or : (k x y : ℕ) → bit k (bit_or x y) ≡ (bit k x || bit k y)
bit-bit_or zero x y = ground (arith, bit_or_step x y)
bit-bit_or (suc k) x y = rw (half-bit_or x y) (bit-bit_or k (x / 2) (y / 2))

pub bit-bit_and : (k x y : ℕ) → bit k (bit_and x y) ≡ (bit k x && bit k y)
bit-bit_and zero x y = ground (arith, bit_and_step x y)
bit-bit_and (suc k) x y = rw (half-bit_and x y) (bit-bit_and k (x / 2) (y / 2))

pub bit-zero : (k : ℕ) → bit k 0 ≡ false
bit-zero zero = refl
bit-zero (suc k) = bit-zero k

suc-==-suc : (k j : ℕ) → (suc k == suc j) ≡ (k == j)
suc-==-suc k j = ground arith

pub bit-pow : (k j : ℕ) → bit k (2 ^ j) ≡ (k == j)
bit-pow zero zero = refl
bit-pow (suc k) zero = bit-zero k ∙ sym (ne→== (suc k) 0 (omega arith))
bit-pow zero (suc j) = ground (arith, pow-suc 2 j)
bit-pow (suc k) (suc j) = rw (half-pow j, suc-==-suc k j) (bit-pow k j)

-- `!x` of an n-bit word.
half_complement : (n x : ℕ) → x < 2 ^ suc n → (2 ^ suc n - 1 - x) / 2 ≡ 2 ^ n - 1 - x / 2
half_complement n x h = omega (arith, pow-suc 2 n)

pub pow-lt : (k n : ℕ) → k < n → 2 ^ k < 2 ^ n
pow-lt k zero h = elim h [ ]
pow-lt zero (suc n) h = omega (arith, pow-suc 2 n, pow-lt-zero n)
  where
    pow-lt-zero : (n : ℕ) → 0 < 2 ^ n
    pow-lt-zero zero = omega arith
    pow-lt-zero (suc n) = omega (arith, pow-suc 2 n, pow-lt-zero n)
pow-lt (suc k) (suc n) h = omega (arith, pow-suc 2 n, pow-suc 2 k, pow-lt k n (omega arith))

pub bit-complement : (n k x : ℕ) → k < n → x < 2 ^ n → bit k (2 ^ n - 1 - x) ≡ not (bit k x)
bit-complement zero k x h lt = elim h [ ]
bit-complement (suc n) zero x h lt = ground (arith, pow-suc 2 n)
bit-complement (suc n) (suc k) x h lt =
    rw (half_complement n x lt)
      (bit-complement n k (x / 2) (omega arith) (omega (arith, pow-suc 2 n)))

pub eq_of_bits : (n x y : ℕ) → x < 2 ^ n → y < 2 ^ n → ((k : ℕ) → k < n → bit k x ≡ bit k y) → x ≡ y
eq_of_bits zero x y hx hy same = omega arith
eq_of_bits (suc n) x y hx hy same = ground (
  arith,
  pow-suc 2 n,
  same 0 (omega arith),
  eq_of_bits n (x / 2) (y / 2) (omega (arith, pow-suc 2 n)) (omega (arith, pow-suc 2 n))
      (λ k h. same (suc k) (omega arith)),
)

pub bit_or-lt : (n x y : ℕ) → x < 2 ^ n → y < 2 ^ n → bit_or x y < 2 ^ n
bit_or-lt zero x y hx hy =
    let ex : x ≡ 0 = omega arith in let ey : y ≡ 0 = omega arith in rw (ex, ey) (omega arith)
bit_or-lt (suc n) x y hx hy = omega (
  arith,
  pow-suc 2 n,
  bit_or_step x y,
  bit_or-lt n (x / 2) (y / 2) (omega (arith, pow-suc 2 n)) (omega (arith, pow-suc 2 n)),
)

pub bit_and-lt : (n x y : ℕ) → x < 2 ^ n → bit_and x y < 2 ^ n
bit_and-lt zero x y hx = let ex : x ≡ 0 = omega arith in rw (ex, bit_and-bitwise 0 y) (omega arith)
bit_and-lt (suc n) x y hx = omega (
  arith,
  pow-suc 2 n,
  bit_and_step x y,
  bit_and-lt n (x / 2) (y / 2) (omega (arith, pow-suc 2 n)),
)

-- A word that is not 0 has a bit set.
set_bit_below : (n x : ℕ) → x ≤ n → x ≢ 0 → (k : ℕ) × (bit k x ≡ true)
set_bit_below zero x h nz = absurd (nz (omega arith))
set_bit_below (suc n) x h nz = elim (Bool-cases (x % 2 == 1)) [
  | inl odd ↦ (0, odd)
  | inr even ↦
      let (k, found) = set_bit_below n (x / 2) (omega arith) (ground arith) in (suc k, found)
]

pub set_bit : (x : ℕ) → x ≢ 0 → (k : ℕ) × (bit k x ≡ true)
set_bit x = set_bit_below x x (omega arith)

-- Two words meet when they share a bit.
pub meet_iff :
    (x y : ℕ) → ((bit_and x y == 0) ≡ false) ↔ ((k : ℕ) × (bit k x ≡ true) × (bit k y ≡ true))
meet_iff x y = (shared, met)
  where
    shared : (bit_and x y == 0) ≡ false → (k : ℕ) × (bit k x ≡ true) × (bit k y ≡ true)
    shared h =
        let (k, both) = set_bit (bit_and x y) (ground arith) in
        (k, ground (arith, bit-bit_and k x y), ground (arith, bit-bit_and k x y))

    met : (k : ℕ) × (bit k x ≡ true) × (bit k y ≡ true) → (bit_and x y == 0) ≡ false
    met (k, hx, hy) = elim (Bool-cases (bit_and x y == 0)) [
      | inl z ↦
          let e : bit_and x y ≡ 0 = ground arith in
          absurd (ground (arith, rw e at (bit-bit_and k x y), bit-zero k))
      | inr nz ↦ nz
    ]

-- Whether the single bit k is set, as the code asks it: `x & (1 << k) != 0`.
pub bit_and-pow : (x k : ℕ) → (bit_and x (2 ^ k) == 0) ≡ not (bit k x)
bit_and-pow x k = elim (Bool-cases (bit k x)) [
  | inl on ↦ rw on ((meet_iff x (2 ^ k)).1 (k, on, bit-pow k k ∙ ==_refl k))
  | inr off ↦ rw off (elim (Bool-cases (bit_and x (2 ^ k) == 0)) [
    | inl z ↦ z
    | inr nz ↦
        let (j, hx, hp) = (meet_iff x (2 ^ k)).0 nz in
        let same : j ≡ k = ground (arith, bit-pow j k) in absurd (ground (arith, rw same at hx))
  ])
]

-- `u64::MAX` has every bit.
pub all_ones : (k : ℕ) → k < 64 → bit k (2 ^ 64 - 1) ≡ true
all_ones k h = ground (arith, bit-complement 64 k 0 h, bit-zero k)
