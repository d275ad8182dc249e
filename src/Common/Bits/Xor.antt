-- ===== src/Common/Bits/Xor.antt =====
-- The exclusive or of two words stays a word.
use Prim.Native.Nat.{ℕ, zero, suc, ◌/◌, ◌%◌, ◌^◌, ◌≤◌, ◌<◌, bit_xor, differ}
use mathlib.Core.Path.{◌≡◌}
use native.Mathlib.Nat.{pow-suc}
use native.Mathlib.Omega.{arith}
use zero_os.Common.Bits.Steps.{bit_xor_step}

differ-le : (x y : ℕ) → x ≤ 1 → y ≤ 1 → differ x y ≤ 1
differ-le zero y hx hy = hy
differ-le (suc x) zero hx hy = hx
differ-le (suc x) (suc y) hx hy = differ-le x y (omega arith) (omega arith)

pub bit_xor-lt : (n x y : ℕ) → x < 2 ^ n → y < 2 ^ n → bit_xor x y < 2 ^ n
bit_xor-lt zero x y hx hy =
    let ex : x ≡ 0 = omega arith in let ey : y ≡ 0 = omega arith in rw (ex, ey) (omega arith)
bit_xor-lt (suc n) x y hx hy = omega (
  arith,
  pow-suc 2 n,
  bit_xor_step x y,
  differ-le (x % 2) (y % 2) (omega arith) (omega arith),
  bit_xor-lt n (x / 2) (y / 2) (omega (arith, pow-suc 2 n)) (omega (arith, pow-suc 2 n)),
)
