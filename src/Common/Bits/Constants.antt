-- ===== src/Common/Bits/Constants.antt =====
-- The bits of a known 64-bit word, computed one by one.
use Prim.Native.Nat.{ℕ, zero, suc, ◌<◌}
use mathlib.Core.Path.{◌≡◌, refl}
use mathlib.Core.Bool.{Bool, true, false, not, ◌&&◌}
use mathlib.Core.Logic.{inl, inr}
use native.Mathlib.Omega.{arith}
use zero_os.Common.Tests.{◌==◌, Bool-cases}
use zero_os.Common.Bits.{bit}

-- A test of every number below n.
abbrev all_below : ℕ → (ℕ → Bool) → Bool
all_below zero test = true
all_below (suc n) test = test n && all_below n test

all_below_lem : (n k : ℕ) (test : ℕ → Bool) → all_below n test ≡ true → k < n → test k ≡ true
all_below_lem zero k test e h = absurd (omega arith)
all_below_lem (suc n) k test e h = elim (Bool-cases (k == n)) [
  | inl last ↦ let same : k ≡ n = ground (arith, last) in rw same (ground (arith, e))
  | inr before ↦ all_below_lem n k test (ground (arith, e)) (ground (arith, before))
]

-- Two Booleans are the same.
abbrev agree : Bool → Bool → Bool
agree true b = b
agree false b = not b

agree-eq : (a b : Bool) → agree a b ≡ true → a ≡ b
agree-eq true true e = refl
agree-eq true false e = cc
agree-eq false true e = cc
agree-eq false false e = refl

-- Bit k of a word of which the bits were computed one by one.
pub constant_bits :
    (word : ℕ) (shape : ℕ → Bool)
    → all_below 64 (λ k. agree (bit k word) (shape k)) ≡ true
    → (k : ℕ) → k < 64
    → bit k word ≡ shape k
constant_bits word shape e k h =
    agree-eq _ _ (all_below_lem 64 k (λ j. agree (bit j word) (shape j)) e h)
