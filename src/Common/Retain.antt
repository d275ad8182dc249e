-- ===== src/Common/Retain.antt =====
-- `Vec::retain` and `iter().any`, with what holds of every entry before and after.
use Prim.Native.Nat.{◌≤◌}
use mathlib.Core.Path.{◌≡◌, refl}
use mathlib.Core.Logic.{inl, inr}
use mathlib.Core.Bool.{Bool, true, false, ◌||◌}
use mathlib.Core.List.{List, [], ◌∷◌, ◌++◌}
use native.Mathlib.Omega.{arith}
use zero_os.Common.Tests.{if◌then◌else◌, Bool-cases}
use zero_os.Common.Lists.{length, All}

module _ {ℓ} {A : Type ℓ} where
  unfoldable pub retain : (A → Bool) → List A → List A
  retain keep [] = []
  retain keep (x ∷ xs) = if keep x then x ∷ retain keep xs else retain keep xs

  unfoldable pub any : (A → Bool) → List A → Bool
  any test [] = false
  any test (x ∷ xs) = test x || any test xs

  pub length-retain-le : (keep : A → Bool) (xs : List A) → length (retain keep xs) ≤ length xs
  unfolding retain
  length-retain-le keep [] = omega arith
  length-retain-le keep (x ∷ xs) = ground (arith, length-retain-le keep xs)

  pub retain-All {κ} :
      (P : A → Type κ) (keep : A → Bool) (xs : List A) → All P xs → All P (retain keep xs)
  unfolding retain
  retain-All P keep [] a = tt
  retain-All P keep (x ∷ xs) a = ground (arith, retain-All P keep xs a.1)

  -- What is left passes the test.
  pub retain-kept : (keep : A → Bool) (xs : List A) → All (λ x. keep x ≡ true) (retain keep xs)
  unfolding retain
  retain-kept keep [] = tt
  retain-kept keep (x ∷ xs) = ground (arith, retain-kept keep xs)

  pub any-retain-le :
      (test keep : A → Bool) (xs : List A) → any test xs ≡ false → any test (retain keep xs) ≡ false
  unfolding retain any
  any-retain-le test keep [] e = refl
  any-retain-le test keep (x ∷ xs) e = ground (arith, any-retain-le test keep xs)

  -- No entry passes a test that finds none.
  pub any-All : (test : A → Bool) (xs : List A) → any test xs ≡ false → All (λ x. test x ≡ false) xs
  unfolding any
  any-All test [] e = tt
  any-All test (x ∷ xs) e = ground (arith, any-All test xs)

  pub All-any : (test : A → Bool) (xs : List A) → All (λ x. test x ≡ false) xs → any test xs ≡ false
  unfolding any
  All-any test [] a = refl
  All-any test (x ∷ xs) a = ground (arith, All-any test xs)

  pub any-append :
      (test : A → Bool) (xs ys : List A) → any test xs ≡ true → any test (xs ++ ys) ≡ true
  unfolding any
  any-append test [] ys e = cc
  any-append test (x ∷ xs) ys e = ground (arith, any-append test xs ys)

  -- What a test accepts is kept.
  pub any-retain :
      (test keep : A → Bool) (xs : List A)
      → ((x : A) → test x ≡ true → keep x ≡ true)
      → any test xs ≡ true
      → any test (retain keep xs) ≡ true
  unfolding any retain
  any-retain test keep [] f e = cc
  any-retain test keep (x ∷ xs) f e = elim (Bool-cases (test x)) [
    | inl here ↦ rw (f x here, here) refl
    | inr other ↦ elim (Bool-cases (keep x)) [
      | inl kept ↦ rw (kept, other) (any-retain test keep xs f (rw other at (e)))
      | inr gone ↦ rw gone (any-retain test keep xs f (rw other at (e)))
    ]
  ]
