-- ===== src/Common/Pointwise.antt =====
-- Two lists related entry by entry, and what that carries from one to the other.
use mathlib.Core.Path.{◌≡◌, refl}
use mathlib.Core.Logic.{inl, inr}
use mathlib.Core.Bool.{Bool, true}
use mathlib.Core.List.{List, [], ◌∷◌}
use native.Mathlib.Omega.{arith}
use zero_os.Common.Tests.{Bool-cases}
use zero_os.Common.Lists.{All, length}
use zero_os.Common.Retain.{any}
use zero_os.Common.Vector.{Pairwise}

module _ {ℓ} {A : Type ℓ} where
  abbrev pub Pointwise : (A → A → Type 0) → List A → List A → Type 0
  Pointwise R [] [] = Unit
  Pointwise R [] (y ∷ ys) = ⊥
  Pointwise R (x ∷ xs) [] = ⊥
  Pointwise R (x ∷ xs) (y ∷ ys) = R x y × Pointwise R xs ys

  pub Pointwise-refl : (R : A → A → Type 0) → ((a : A) → R a a) → (xs : List A) → Pointwise R xs xs
  Pointwise-refl R same [] = tt
  Pointwise-refl R same (x ∷ xs) = (same x, Pointwise-refl R same xs)

  pub Pointwise-length :
      (R : A → A → Type 0) (xs ys : List A) → Pointwise R xs ys → length ys ≡ length xs
  Pointwise-length R [] [] p = refl
  Pointwise-length R [] (y ∷ ys) p = absurd p
  Pointwise-length R (x ∷ xs) [] p = absurd p
  Pointwise-length R (x ∷ xs) (y ∷ ys) p = omega (arith, Pointwise-length R xs ys p.1)

  pub Pointwise-All {μ ν} :
      (R : A → A → Type 0) {P : A → Type μ} {Q : A → Type ν}
      → ((a b : A) → R a b → P a → Q b)
      → (xs ys : List A) → Pointwise R xs ys
      → All P xs
      → All Q ys
  Pointwise-All R f [] [] p a = tt
  Pointwise-All R f [] (y ∷ ys) p a = absurd p
  Pointwise-All R f (x ∷ xs) [] p a = absurd p
  Pointwise-All R f (x ∷ xs) (y ∷ ys) p a = (f x y p.0 a.0, Pointwise-All R f xs ys p.1 a.1)

  pub Pointwise-Pairwise {μ} :
      (R : A → A → Type 0) (S : A → A → Type μ)
      → ((a b c d : A) → R a b → R c d → S a c → S b d)
      → (xs ys : List A) → Pointwise R xs ys
      → Pairwise S xs
      → Pairwise S ys
  Pointwise-Pairwise R S f [] [] p a = tt
  Pointwise-Pairwise R S f [] (y ∷ ys) p a = absurd p
  Pointwise-Pairwise R S f (x ∷ xs) [] p a = absurd p
  Pointwise-Pairwise R S f (x ∷ xs) (y ∷ ys) p a =
      (each xs ys p.1 a.0, Pointwise-Pairwise R S f xs ys p.1 a.1)
    where
      each : (us vs : List A) → Pointwise R us vs → All (S x) us → All (S y) vs
      each [] [] q b = tt
      each [] (v ∷ vs) q b = absurd q
      each (u ∷ us) [] q b = absurd q
      each (u ∷ us) (v ∷ vs) q b = (f x y u v p.0 q.0 b.0, each us vs q.1 b.1)

  pub Pointwise-any :
      (R : A → A → Type 0) (test : A → Bool)
      → ((a b : A) → R a b → test a ≡ true → test b ≡ true)
      → (xs ys : List A) → Pointwise R xs ys
      → any test xs ≡ true
      → any test ys ≡ true
  unfolding any
  Pointwise-any R test f [] [] p e = e
  Pointwise-any R test f [] (y ∷ ys) p e = absurd p
  Pointwise-any R test f (x ∷ xs) [] p e = absurd p
  Pointwise-any R test f (x ∷ xs) (y ∷ ys) p e = elim (Bool-cases (test x)) [
    | inl here ↦ rw (f x y p.0 here) refl
    | inr other ↦ ground (arith, Pointwise-any R test f xs ys p.1)
  ]

  pub Pointwise-imp :
      {R S : A → A → Type 0}
      → ((a b : A) → R a b → S a b)
      → (xs ys : List A) → Pointwise R xs ys
      → Pointwise S xs ys
  Pointwise-imp f [] [] p = tt
  Pointwise-imp f [] (y ∷ ys) p = absurd p
  Pointwise-imp f (x ∷ xs) [] p = absurd p
  Pointwise-imp f (x ∷ xs) (y ∷ ys) p = (f x y p.0, Pointwise-imp f xs ys p.1)
