-- ===== src/Common/Vector.antt =====
-- `Vec::swap_remove` at the position of the first entry that passes a test.
use Prim.Native.Nat.{suc, ◌≤◌}
use mathlib.Core.Path.{◌≡◌, refl, ap}
use mathlib.Core.Logic.{inl, inr}
use mathlib.Core.Bool.{Bool, true, false, ◌&&◌, ◌||◌}
use mathlib.Core.Option.{Option, none, some}
use mathlib.Core.List.{List, [], ◌∷◌, ◌++◌}
use native.Mathlib.Omega.{arith}
use zero_os.Common.Tests.{if◌then◌else◌, Bool-cases}
use zero_os.Common.Lists.{All, All-imp, All-append, length}
use zero_os.Common.Retain.{retain, any, retain-All}

module _ {ℓ} {A : Type ℓ} where
  -- The last of `x ∷ xs`, and what stands before it.
  unfoldable pub last_of : A → List A → A
  last_of x [] = x
  last_of x (y ∷ ys) = last_of y ys

  unfoldable pub before_last : A → List A → List A
  before_last x [] = []
  before_last x (y ∷ ys) = x ∷ before_last y ys

  -- The last entry takes the place of the one removed.
  unfoldable pub fill_gap : List A → List A
  fill_gap [] = []
  fill_gap (x ∷ xs) = last_of x xs ∷ before_last x xs

  -- `if let Some(i) = v.iter().position(test) { v.swap_remove(i) }`
  unfoldable pub swap_remove_first : (A → Bool) → List A → List A
  swap_remove_first test [] = []
  swap_remove_first test (x ∷ xs) = if test x then fill_gap xs else x ∷ swap_remove_first test xs

  -- The entry that is removed.
  unfoldable pub find : (A → Bool) → List A → Option A
  find test [] = none
  find test (x ∷ xs) = if test x then some x else find test xs

  -- No two entries are related.
  abbrev pub Pairwise {κ} : (A → A → Type κ) → List A → Type κ
  Pairwise R [] = Unit
  Pairwise R (x ∷ xs) = All (R x) xs × Pairwise R xs

  pub last-All {κ} :
      (P : A → Type κ) (x : A) (xs : List A)
      → P x
      → All P xs
      → P (last_of x xs) × All P (before_last x xs)
  unfolding last_of before_last
  last-All P x [] p a = (p, tt)
  last-All P x (y ∷ ys) p a = let rest = last-All P y ys a.0 a.1 in (rest.0, (p, rest.1))

  pub fill_gap-All {κ} : (P : A → Type κ) (xs : List A) → All P xs → All P (fill_gap xs)
  unfolding fill_gap
  fill_gap-All P [] a = tt
  fill_gap-All P (x ∷ xs) a = last-All P x xs a.0 a.1

  pub swap_remove_first-All {κ} :
      (P : A → Type κ) (test : A → Bool) (xs : List A)
      → All P xs
      → All P (swap_remove_first test xs)
  unfolding swap_remove_first
  swap_remove_first-All P test [] a = tt
  swap_remove_first-All P test (x ∷ xs) a = elim (Bool-cases (test x)) [
    | inl passes ↦ rw passes (fill_gap-All P xs a.1)
    | inr other ↦ rw other (a.0, swap_remove_first-All P test xs a.1)
  ]

  pub before_last-Pairwise {κ} :
      (R : A → A → Type κ) (x : A) (xs : List A)
      → ((a b : A) → R a b → R b a)
      → Pairwise R (x ∷ xs)
      → All (R (last_of x xs)) (before_last x xs) × Pairwise R (before_last x xs)
  unfolding last_of before_last
  before_last-Pairwise R x [] flip p = (tt, tt)
  before_last-Pairwise R x (y ∷ ys) flip p =
      let rest = before_last-Pairwise R y ys flip p.1 in
      let here = last-All (R x) y ys p.0.0 p.0.1 in ((flip x _ here.0, rest.0), (here.1, rest.1))

  pub fill_gap-Pairwise {κ} :
      (R : A → A → Type κ) (xs : List A)
      → ((a b : A) → R a b → R b a)
      → Pairwise R xs
      → Pairwise R (fill_gap xs)
  unfolding fill_gap
  fill_gap-Pairwise R [] flip p = tt
  fill_gap-Pairwise R (x ∷ xs) flip p = before_last-Pairwise R x xs flip p

  pub swap_remove_first-Pairwise {κ} :
      (R : A → A → Type κ) (test : A → Bool) (xs : List A)
      → ((a b : A) → R a b → R b a)
      → Pairwise R xs
      → Pairwise R (swap_remove_first test xs)
  unfolding swap_remove_first
  swap_remove_first-Pairwise R test [] flip p = tt
  swap_remove_first-Pairwise R test (x ∷ xs) flip p = elim (Bool-cases (test x)) [
    | inl passes ↦ rw passes (fill_gap-Pairwise R xs flip p.1)
    | inr other ↦
        rw other
          (swap_remove_first-All (R x) test xs p.0, swap_remove_first-Pairwise R test xs flip p.1)
  ]

  last-length : (x : A) (xs : List A) → length (before_last x xs) ≡ length xs
  unfolding before_last
  last-length x [] = refl
  last-length x (y ∷ ys) = ap suc (last-length y ys)

  pub swap_remove_first-length :
      (test : A → Bool) (xs : List A) → length (swap_remove_first test xs) ≤ length xs
  unfolding swap_remove_first fill_gap
  swap_remove_first-length test [] = omega arith
  swap_remove_first-length test (x ∷ xs) = elim (Bool-cases (test x)) [
    | inl passes ↦ rw passes (gap xs)
    | inr other ↦ rw other (omega (arith, swap_remove_first-length test xs))
  ]
    where
      gap : (ys : List A) → length (fill_gap ys) ≤ suc (length ys)
      gap [] = omega arith
      gap (y ∷ ys) = omega (arith, last-length y ys)

  -- What no entry passes removes nothing.
  pub swap_remove_first-missing :
      (test : A → Bool) (xs : List A) → find test xs ≡ none → swap_remove_first test xs ≡ xs
  unfolding swap_remove_first find
  swap_remove_first-missing test [] e = refl
  swap_remove_first-missing test (x ∷ xs) e = elim (Bool-cases (test x)) [
    | inl passes ↦ let e' : some x ≡ none = rw passes at (e) in cc
    | inr other ↦ rw other (ap (λ ys. x ∷ ys) (swap_remove_first-missing test xs (rw other at (e))))
  ]

  -- Where no two entries pass the test, the one removed was the only one.
  pub swap_remove_first-clears :
      (test : A → Bool) (xs : List A)
      → Pairwise (λ a b. (test a && test b) ≡ false) xs
      → All (λ a. test a ≡ false) (swap_remove_first test xs)
  unfolding swap_remove_first
  swap_remove_first-clears test [] p = tt
  swap_remove_first-clears test (x ∷ xs) p = elim (Bool-cases (test x)) [
    | inl passes ↦
        rw passes (fill_gap-All _ xs (All-imp (λ b alone. ground (arith, passes)) xs p.0))
    | inr other ↦ rw other (other, swap_remove_first-clears test xs p.1)
  ]

  any-last :
      (test : A → Bool) (x : A) (xs : List A)
      → (test (last_of x xs) || any test (before_last x xs)) ≡ any test (x ∷ xs)
  unfolding last_of before_last any
  any-last test x [] = refl
  any-last test x (y ∷ ys) = ground (arith, any-last test y ys)

  pub any-fill_gap : (test : A → Bool) (xs : List A) → any test (fill_gap xs) ≡ any test xs
  unfolding fill_gap any
  any-fill_gap test [] = refl
  any-fill_gap test (x ∷ xs) = any-last test x xs

  -- The entry removed does not pass the other test: that test still finds what it found.
  pub any-swap_remove_first :
      (test drop : A → Bool) (xs : List A)
      → All (λ a. (drop a && test a) ≡ false) xs
      → any test (swap_remove_first drop xs) ≡ any test xs
  unfolding swap_remove_first any
  any-swap_remove_first test drop [] a = refl
  any-swap_remove_first test drop (x ∷ xs) a = elim (Bool-cases (drop x)) [
    | inl passes ↦ rw passes (ground (arith, any-fill_gap test xs, a.0))
    | inr other ↦ rw other (ground (arith, any-swap_remove_first test drop xs a.1))
  ]

  -- The two parts of a condition on all entries.
  pub All-and {κ μ} :
      (P : A → Type κ) (Q : A → Type μ) (xs : List A)
      → All P xs
      → All Q xs
      → All (λ x. P x × Q x) xs
  All-and P Q [] a b = tt
  All-and P Q (x ∷ xs) a b = ((a.0, b.0), All-and P Q xs a.1 b.1)

  pub Pairwise-imp {κ μ} :
      {R : A → A → Type κ} {S : A → A → Type μ}
      → ((a b : A) → R a b → S a b)
      → (xs : List A) → Pairwise R xs
      → Pairwise S xs
  Pairwise-imp f [] p = tt
  Pairwise-imp f (x ∷ xs) p = (All-imp (f x) xs p.0, Pairwise-imp f xs p.1)

  pub Pairwise-snoc {κ} :
      (R : A → A → Type κ) (xs : List A) (y : A)
      → Pairwise R xs
      → All (λ x. R x y) xs
      → Pairwise R (xs ++ (y ∷ []))
  Pairwise-snoc R [] y p a = (tt, tt)
  Pairwise-snoc R (x ∷ xs) y p a =
      (All-append (R x) xs (y ∷ []) p.0 (a.0, tt), Pairwise-snoc R xs y p.1 a.1)

  pub retain-Pairwise {κ} :
      (R : A → A → Type κ) (keep : A → Bool) (xs : List A)
      → Pairwise R xs
      → Pairwise R (retain keep xs)
  unfolding retain
  retain-Pairwise R keep [] p = tt
  retain-Pairwise R keep (x ∷ xs) p = elim (Bool-cases (keep x)) [
    | inl kept ↦ rw kept (retain-All (R x) keep xs p.0, retain-Pairwise R keep xs p.1)
    | inr gone ↦ rw gone (retain-Pairwise R keep xs p.1)
  ]

  pub find-missing :
      (test : A → Bool) (xs : List A) → find test xs ≡ none → All (λ x. test x ≡ false) xs
  unfolding find
  find-missing test [] e = tt
  find-missing test (x ∷ xs) e = elim (Bool-cases (test x)) [
    | inl passes ↦ let e' : some x ≡ none = rw passes at (e) in cc
    | inr other ↦ (other, find-missing test xs (rw other at (e)))
  ]

  -- The entry found passes the test, has what all entries have, and is among them.
  pub find-found {κ} :
      (P : A → Type κ) (test : A → Bool) (xs : List A) (x : A)
      → find test xs ≡ some x
      → All P xs
      → (test x ≡ true) × P x × ((other : A → Bool) → other x ≡ true → any other xs ≡ true)
  unfolding find any
  find-found P test [] x e a = cc
  find-found P test (y ∷ ys) x e a = elim (Bool-cases (test y)) [
    | inl passes ↦
        let e' : some y ≡ some x = rw passes at (e) in
        let same : y ≡ x = cc in rw (← same) (passes, a.0, λ other h. rw h refl)
    | inr fails ↦
        let (t, p, among) = find-found P test ys x (rw fails at (e)) a.1 in
        (t, p, λ other h. ground (arith, among other h))
  ]

  pub any-imp :
      (test other : A → Bool) (xs : List A)
      → ((x : A) → test x ≡ true → other x ≡ true)
      → any test xs ≡ true
      → any other xs ≡ true
  unfolding any
  any-imp test other [] f e = cc
  any-imp test other (x ∷ xs) f e = elim (Bool-cases (test x)) [
    | inl passes ↦ rw (f x passes) refl
    | inr fails ↦ ground (arith, any-imp test other xs f (rw fails at (e)))
  ]

  -- The last entry, when it alone passes the test.
  pub swap_remove_first-last :
      (test : A → Bool) (xs : List A) (x : A)
      → All (λ a. test a ≡ false) xs
      → test x ≡ true
      → (find test (xs ++ (x ∷ [])) ≡ some x) × (swap_remove_first test (xs ++ (x ∷ [])) ≡ xs)
  unfolding swap_remove_first find fill_gap
  swap_remove_first-last test [] x a t = rw t (refl, refl)
  swap_remove_first-last test (y ∷ ys) x a t =
      let (found, left) = swap_remove_first-last test ys x a.1 t in
      rw (a.0) (found, ap (λ zs. y ∷ zs) left)
