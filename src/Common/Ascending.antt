-- ===== src/Common/Ascending.antt =====
-- Lists whose keys grow from left to right: new keys go to the end, and rows are only taken out.
use Prim.Native.Nat.{ℕ, suc, ◌≤◌, ◌<◌}
use mathlib.Core.Path.{◌≡◌, refl}
use mathlib.Core.Bool.{Bool, not}
use mathlib.Core.List.{List, [], ◌∷◌, ◌++◌}
use native.Mathlib.Omega.{arith}
use zero_os.Common.Tests.{◌==◌}
use zero_os.Common.Lists.{All}
use zero_os.Common.Retain.{retain}

module _ {ℓ} {A : Type ℓ} (key : A → ℕ) where
  -- The keys are at least `lo`, and each is greater than the one before.
  abbrev pub Ascending : ℕ → List A → Type 0
  Ascending lo [] = Unit
  Ascending lo (x ∷ xs) = (lo ≤ key x) × Ascending (suc (key x)) xs

  pub Ascending-weaken : (lo hi : ℕ) (xs : List A) → lo ≤ hi → Ascending hi xs → Ascending lo xs
  Ascending-weaken lo hi [] h a = tt
  Ascending-weaken lo hi (x ∷ xs) h a = (omega arith, a.1)

  pub Ascending-retain :
      (keep : A → Bool) (lo : ℕ) (xs : List A) → Ascending lo xs → Ascending lo (retain keep xs)
  unfolding retain
  Ascending-retain keep lo [] a = tt
  Ascending-retain keep lo (x ∷ xs) a = ground (
    arith,
    Ascending-retain keep (suc (key x)) xs a.1,
    Ascending-weaken lo (suc (key x)) (retain keep xs),
  )

  pub Ascending-snoc :
      (lo : ℕ) (xs : List A) (y : A)
      → lo ≤ key y
      → All (λ x. key x < key y) xs
      → Ascending lo xs
      → Ascending lo (xs ++ y ∷ [])
  Ascending-snoc lo [] y h below a = (h, tt)
  Ascending-snoc lo (x ∷ xs) y h below a =
      (a.0, Ascending-snoc (suc (key x)) xs y below.0 below.1 a.1)

  -- Keys below the list's least are not in it.
  pub retain_below :
      (k lo : ℕ) (xs : List A) → k < lo → Ascending lo xs → retain (λ x. not (key x == k)) xs ≡ xs
  unfolding retain
  retain_below k lo [] h a = refl
  retain_below k lo (x ∷ xs) h a = ground (arith, retain_below k (suc (key x)) xs)
