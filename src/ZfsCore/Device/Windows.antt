-- ===== src/ZfsCore/Device/Windows.antt =====
-- A range of a list, when the list grows at its end or another range is overwritten.
use native.Mathlib.Nat.{suc-add, zero-add}
use mathlib.Core.List.{append_assoc}
use zero_os.Common.{
  ℕ, zero, suc, ◌+◌, ◌-◌, ◌≤◌, ◌≡◌, refl, sym, ap, ◌∙◌, List, [], ◌∷◌, ◌++◌, length, length-append,
  length-take, take, drop, take-drop, drop-append, arith,
}

module _ {A : Type 0} where
  abbrev pub window : ℕ → ℕ → List A → List A
  window p n xs = take n (drop p xs)

  take-within : (n : ℕ) (xs ys : List A) → n ≤ length xs → take n (xs ++ ys) ≡ take n xs
  take-within zero xs ys h = refl
  take-within (suc n) [] ys h = absurd (omega arith)
  take-within (suc n) (x ∷ xs) ys h = ap (λ zs. x ∷ zs) (take-within n xs ys (omega arith))

  pub window-append :
      (p n : ℕ) (xs ys : List A) → p + n ≤ length xs → window p n (xs ++ ys) ≡ window p n xs
  window-append zero n xs ys h = take-within n xs ys (omega arith)
  window-append (suc p) zero xs ys h = refl
  window-append (suc p) (suc n) [] ys h = absurd (omega arith)
  window-append (suc p) (suc n) (x ∷ xs) ys h = window-append p (suc n) xs ys (omega arith)

  drop-nil : (n : ℕ) → ◌≡◌ {A = List A} (drop n []) []
  drop-nil zero = refl
  drop-nil (suc n) = refl

  drop-drop : (n q : ℕ) (xs : List A) → drop (n + q) xs ≡ drop q (drop n xs)
  drop-drop zero q xs = ap (λ k. drop k xs) (zero-add q)
  drop-drop (suc n) q [] = drop-nil (suc n + q) ∙ sym (drop-nil q)
  drop-drop (suc n) q (x ∷ xs) = ap (λ k. drop k (x ∷ xs)) (suc-add n q) ∙ drop-drop n q xs

  -- A range before or behind the one that is overwritten.
  pub window-before :
      (p n o : ℕ) (xs ys : List A)
      → p + n ≤ o
      → o ≤ length xs
      → window p n (take o xs ++ ys) ≡ window p n xs
  window-before p n o xs ys h fits =
      let long : p + n ≤ length (take o xs) = omega (arith, length-take o xs) in
      window-append p n (take o xs) ys long
      ∙ sym (window-append p n (take o xs) (drop o xs) long)
      ∙ ap (window p n) (take-drop o xs)

  pub window-behind :
      (p n o : ℕ) (xs block : List A)
      → o + length block ≤ p
      → o ≤ length xs
      → window p n (take o xs ++ (block ++ drop (o + length block) xs)) ≡ window p n xs
  window-behind p n o xs block h fits =
      let m : ℕ = length block in
      let q : ℕ = p - (o + m) in
      let front : length (take o xs ++ block) ≡ o + m =
        omega (arith, length-append (take o xs) block, length-take o xs) in
      let place : p ≡ o + m + q = omega arith in
      ap (take n) (
        ap (drop p) (sym (append_assoc (take o xs) block (drop (o + m) xs)))
        ∙ ap (λ k. drop k ((take o xs ++ block) ++ drop (o + m) xs)) place
        ∙ drop-drop (o + m) q ((take o xs ++ block) ++ drop (o + m) xs)
        ∙ ap (λ k. drop q (drop k ((take o xs ++ block) ++ drop (o + m) xs))) (sym front)
        ∙ ap (drop q) (drop-append (take o xs ++ block) (drop (o + m) xs))
        ∙ sym (drop-drop (o + m) q xs)
        ∙ ap (λ k. drop k xs) (sym place))
