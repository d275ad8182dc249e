-- ===== src/Bitmap/Counting.antt =====
-- How many positions below a bound are free.
use zero_os.Common.{
  ℕ, zero, suc, ◌-◌, ltb, ◌≤◌, ◌<◌, ◌≡◌, refl, ◌≢◌, inl, inr, Bool, true, false, ◌||◌, ◌==◌,
  if◌then◌else◌, Bool-cases, arith,
}

pub clear_below : (ℕ → Bool) → ℕ → ℕ
clear_below p zero = 0
clear_below p (suc n) = let rest = clear_below p n in if p n then rest else suc rest

pub clear_below-same :
    (p q : ℕ → Bool) (n : ℕ) → ((j : ℕ) → j < n → q j ≡ p j) → clear_below q n ≡ clear_below p n
unfolding clear_below
clear_below-same p q zero h = refl
clear_below-same p q (suc n) h =
    ground (arith, h n (omega arith), clear_below-same p q n (λ j l. h j (omega arith)))

-- Taking one free position costs one.
pub clear_below-taken :
    (p q : ℕ → Bool) (i n : ℕ)
    → ((j : ℕ) → q j ≡ (j == i || p j))
    → p i ≡ false
    → i < n
    → clear_below p n ≡ suc (clear_below q n)
unfolding clear_below
clear_below-taken p q i zero h free lt = elim lt [ ]
clear_below-taken p q i (suc n) h free lt = elim (Bool-cases (n == i)) [
  | inl last ↦
      let e : n ≡ i = ground arith in
      let same = clear_below-same p q n (λ j l. ground (arith, h j)) in
      ground (arith, h n, rw (← e) at free)
  | inr before ↦ ground (arith, h n, clear_below-taken p q i n h free (ground arith))
]

pub clear_below-le : (p : ℕ → Bool) (n : ℕ) → clear_below p n ≤ n
unfolding clear_below
clear_below-le p zero = omega arith
clear_below-le p (suc n) = ground (arith, clear_below-le p n)

pub clear_below-all : (p : ℕ → Bool) (n : ℕ) → ((j : ℕ) → j < n → p j ≡ false) → clear_below p n ≡ n
unfolding clear_below
clear_below-all p zero h = refl
clear_below-all p (suc n) h =
    ground (arith, h n (omega arith), clear_below-all p n (λ j l. h j (omega arith)))

-- A count that is not 0 has a free position, and a count of 0 has none.
pub clear_below-found :
    (p : ℕ → Bool) (n : ℕ) → clear_below p n ≢ 0 → (i : ℕ) × (i < n) × (p i ≡ false)
unfolding clear_below
clear_below-found p zero h = absurd (h refl)
clear_below-found p (suc n) h = elim (Bool-cases (p n)) [
  | inl used ↦ let (i, l, free) = clear_below-found p n (ground arith) in (i, omega arith, free)
  | inr free ↦ (n, omega arith, free)
]

pub clear_below-none : (p : ℕ → Bool) (n i : ℕ) → clear_below p n ≡ 0 → i < n → p i ≡ true
unfolding clear_below
clear_below-none p zero i e lt = elim lt [ ]
clear_below-none p (suc n) i e lt = elim (Bool-cases (i == n)) [
  | inl last ↦ let same : i ≡ n = ground arith in rw same (ground arith)
  | inr before ↦ ground (arith, clear_below-none p n i)
]

-- Where exactly the first n positions are in use.
pub clear_below-reserved :
    (q : ℕ → Bool) (n m : ℕ) → ((j : ℕ) → q j ≡ ltb j n) → clear_below q m ≡ m - n
unfolding clear_below
clear_below-reserved q n zero h = omega arith
clear_below-reserved q n (suc m) h = ground (arith, h m, clear_below-reserved q n m h)
