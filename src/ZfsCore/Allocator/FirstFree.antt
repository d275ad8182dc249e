-- ===== src/ZfsCore/Allocator/FirstFree.antt =====
-- The search of `allocate` finds the lowest free position.
use zero_os.Common.{
  ℕ, zero, suc, ◌+◌, ◌*◌, ◌-◌, ◌/◌, ◌%◌, ◌^◌, ◌≤◌, ◌<◌, ◌≡◌, refl, ◌≢◌, ◌⊎◌, inl, inr, true, false,
  List, [], ◌∷◌, none, some, ◌==◌, ltb, ◌∙◌, length, Bool-cases, arith,
}
use native.Mathlib.Nat.{pow-suc}
use zero_os.Common.Bits.{bit, bit-complement, all_ones}
use zero_os.Bitmap.{word_max, busy, busy-bit, IsWords}
use zero_os.ZfsCore.Allocator.{trailing_zeros, first_free}

-- `trailing_zeros` is the lowest set bit.
trailing_zeros_lem :
    (width x : ℕ)
    → x ≢ 0
    → x < 2 ^ width
    → (trailing_zeros width x < width)
      × (bit (trailing_zeros width x) x ≡ true)
      × ((j : ℕ) → j < trailing_zeros width x → bit j x ≡ false)
unfolding trailing_zeros
trailing_zeros_lem zero x nz lt = absurd (nz (omega arith))
trailing_zeros_lem (suc width) x nz lt = elim (Bool-cases (x % 2 == 1)) [
  | inl odd ↦ rw odd (omega arith, odd, λ j l. absurd (omega arith))
  | inr even ↦
      let (below, set', lower) =
        trailing_zeros_lem width (x / 2) (ground arith) (omega (arith, pow-suc 2 width)) in
      rw even (omega arith, set', λ j l. shifted width j x even l lower)
]
  where
    shifted :
        (width j x : ℕ)
        → (x % 2 == 1) ≡ false
        → j < suc (trailing_zeros width (x / 2))
        → ((k : ℕ) → k < trailing_zeros width (x / 2) → bit k (x / 2) ≡ false)
        → bit j x ≡ false
    shifted width zero x even l lower = even
    shifted width (suc k) x even l lower = lower k (omega arith)

busy-first_word : (w i : ℕ) (ws : List ℕ) → i < 64 → busy (w ∷ ws) i ≡ bit i w
busy-first_word w i ws h =
    let q : i / 64 ≡ 0 = omega arith in
    let r : i % 64 ≡ i = omega arith in rw (busy-bit (w ∷ ws) i, q, r) refl

busy-next_word : (w i : ℕ) (ws : List ℕ) → busy (w ∷ ws) (64 + i) ≡ busy ws i
busy-next_word w i ws =
    let q : (64 + i) / 64 ≡ suc (i / 64) = omega arith in
    let r : (64 + i) % 64 ≡ i % 64 = omega arith in
    rw (busy-bit (w ∷ ws) (64 + i), busy-bit ws i, q, r) refl

busy-later_word : (w i : ℕ) (ws : List ℕ) → 64 ≤ i → busy (w ∷ ws) i ≡ busy ws (i - 64)
busy-later_word w i ws h =
    let e : i ≡ 64 + (i - 64) = omega arith in rw (← e) at (busy-next_word w (i - 64) ws)

busy-full_word :
    (n i : ℕ) (ws : List ℕ)
    → ((j : ℕ) → j < n → busy ws j ≡ true)
    → i < 64 + n
    → busy (word_max ∷ ws) i ≡ true
busy-full_word n i ws rest h = elim (Bool-cases (ltb i 64)) [
  | inl inside ↦ busy-first_word word_max i ws (ground arith) ∙ all_ones i (ground arith)
  | inr after ↦ busy-later_word word_max i ws (ground arith) ∙ rest (i - 64) (ground arith)
]

-- Position k * 64 + b is the lowest free one.
pub record Lowest (words : List ℕ) (k b : ℕ) : Type 0 where
  pub in_word : b < 64
  pub in_words : k < length words
  pub clear : busy words (k * 64 + b) ≡ false
  pub lower : (j : ℕ) → j < k * 64 + b → busy words j ≡ true

later-Lowest : (words : List ℕ) (k b : ℕ) → Lowest words k b → Lowest (word_max ∷ words) (suc k) b
later-Lowest words k b h =
    let e : suc k * 64 + b ≡ 64 + (k * 64 + b) = omega arith in
    record {
      in_word = h.in_word;
      in_words = omega (arith, h.in_words);
      clear = rw e (busy-next_word word_max (k * 64 + b) words ∙ h.clear);
      lower = λ j l. busy-full_word (k * 64 + b) j words h.lower (omega arith);
    }

here-Lowest :
    (w : ℕ) (words : List ℕ)
    → w < 2 ^ 64
    → (w == word_max) ≡ false
    → Lowest (w ∷ words) 0 (trailing_zeros 64 (word_max - w))
here-Lowest w words lt h =
    let b = trailing_zeros 64 (word_max - w) in
    let (below, set', lower) = trailing_zeros_lem 64 (word_max - w) (ground arith) (omega arith) in
    let e : 0 * 64 + trailing_zeros 64 (word_max - w) ≡ trailing_zeros 64 (word_max - w) =
      omega arith in
    record {
      in_word = below;
      in_words = omega arith;
      clear =
          rw e (
            busy-first_word w b words below ∙ ground (arith, bit-complement 64 b w below lt, set'));
      lower = λ j l.
          let l' : j < trailing_zeros 64 (word_max - w) = omega arith in
          busy-first_word w j words (omega (arith, below))
          ∙ ground (arith, bit-complement 64 j w (omega (arith, below)) lt, lower j l');
    }

-- The search finds the lowest free position, or every position is busy.
pub first_free_lem :
    (words : List ℕ) (index : ℕ)
    → IsWords words
    → ((first_free words index ≡ none) × ((j : ℕ) → j < length words * 64 → busy words j ≡ true))
      ⊎ ((k b : ℕ) × (first_free words index ≡ some (index + k, b)) × Lowest words k b)
unfolding first_free
first_free_lem [] index v = inl (refl, λ j l. absurd (omega arith))
first_free_lem (w ∷ words) index v = elim (Bool-cases (w == word_max)) [
  | inl full ↦
      let e : w ≡ word_max = ground arith in
      elim (first_free_lem words (suc index) v.1) [
        | inl (none', all) ↦ inl (
          rw full none',
          λ j l. rw e (busy-full_word (length words * 64) j words all (omega arith)),
        )
        | inr (k, b, found, low) ↦
            let shift : suc index + k ≡ index + suc k = omega arith in
            inr (suc k, b, rw (full, ← shift) found, rw e (later-Lowest words k b low))
      ]
  | inr open' ↦
      let same : index + 0 ≡ index = omega arith in
      inr
        (0, trailing_zeros 64 (word_max - w), rw (open', same) refl, here-Lowest w words v.0 open')
]
