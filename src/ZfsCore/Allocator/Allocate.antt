-- ===== src/ZfsCore/Allocator/Allocate.antt =====
-- What `allocate` and `allocate_many` give out.
use zero_os.Common.{
  ℕ, ◌+◌, ◌*◌, ◌/◌, ◌%◌, ◌≤◌, ◌<◌, ◌≡◌, refl, inl, inr, true, false, some, ◌==◌, ltb, Bool-cases,
  arith,
}
use zero_os.Common.Result.{ok, err}
use zero_os.Bitmap.{busy, set_bit}
use zero_os.Bitmap.Counting.{clear_below-found}
use zero_os.ZfsCore.Allocator.{BlockAllocator, no_space, take_bit, allocate}
use zero_os.ZfsCore.Allocator.Invariant.{IsAllocator, taken}
use zero_os.ZfsCore.Allocator.FirstFree.{first_free_lem}

-- The outcome of an allocation: nothing is free, or the lowest free block is taken.
pub data Allocates (a : BlockAllocator) : Type 0 where
  exhausted : a.free ≡ 0 → allocate a ≡ (err no_space, a) → Allocates a
  granted :
      (i : ℕ)
      → i < a.total
      → busy a.bitmap i ≡ false
      → ((j : ℕ) → j < i → busy a.bitmap j ≡ true)
      → 0 < a.free
      → allocate a ≡ (ok (a.base + i), taken a i)
      → Allocates a

take_bit_lem :
    (a : BlockAllocator) (k b : ℕ)
    → IsAllocator a
    → b < 64
    → k * 64 + b < a.total
    → take_bit a (some (k, b)) ≡ (ok (a.base + (k * 64 + b)), taken a (k * 64 + b))
unfolding take_bit set_bit
take_bit_lem a k b v h lt =
    let q : (k * 64 + b) / 64 ≡ k = omega arith in
    let r : (k * 64 + b) % 64 ≡ b = omega arith in let fits = v.fits in rw (q, r) (ground arith)

-- An allocation fails only when no block is free, and otherwise takes the lowest free block, which
-- lies in the range of the allocator; it never runs out of bounds.
pub allocate_lem : (a : BlockAllocator) → IsAllocator a → Allocates a
unfolding allocate
allocate_lem a v = elim (Bool-cases (a.free == 0)) [
  | inl nothing ↦ exhausted (ground arith) (rw nothing refl)
  | inr left ↦
      let (i, below, clear) =
        clear_below-found (busy a.bitmap) a.total (ground (arith, v.counted)) in
      let sized = v.sized in
      elim (first_free_lem a.bitmap 0 v.words) [
        | inl (none', all) ↦ absurd (ground (arith, all i))
        | inr (k, b, found, low) ↦
            let lowest : k * 64 + b ≤ i = at_most a i (k * 64 + b) clear low.lower in
            let lt : k * 64 + b < a.total = omega arith in
            let first : 0 + k ≡ k = omega arith in
            granted (k * 64 + b) lt low.clear low.lower (ground arith)
              (rw (left, found, first) (take_bit_lem a k b v low.in_word lt))
      ]
]
  where
    at_most :
        (a : BlockAllocator) (i n : ℕ)
        → busy a.bitmap i ≡ false
        → ((j : ℕ) → j < n → busy a.bitmap j ≡ true)
        → n ≤ i
    at_most a i n clear lower = elim (Bool-cases (ltb i n)) [
      | inl lt ↦ absurd (ground (arith, lower i))
      | inr ge ↦ ground arith
    ]
