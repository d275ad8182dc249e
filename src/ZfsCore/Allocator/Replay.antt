-- ===== src/ZfsCore/Allocator/Replay.antt =====
-- The calls of a journal replay may be repeated, and all histories of calls keep the invariant.
use zero_os.Common.{ℕ, ◌-◌, ◌≡◌, refl, inl, inr, true, false, List, [], ◌∷◌, Bool-cases, arith}
use zero_os.Common.Result.{Result, ok, err}
use zero_os.Bitmap.{busy, busy-set_bit, busy-clear_bit}
use zero_os.ZfsCore.Allocator.{
  BlockAllocator, out_of_bounds, allocate, in_range, free, try_free, mark_used,
  mark_used_idempotent,
}
use zero_os.ZfsCore.Allocator.Invariant.{IsAllocator, taken, returned, in_bitmap}
use zero_os.ZfsCore.Allocator.Calls.{in_range_lem}

returned_is_clear :
    (a : BlockAllocator) (block : ℕ)
    → IsAllocator a
    → in_range a block ≡ true
    → busy (returned a (block - a.base)).bitmap (block - a.base) ≡ false
returned_is_clear a block v inside =
    let range = in_range_lem a block v in
    ground (
      arith,
      busy-clear_bit a.bitmap (block - a.base) (block - a.base) v.words
          (in_bitmap a (block - a.base) v (ground arith)),
    )

taken_is_busy :
    (a : BlockAllocator) (block : ℕ)
    → IsAllocator a
    → in_range a block ≡ true
    → busy (taken a (block - a.base)).bitmap (block - a.base) ≡ true
taken_is_busy a block v inside =
    let range = in_range_lem a block v in
    ground (
      arith,
      busy-set_bit a.bitmap (block - a.base) (block - a.base)
          (in_bitmap a (block - a.base) v (ground arith)),
    )

module _ (a : BlockAllocator) (block : ℕ) (inside : in_range a block ≡ true) where
  try_free-used :
      busy a.bitmap (block - a.base) ≡ true
      → try_free a block ≡ (ok tt, returned a (block - a.base))
  unfolding try_free
  try_free-used used = rw (inside, used) refl

  try_free-clear : busy a.bitmap (block - a.base) ≡ false → try_free a block ≡ (ok tt, a)
  unfolding try_free
  try_free-clear clear = rw (inside, clear) refl

  mark_idempotent-used :
      busy a.bitmap (block - a.base) ≡ true → mark_used_idempotent a block ≡ (ok tt, a)
  unfolding mark_used_idempotent
  mark_idempotent-used used = rw (inside, used) refl

  mark_idempotent-clear :
      busy a.bitmap (block - a.base) ≡ false
      → mark_used_idempotent a block ≡ (ok tt, taken a (block - a.base))
  unfolding mark_used_idempotent mark_used
  mark_idempotent-clear clear = rw (inside, clear) refl

outside_range :
    (a : BlockAllocator) (block : ℕ)
    → in_range a block ≡ false
    → (try_free a block ≡ (err out_of_bounds, a))
      × (mark_used_idempotent a block ≡ (err out_of_bounds, a))
unfolding try_free mark_used_idempotent
outside_range a block off = (rw off refl, rw off refl)

-- A replayed release and a replayed reservation may be repeated: the second call has the result of
-- the first and changes nothing.
pub replay_twice :
    (a : BlockAllocator) (block : ℕ)
    → IsAllocator a
    → (try_free (try_free a block).1 block ≡ try_free a block)
      × (mark_used_idempotent (mark_used_idempotent a block).1 block ≡ mark_used_idempotent a block)
unfolding in_range
replay_twice a block v = elim (Bool-cases (in_range a block)) [
  | inl inside ↦ elim (Bool-cases (busy a.bitmap (block - a.base))) [
    | inl used ↦ (
      rw (try_free-used a block inside used) (
          try_free-clear (returned a (block - a.base)) block inside
            (returned_is_clear a block v inside)),
      rw (mark_idempotent-used a block inside used) (mark_idempotent-used a block inside used),
    )
    | inr clear ↦ (
      rw (try_free-clear a block inside clear) (try_free-clear a block inside clear),
      rw (mark_idempotent-clear a block inside clear) (
          mark_idempotent-used (taken a (block - a.base)) block inside
            (taken_is_busy a block v inside)),
    )
  ]
  | inr off ↦ (
    rw ((outside_range a block off).0) (outside_range a block off).0,
    rw ((outside_range a block off).1) (outside_range a block off).1,
  )
]

-- The calls that change an allocator.
pub data Call : Type 0 where
  allocates : Call
  frees tries_free marks marks_idempotent : (block : ℕ) → Call

unfoldable pub step : BlockAllocator → Call → BlockAllocator
step a allocates = (allocate a).1
step a (frees block) = (free a block).1
step a (tries_free block) = (try_free a block).1
step a (marks block) = (mark_used a block).1
step a (marks_idempotent block) = (mark_used_idempotent a block).1

unfoldable pub run : BlockAllocator → List Call → BlockAllocator
run a [] = a
run a (c ∷ cs) = run (step a c) cs
