-- ===== src/ZfsCore/Allocator/Calls.antt =====
-- What every call does to the set of allocated blocks.
use zero_os.Common.{
  ℕ, Bool, if◌then◌else◌, ◌+◌, ◌-◌, ◌<◌, ◌≡◌, inl, inr, true, false, not, ◌||◌, ◌&&◌, ◌==◌, leb,
  ltb, Bool-cases, arith,
}
use zero_os.Common.Result.{Result, ok, err}
use zero_os.Bitmap.{busy, busy-set_bit, busy-clear_bit}
use zero_os.ZfsCore.Allocator.{
  BlockAllocator, AllocError, out_of_bounds, double_alloc, not_allocated, in_range, is_allocated,
  free, mark_used,
}
use zero_os.ZfsCore.Allocator.Invariant.{
  IsAllocator, taken, returned, taken-IsAllocator, returned-IsAllocator, in_bitmap,
}

pub in_range_lem :
    (a : BlockAllocator) (block : ℕ)
    → IsAllocator a
    → in_range a block ≡ (leb a.base block && ltb (block - a.base) a.total)
unfolding in_range
in_range_lem a block v = let fits = v.fits in ground arith

pub is_allocated-taken :
    (a : BlockAllocator) (i block : ℕ)
    → IsAllocator a
    → i < a.total
    → is_allocated (taken a i) block ≡ (block == a.base + i || is_allocated a block)
unfolding is_allocated in_range
is_allocated-taken a i block v h =
    let fits = v.fits in
    ground (arith, busy-set_bit a.bitmap i (block - a.base) (in_bitmap a i v h))

pub is_allocated-returned :
    (a : BlockAllocator) (i block : ℕ)
    → IsAllocator a
    → i < a.total
    → is_allocated (returned a i) block ≡ (not (block == a.base + i) && is_allocated a block)
unfolding is_allocated in_range
is_allocated-returned a i block v h =
    let fits = v.fits in
    ground (arith, busy-clear_bit a.bitmap i (block - a.base) v.words (in_bitmap a i v h))

-- Block `block` changes hands, and no other: `now` says whether it is allocated afterwards.
pub record Moves (a left : BlockAllocator) (block : ℕ) (now : Bool) : Type 0 where
  pub book : IsAllocator left
  pub allocated :
      (other : ℕ) → is_allocated left other ≡ (if other == block then now else is_allocated a other)

pub taken-Moves :
    (a : BlockAllocator) (block : ℕ)
    → IsAllocator a
    → in_range a block ≡ true
    → is_allocated a block ≡ false
    → Moves a (taken a (block - a.base)) block true
unfolding is_allocated
taken-Moves a block v inside free' =
    let range = in_range_lem a block v in
    record {
      book = taken-IsAllocator a (block - a.base) v (ground arith) (ground arith);
      allocated =
          λ other. moved other (is_allocated-taken a (block - a.base) other v (ground arith));
    }
  where
    moved :
        (other : ℕ)
        → is_allocated (taken a (block - a.base)) other
          ≡ (other == a.base + (block - a.base) || is_allocated a other)
        → is_allocated (taken a (block - a.base)) other
          ≡ (if other == block then true else is_allocated a other)
    moved other e = let range = in_range_lem a block v in ground arith

pub returned-Moves :
    (a : BlockAllocator) (block : ℕ)
    → IsAllocator a
    → in_range a block ≡ true
    → busy a.bitmap (block - a.base) ≡ true
    → Moves a (returned a (block - a.base)) block false
returned-Moves a block v inside used =
    let range = in_range_lem a block v in
    record {
      book = returned-IsAllocator a (block - a.base) v (ground arith) used;
      allocated =
          λ other. moved other (is_allocated-returned a (block - a.base) other v (ground arith));
    }
  where
    moved :
        (other : ℕ)
        → is_allocated (returned a (block - a.base)) other
          ≡ (not (other == a.base + (block - a.base)) && is_allocated a other)
        → is_allocated (returned a (block - a.base)) other
          ≡ (if other == block then false else is_allocated a other)
    moved other e = let range = in_range_lem a block v in ground arith

-- The outcome of a strict release or reservation: an error that leaves everything alone, because the
-- block is out of range or already in the state asked for, or the block changes hands.
pub data Settles (a : BlockAllocator) (block : ℕ) (clash : AllocError) (now : Bool)
    : Result AllocError (Unit {0}) × BlockAllocator → Type 0 where
  outside : in_range a block ≡ false → Settles a block clash now (err out_of_bounds, a)
  already :
      in_range a block ≡ true
      → is_allocated a block ≡ now
      → Settles a block clash now (err clash, a)
  settled :
      (left : BlockAllocator)
      → is_allocated a block ≡ not now
      → Moves a left block now
      → Settles a block clash now (ok tt, left)

-- A strict release succeeds exactly on an allocated block, which alone becomes free; a block that is
-- out of range or free already is an error and changes nothing.
pub free-Settles :
    (a : BlockAllocator) (block : ℕ)
    → IsAllocator a
    → Settles a block not_allocated false (free a block)
unfolding free is_allocated
free-Settles a block v = elim (Bool-cases (in_range a block)) [
  | inl inside ↦ elim (Bool-cases (busy a.bitmap (block - a.base))) [
    | inl used ↦
        rw (inside, used)
          (settled (returned a (block - a.base)) (ground arith)
            (returned-Moves a block v inside used))
    | inr clear ↦ rw (inside, clear) (already inside (ground arith))
  ]
  | inr off ↦ rw off (outside off)
]

-- A strict reservation succeeds exactly on a free block in range, which alone becomes allocated.
pub mark_used-Settles :
    (a : BlockAllocator) (block : ℕ)
    → IsAllocator a
    → Settles a block double_alloc true (mark_used a block)
unfolding mark_used is_allocated
mark_used-Settles a block v = elim (Bool-cases (in_range a block)) [
  | inl inside ↦ elim (Bool-cases (busy a.bitmap (block - a.base))) [
    | inl used ↦ rw (inside, used) (already inside (ground arith))
    | inr clear ↦
        rw (inside, clear)
          (settled (taken a (block - a.base)) (ground arith)
            (taken-Moves a block v inside (ground arith)))
  ]
  | inr off ↦ rw off (outside off)
]
