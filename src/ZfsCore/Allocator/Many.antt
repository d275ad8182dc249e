-- ===== src/ZfsCore/Allocator/Many.antt =====
-- Batches of blocks, and an allocation that is given back.
use zero_os.Common.{
  ℕ, zero, suc, ◌+◌, ◌-◌, ◌<◌, ◌≡◌, ◌∙◌, refl, inl, inr, Bool, true, false, ◌||◌, min, List, [],
  ◌∷◌, ◌==◌, length, All, All-imp, Bool-cases, arith,
}
use zero_os.Common.Retain.{any}
use zero_os.Common.Result.{ok}
use zero_os.Bitmap.{busy, busy-set_bit, clear_bit-set_bit}
use zero_os.ZfsCore.Allocator.{
  BlockAllocator, allocate, allocate_many, push_block, in_range, is_allocated, free,
}
use zero_os.ZfsCore.Allocator.Invariant.{IsAllocator, taken, taken-IsAllocator, in_bitmap}
use zero_os.ZfsCore.Allocator.Allocate.{exhausted, granted, allocate_lem}
use zero_os.ZfsCore.Allocator.Calls.{in_range_lem, is_allocated-taken}

abbrev pub mem : ℕ → List ℕ → Bool
mem block = any (λ x. x == block)

abbrev pub Distinct : List ℕ → Type 0
Distinct [] = Unit
Distinct (b ∷ bs) = (mem b bs ≡ false) × Distinct bs

-- What a batch of `count` blocks from `a` is: as many as there are, each free before, no block
-- twice, and exactly these are allocated in addition afterwards.
pub record Batch (a : BlockAllocator) (count : ℕ) (blocks : List ℕ) (left : BlockAllocator)
    : Type 0 where
  pub book : IsAllocator left
  pub counted : length blocks ≡ min count a.free
  pub rest : left.free ≡ a.free - count
  pub fresh : All (λ b. is_allocated a b ≡ false) blocks
  pub distinct : Distinct blocks
  pub allocated : (b : ℕ) → is_allocated left b ≡ (mem b blocks || is_allocated a b)

apart :
    (a : BlockAllocator) (y : ℕ) (bs : List ℕ)
    → All (λ b. is_allocated a b ≡ false) bs
    → is_allocated a y ≡ true
    → mem y bs ≡ false
unfolding any
apart a y [] f u = refl
apart a y (b ∷ bs) f u = elim (Bool-cases (b == y)) [
  | inl same ↦ let e : b ≡ y = ground arith in absurd (ground (arith, rw e at (f.0)))
  | inr other ↦ ground (arith, apart a y bs f.1 u)
]

empty-Batch :
    (a : BlockAllocator) (count : ℕ) → IsAllocator a → min count a.free ≡ 0 → Batch a count [] a
unfolding any
empty-Batch a count v e = record {
  book = v;
  counted = omega arith;
  rest = omega arith;
  fresh = tt;
  distinct = tt;
  allocated = λ b. refl;
}

cons-Batch :
    (a : BlockAllocator) (count i : ℕ) (blocks : List ℕ) (left : BlockAllocator)
    → IsAllocator a
    → i < a.total
    → busy a.bitmap i ≡ false
    → 0 < a.free
    → Batch (taken a i) count blocks left
    → Batch a (suc count) ((a.base + i) ∷ blocks) left
unfolding any is_allocated
cons-Batch a count i blocks left v h clear some' t =
    let now : (b : ℕ) → is_allocated (taken a i) b ≡ (b == a.base + i || is_allocated a b) =
      λ b. is_allocated-taken a i b v h in
    record {
      book = t.book;
      counted = omega (arith, t.counted);
      rest = omega (arith, t.rest);
      fresh = (first, All-imp (λ b e. ground (arith, now b, e)) blocks t.fresh);
      distinct = (
        apart (taken a i) (a.base + i) blocks t.fresh (ground (arith, now (a.base + i))),
        t.distinct,
      );
      allocated = λ b. ground (arith, now b, t.allocated b);
    }
  where
    first : is_allocated a (a.base + i) ≡ false
    first = let back : a.base + i - a.base ≡ i = omega arith in rw back (ground (arith, clear))

-- A batch is as large as asked for or as there are free blocks; its blocks were free and differ from
-- each other, and exactly they are allocated in addition afterwards.
pub allocate_many-Batch :
    (a : BlockAllocator) (count : ℕ)
    → IsAllocator a
    → Batch a count (allocate_many a count).0 (allocate_many a count).1
unfolding allocate_many push_block
allocate_many-Batch a zero v = empty-Batch a 0 v (omega arith)
allocate_many-Batch a (suc count) v = elim (allocate_lem a v) [
  | exhausted none' e ↦ rw e (empty-Batch a (suc count) v (omega arith))
  | granted i h clear lower left e ↦ rw e (
      cons-Batch a count i (allocate_many (taken a i) count).0 (allocate_many (taken a i) count).1 v
        h clear left (allocate_many-Batch (taken a i) count (taken-IsAllocator a i v h clear)))
]

-- A block that is allocated and given back leaves the allocator, its bitmap and count included, as
-- it was.
pub free-allocate :
    (a left : BlockAllocator) (block : ℕ)
    → IsAllocator a
    → allocate a ≡ (ok block, left)
    → free left block ≡ (ok tt, a)
unfolding free
free-allocate a left block v e = elim (allocate_lem a v) [
  | exhausted none' failed ↦ absurd (cc)
  | granted i h clear lower some' done ↦
      let same : a.base + i ≡ block = cc in
      let after : taken a i ≡ left = cc in rw (← same, ← after) (given_back i h clear some')
]
  where
    given_back :
        (i : ℕ)
        → i < a.total
        → busy a.bitmap i ≡ false
        → 0 < a.free
        → free (taken a i) (a.base + i) ≡ (ok tt, a)
    given_back i h clear some' =
        let inside : in_range (taken a i) (a.base + i) ≡ true =
          in_range_lem (taken a i) (a.base + i) (taken-IsAllocator a i v h clear) ∙ ground arith in
        let back : a.base + i - a.base ≡ i = omega arith in
        let used = busy-set_bit a.bitmap i i (in_bitmap a i v h) in
        let on : busy (taken a i).bitmap i ≡ true = ground (arith, used) in
        let count : a.free - 1 + 1 ≡ a.free = omega arith in
        rw (inside, back, on, clear_bit-set_bit a.bitmap i v.words (in_bitmap a i v h) clear, count)
          refl
