-- ===== src/ZfsCore/Allocator/Invariant.antt =====
-- The invariant of a block allocator, and its two updates.
use zero_os.Common.{
  ℕ, ◌+◌, ◌*◌, ◌^◌, ◌%◌, inl, inr, ◌-◌, ◌/◌, ◌≤◌, ◌<◌, ◌≡◌, true, false, not, ◌&&◌, ◌||◌, ◌==◌,
  length, length-replicate, Bool-cases, arith,
}
use zero_os.Bitmap.{
  busy, set_bit, clear_bit, IsWords, set_bit-IsWords, clear_bit-IsWords, length-set_bit,
  length-clear_bit, busy-set_bit, busy-clear_bit, busy-zeros, zeros-IsWords,
}
use zero_os.Bitmap.Counting.{clear_below, clear_below-taken, clear_below-all}
use zero_os.ZfsCore.Allocator.{BlockAllocator, new}

-- The bitmap covers the blocks, the count of free blocks is that of its clear bits, and the block
-- numbers stay below 2 ^ 64.
pub record IsAllocator (a : BlockAllocator) : Type 0 where
  pub sized : a.total ≤ length a.bitmap * 64
  pub words : IsWords a.bitmap
  pub beyond : (i : ℕ) → a.total ≤ i → busy a.bitmap i ≡ false
  pub counted : a.free ≡ clear_below (busy a.bitmap) a.total
  pub fits : a.base + a.total < 2 ^ 64

pub new-IsAllocator :
    (base total : ℕ) → base + total < 2 ^ 64 → total + 63 < 2 ^ 64 → IsAllocator (new base total)
unfolding new
new-IsAllocator base total h plain =
    let words : (total + 63) % 2 ^ 64 / 64 ≡ (total + 63) / 64 = omega arith in
    rw words (record {
      sized = omega (arith, length-replicate {A = ℕ} ((total + 63) / 64) 0);
      words = zeros-IsWords ((total + 63) / 64);
      beyond = λ i l. busy-zeros ((total + 63) / 64) i;
      counted = omega (arith, clear_below-all _ total (λ j l. busy-zeros ((total + 63) / 64) j));
      fits = h;
    })

-- The allocator with position i taken, and with position i given back.
abbrev pub taken : BlockAllocator → ℕ → BlockAllocator
taken a i = record a { bitmap = set_bit a.bitmap i; free = a.free - 1 }

abbrev pub returned : BlockAllocator → ℕ → BlockAllocator
returned a i = record a { bitmap = clear_bit a.bitmap i; free = a.free + 1 }

pub in_bitmap :
    (a : BlockAllocator) (i : ℕ) → IsAllocator a → i < a.total → i / 64 < length a.bitmap
in_bitmap a i v h = omega (arith, v.sized)

pub taken-IsAllocator :
    (a : BlockAllocator) (i : ℕ)
    → IsAllocator a
    → i < a.total
    → busy a.bitmap i ≡ false
    → IsAllocator (taken a i)
taken-IsAllocator a i v h free =
    let inside = in_bitmap a i v h in
    record {
      sized = omega (arith, v.sized, length-set_bit a.bitmap i);
      words = set_bit-IsWords a.bitmap i v.words;
      beyond = λ j l. ground (arith, busy-set_bit a.bitmap i j inside, v.beyond j);
      counted = omega (
        arith,
        v.counted,
        clear_below-taken (busy a.bitmap) (busy (set_bit a.bitmap i)) i a.total
            (λ j. busy-set_bit a.bitmap i j inside) free h,
      );
      fits = v.fits;
    }

pub returned-IsAllocator :
    (a : BlockAllocator) (i : ℕ)
    → IsAllocator a
    → i < a.total
    → busy a.bitmap i ≡ true
    → IsAllocator (returned a i)
returned-IsAllocator a i v h used =
    let inside = in_bitmap a i v h in
    let cleared : (j : ℕ) → busy (clear_bit a.bitmap i) j ≡ (not (j == i) && busy a.bitmap j) =
      λ j. busy-clear_bit a.bitmap i j v.words inside in
    record {
      sized = omega (arith, v.sized, length-clear_bit a.bitmap i);
      words = clear_bit-IsWords a.bitmap i v.words;
      beyond = λ j l. ground (arith, cleared j, v.beyond j);
      counted = omega (
        arith,
        v.counted,
        clear_below-taken (busy (clear_bit a.bitmap i)) (busy a.bitmap) i a.total (λ j. back j)
            (ground (arith, cleared i)) h,
      );
      fits = v.fits;
    }
  where
    back : (j : ℕ) → busy a.bitmap j ≡ (j == i || busy (clear_bit a.bitmap i) j)
    back j = elim (Bool-cases (j == i)) [
      | inl same ↦ let e : j ≡ i = ground arith in rw e (ground (arith, used))
      | inr other ↦ ground (arith, busy-clear_bit a.bitmap i j v.words (in_bitmap a i v h))
    ]
