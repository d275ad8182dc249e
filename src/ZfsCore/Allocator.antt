-- ===== src/ZfsCore/Allocator.antt =====
-- libs/zfs-core/src/allocator.rs: the block allocator of a volume (`BlockAllocator`). Block numbers
-- are u64; `checked_add` and `saturating_add` are written out.
pub mod Invariant
pub mod FirstFree
pub mod Allocate
pub mod Calls
pub mod Replay
pub mod Many
mod Tests
use Prim.Native.Nat.{bit_and, bit_or}
use zero_os.Common.{
  ℕ, zero, suc, ◌+◌, ◌*◌, ◌-◌, ◌/◌, ◌%◌, ◌^◌, Bool, true, false, not, ◌&&◌, min, List, [], ◌∷◌,
  Option, none, some, ◌==◌, ltb, leb, if◌then◌else◌, get_or, set, replicate,
}
use zero_os.Common.Result.{Result, ok, err}
use zero_os.Bitmap.{word_max, busy, set_bit, clear_bit}

pub data AllocError : Type 0 where
  no_space out_of_bounds double_alloc not_allocated : AllocError

pub record BlockAllocator : Type 0 where
  pub base : ℕ
  pub total : ℕ
  pub free : ℕ
  pub bitmap : List ℕ

-- The snapshot has the same four fields.
pub record AllocatorSnapshot : Type 0 where
  pub base : ℕ
  pub total : ℕ
  pub bitmap : List ℕ
  pub free : ℕ

unfoldable pub new : ℕ → ℕ → BlockAllocator
new base total = record {
  base = base;
  total = total;
  free = total;
  bitmap = replicate ((total + 63) % 2 ^ 64 / 64) 0;
}

abbrev pub saturating_add : ℕ → ℕ → ℕ
saturating_add x y = min (x + y) word_max

unfoldable pub in_range : BlockAllocator → ℕ → Bool
in_range a block = leb a.base block && ltb block (saturating_add a.base a.total)

-- `x.trailing_zeros()`, for a word of `width` bits.
unfoldable pub trailing_zeros : ℕ → ℕ → ℕ
trailing_zeros zero x = 0
trailing_zeros (suc width) x = if x % 2 == 1 then 0 else suc (trailing_zeros width (x / 2))

-- The loop of `allocate`: the first word that is not full, and its lowest free bit.
unfoldable pub first_free : List ℕ → ℕ → Option (ℕ × ℕ)
first_free [] index = none
first_free (word ∷ words) index =
    let rest = first_free words (suc index) in
    if word == word_max then rest else some (index, trailing_zeros 64 (word_max - word))

-- The rest of the loop's body, once a free bit is found: the two bounds and the update.
unfoldable pub take_bit : BlockAllocator → Option (ℕ × ℕ) → Result AllocError ℕ × BlockAllocator
take_bit a none = (err no_space, a)
take_bit a (some (index, free_bit)) =
    if ltb word_max (a.base + (index * 64 + free_bit))
    then (err out_of_bounds, a)
    else if leb (saturating_add a.base a.total) (a.base + (index * 64 + free_bit))
    then (err out_of_bounds, a)
    else (
      ok (a.base + (index * 64 + free_bit)),
      record a {
        bitmap = set a.bitmap index (bit_or (get_or a.bitmap index 0) (2 ^ free_bit));
        free = a.free - 1;
      },
    )

unfoldable pub allocate : BlockAllocator → Result AllocError ℕ × BlockAllocator
allocate a = if a.free == 0 then (err no_space, a) else take_bit a (first_free a.bitmap 0)

-- One round of `allocate_many`: the loop stops at the first failure.
unfoldable pub push_block :
    Result AllocError ℕ → BlockAllocator → List ℕ × BlockAllocator → List ℕ × BlockAllocator
push_block (err e) left more = ([], left)
push_block (ok block) left more = (block ∷ more.0, more.1)

unfoldable pub allocate_many : BlockAllocator → ℕ → List ℕ × BlockAllocator
allocate_many a zero = ([], a)
allocate_many a (suc count) =
    let (r, left) = allocate a in push_block r left (allocate_many left count)

unfoldable pub free : BlockAllocator → ℕ → Result AllocError (Unit {0}) × BlockAllocator
free a block =
    if not (in_range a block)
    then (err out_of_bounds, a)
    else if not (busy a.bitmap (block - a.base))
    then (err not_allocated, a)
    else (ok tt, record a { bitmap = clear_bit a.bitmap (block - a.base); free = a.free + 1 })

unfoldable pub try_free : BlockAllocator → ℕ → Result AllocError (Unit {0}) × BlockAllocator
try_free a block =
    if not (in_range a block)
    then (err out_of_bounds, a)
    else if busy a.bitmap (block - a.base)
    then (ok tt, record a { bitmap = clear_bit a.bitmap (block - a.base); free = a.free + 1 })
    else (ok tt, a)

-- `if self.free > 0 { self.free -= 1 }` is the truncated subtraction.
unfoldable pub mark_used : BlockAllocator → ℕ → Result AllocError (Unit {0}) × BlockAllocator
mark_used a block =
    if not (in_range a block)
    then (err out_of_bounds, a)
    else if busy a.bitmap (block - a.base)
    then (err double_alloc, a)
    else (ok tt, record a { bitmap = set_bit a.bitmap (block - a.base); free = a.free - 1 })

unfoldable pub mark_used_idempotent :
    BlockAllocator → ℕ → Result AllocError (Unit {0}) × BlockAllocator
mark_used_idempotent a block =
    if not (in_range a block)
    then (err out_of_bounds, a)
    else if not (busy a.bitmap (block - a.base))
    then mark_used a block
    else (ok tt, a)

unfoldable pub mark_all : BlockAllocator → List ℕ → BlockAllocator
mark_all a [] = a
mark_all a (block ∷ blocks) = mark_all (mark_used a block).1 blocks

unfoldable pub with_reserved : ℕ → ℕ → List ℕ → BlockAllocator
with_reserved base total reserved = mark_all (new base total) reserved

unfoldable pub is_allocated : BlockAllocator → ℕ → Bool
is_allocated a block = if not (in_range a block) then false else busy a.bitmap (block - a.base)

unfoldable pub snapshot : BlockAllocator → AllocatorSnapshot
snapshot a = record { base = a.base; total = a.total; bitmap = a.bitmap; free = a.free }

unfoldable pub restore : BlockAllocator → AllocatorSnapshot → BlockAllocator
restore a s = record { base = s.base; total = s.total; bitmap = s.bitmap; free = s.free }
