-- ===== src/ZfsCore/Allocator/Tests.antt =====
-- Runs of libs/zfs-core/src/allocator.rs at concrete inputs.
use zero_os.Common.{◌≡◌, refl, false, List, [], ◌∷◌, arith}
use zero_os.Common.Result.{ok}
use zero_os.Bitmap.{busy, set_bit}
use zero_os.ZfsCore.Allocator.{
  BlockAllocator, not_allocated, new, allocate, allocate_many, first_free, trailing_zeros, take_bit,
  free, try_free, mark_used_idempotent,
}
use zero_os.ZfsCore.Allocator.Invariant.{IsAllocator, new-IsAllocator, taken-IsAllocator}
use zero_os.ZfsCore.Allocator.Allocate.{Allocates, allocate_lem}
use zero_os.ZfsCore.Allocator.Calls.{Settles, free-Settles}
use zero_os.ZfsCore.Allocator.Replay.{
  Call, allocates, frees, tries_free, marks, marks_idempotent, replay_twice,
}
use zero_os.ZfsCore.Allocator.Many.{Batch, allocate_many-Batch, free-allocate}

-- 70 blocks from block 100 on, of which block 100 is taken.
abbrev volume : BlockAllocator
volume = record { base = 100; total = 70; free = 69; bitmap = 1 ∷ 0 ∷ [] }

volume-IsAllocator : IsAllocator volume
unfolding new set_bit
volume-IsAllocator =
    taken-IsAllocator (new 100 70) 0 (new-IsAllocator 100 70 (omega arith) (omega arith))
      (omega arith) (unfold busy in refl)

abbrev after_allocation : BlockAllocator
after_allocation = record { base = 100; total = 70; free = 68; bitmap = 3 ∷ 0 ∷ [] }

allocation : allocate volume ≡ (ok 101, after_allocation)
unfolding allocate take_bit first_free trailing_zeros
allocation = refl

free-allocate_example : free after_allocation 101 ≡ (ok tt, volume)
free-allocate_example = free-allocate volume after_allocation 101 volume-IsAllocator allocation

allocate_lem_example : Allocates volume
allocate_lem_example = allocate_lem volume volume-IsAllocator

allocate_many-Batch_example : Batch volume 3 (allocate_many volume 3).0 (allocate_many volume 3).1
allocate_many-Batch_example = allocate_many-Batch volume 3 volume-IsAllocator

free-Settles_example : Settles volume 100 not_allocated false (free volume 100)
free-Settles_example = free-Settles volume 100 volume-IsAllocator

replay_twice_example :
    (try_free (try_free volume 100).1 100 ≡ try_free volume 100)
    × (mark_used_idempotent (mark_used_idempotent volume 100).1 100
        ≡ mark_used_idempotent volume 100)
replay_twice_example = replay_twice volume 100 volume-IsAllocator

abbrev replayed : List Call
replayed = allocates ∷ marks 130 ∷ frees 101 ∷ tries_free 101 ∷ marks_idempotent 130 ∷ []
