-- ===== src/ZfsCore/Snapshot/Tests.antt =====
-- Runs of libs/zfs-core/src/snapshot.rs at concrete inputs.
use zero_os.Common.{ℕ, [], ◌∷◌, none, arith}
use zero_os.ZfsCore.Allocator.{AllocatorSnapshot}
use zero_os.ZfsCore.Snapshot.{Directory, SnapshotManager}
use zero_os.ZfsCore.Snapshot.Manager.{IsManager}

abbrev disk : AllocatorSnapshot
disk = record { base = 100; total = 70; bitmap = 1 ∷ 0 ∷ []; free = 69 }

abbrev files : Directory ℕ
files = (47 ∷ 97 ∷ [], record { inode = 5; blocks = 101 ∷ 102 ∷ []; signature = none }) ∷ []

abbrev manager : SnapshotManager ℕ
manager = record {
  next_id = 3;
  snapshots =
      record { id = 2; label = []; logical_time = 9; allocator = disk; directory = files } ∷ [];
}

manager-IsManager : IsManager ℕ manager
manager-IsManager = record {
  ids = (omega arith, tt);
  below = (omega arith, tt);
  positive = omega arith;
}
