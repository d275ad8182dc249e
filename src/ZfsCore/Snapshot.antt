-- ===== src/ZfsCore/Snapshot.antt =====
-- libs/zfs-core/src/snapshot.rs: the snapshots of a volume (`SnapshotManager`), with the part of
-- directory.rs that they keep. A directory is the list of its paths and entries; the inode of an entry
-- is not looked at here and stays a parameter. A string is the list of its bytes.
pub mod Manager
mod Tests
use zero_os.Common.{
  ℕ, ◌+◌, Bool, true, false, ◌||◌, List, [], ◌∷◌, ◌++◌, Option, none, some, ◌==◌, if◌then◌else◌,
  map,
}
use zero_os.Common.Retain.{any}
use zero_os.ZfsCore.Allocator.{AllocatorSnapshot}

module _ (Inode : Type 0) where
  pub record DirectoryEntry : Type 0 where
    pub inode : Inode
    pub blocks : List ℕ
    pub signature : Option (List ℕ)

  abbrev pub Directory : Type 0
  Directory = List (List ℕ × DirectoryEntry)

  pub record Snapshot : Type 0 where
    pub id : ℕ
    pub label : List ℕ
    pub logical_time : ℕ
    pub allocator : AllocatorSnapshot
    pub directory : Directory

  pub record SnapshotManager : Type 0 where
    pub next_id : ℕ
    pub snapshots : List Snapshot

  pub record SnapshotInfo : Type 0 where
    pub id : ℕ
    pub label : List ℕ
    pub logical_time : ℕ
    pub free_blocks : ℕ

  unfoldable pub new : SnapshotManager
  new = record { next_id = 1; snapshots = [] }

  unfoldable pub taken : SnapshotManager → List ℕ → ℕ → AllocatorSnapshot → Directory → Snapshot
  taken m label time allocator directory = record {
    id = m.next_id;
    label = label;
    logical_time = time;
    allocator = allocator;
    directory = directory;
  }

  unfoldable pub create :
      SnapshotManager → List ℕ → ℕ → AllocatorSnapshot → Directory → Snapshot × SnapshotManager
  create m label time allocator directory = (
    taken m label time allocator directory,
    record {
      next_id = m.next_id + 1;
      snapshots = m.snapshots ++ taken m label time allocator directory ∷ [];
    },
  )

  pub list : SnapshotManager → List SnapshotInfo
  list m =
      map
        (λ (s : Snapshot). record {
          id = s.id;
          label = s.label;
          logical_time = s.logical_time;
          free_blocks = s.allocator.free;
        })
        m.snapshots

  -- `find(|snap| snap.id == id)`
  unfoldable pub find_id : ℕ → List Snapshot → Option Snapshot
  find_id id [] = none
  find_id id (s ∷ ss) = if s.id == id then some s else find_id id ss

  unfoldable pub get : SnapshotManager → ℕ → Option Snapshot
  get m id = find_id id m.snapshots

  -- `directory.values()` any of which has the block.
  unfoldable pub keeps_block : ℕ → Snapshot → Bool
  keeps_block block s = any (λ entry. any (λ b. b == block) entry.1.blocks) s.directory

  unfoldable pub references : SnapshotManager → ℕ → Bool
  references m block = any (keeps_block block) m.snapshots

  -- `remove(index)` at the first snapshot with the id.
  unfoldable pub remove_id : ℕ → List Snapshot → List Snapshot
  remove_id id [] = []
  remove_id id (s ∷ ss) = if s.id == id then ss else s ∷ remove_id id ss

  unfoldable pub remove : SnapshotManager → ℕ → Option Snapshot × SnapshotManager
  remove m id = (find_id id m.snapshots, record m { snapshots = remove_id id m.snapshots })
