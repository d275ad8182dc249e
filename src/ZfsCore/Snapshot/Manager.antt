-- ===== src/ZfsCore/Snapshot/Manager.antt =====
-- Snapshots are found by their ids, and protect the blocks of their directories.
use zero_os.Common.{
  ℕ, suc, ◌≤◌, ◌<◌, ◌≡◌, refl, inl, inr, Bool, ◌||◌, List, [], ◌∷◌, ◌++◌, none, some, ◌==◌,
  if◌then◌else◌, All, All-append, All-imp, Bool-cases, arith,
}
use zero_os.Common.Retain.{any}
use zero_os.Common.Ascending.{Ascending, Ascending-snoc}
use zero_os.ZfsCore.Allocator.{AllocatorSnapshot}
use zero_os.ZfsCore.Snapshot.{
  Snapshot, Directory, SnapshotManager, create, taken, find_id, get, keeps_block, references,
  remove, remove_id,
}

module _ (Inode : Type 0) where
  -- The ids grow from snapshot to snapshot, below the next one.
  pub record IsManager (m : SnapshotManager Inode) : Type 0 where
    pub ids : Ascending (λ (s : Snapshot Inode). s.id) 1 m.snapshots
    pub below : All (λ (s : Snapshot Inode). s.id < m.next_id) m.snapshots
    pub positive : 1 ≤ m.next_id

  find_id-snoc :
      (id : ℕ) (ss : List (Snapshot Inode)) (s : Snapshot Inode)
      → All (λ (x : Snapshot Inode). x.id < s.id) ss
      → find_id Inode id (ss ++ s ∷ []) ≡ (if s.id == id then some s else find_id Inode id ss)
  unfolding find_id
  find_id-snoc id [] s below = refl
  find_id-snoc id (x ∷ xs) s below = ground (arith, find_id-snoc id xs s below.1, below.0)

  any-snoc :
      (p : Snapshot Inode → Bool) (ss : List (Snapshot Inode)) (s : Snapshot Inode)
      → any p (ss ++ s ∷ []) ≡ (any p ss || p s)
  unfolding any
  any-snoc p [] s = ground arith
  any-snoc p (x ∷ xs) s = ground (arith, any-snoc p xs s)

  -- A new snapshot is found under its own id and every other id finds what it found. The blocks of
  -- its directory are protected in addition to those that were.
  pub create_lem :
      (m : SnapshotManager Inode) (label : List ℕ) (time id block : ℕ)
      (allocator : AllocatorSnapshot) (directory : Directory Inode)
      → IsManager m
      → IsManager (create Inode m label time allocator directory).1
        × (get Inode (create Inode m label time allocator directory).1 id ≡ (
            if m.next_id == id
            then some (taken Inode m label time allocator directory)
            else get Inode m id))
        × (references Inode (create Inode m label time allocator directory).1 block ≡ (
            references Inode m block
            || keeps_block Inode block (taken Inode m label time allocator directory)))
  unfolding create get references taken
  create_lem m label time id block allocator directory v =
      let s : Snapshot Inode = taken Inode m label time allocator directory in
      (
        record {
          ids = Ascending-snoc _ 1 m.snapshots s v.positive v.below v.ids;
          below =
              All-append _ m.snapshots _ (All-imp (λ x h. omega (arith, h)) m.snapshots v.below)
                (omega arith, tt);
          positive = omega arith;
        },
        find_id-snoc id m.snapshots s v.below,
        any-snoc (keeps_block Inode block) m.snapshots s,
      )

  not_found_below :
      (id lo : ℕ) (ss : List (Snapshot Inode))
      → id < lo
      → Ascending (λ (s : Snapshot Inode). s.id) lo ss
      → find_id Inode id ss ≡ none
  unfolding find_id
  not_found_below id lo [] h a = refl
  not_found_below id lo (x ∷ xs) h a = ground (arith, not_found_below id (suc x.id) xs, a.0, a.1)

  find_id-remove_id :
      (id other lo : ℕ) (ss : List (Snapshot Inode))
      → Ascending (λ (s : Snapshot Inode). s.id) lo ss
      → find_id Inode other (remove_id Inode id ss)
        ≡ (if other == id then none else find_id Inode other ss)
  unfolding find_id remove_id
  find_id-remove_id id other lo [] a = ground arith
  find_id-remove_id id other lo (x ∷ xs) a = elim (Bool-cases (x.id == id)) [
    | inl hit ↦ ground (arith, not_found_below id (suc x.id) xs (ground arith) a.1)
    | inr miss ↦ ground (arith, find_id-remove_id id other (suc x.id) xs a.1)
  ]

  -- A removal gives the snapshot that the id found. Afterwards the id finds none, and every other id
  -- finds what it found.
  pub remove_lem :
      (m : SnapshotManager Inode) (id other : ℕ)
      → IsManager m
      → ((remove Inode m id).0 ≡ get Inode m id)
        × (get Inode (remove Inode m id).1 other
            ≡ (if other == id then none else get Inode m other))
  unfolding remove get
  remove_lem m id other v = (refl, find_id-remove_id id other 1 m.snapshots v.ids)
