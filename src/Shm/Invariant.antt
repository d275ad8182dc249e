-- ===== src/Shm/Invariant.antt =====
-- What holds of the regions and the mappings between calls.
use zero_os.Common.{
  ℕ, ◌+◌, ◌*◌, ◌^◌, ◌≤◌, ◌<◌, ◌≡◌, ◌⊎◌, Bool, true, false, ◌&&◌, List, ◌==◌, length, All,
}
use zero_os.Common.Retain.{any}
use zero_os.Common.Vector.{Pairwise}
use zero_os.Ipc.Queue.{ProcessId}
use zero_os.Shm.{page, shm_base, shm_end, max_mappings, Holder, Mapping, Region, Shm, same_mapping}
use zero_os.Shm.Calls.{is_empty}

abbrev pub OtherHolder : Holder → Holder → Type 0
OtherHolder a b = (a.pid == b.pid) ≡ false

-- A region has one entry per holder, counts that fit u32, and as many pages as its length says.
pub record IsRegion (r : Region) : Type 0 where
  pub distinct : Pairwise OtherHolder r.holders
  pub counted : All (λ h. (0 < h.refs) × (h.refs < 2 ^ 32)) r.holders
  pub sized : page * length r.pages ≡ r.len

abbrev pub OtherRegion : Region → Region → Type 0
OtherRegion a b = (a.id == b.id) ≡ false

abbrev pub is_holder : ProcessId → ℕ → Region → Bool
is_holder pid handle r = r.id == handle && any (λ h. h.pid == pid) r.holders

-- Whether the process holds the region.
abbrev pub holds : List Region → ProcessId → ℕ → Bool
holds rs pid handle = any (is_holder pid handle) rs

abbrev pub OtherMapping : Mapping → Mapping → Type 0
OtherMapping a b = same_mapping a.pid a.handle b ≡ false

-- Two mappings of one process do not meet.
abbrev pub Apart : Mapping → Mapping → Type 0
Apart a b = a.pid ≡ b.pid → (a.va + a.len ≤ b.va) ⊎ (b.va + b.len ≤ a.va)

abbrev pub InWindow : Mapping → Type 0
InWindow m = (shm_base ≤ m.va) × (m.va + m.len ≤ shm_end)

-- The invariant, but for regions whose last holder has just gone.
pub record Sound (rs : List Region) (ms : List Mapping) (next : ℕ) : Type 0 where
  pub ids : Pairwise OtherRegion rs
  pub issued : All (λ r. r.id < next) rs
  pub regions : All IsRegion rs
  pub first : 1 ≤ next
  pub single : Pairwise OtherMapping ms
  pub apart : Pairwise Apart ms
  pub inside : All InWindow ms
  pub held : All (λ m. holds rs m.pid m.handle ≡ true) ms
  pub mapping_room : length ms ≤ max_mappings

abbrev pub IsLive : Region → Type 0
IsLive r = is_empty r.holders ≡ false

-- Every region has a holder, every mapping is by a process that holds its region, no process has two
-- mappings of one region, and its mappings lie in the window and apart from each other.
pub record IsShm {M : Type 0} (s : Shm M) : Type 0 where
  pub sound : Sound s.regions s.mappings s.next_id
  pub live : All IsLive s.regions
