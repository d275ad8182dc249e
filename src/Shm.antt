-- ===== src/Shm.antt =====
-- microkernel/src/shm.rs: shared-memory objects. REGIONS, MAPPINGS and NEXT_ID are one state. A call
-- takes the locks of the two tables one after the other; it is one step of the model: the calls of one
-- process do not overlap, and no other call takes its holdings or mappings away. `create` is two steps, because it tests the capacity and enters the region under separate locks. What shm.rs calls (the process table, the allocator of physical pages and
-- the page tables of the processes) is the interface `Services` on a state M of its own.
pub mod Calls
pub mod Window
pub mod Invariant
pub mod Holders
pub mod Regions
pub mod Preserve
pub mod Reaping
pub mod Mapped
pub mod Creation
pub mod Histories
mod Tests
use Prim.Native.Nat.{bit_and}
use zero_os.Common.{
  ℕ, zero, suc, ◌+◌, ◌*◌, ◌-◌, ◌/◌, ◌%◌, ◌^◌, max, Bool, true, false, not, ◌&&◌, ◌||◌, List, [],
  ◌∷◌, ◌++◌, Option, none, some, ◌==◌, ltb, leb, if◌then◌else◌, length,
}
use zero_os.Common.Result.{Result, ok, err, ◌>>=◌, ◌>>◌, guard}
use zero_os.Common.Retain
use zero_os.Common.Retain.{any}
use zero_os.Common.Vector.{find, swap_remove_first}
use zero_os.Ipc.Queue.{ProcessId}

abbrev pub page : ℕ
page = 4096

abbrev pub shm_base : ℕ
shm_base = 0x2000_0000

abbrev pub shm_end : ℕ
shm_end = 0x3000_0000

abbrev pub max_object : ℕ
max_object = 16 * 1024 * 1024

abbrev pub max_regions : ℕ
max_regions = 128

abbrev pub max_mappings : ℕ
max_mappings = 512

pub data ShmError : Type 0 where
  invalid not_found capacity permission no_memory map_refused : ShmError

pub record Holder : Type 0 where
  pub pid : ProcessId
  pub refs : ℕ

pub record Mapping : Type 0 where
  pub pid : ProcessId
  pub handle : ℕ
  pub va : ℕ
  pub len : ℕ

pub record Region : Type 0 where
  pub id : ℕ
  pub owner : ProcessId
  pub len : ℕ
  pub pages : List ℕ
  pub holders : List Holder

pub record Shm (M : Type 0) : Type 0 where
  pub regions : List Region
  pub mappings : List Mapping
  pub next_id : ℕ
  pub memory : M

-- `process::pid_at_slot`, `slot_for_pid`, `address_space`, `phys::alloc_page` with the page zeroed,
-- `retain_page`, `free_page`, and `map_page_phys` and `unmap_heap_region` on the space of a slot.
pub record Services (M : Type 0) : Type 0 where
  pub pid_at_slot : ℕ → Option ProcessId
  pub slot_for_pid : ProcessId → Option ℕ
  pub has_space : ℕ → Bool
  pub alloc_page : M → Option ℕ × M
  pub retain_page : ℕ → M → M
  pub free_page : ℕ → M → M
  pub map_page : ℕ → ℕ → ℕ → M → Bool × M
  pub unmap_region : ℕ → ℕ → ℕ → M → M

abbrev pub empty : {M : Type 0} → M → Shm M
empty memory = record { regions = []; mappings = []; next_id = 1; memory = memory }

-- `x & !(PAGE - 1)` on 64 bits
unfoldable pub align_up : ℕ → Option ℕ
align_up v =
    if ltb (v + (page - 1)) (2 ^ 64)
    then some (bit_and (v + (page - 1)) (2 ^ 64 - 1 - (page - 1)))
    else none

unfoldable pub holder : Region → ProcessId → Bool
holder r pid = any (λ h. h.pid == pid && ltb 0 h.refs) r.holders

abbrev pub same_mapping : ProcessId → ℕ → Mapping → Bool
same_mapping pid handle m = m.pid == pid && m.handle == handle

-- The first mapping of the process that `candidate .. candidate + len` meets: where it ends.
unfoldable pub collision : ProcessId → ℕ → ℕ → List Mapping → Option ℕ
collision pid candidate len [] = none
collision pid candidate len (m ∷ ms) =
    if (m.pid == pid) && (ltb candidate (m.va + m.len) && ltb m.va (candidate + len))
    then some (m.va + m.len)
    else collision pid candidate len ms

-- What one round of the loop of `find_va` decides.
pub data Round : Type 0 where
  settled : Result ShmError ℕ → Round
  retry : ℕ → Round

abbrev pub retry_at : Option ℕ → Round
retry_at none = settled (err capacity)
retry_at (some candidate) = retry candidate

abbrev pub after_collision : ℕ → Option ℕ → Round
after_collision candidate none = settled (ok candidate)
after_collision candidate (some next) = retry_at (align_up next)

unfoldable pub round : ProcessId → ℕ → List Mapping → ℕ → Round
round pid len ms candidate =
    if leb (2 ^ 64) (candidate + len)
    then settled (err capacity)
    else if ltb shm_end (candidate + len)
    then settled (err capacity)
    else after_collision candidate (collision pid candidate len ms)

-- The loop: none when the fuel is used up.
unfoldable pub search_va : ℕ → ProcessId → ℕ → List Mapping → ℕ → Option (Result ShmError ℕ)
search_va zero pid len ms candidate = none
search_va (suc fuel) pid len ms candidate = elim (round pid len ms candidate) [
  | settled result ↦ some result
  | retry next ↦ search_va fuel pid len ms next
]

-- A round for each mapping, and one more.
unfoldable pub find_va : ProcessId → ℕ → List Mapping → Option (Result ShmError ℕ)
find_va pid len ms = search_va (suc (length ms)) pid len ms shm_base

abbrev changed {ℓ} :
    {A : Type ℓ} → List Region → Result ShmError (A × Region) → Result ShmError (A × List Region)
changed rest (ok (answer, r)) = ok (answer, r ∷ rest)
changed rest (err e) = err e

abbrev behind {ℓ} :
    {A : Type ℓ} → Region → Result ShmError (A × List Region) → Result ShmError (A × List Region)
behind r (ok (answer, rs)) = ok (answer, r ∷ rs)
behind r (err e) = err e

-- `iter_mut().find(|r| r.id == handle).ok_or(NotFound)?`, with what is done to the region.
unfoldable pub with_region {ℓ} :
    {A : Type ℓ}
    → ℕ
    → (Region → Result ShmError (A × Region))
    → List Region
    → Result ShmError (A × List Region)
with_region handle act [] = err not_found
with_region handle act (r ∷ rs) =
    if r.id == handle then changed rs (act r) else behind r (with_region handle act rs)

abbrev after_holder : Holder → Result ShmError (List Holder) → Result ShmError (List Holder)
after_holder h (ok hs) = ok (h ∷ hs)
after_holder h (err e) = err e

-- One more reference for the first entry of the process.
unfoldable pub add_ref : ProcessId → List Holder → Result ShmError (List Holder)
add_ref pid [] = err permission
add_ref pid (h ∷ hs) =
    if h.pid == pid
    then (if ltb (h.refs + 1) (2 ^ 32)
        then ok (record h { refs = h.refs + 1 } ∷ hs)
        else err capacity)
    else after_holder h (add_ref pid hs)

abbrev pub with_holders {ℓ} :
    {A : Type ℓ} → Region → Result ShmError (A × List Holder) → Result ShmError (A × Region)
with_holders r (ok (answer, hs)) = ok (answer, record r { holders = hs })
with_holders r (err e) = err e

abbrev pub answerless : Result ShmError (List Holder) → Result ShmError (Unit {0} × List Holder)
answerless (ok hs) = ok (tt, hs)
answerless (err e) = err e

unfoldable pub retain_in : ProcessId → Region → Result ShmError (Unit {0} × Region)
retain_in pid r = with_holders r (answerless (add_ref pid r.holders))

unfoldable pub grant_to : ProcessId → List Holder → Result ShmError (List Holder)
grant_to target hs =
    if any (λ h. h.pid == target) hs
    then add_ref target hs
    else ok (hs ++ (record { pid = target; refs = 1 } ∷ []))

unfoldable pub grant_in : ProcessId → ProcessId → Region → Result ShmError (Unit {0} × Region)
grant_in pid target r = do
  guard (r.owner == pid) permission
  with_holders r (answerless (grant_to target r.holders))

-- One reference less for the first entry of the process.
unfoldable pub drop_ref : ProcessId → List Holder → List Holder
drop_ref pid [] = []
drop_ref pid (h ∷ hs) =
    if h.pid == pid then record h { refs = h.refs - 1 } ∷ hs else h ∷ drop_ref pid hs

-- Whether the entry goes, and what is left.
abbrev pub released : ProcessId → List Holder → Option Holder → Result ShmError (Bool × List Holder)
released pid hs none = err permission
released pid hs (some h) =
    if ltb 1 h.refs
    then ok (false, drop_ref pid hs)
    else ok (true, swap_remove_first (λ x. x.pid == pid) hs)

unfoldable pub release_in : ProcessId → Region → Result ShmError (Bool × Region)
release_in pid r = with_holders r (released pid r.holders (find (λ h. h.pid == pid) r.holders))
