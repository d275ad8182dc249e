-- ===== src/Shm/Calls.antt =====
-- The calls of microkernel/src/shm.rs on the whole state, errors included.
use zero_os.Common.{
  ℕ, zero, suc, ◌+◌, ◌*◌, ◌/◌, ◌%◌, ◌^◌, max, Bool, true, false, not, ◌&&◌, List, [], ◌∷◌, ◌++◌,
  Option, none, some, ◌==◌, ltb, leb, if◌then◌else◌, length,
}
use zero_os.Common.Result.{Result, ok, err}
use zero_os.Common.Retain
use zero_os.Common.Vector.{find, swap_remove_first}
use zero_os.Ipc.Queue.{ProcessId}
use zero_os.Shm.{
  page, max_object, max_regions, max_mappings, ShmError, invalid, not_found, capacity, permission,
  no_memory, map_refused, Holder, Mapping, Region, Shm, Services, align_up, holder, same_mapping,
  find_va, with_region, retain_in, grant_in, release_in,
}

abbrev pub is_empty : List Holder → Bool
is_empty [] = true
is_empty (h ∷ hs) = false

abbrev pub is_dead : ℕ → Region → Bool
is_dead handle r = r.id == handle && is_empty r.holders

abbrev pub is_owned : ProcessId → ℕ → Region → Bool
is_owned pid handle r = r.id == handle && r.owner == pid

-- What `create` holds between its two parts.
pub record Prepared : Type 0 where
  pub slot : ℕ
  pub pid : ProcessId
  pub len : ℕ
  pub pages : List ℕ

module _ {M : Type 0} (k : Services M) where
  -- `for p in pages { phys::free_page(p) }`
  unfoldable pub free_pages : List ℕ → M → M
  free_pages [] memory = memory
  free_pages (p ∷ ps) memory = free_pages ps (k.free_page p memory)

  abbrev pub freed : List Region → Option Region → (Region → Bool) → Shm M → Shm M
  freed rs none dead s = s
  freed rs (some r) dead s = record s {
    regions = swap_remove_first dead rs;
    memory = free_pages r.pages s.memory;
  }

  unfoldable pub reap_empty : ℕ → Shm M → Shm M
  reap_empty handle s = freed s.regions (find (is_dead handle) s.regions) (is_dead handle) s

  unfoldable pub destroy_if_owner_only : ProcessId → ℕ → Shm M → Shm M
  destroy_if_owner_only pid handle s =
      freed s.regions (find (is_owned pid handle) s.regions) (is_owned pid handle) s

  abbrev pub unmap_in : Mapping → Option ℕ → M → M
  unmap_in m none memory = memory
  unmap_in m (some slot) memory =
      if k.has_space slot then k.unmap_region slot m.va (m.va + m.len) memory else memory

  abbrev pub unmapped : ProcessId → ℕ → Option Mapping → Shm M → Shm M
  unmapped pid handle none s = s
  unmapped pid handle (some m) s = record s {
    mappings = swap_remove_first (same_mapping pid handle) s.mappings;
    memory = unmap_in m (k.slot_for_pid pid) s.memory;
  }

  unfoldable pub unmap_pid_handle : ProcessId → ℕ → Shm M → Shm M
  unmap_pid_handle pid handle s = unmapped pid handle (find (same_mapping pid handle) s.mappings) s

  -- The pages from `va + i * page` on; `mapped` bytes are in place before.
  unfoldable pub map_pages : ℕ → ℕ → ℕ → List ℕ → ℕ → M → Result ShmError ℕ × M
  map_pages slot va i [] mapped memory = (ok mapped, memory)
  map_pages slot va i (p ∷ ps) mapped memory =
      let after : Bool × M = k.map_page slot (va + i * page) p (k.retain_page p memory) in
      let undone : M = k.free_page p after.1 in
      elim after.0 [
        | true ↦ map_pages slot va (suc i) ps (mapped + page) after.1
        | false ↦ (
          err map_refused,
          if ltb 0 mapped then k.unmap_region slot va (va + mapped) undone else undone,
        )
      ]

  abbrev pub recorded :
      ℕ → ProcessId → ℕ → ℕ → Shm M → Result ShmError ℕ × M → Result ShmError ℕ × Shm M
  recorded slot pid handle va s (err e, memory) = (err e, record s { memory = memory })
  recorded slot pid handle va s (ok len, memory) =
      if leb max_mappings (length s.mappings)
      then (err capacity, record s { memory = k.unmap_region slot va (va + len) memory })
      else (
        ok va,
        record s {
          mappings = s.mappings ++ (record { pid = pid; handle = handle; va = va; len = len } ∷ []);
          memory = memory;
        },
      )

  -- none does not occur: Window.find_va_lem
  abbrev pub at_va :
      ℕ → ProcessId → ℕ → Region → Shm M → Option (Result ShmError ℕ) → Result ShmError ℕ × Shm M
  at_va slot pid handle r s none = (err capacity, s)
  at_va slot pid handle r s (some (err e)) = (err e, s)
  at_va slot pid handle r s (some (ok va)) =
      recorded slot pid handle va s (map_pages slot va 0 r.pages 0 s.memory)

  abbrev pub in_region : ℕ → ProcessId → ℕ → Shm M → Option Region → Result ShmError ℕ × Shm M
  in_region slot pid handle s none = (err not_found, s)
  in_region slot pid handle s (some r) =
      if holder r pid
      then at_va slot pid handle r s (find_va pid r.len s.mappings)
      else (err permission, s)

  abbrev pub unless_mapped : ℕ → ProcessId → ℕ → Shm M → Option Mapping → Result ShmError ℕ × Shm M
  unless_mapped slot pid handle s (some m) = (ok m.va, s)
  unless_mapped slot pid handle s none =
      if k.has_space slot
      then in_region slot pid handle s (find (λ r. r.id == handle) s.regions)
      else (err permission, s)

  -- What a call does for the process of its slot.
  abbrev pub for_caller {ℓ} :
      {A : Type ℓ}
      → Option ProcessId
      → Shm M
      → (ProcessId → Result ShmError A × Shm M)
      → Result ShmError A × Shm M
  for_caller none s call = (err permission, s)
  for_caller (some pid) s call = call pid

  unfoldable pub map : ℕ → ℕ → Shm M → Result ShmError ℕ × Shm M
  map slot handle s =
      for_caller (k.pid_at_slot slot) s
        (λ pid. unless_mapped slot pid handle s (find (same_mapping pid handle) s.mappings))

  unfoldable pub alloc_pages : ℕ → List ℕ → M → Option (List ℕ) × M
  alloc_pages zero pages memory = (some pages, memory)
  alloc_pages (suc n) pages memory =
      let got : Option ℕ × M = k.alloc_page memory in
      elim got.0 [
        | none ↦ (none, free_pages pages got.1)
        | some p ↦ alloc_pages n (pages ++ (p ∷ [])) got.1
      ]

  abbrev pub created :
      ProcessId → ℕ → ℕ → Result ShmError ℕ × Shm M → Result ShmError (ℕ × ℕ × ℕ) × Shm M
  created pid id len (ok va, s) = (ok (id, va, len), s)
  created pid id len (err e, s) = (err e, destroy_if_owner_only pid id s)

  -- `NEXT_ID.fetch_add(1).max(1)` names the region.
  abbrev pub enrol : ProcessId → ℕ → List ℕ → M → Shm M → Shm M
  enrol pid len pages memory s = record s {
    regions =
        s.regions
        ++ (record {
          id = max s.next_id 1;
          owner = pid;
          len = len;
          pages = pages;
          holders = record { pid = pid; refs = 1 } ∷ [];
        }
            ∷ []);
    next_id = (s.next_id + 1) % 2 ^ 32;
    memory = memory;
  }

  -- `create` up to the region's entry in the table: the test of the capacity and the pages. The table is
  -- not locked from here to the entry.
  abbrev pub with_pages :
      ℕ → ProcessId → ℕ → Shm M → Option (List ℕ) × M → Result ShmError Prepared × Shm M
  with_pages slot pid len s (none, memory) = (err no_memory, record s { memory = memory })
  with_pages slot pid len s (some pages, memory) = (
    ok (record { slot = slot; pid = pid; len = len; pages = pages }),
    record s { memory = memory },
  )

  abbrev pub sized : ℕ → ProcessId → Shm M → Option ℕ → Result ShmError Prepared × Shm M
  sized slot pid s none = (err invalid, s)
  sized slot pid s (some len) =
      if not (ltb 0 len && leb len max_object)
      then (err invalid, s)
      else if leb max_regions (length s.regions)
      then (err capacity, s)
      else with_pages slot pid len s (alloc_pages (len / page) [] s.memory)

  unfoldable pub prepare : ℕ → ℕ → Shm M → Result ShmError Prepared × Shm M
  prepare slot size s = for_caller (k.pid_at_slot slot) s (λ pid. sized slot pid s (align_up size))

  -- `create` from the entry on.
  unfoldable pub enrol_prepared : Prepared → Shm M → Result ShmError (ℕ × ℕ × ℕ) × Shm M
  enrol_prepared p s =
      created p.pid (max s.next_id 1) p.len
        (map p.slot (max s.next_id 1) (enrol p.pid p.len p.pages s.memory s))

  abbrev pub both_parts : Result ShmError Prepared × Shm M → Result ShmError (ℕ × ℕ × ℕ) × Shm M
  both_parts (err e, s) = (err e, s)
  both_parts (ok p, s) = enrol_prepared p s

  -- `create` with nothing in between.
  unfoldable pub create : ℕ → ℕ → Shm M → Result ShmError (ℕ × ℕ × ℕ) × Shm M
  create slot size s = both_parts (prepare slot size s)

  abbrev pub len_in : ProcessId → Option Region → Result ShmError ℕ
  len_in pid none = err not_found
  len_in pid (some r) = if holder r pid then ok r.len else err permission

  unfoldable pub len : ℕ → ℕ → Shm M → Result ShmError ℕ × Shm M
  len slot handle s =
      for_caller (k.pid_at_slot slot) s
        (λ pid. (len_in pid (find (λ r. r.id == handle) s.regions), s))

  abbrev pub stored :
      Shm M → Result ShmError (Unit {0} × List Region) → Result ShmError (Unit {0}) × Shm M
  stored s (err e) = (err e, s)
  stored s (ok (u, rs)) = (ok tt, record s { regions = rs })

  unfoldable pub retain : ℕ → ℕ → Shm M → Result ShmError (Unit {0}) × Shm M
  retain slot handle s =
      for_caller (k.pid_at_slot slot) s
        (λ pid. stored s (with_region handle (retain_in pid) s.regions))

  abbrev pub if_alive :
      Option ℕ → Shm M → Result ShmError (Unit {0}) × Shm M → Result ShmError (Unit {0}) × Shm M
  if_alive none s call = (err not_found, s)
  if_alive (some slot) s call = call

  unfoldable pub grant : ℕ → ℕ → ProcessId → Shm M → Result ShmError (Unit {0}) × Shm M
  grant slot handle target s = for_caller (k.pid_at_slot slot) s (λ pid.
      if_alive (k.slot_for_pid target) s
        (stored s (with_region handle (grant_in pid target) s.regions)))

  abbrev pub after_release :
      ProcessId
      → ℕ
      → Shm M
      → Result ShmError (Bool × List Region)
      → Result ShmError (Unit {0}) × Shm M
  after_release pid handle s (err e) = (err e, s)
  after_release pid handle s (ok (true, rs)) =
      (ok tt, reap_empty handle (unmap_pid_handle pid handle (record s { regions = rs })))
  after_release pid handle s (ok (false, rs)) =
      (ok tt, reap_empty handle (record s { regions = rs }))

  unfoldable pub release : ℕ → ℕ → Shm M → Result ShmError (Unit {0}) × Shm M
  release slot handle s =
      for_caller (k.pid_at_slot slot) s
        (λ pid. after_release pid handle s (with_region handle (release_in pid) s.regions))

  -- The holders of the process leave every region.
  unfoldable pub forget_holders : ProcessId → List Region → List Region
  forget_holders pid [] = []
  forget_holders pid (r ∷ rs) =
      record r { holders = Retain.retain (λ h. not (h.pid == pid)) r.holders }
      ∷ forget_holders pid rs

  -- The ids of the regions without a holder.
  unfoldable pub empty_ids : List Region → List ℕ
  empty_ids [] = []
  empty_ids (r ∷ rs) = if is_empty r.holders then r.id ∷ empty_ids rs else empty_ids rs

  unfoldable pub reap_all : List ℕ → Shm M → Shm M
  reap_all [] s = s
  reap_all (h ∷ hs) s = reap_all hs (reap_empty h s)

  unfoldable pub on_process_gone : ProcessId → Shm M → Shm M
  on_process_gone pid s =
      let rs = forget_holders pid s.regions in
      reap_all (empty_ids rs)
        (record s { mappings = Retain.retain (λ m. not (m.pid == pid)) s.mappings; regions = rs })
