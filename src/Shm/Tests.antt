-- ===== src/Shm/Tests.antt =====
-- Runs of microkernel/src/shm.rs at concrete inputs.
use zero_os.Common.{
  ℕ, suc, ◌+◌, ◌-◌, ◌*◌, ◌≡◌, refl, inl, inr, true, false, List, [], ◌∷◌, Option, none, some, arith,
}
use zero_os.Common.Result.{ok}
use zero_os.Shm.{Services, Shm, Mapping, Region, empty, align_up, find_va, permission}
use zero_os.Shm.Calls.{map, create, grant, release}
use zero_os.Shm.Invariant.{IsShm}
use zero_os.Shm.Window.{FirstFit, find_va_lem}
use zero_os.Shm.Histories.{
  Call, prepares, enrols, maps, grants, releases, gone, System, IsSystem, run, run-IsSystem,
}

-- The process of slot n is n + 1; pages are handed out in order.
abbrev services : Services ℕ
services = record {
  pid_at_slot = λ slot. some (suc slot);
  slot_for_pid = λ pid. some (pid - 1);
  has_space = λ slot. true;
  alloc_page = λ m. (some (m * 4096), suc m);
  retain_page = λ p m. m;
  free_page = λ p m. m;
  map_page = λ slot va p m. (true, m);
  unmap_region = λ slot lo hi m. m;
}

abbrev fresh : Shm ℕ
fresh = empty 1

fresh-IsShm : IsShm fresh
fresh-IsShm = record {
  sound = record {
    ids = tt;
    issued = tt;
    regions = tt;
    first = omega arith;
    single = tt;
    apart = tt;
    inside = tt;
    held = tt;
    mapping_room = omega arith;
  };
  live = tt;
}

align_up_test : (align_up 1 ≡ some 4096) × (align_up 4096 ≡ some 4096)
unfolding align_up
align_up_test = (refl, refl)

created_test : (create services 0 5000 fresh).0 ≡ ok (1, 0x2000_0000, 8192)
unfolding create zero_os.Shm.Calls.prepare zero_os.Shm.Calls.enrol_prepared map
    zero_os.Shm.search_va zero_os.Shm.round zero_os.Shm.collision align_up
    zero_os.Shm.Calls.alloc_pages zero_os.Common.Vector.find zero_os.Shm.holder
    zero_os.Common.Retain.any find_va zero_os.Shm.Calls.map_pages
created_test = refl

abbrev two_mappings : List Mapping
two_mappings =
    record { pid = 1; handle = 1; va = 0x2000_0000; len = 8192 }
    ∷ record { pid = 1; handle = 2; va = 0x2000_3000; len = 4096 }
    ∷ []

find_va_test :
    (find_va 1 4096 two_mappings ≡ some (ok 0x2000_2000))
    × (find_va 1 8192 two_mappings ≡ some (ok 0x2000_4000))
    × (find_va 2 8192 two_mappings ≡ some (ok 0x2000_0000))
unfolding find_va zero_os.Shm.search_va zero_os.Shm.round zero_os.Shm.collision align_up
find_va_test = (refl, refl, refl)

find_va_lem_example : FirstFit 1 8192 two_mappings (find_va 1 8192 two_mappings)
find_va_lem_example = find_va_lem 1 8192 two_mappings

abbrev start : System ℕ
start = record { shm = fresh; creating = [] }

abbrev shared : List Call
shared = prepares 0 5000 ∷ enrols 0 ∷ grants 0 1 2 ∷ maps 1 1 ∷ releases 0 1 ∷ []

-- The region outlives the release by its owner, and goes with its last holder.
shared_test :
    ((run services shared start).shm.mappings
      ≡ record { pid = 2; handle = 1; va = 0x2000_0000; len = 8192 } ∷ [])
    × ((run services (gone 2 ∷ []) (run services shared start)).shm.regions ≡ [])
unfolding run zero_os.Shm.Histories.perform zero_os.Shm.Calls.prepare
    zero_os.Shm.Calls.enrol_prepared map grant release zero_os.Shm.search_va zero_os.Shm.round
    zero_os.Shm.collision align_up zero_os.Shm.Calls.alloc_pages zero_os.Common.Vector.find
    zero_os.Shm.holder zero_os.Common.Retain.any find_va zero_os.Shm.Calls.map_pages
    zero_os.Shm.with_region zero_os.Shm.grant_in zero_os.Common.Retain.retain
    zero_os.Common.Vector.before_last zero_os.Common.Vector.fill_gap zero_os.Common.Vector.last_of
    zero_os.Common.Vector.swap_remove_first zero_os.Shm.Calls.empty_ids
    zero_os.Shm.Calls.forget_holders zero_os.Shm.Calls.free_pages zero_os.Shm.Calls.on_process_gone
    zero_os.Shm.Calls.reap_all zero_os.Shm.Calls.reap_empty zero_os.Shm.Calls.unmap_pid_handle
    zero_os.Shm.add_ref zero_os.Shm.drop_ref zero_os.Shm.grant_to zero_os.Shm.release_in
shared_test = (refl, refl)

-- Two processes prepare a region each before the first of them enters its own.
abbrev crossing : List Call
crossing = prepares 0 5000 ∷ prepares 1 4096 ∷ enrols 1 ∷ grants 1 1 1 ∷ enrols 0 ∷ maps 0 1 ∷ []

run-IsSystem_example : IsSystem (run services crossing start)
run-IsSystem_example =
    run-IsSystem services crossing start (record { shm_ok = fresh-IsShm; creating_ok = tt })
      (omega arith)
