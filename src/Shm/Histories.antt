-- ===== src/Shm/Histories.antt =====
-- All histories of calls on the shared-memory objects.
use zero_os.Common.{
  ℕ, zero, suc, ◌++◌, ◌+◌, ◌^◌, ◌<◌, ◌≤◌, List, [], ◌∷◌, Option, none, some, length, All,
  All-append, arith,
}
use zero_os.Common.Result.{Result, ok, err}
use zero_os.Ipc.Queue.{ProcessId}
use zero_os.Shm.{ShmError, Shm, Services}
use zero_os.Shm.Calls
use zero_os.Shm.Calls.{
  Prepared, map, prepare, enrol_prepared, release, on_process_gone, alloc_pages, created, enrol,
  with_pages, sized, is_owned, destroy_if_owner_only, stored, len,
}
use zero_os.Shm.Invariant.{IsShm}
use zero_os.Shm.Reaping.{release-IsShm, on_process_gone-IsShm, release-next, on_process_gone-next}
use zero_os.Shm.Mapped.{Kept, map-Kept}
use zero_os.Shm.Creation.{
  IsPrepared, Ready, Kept-refl, prepare-Ready, enrol_prepared-Kept, retain-Kept, grant-Kept,
}

-- The calls of the kernel on this module, and the second part of the creation that has waited behind so
-- many others.
pub data Call : Type 0 where
  prepares : (slot size : ℕ) → Call
  enrols : (place : ℕ) → Call
  maps : (slot handle : ℕ) → Call
  retains : (slot handle : ℕ) → Call
  grants : (slot handle : ℕ) (target : ProcessId) → Call
  releases : (slot handle : ℕ) → Call
  gone : (pid : ProcessId) → Call

-- The objects, and the creations between their two parts.
pub record System (M : Type 0) : Type 0 where
  pub shm : Shm M
  pub creating : List Prepared

pub record IsSystem {M : Type 0} (y : System M) : Type 0 where
  pub shm_ok : IsShm y.shm
  pub creating_ok : All IsPrepared y.creating

-- The creation at a place, and the others.
abbrev pub put_back :
    Prepared → Option (Prepared × List Prepared) → Option (Prepared × List Prepared)
put_back p none = none
put_back p (some (q, qs)) = some (q, p ∷ qs)

abbrev pub pick : ℕ → List Prepared → Option (Prepared × List Prepared)
pick place [] = none
pick zero (p ∷ ps) = some (p, ps)
pick (suc place) (p ∷ ps) = put_back p (pick place ps)

module _ {M : Type 0} (k : Services M) where
  abbrev begun : System M → Result ShmError Prepared × Shm M → System M
  begun y (ok p, s) = record { shm = s; creating = y.creating ++ (p ∷ []) }
  begun y (err e, s) = record y { shm = s }

  abbrev ended : System M → Option (Prepared × List Prepared) → System M
  ended y none = y
  ended y (some (p, ps)) = record { shm = (enrol_prepared k p y.shm).1; creating = ps }

  unfoldable pub perform : Call → System M → System M
  perform (prepares slot size) y = begun y (prepare k slot size y.shm)
  perform (enrols place) y = ended y (pick place y.creating)
  perform (maps slot handle) y = record y { shm = (map k slot handle y.shm).1 }
  perform (retains slot handle) y = record y { shm = (Calls.retain k slot handle y.shm).1 }
  perform (grants slot handle target) y = record y {
    shm = (Calls.grant k slot handle target y.shm).1;
  }
  perform (releases slot handle) y = record y { shm = (release k slot handle y.shm).1 }
  perform (gone pid) y = record y { shm = on_process_gone k pid y.shm }

  unfoldable pub run : List Call → System M → System M
  run [] y = y
  run (c ∷ cs) y = run cs (perform c y)

  record Performed (y z : System M) : Type 0 where
    system : IsSystem z
    drawn : z.shm.next_id ≤ y.shm.next_id + 1

  Kept-Performed :
      (y : System M) (s : Shm M) → IsSystem y → Kept y.shm s → Performed y (record y { shm = s })
  Kept-Performed y s v h = record {
    system = record { shm_ok = h.shm; creating_ok = v.creating_ok };
    drawn = h.next;
  }

  begun-Performed :
      (y : System M) (out : Result ShmError Prepared × Shm M)
      → IsSystem y
      → Ready k y.shm out
      → Performed y (begun y out)
  begun-Performed y (err e, s) v h = Kept-Performed y s v h.kept
  begun-Performed y (ok p, s) v h = record {
    system = record {
      shm_ok = h.kept.shm;
      creating_ok = All-append _ y.creating (p ∷ []) v.creating_ok (h.ready, tt);
    };
    drawn = h.kept.next;
  }

  abbrev Picked : Option (Prepared × List Prepared) → Type 0
  Picked none = Unit
  Picked (some (p, ps)) = IsPrepared p × All IsPrepared ps

  pick-Picked : (place : ℕ) (ps : List Prepared) → All IsPrepared ps → Picked (pick place ps)
  pick-Picked place [] a = tt
  pick-Picked zero (p ∷ ps) a = a
  pick-Picked (suc place) (p ∷ ps) a = go (pick place ps) (pick-Picked place ps a.1)
    where
      go : (o : Option (Prepared × List Prepared)) → Picked o → Picked (put_back p o)
      go none h = tt
      go (some (q, qs)) h = (h.0, (a.0, h.1))

  ended-Performed :
      (y : System M) (o : Option (Prepared × List Prepared))
      → IsSystem y
      → y.shm.next_id + 1 < 2 ^ 32
      → Picked o
      → Performed y (ended y o)
  ended-Performed y none v below h = Kept-Performed y y.shm v (Kept-refl k y.shm v.shm_ok)
  ended-Performed y (some (p, ps)) v below h =
      let kept = enrol_prepared-Kept k p y.shm v.shm_ok below h.0 in
      record { system = record { shm_ok = kept.shm; creating_ok = h.1 }; drawn = kept.next }

  perform-Performed :
      (c : Call) (y : System M)
      → IsSystem y
      → y.shm.next_id + 1 < 2 ^ 32
      → Performed y (perform c y)
  unfolding perform
  perform-Performed (prepares slot size) y v h =
      begun-Performed y (prepare k slot size y.shm) v (prepare-Ready k slot size y.shm v.shm_ok)
  perform-Performed (enrols place) y v h =
      ended-Performed y (pick place y.creating) v h (pick-Picked place y.creating v.creating_ok)
  perform-Performed (maps slot handle) y v h =
      Kept-Performed y _ v (map-Kept k slot handle y.shm v.shm_ok)
  perform-Performed (retains slot handle) y v h =
      Kept-Performed y _ v (retain-Kept k slot handle y.shm v.shm_ok)
  perform-Performed (grants slot handle target) y v h =
      Kept-Performed y _ v (grant-Kept k slot handle target y.shm v.shm_ok)
  perform-Performed (releases slot handle) y v h = Kept-Performed y _ v (record {
    shm = release-IsShm k slot handle y.shm v.shm_ok;
    next = omega (arith, release-next k slot handle y.shm);
  })
  perform-Performed (gone pid) y v h = Kept-Performed y _ v (record {
    shm = on_process_gone-IsShm k pid y.shm v.shm_ok;
    next = omega (arith, on_process_gone-next k pid y.shm);
  })

  -- Whatever the calls, with other calls between the two parts of a creation, and whatever the process
  -- table, the page allocator and the page tables answer: while the ids do not run out of 32 bits, every
  -- region has a holder and holds as many pages as its length says, its holders are distinct with counts
  -- above 0, every mapping is by a process that still holds the region, no process has two mappings of
  -- one region, the mappings of a process lie in the window and do not meet, and there are 512 mappings
  -- at most.
  pub run-IsSystem :
      (cs : List Call) (y : System M)
      → IsSystem y
      → y.shm.next_id + length cs < 2 ^ 32
      → IsSystem (run cs y)
  unfolding run
  run-IsSystem [] y v h = v
  run-IsSystem (c ∷ cs) y v h =
      let done : Performed y (perform c y) = perform-Performed c y v (omega arith) in
      run-IsSystem cs (perform c y) done.system (omega (arith, done.drawn))
