-- ===== src/Shm/Reaping.antt =====
-- `release` and `on_process_gone`: the holders go, then their mappings, then the empty regions.
use zero_os.Common.{
  ℕ, ◌≡◌, refl, sym, ◌∙◌, inl, inr, Bool, true, false, not, ◌&&◌, List, [], ◌∷◌, ◌==◌, ==_refl, All,
  All-imp, All-every, Bool-cases, Option-cases, arith,
}
use zero_os.Common.Result.{ok, Result-cases}
use zero_os.Common.Retain
use zero_os.Common.Retain.{any, retain-All, retain-kept, length-retain-le}
use zero_os.Common.Vector.{
  find, swap_remove_first, swap_remove_first-All, swap_remove_first-missing, All-and,
  retain-Pairwise,
}
use zero_os.Common.Pointwise.{Pointwise, Pointwise-All, Pointwise-imp}
use zero_os.Ipc.Queue.{ProcessId}
use zero_os.Shm.{Mapping, Region, Shm, Services, same_mapping, with_region, release_in}
use zero_os.Shm.Calls.{
  is_empty, is_dead, reap_empty, reap_all, unmap_pid_handle, after_release, forget_holders,
  empty_ids, on_process_gone, release,
}
use zero_os.Shm.Invariant.{Sound, IsLive, IsShm}
use zero_os.Shm.Regions.{
  RegionStep, Releases, Releases-refl, release_in-Releases, with_region-Pointwise,
  forget-RegionStep,
}
use zero_os.Shm.Preserve.{
  step-Sound, fewer-Sound, unmap-Sound, unmap-clears, reap-Sound, reap-clears,
}

-- Every region without a holder is one of those that are to be reaped.
abbrev DeadAmong : List ℕ → Region → Type 0
DeadAmong ids r = (is_empty r.holders && not (any (λ i. r.id == i) ids)) ≡ false

module _ {M : Type 0} (k : Services M) where
  -- The removal does nothing when there is no such region.
  reap_empty-parts :
      (handle : ℕ) (s : Shm M)
      → ((reap_empty k handle s).regions ≡ swap_remove_first (is_dead handle) s.regions)
        × ((reap_empty k handle s).mappings ≡ s.mappings)
        × ((reap_empty k handle s).next_id ≡ s.next_id)
  unfolding reap_empty
  reap_empty-parts handle s = elim (Option-cases (find (is_dead handle) s.regions)) [
    | inl missing ↦
        rw missing (sym (swap_remove_first-missing (is_dead handle) s.regions missing), refl, refl)
    | inr (r, found) ↦ rw found (refl, refl, refl)
  ]

  unmap_pid_handle-parts :
      (p : ProcessId) (handle : ℕ) (s : Shm M)
      → ((unmap_pid_handle k p handle s).regions ≡ s.regions)
        × ((unmap_pid_handle k p handle s).mappings
            ≡ swap_remove_first (same_mapping p handle) s.mappings)
        × ((unmap_pid_handle k p handle s).next_id ≡ s.next_id)
  unfolding unmap_pid_handle
  unmap_pid_handle-parts p handle s =
      elim (Option-cases (find (same_mapping p handle) s.mappings)) [
        | inl missing ↦
            rw missing (
              refl,
              sym (swap_remove_first-missing (same_mapping p handle) s.mappings missing),
              refl,
            )
        | inr (m, found) ↦ rw found (refl, refl, refl)
      ]

  reap_all-IsShm :
      (ids : List ℕ) (s : Shm M)
      → Sound s.regions s.mappings s.next_id
      → All (DeadAmong ids) s.regions
      → IsShm (reap_all k ids s)
  unfolding reap_all any
  reap_all-IsShm [] s v among = record {
    sound = v;
    live = All-imp (λ r d. ground (arith, d)) s.regions among;
  }
  reap_all-IsShm (h ∷ hs) s v among =
      let (regions, mappings, next) = reap_empty-parts h s in
      reap_all-IsShm hs (reap_empty k h s)
        (rw (regions, mappings, next) (reap-Sound h s.regions s.mappings s.next_id v))
        (rw regions (
          All-imp (λ r d. ground (arith, d.0, d.1)) (swap_remove_first (is_dead h) s.regions)
            (All-and _ _ _ (swap_remove_first-All _ (is_dead h) s.regions among)
              (reap-clears h s.regions v.ids))))

  released-IsShm :
      (p : ProcessId) (handle : ℕ) (s : Shm M) (lost : Bool) (rs : List Region)
      → IsShm s
      → Pointwise (Releases p handle lost) s.regions rs
      → IsShm (after_release k p handle s (ok (lost, rs))).1
  released-IsShm p handle s lost rs v steps = finish lost steps
    where
      among :
          (lost : Bool)
          → Pointwise (Releases p handle lost) s.regions rs
          → All (DeadAmong (handle ∷ [])) rs
      among lost steps =
          Pointwise-All (Releases p handle lost) {P = IsLive} {Q = DeadAmong (handle ∷ [])}
            (λ a b x l. unfold any in ground (arith, x.live l)) s.regions rs steps v.live

      change :
          (lost : Bool)
          → Pointwise (Releases p handle lost) s.regions rs
          → Pointwise (RegionStep (λ q h. (q == p && h == handle) && lost)) s.regions rs
      change lost steps = Pointwise-imp (λ a b x. x.step) s.regions rs steps

      finish :
          (lost : Bool)
          → Pointwise (Releases p handle lost) s.regions rs
          → IsShm (after_release k p handle s (ok (lost, rs))).1
      finish true steps =
          let (regions, mappings, next) =
            unmap_pid_handle-parts p handle (record s { regions = rs }) in
          unfold reap_all in
          reap_all-IsShm (handle ∷ []) (unmap_pid_handle k p handle (record s { regions = rs }))
            (rw (regions, mappings, next)
              (step-Sound _ s.regions rs _ s.next_id (change true steps)
                (unmap-Sound p handle s.regions s.mappings s.next_id v.sound)
                (All-imp (λ m e. ground (arith, e)) _
                  (unmap-clears p handle s.mappings v.sound.single))))
            (rw regions (among true steps))
      finish false steps =
          unfold reap_all in
          reap_all-IsShm (handle ∷ []) (record s { regions = rs })
            (step-Sound _ s.regions rs s.mappings s.next_id (change false steps) v.sound
              (All-every (λ m. ground arith) s.mappings))
            (among false steps)

  pub release-IsShm : (slot handle : ℕ) (s : Shm M) → IsShm s → IsShm (release k slot handle s).1
  unfolding release
  release-IsShm slot handle s v = elim (Option-cases (k.pid_at_slot slot)) [
    | inl missing ↦ rw missing v
    | inr (p, found) ↦ elim (Result-cases (with_region handle (release_in p) s.regions)) [
      | inl ((lost, rs), done) ↦
          rw (found, done)
            (released-IsShm p handle s lost rs v (
              with_region-Pointwise handle (release_in p) (Releases p handle lost) lost
                (Releases-refl p handle lost)
                (λ r after e act. rw (← e) (release_in-Releases p r lost after act)) s.regions rs
                done))
      | inr (f, failed) ↦ rw (found, failed) v
    ]
  ]

  forget_holders-Pointwise :
      (p : ProcessId) (rs : List Region)
      → Pointwise (RegionStep (λ q h. q == p)) rs (forget_holders k p rs)
  unfolding forget_holders
  forget_holders-Pointwise p [] = tt
  forget_holders-Pointwise p (r ∷ rs) = (forget-RegionStep p r, forget_holders-Pointwise p rs)

  empty_ids-DeadAmong : (rs : List Region) → All (DeadAmong (empty_ids k rs)) rs
  unfolding empty_ids any
  empty_ids-DeadAmong [] = tt
  empty_ids-DeadAmong (r ∷ rs) = elim (Bool-cases (is_empty r.holders)) [
    | inl empty ↦ rw empty (
      ground (arith, ==_refl r.id),
      All-imp (λ x d. ground (arith, d)) rs (empty_ids-DeadAmong rs),
    )
    | inr live ↦ (rw live refl, All-imp (λ x d. rw live d) rs (empty_ids-DeadAmong rs))
  ]

  pub on_process_gone-IsShm : (p : ProcessId) (s : Shm M) → IsShm s → IsShm (on_process_gone k p s)
  unfolding on_process_gone
  on_process_gone-IsShm p s v =
      let keep : Mapping → Bool = λ m. not (m.pid == p) in
      reap_all-IsShm _ _
        (step-Sound _ s.regions _ (Retain.retain keep s.mappings) s.next_id
          (forget_holders-Pointwise p s.regions)
          (fewer-Sound s.regions s.mappings _ s.next_id (λ P a. retain-All P keep s.mappings a)
            (λ R flip a. retain-Pairwise R keep s.mappings a) (length-retain-le keep s.mappings)
            v.sound)
          (All-imp (λ m e. ground (arith, e)) _ (retain-kept keep s.mappings)))
        (empty_ids-DeadAmong (forget_holders k p s.regions))

  reap_all-next : (ids : List ℕ) (s : Shm M) → (reap_all k ids s).next_id ≡ s.next_id
  unfolding reap_all
  reap_all-next [] s = refl
  reap_all-next (h ∷ hs) s =
      let (regions, mappings, next) = reap_empty-parts h s in
      reap_all-next hs (reap_empty k h s) ∙ next

  pub release-next : (slot handle : ℕ) (s : Shm M) → (release k slot handle s).1.next_id ≡ s.next_id
  unfolding release
  release-next slot handle s = elim (Option-cases (k.pid_at_slot slot)) [
    | inl missing ↦ rw missing refl
    | inr (p, found) ↦ elim (Result-cases (with_region handle (release_in p) s.regions)) [
      | inl ((true, rs), done) ↦
          let unmapped : Shm M = unmap_pid_handle k p handle (record s { regions = rs }) in
          let (regions, mappings, next) = reap_empty-parts handle unmapped in
          let (regions', mappings', next') =
            unmap_pid_handle-parts p handle (record s { regions = rs }) in
          rw (found, done) (next ∙ next')
      | inl ((false, rs), done) ↦
          let (regions, mappings, next) = reap_empty-parts handle (record s { regions = rs }) in
          rw (found, done) next
      | inr (f, failed) ↦ rw (found, failed) refl
    ]
  ]

  pub on_process_gone-next :
      (p : ProcessId) (s : Shm M) → (on_process_gone k p s).next_id ≡ s.next_id
  unfolding on_process_gone
  on_process_gone-next p s = reap_all-next (empty_ids k (forget_holders k p s.regions)) _
