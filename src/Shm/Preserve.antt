-- ===== src/Shm/Preserve.antt =====
-- The invariant through a change of one region, the removal of mappings and the reaping of regions.
use zero_os.Common.{
  ℕ, ◌≤◌, ◌≡◌, sym, ◌∙◌, Bool, false, ◌&&◌, List, [], ◌∷◌, ◌==◌, length, All, All-imp, All-every,
  arith,
}
use zero_os.Common.Retain.{any}
use zero_os.Common.Vector.{
  Pairwise, Pairwise-imp, swap_remove_first, swap_remove_first-All, swap_remove_first-Pairwise,
  swap_remove_first-clears, swap_remove_first-length, any-swap_remove_first, All-and,
}
use zero_os.Common.Pointwise.{Pointwise, Pointwise-All, Pointwise-Pairwise, Pointwise-any}
use zero_os.Ipc.Queue.{ProcessId}
use zero_os.Shm.{Holder, Mapping, Region, same_mapping}
use zero_os.Shm.Calls.{is_empty, is_dead}
use zero_os.Shm.Invariant.{Sound, is_holder, OtherRegion, OtherMapping, Apart, InWindow}
use zero_os.Shm.Regions.{RegionStep}

pub step-Sound :
    (gone : ProcessId → ℕ → Bool) (rs new : List Region) (ms : List Mapping) (next : ℕ)
    → Pointwise (RegionStep gone) rs new
    → Sound rs ms next
    → All (λ m. gone m.pid m.handle ≡ false) ms
    → Sound new ms next
step-Sound gone rs new ms next p v spared = record {
  ids =
      Pointwise-Pairwise (RegionStep gone) OtherRegion (λ a b c d x y o. rw (x.id, y.id) o) rs new p
        v.ids;
  issued = Pointwise-All (RegionStep gone) (λ a b x i. rw (x.id) i) rs new p v.issued;
  regions = Pointwise-All (RegionStep gone) (λ a b x i. x.valid i) rs new p v.regions;
  first = v.first;
  single = v.single;
  apart = v.apart;
  inside = v.inside;
  held =
      All-imp
        (λ m h.
          Pointwise-any (RegionStep gone) (is_holder m.pid m.handle)
            (λ a b x t. x.stays m.pid m.handle h.0 t) rs new p h.1)
        ms (All-and _ _ ms spared v.held);
  mapping_room = v.mapping_room;
}

-- The mappings that a call leaves.
pub fewer-Sound :
    (rs : List Region) (ms new : List Mapping) (next : ℕ)
    → ((P : Mapping → Type 0) → All P ms → All P new)
    → ((R : Mapping → Mapping → Type 0)
        → ((a b : Mapping) → R a b → R b a)
        → Pairwise R ms
        → Pairwise R new)
    → length new ≤ length ms
    → Sound rs ms next
    → Sound rs new next
fewer-Sound rs ms new next each pairs shorter v = record {
  ids = v.ids;
  issued = v.issued;
  regions = v.regions;
  first = v.first;
  single = pairs OtherMapping (λ a b o. ground (arith, o)) v.single;
  apart = pairs Apart (λ a b o e. ground (arith, o (sym e))) v.apart;
  inside = each InWindow v.inside;
  held = each _ v.held;
  mapping_room = omega (arith, v.mapping_room);
}

pub unmap-Sound :
    (p : ProcessId) (handle : ℕ) (rs : List Region) (ms : List Mapping) (next : ℕ)
    → Sound rs ms next
    → Sound rs (swap_remove_first (same_mapping p handle) ms) next
unmap-Sound p handle rs ms next v =
    fewer-Sound rs ms _ next (λ P a. swap_remove_first-All P (same_mapping p handle) ms a)
      (λ R flip a. swap_remove_first-Pairwise R (same_mapping p handle) ms flip a)
      (swap_remove_first-length (same_mapping p handle) ms) v

-- Nothing of the process is mapped at that handle any more.
pub unmap-clears :
    (p : ProcessId) (handle : ℕ) (ms : List Mapping)
    → Pairwise OtherMapping ms
    → All (λ m. same_mapping p handle m ≡ false) (swap_remove_first (same_mapping p handle) ms)
unmap-clears p handle ms a =
    swap_remove_first-clears (same_mapping p handle) ms
      (Pairwise-imp (λ x y o. ground (arith, o)) ms a)

-- A region without a holder is held by nobody.
dead_held :
    (handle : ℕ) (p : ProcessId) (h : ℕ) (r : Region)
    → (is_dead handle r && is_holder p h r) ≡ false
unfolding any
dead_held handle p h r = without r.holders
  where
    without :
        (hs : List Holder)
        → ((r.id == handle && is_empty hs) && (r.id == h && any (λ x. x.pid == p) hs)) ≡ false
    without [] = ground arith
    without (x ∷ hs) = ground arith

pub reap-Sound :
    (handle : ℕ) (rs : List Region) (ms : List Mapping) (next : ℕ)
    → Sound rs ms next
    → Sound (swap_remove_first (is_dead handle) rs) ms next
reap-Sound handle rs ms next v = record {
  ids =
      swap_remove_first-Pairwise OtherRegion (is_dead handle) rs (λ a b o. ground (arith, o)) v.ids;
  issued = swap_remove_first-All _ (is_dead handle) rs v.issued;
  regions = swap_remove_first-All _ (is_dead handle) rs v.regions;
  first = v.first;
  single = v.single;
  apart = v.apart;
  inside = v.inside;
  held =
      All-imp
        (λ m h.
          any-swap_remove_first (is_holder m.pid m.handle) (is_dead handle) rs
            (All-every (λ r. dead_held handle m.pid m.handle r) rs)
          ∙ h)
        ms v.held;
  mapping_room = v.mapping_room;
}

pub reap-clears :
    (handle : ℕ) (rs : List Region)
    → Pairwise OtherRegion rs
    → All (λ r. is_dead handle r ≡ false) (swap_remove_first (is_dead handle) rs)
reap-clears handle rs a =
    swap_remove_first-clears (is_dead handle) rs (Pairwise-imp (λ x y o. ground (arith, o)) rs a)
