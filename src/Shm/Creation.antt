-- ===== src/Shm/Creation.antt =====
-- The two parts of `create`, `retain` and `grant` keep the invariant.
use zero_os.Common.{
  ℕ, ◌+◌, ◌*◌, ◌/◌, ◌^◌, ◌<◌, ◌≡◌, refl, inl, inr, max, true, false, not, ◌&&◌, List, [], ◌∷◌,
  Option, none, some, ==_refl, ltb, leb, length, All, All-imp, All-every, Bool-cases, Option-cases,
  arith,
}
use zero_os.Common.Result.{Result, ok, err, Result-cases}
use zero_os.Common.Vector.{swap_remove_first-last}
use zero_os.Common.Pointwise.{Pointwise, Pointwise-All, Pointwise-imp}
use zero_os.Ipc.Queue.{ProcessId}
use zero_os.Shm.{
  page, max_object, max_regions, ShmError, Region, Shm, Services, align_up, with_region, retain_in,
  grant_in,
}
use zero_os.Shm.Calls
use zero_os.Shm.Calls.{
  Prepared, map, prepare, enrol_prepared, release, on_process_gone, alloc_pages, created, enrol,
  with_pages, sized, is_owned, destroy_if_owner_only, stored, len,
}
use zero_os.Shm.Window.{align_up_lem}
use zero_os.Shm.Invariant.{IsShm}
use zero_os.Shm.Regions.{Grows, Grows-refl, retain_in-Grows, grant_in-Grows, with_region-Pointwise}
use zero_os.Shm.Preserve.{step-Sound}
use zero_os.Shm.Mapped.{
  Kept, next-Sound, alloc_pages-length, MapEffect, stays, adds, map-MapEffect, effect-IsShm,
  enrol-IsShm,
}

-- A prepared region has as many pages as its length says.
abbrev pub IsPrepared : Prepared → Type 0
IsPrepared p = page * length p.pages ≡ p.len

abbrev pub IsReady : Result ShmError Prepared → Type 0
IsReady (ok p) = IsPrepared p
IsReady (err e) = Unit

module _ {M : Type 0} (k : Services M) where
  pub record Ready (s : Shm M) (out : Result ShmError Prepared × Shm M) : Type 0 where
    pub kept : Kept s out.1
    pub ready : IsReady out.0

  pub Kept-refl : (s : Shm M) → IsShm s → Kept s s
  Kept-refl s v = record { shm = v; next = omega arith }

  -- What follows `map` in `create`: when it fails, the new region is taken out again.
  created-Kept :
      (pid : ProcessId) (len : ℕ) (pages : List ℕ) (memory : M) (s : Shm M)
      (out : Result ShmError ℕ × Shm M)
      → IsShm s
      → s.next_id + 1 < 2 ^ 32
      → page * length pages ≡ len
      → MapEffect k (max s.next_id 1) (enrol k pid len pages memory s) out
      → Kept s (created k pid (max s.next_id 1) len out).1
  unfolding destroy_if_owner_only
  created-Kept pid len pages memory s out v below size
        (adds p q l m fresh held from to free space) =
      record {
        shm =
            effect-IsShm k (max s.next_id 1) (enrol k pid len pages memory s) _
              (adds p q l m fresh held from to free space)
              (enrol-IsShm k pid len pages memory s v below size);
        next = omega arith;
      }
  created-Kept pid len pages memory s out v below size (stays (ok va) m) = record {
    shm =
        effect-IsShm k (max s.next_id 1) (enrol k pid len pages memory s) _ (stays (ok va) m)
          (enrol-IsShm k pid len pages memory s v below size);
    next = omega arith;
  }
  created-Kept pid len pages memory s out v below size (stays (err f) m) =
      let id : ℕ = max s.next_id 1 in
      let fresh : Region = record {
        id = id;
        owner = pid;
        len = len;
        pages = pages;
        holders = record { pid = pid; refs = 1 } ∷ [];
      } in
      let mine : is_owned pid id fresh ≡ true = rw (==_refl id, ==_refl pid) refl in
      let others : All (λ r. is_owned pid id r ≡ false) s.regions =
        All-imp (λ r i. ground (arith, i)) s.regions v.sound.issued in
      let (found, restored) =
        swap_remove_first-last (is_owned pid id) s.regions fresh others mine in
      rw (found, restored)
        (record {
          shm = record {
            sound = next-Sound s.regions s.mappings s.next_id _ (omega arith) v.sound;
            live = v.live;
          };
          next = omega arith;
        })

  with_pages-Ready :
      (slot : ℕ) (pid : ProcessId) (len : ℕ) (s : Shm M) (got : Option (List ℕ) × M)
      → IsShm s
      → (q : ℕ) × (len ≡ page * q)
      → ((pages : List ℕ) → got ≡ (some pages, got.1) → length pages ≡ 0 + len / page)
      → Ready s (with_pages k slot pid len s got)
  with_pages-Ready slot pid len s (none, memory) v aligned count = record {
    kept = record { shm = record { sound = v.sound; live = v.live }; next = omega arith };
    ready = tt;
  }
  with_pages-Ready slot pid len s (some pages, memory) v (q, aligned) count =
      let size : page * length pages ≡ len = omega (arith, count pages refl) in
      record {
        kept = record { shm = record { sound = v.sound; live = v.live }; next = omega arith };
        ready = size;
      }

  refused-Ready : (s : Shm M) (e : ShmError) → IsShm s → Ready s (err e, s)
  refused-Ready s e v = record { kept = Kept-refl s v; ready = tt }

  sized-Ready :
      (slot : ℕ) (pid : ProcessId) (s : Shm M) (size : Option ℕ)
      → IsShm s
      → ((len : ℕ) → size ≡ some len → (q : ℕ) × (len ≡ page * q))
      → Ready s (sized k slot pid s size)
  sized-Ready slot pid s none v aligned = refused-Ready s _ v
  sized-Ready slot pid s (some len) v aligned =
      elim (Bool-cases (not (ltb 0 len && leb len max_object))) [
        | inl refused ↦ rw refused (refused-Ready s _ v)
        | inr sane ↦ elim (Bool-cases (leb max_regions (length s.regions))) [
          | inl crowded ↦ rw (sane, crowded) (refused-Ready s _ v)
          | inr room ↦
              rw (sane, room)
                (with_pages-Ready slot pid len s (alloc_pages k (len / page) [] s.memory) v
                  (aligned len refl)
                  (λ pages e. alloc_pages-length k (len / page) [] s.memory _ pages e))
        ]
      ]

  pub prepare-Ready : (slot size : ℕ) (s : Shm M) → IsShm s → Ready s (prepare k slot size s)
  unfolding prepare
  prepare-Ready slot size s v = elim (Option-cases (k.pid_at_slot slot)) [
    | inl missing ↦ rw missing (refused-Ready s _ v)
    | inr (p, caller) ↦ rw caller (
        sized-Ready slot p s (align_up size) v (λ len e. elim (align_up_lem size) [
          | inl (q, up, low, high) ↦ let e' : some (page * q) ≡ some len = rw up at (e) in (q, cc)
          | inr (over, high) ↦ let e' : none ≡ some len = rw over at (e) in cc
        ]))
  ]

  pub enrol_prepared-Kept :
      (p : Prepared) (s : Shm M)
      → IsShm s
      → s.next_id + 1 < 2 ^ 32
      → page * length p.pages ≡ p.len
      → Kept s (enrol_prepared k p s).1
  unfolding enrol_prepared
  enrol_prepared-Kept p s v below size =
      created-Kept p.pid p.len p.pages s.memory s _ v below size (
        map-MapEffect k p.slot (max s.next_id 1) (enrol k p.pid p.len p.pages s.memory s)
          (enrol-IsShm k p.pid p.len p.pages s.memory s v below size).sound.regions)

  -- A call that only raises a count.
  stored-Kept :
      (handle : ℕ) (act : Region → Result ShmError (Unit {0} × Region)) (s : Shm M)
      → ((r : Region) (u : Unit {0}) (after : Region) → act r ≡ ok (u, after) → Grows r after)
      → IsShm s
      → Kept s (stored k s (with_region handle act s.regions)).1
  stored-Kept handle act s acts v = elim (Result-cases (with_region handle act s.regions)) [
    | inl ((u, rs), done) ↦
        let steps : Pointwise Grows s.regions rs =
          with_region-Pointwise handle act Grows u Grows-refl (λ r after e got. acts r u after got)
            s.regions rs done in
        rw done (record {
          shm = record {
            sound =
                step-Sound _ s.regions rs s.mappings s.next_id
                  (Pointwise-imp (λ a b g. g.step) s.regions rs steps) v.sound
                  (All-every (λ m. refl) s.mappings);
            live = Pointwise-All Grows (λ a b g l. g.live l) s.regions rs steps v.live;
          };
          next = omega arith;
        })
    | inr (f, failed) ↦ rw failed (Kept-refl s v)
  ]

  pub retain-Kept :
      (slot handle : ℕ) (s : Shm M) → IsShm s → Kept s (Calls.retain k slot handle s).1
  unfolding Calls.retain
  retain-Kept slot handle s v = elim (Option-cases (k.pid_at_slot slot)) [
    | inl missing ↦ rw missing (Kept-refl s v)
    | inr (p, caller) ↦ rw caller (stored-Kept handle (retain_in p) s (retain_in-Grows p) v)
  ]

  pub grant-Kept :
      (slot handle : ℕ) (target : ProcessId) (s : Shm M)
      → IsShm s
      → Kept s (Calls.grant k slot handle target s).1
  unfolding Calls.grant
  grant-Kept slot handle target s v = elim (Option-cases (k.pid_at_slot slot)) [
    | inl missing ↦ rw missing (Kept-refl s v)
    | inr (p, caller) ↦ elim (Option-cases (k.slot_for_pid target)) [
      | inl dead ↦ rw (caller, dead) (Kept-refl s v)
      | inr (t, alive) ↦
          rw (caller, alive) (stored-Kept handle (grant_in p target) s (grant_in-Grows p target) v)
    ]
  ]
