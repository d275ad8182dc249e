-- ===== src/Shm/Mapped.antt =====
-- What `map` may do to the state, and a region that `create` has enrolled.
use zero_os.Common.{
  ℕ, zero, suc, ◌+◌, ◌*◌, ◌%◌, ◌^◌, ◌≤◌, ◌<◌, ◌≡◌, refl, ap, inl, inr, max, Bool, true, false, List,
  [], ◌∷◌, ◌++◌, Option, none, some, ◌==◌, leb, length, length-append, All, All-imp, All-append,
  Bool-cases, Option-cases, arith,
}
use zero_os.Common.Result.{Result, ok, err}
use zero_os.Common.Retain.{any-append}
use zero_os.Common.Vector.{find, Pairwise-snoc, find-found, find-missing, any-imp}
use zero_os.Ipc.Queue.{ProcessId}
use zero_os.Shm.{
  page, shm_base, shm_end, max_mappings, max_regions, ShmError, capacity, permission, Holder,
  Mapping, Region, Shm, Services, same_mapping, holder, align_up, find_va, with_region, retain_in,
  grant_in,
}
use zero_os.Shm
use zero_os.Shm.Calls.{map, map_pages, alloc_pages, recorded, at_va, enrol}
use zero_os.Shm.Window.{find_va_lem, FirstFit, fits, full, IsFree}
use zero_os.Shm.Invariant.{
  IsRegion, Sound, IsLive, IsShm, holds, is_holder, OtherRegion, OtherMapping, Apart, InWindow,
}

-- After a call: the invariant holds, and at most one more id is in use.
pub record Kept {M : Type 0} (s t : Shm M) : Type 0 where
  pub shm : IsShm t
  pub next : t.next_id ≤ s.next_id + 1

pub next-Sound :
    (rs : List Region) (ms : List Mapping) (next later : ℕ)
    → next ≤ later
    → Sound rs ms next
    → Sound rs ms later
next-Sound rs ms next later h v = record {
  ids = v.ids;
  issued = All-imp (λ r i. omega arith) rs v.issued;
  regions = v.regions;
  first = omega (arith, v.first);
  single = v.single;
  apart = v.apart;
  inside = v.inside;
  held = v.held;
  mapping_room = v.mapping_room;
}

module _ {M : Type 0} (k : Services M) where
  map_pages-length :
      (slot va i : ℕ) (ps : List ℕ) (mapped : ℕ) (memory after : M) (len : ℕ)
      → map_pages k slot va i ps mapped memory ≡ (ok len, after)
      → len ≡ mapped + page * length ps
  unfolding map_pages
  map_pages-length slot va i [] mapped memory after len e =
      let same : ◌≡◌ {A = Result ShmError ℕ} (ok mapped) (ok len) = ap (λ x. x.0) e in
      let same' : mapped ≡ len = cc in omega arith
  map_pages-length slot va i (p ∷ ps) mapped memory after len e =
      let next : Bool × M = k.map_page slot (va + i * page) p (k.retain_page p memory) in
      elim (Bool-cases next.0) [
        | inl here ↦ omega (
          arith,
          map_pages-length slot va (suc i) ps (mapped + page) next.1 after len
              (rw (map_pages, here) at (e)),
        )
        | inr refused ↦
            let e' : ◌≡◌ {A = Result ShmError ℕ} (err Shm.map_refused) (ok len) =
              ap (λ x. x.0) (rw (map_pages, refused) at (e)) in
            cc
      ]

  pub alloc_pages-length :
      (n : ℕ) (acc : List ℕ) (memory after : M) (pages : List ℕ)
      → alloc_pages k n acc memory ≡ (some pages, after)
      → length pages ≡ length acc + n
  unfolding alloc_pages
  alloc_pages-length zero acc memory after pages e =
      let same : ◌≡◌ {A = Option (List ℕ)} (some acc) (some pages) = ap (λ x. x.0) e in
      let same' : acc ≡ pages = cc in rw (← same') (omega arith)
  alloc_pages-length (suc n) acc memory after pages e =
      let got : Option ℕ × M = k.alloc_page memory in
      elim (Option-cases got.0) [
        | inl dry ↦
            let e' : ◌≡◌ {A = Option (List ℕ)} none (some pages) =
              ap (λ x. x.0) (rw (alloc_pages, dry) at (e)) in
            cc
        | inr (p, page') ↦ omega (
          arith,
          alloc_pages-length n (acc ++ (p ∷ [])) got.1 after pages (rw (alloc_pages, page') at (e)),
          length-append acc (p ∷ []),
        )
      ]

  -- What `map` may do to the state.
  pub data MapEffect (handle : ℕ) (s : Shm M) : Result ShmError ℕ × Shm M → Type 0 where
    stays :
        (answer : Result ShmError ℕ) (memory : M)
        → MapEffect handle s (answer, record s { memory = memory })
    adds :
        (pid : ProcessId) (q len : ℕ) (memory : M)
        → All (λ m. same_mapping pid handle m ≡ false) s.mappings
        → holds s.regions pid handle ≡ true
        → shm_base ≤ page * q
        → page * q + len ≤ shm_end
        → IsFree pid len s.mappings (page * q)
        → length s.mappings < max_mappings
        → MapEffect handle s (
          ok (page * q),
          record s {
            mappings =
                s.mappings
                ++ (record { pid = pid; handle = handle; va = page * q; len = len } ∷ []);
            memory = memory;
          },
        )

  recorded-MapEffect :
      (slot : ℕ) (pid : ProcessId) (handle : ℕ) (s : Shm M) (q len : ℕ)
      (got : Result ShmError ℕ × M)
      → All (λ m. same_mapping pid handle m ≡ false) s.mappings
      → holds s.regions pid handle ≡ true
      → shm_base ≤ page * q
      → page * q + len ≤ shm_end
      → IsFree pid len s.mappings (page * q)
      → ((mapped : ℕ) → got.0 ≡ ok mapped → mapped ≡ len)
      → MapEffect handle s (recorded k slot pid handle (page * q) s got)
  recorded-MapEffect slot pid handle s q len (err f, memory) fresh held from to free size =
      stays (err f) memory
  recorded-MapEffect slot pid handle s q len (ok mapped, memory) fresh held from to free size =
      elim (Bool-cases (leb max_mappings (length s.mappings))) [
        | inl crowded ↦ rw crowded (stays (err capacity) _)
        | inr room ↦
            rw (room, size mapped refl)
              (adds pid q len memory fresh held from to free (ground arith))
      ]

  map_pages-size :
      (slot : ℕ) (pid : ProcessId) (handle : ℕ) (r : Region) (s : Shm M) (q mapped : ℕ)
      → IsRegion r
      → (map_pages k slot (page * q) 0 r.pages 0 s.memory).0 ≡ ok mapped
      → mapped ≡ r.len
  map_pages-size slot pid handle r s q mapped v e = omega (
    arith,
    map_pages-length slot (page * q) 0 r.pages 0 s.memory
        (map_pages k slot (page * q) 0 r.pages 0 s.memory).1 mapped
        (ap (λ x. (x, (map_pages k slot (page * q) 0 r.pages 0 s.memory).1)) e),
    v.sized,
  )

  at_va-MapEffect :
      (slot : ℕ) (pid : ProcessId) (handle : ℕ) (r : Region) (s : Shm M)
      (found : Option (Result ShmError ℕ))
      → FirstFit pid r.len s.mappings found
      → All (λ m. same_mapping pid handle m ≡ false) s.mappings
      → holds s.regions pid handle ≡ true
      → IsRegion r
      → MapEffect handle s (at_va k slot pid handle r s found)
  at_va-MapEffect slot pid handle r s none f fresh held v = elim f [ ]
  at_va-MapEffect slot pid handle r s (some (ok va)) (fits q from to free below) fresh held v =
      recorded-MapEffect slot pid handle s q r.len _ fresh held from to free
        (λ mapped e. map_pages-size slot pid handle r s q mapped v e)
  at_va-MapEffect slot pid handle r s (some (err f)) (full taken) fresh held v =
      stays (err f) s.memory

  pub map-MapEffect :
      (slot handle : ℕ) (s : Shm M)
      → All IsRegion s.regions
      → MapEffect handle s (map k slot handle s)
  unfolding map
  map-MapEffect slot handle s v = elim (Option-cases (k.pid_at_slot slot)) [
    | inl missing ↦ rw missing (stays (err permission) s.memory)
    | inr (p, caller) ↦ elim (Option-cases (find (same_mapping p handle) s.mappings)) [
      | inr (m, mapped) ↦ rw (caller, mapped) (stays (ok m.va) s.memory)
      | inl fresh ↦ elim (Bool-cases (k.has_space slot)) [
        | inr spaceless ↦ rw (caller, fresh, spaceless) (stays (err permission) s.memory)
        | inl space ↦ elim (Option-cases (find (λ r. r.id == handle) s.regions)) [
          | inl unknown ↦ rw (caller, fresh, space, unknown) (stays (err Shm.not_found) s.memory)
          | inr (r, found) ↦ elim (Bool-cases (holder r p)) [
            | inr foreign ↦
                rw (caller, fresh, space, found, foreign) (stays (err permission) s.memory)
            | inl holds' ↦
                let (id, valid, among) =
                  find-found IsRegion (λ x. x.id == handle) s.regions r found v in
                rw (caller, fresh, space, found, holds')
                  (at_va-MapEffect slot p handle r s _ (find_va_lem p r.len s.mappings)
                    (find-missing (same_mapping p handle) s.mappings fresh)
                    (among (is_holder p handle) (
                      rw id (
                        unfold holder in
                        any-imp _ (λ h. h.pid == p) r.holders (λ h t. ground (arith, t)) holds')))
                    valid)
          ]
        ]
      ]
    ]
  ]

  pub effect-IsShm :
      (handle : ℕ) (s : Shm M) (out : Result ShmError ℕ × Shm M)
      → MapEffect handle s out
      → IsShm s
      → IsShm out.1
  effect-IsShm handle s out (stays answer memory) v = record { sound = v.sound; live = v.live }
  effect-IsShm handle s out (adds pid q len memory fresh held from to free room) v = record {
    sound = record {
      ids = v.sound.ids;
      issued = v.sound.issued;
      regions = v.sound.regions;
      first = v.sound.first;
      single =
          Pairwise-snoc OtherMapping s.mappings _ v.sound.single
            (All-imp (λ m o. ground (arith, o)) s.mappings fresh);
      apart =
          Pairwise-snoc Apart s.mappings _ v.sound.apart
            (All-imp (λ m f e. ground (arith, f e)) s.mappings free);
      inside = All-append InWindow s.mappings _ v.sound.inside ((from, to), tt);
      held = All-append _ s.mappings _ v.sound.held (held, tt);
      mapping_room = omega (
        arith,
        length-append s.mappings
            (record { pid = pid; handle = handle; va = page * q; len = len } ∷ []),
      );
    };
    live = v.live;
  }

  pub effect-next :
      (handle : ℕ) (s : Shm M) (out : Result ShmError ℕ × Shm M)
      → MapEffect handle s out
      → (out.1).next_id ≡ s.next_id
  effect-next handle s out (stays answer memory) = refl
  effect-next handle s out (adds pid q len memory fresh held from to free room) = refl

  pub map-Kept : (slot handle : ℕ) (s : Shm M) → IsShm s → Kept s (map k slot handle s).1
  map-Kept slot handle s v =
      let effect : MapEffect handle s (map k slot handle s) =
        map-MapEffect slot handle s v.sound.regions in
      record {
        shm = effect-IsShm handle s (map k slot handle s) effect v;
        next = omega (arith, effect-next handle s (map k slot handle s) effect);
      }

  -- A fresh region, held once by its owner.
  pub enrol-IsShm :
      (pid : ProcessId) (len : ℕ) (pages : List ℕ) (memory : M) (s : Shm M)
      → IsShm s
      → s.next_id + 1 < 2 ^ 32
      → page * length pages ≡ len
      → IsShm (enrol k pid len pages memory s)
  enrol-IsShm pid len pages memory s v below size =
      let plain : max s.next_id 1 ≡ s.next_id = omega (arith, v.sound.first) in
      let counted : (s.next_id + 1) % 2 ^ 32 ≡ s.next_id + 1 = omega arith in
      let fresh : Region = record {
        id = s.next_id;
        owner = pid;
        len = len;
        pages = pages;
        holders = record { pid = pid; refs = 1 } ∷ [];
      } in
      rw (plain, counted)
        (record {
          sound = record {
            ids =
                Pairwise-snoc OtherRegion s.regions fresh v.sound.ids
                  (All-imp (λ r i. ground (arith, i)) s.regions v.sound.issued);
            issued =
                All-append _ s.regions (fresh ∷ [])
                  (All-imp (λ r i. omega (arith, i)) s.regions v.sound.issued) (omega arith, tt);
            regions = All-append IsRegion s.regions (fresh ∷ []) v.sound.regions (
              record {
                distinct = (tt, tt);
                counted = ((omega arith, omega arith), tt);
                sized = size;
              },
              tt,
            );
            first = omega arith;
            single = v.sound.single;
            apart = v.sound.apart;
            inside = v.sound.inside;
            held =
                All-imp (λ m h. any-append (is_holder m.pid m.handle) s.regions (fresh ∷ []) h)
                  s.mappings v.sound.held;
            mapping_room = v.sound.mapping_room;
          };
          live = All-append IsLive s.regions (fresh ∷ []) v.live (refl, tt);
        })
