-- ===== src/Mm/PhysBitmap/Contiguous.antt =====
-- What `alloc_contiguous` hands out.
use zero_os.Common.{
  ℕ, zero, suc, ◌+◌, ◌-◌, ◌*◌, ◌≤◌, ◌<◌, ◌≡◌, ◌≢◌, refl, inl, inr, ◌⊎◌, false, ◌&&◌, ◌||◌, List,
  none, some, ◌==◌, ltb, leb, if◌then◌else◌, set, Bool-cases, arith,
}
use zero_os.Common.Result.{ok}
use zero_os.Bitmap.{busy, set_bit, busy-set_bit}
use zero_os.Mm.PhysBitmap.{
  PhysBitmap, page_size, assert_ready, find_run, take_run, take_found, alloc_contiguous,
}
use zero_os.Mm.PhysBitmap.Invariant.{IsPhys, taken, taken-IsPhys, page_in_words}

-- The pages from `start` on, `count` of them, are free.
abbrev pub FreeRun : List ℕ → ℕ → ℕ → Type 0
FreeRun words start count = (p : ℕ) → start ≤ p → p < start + count → busy words p ≡ false

-- What the search means that has `run` free pages before `page` behind it.
pub find_run_lem :
    (words : List ℕ) (count page rounds run run_start : ℕ)
    → run < count
    → run ≤ page
    → (run ≢ 0 → run_start + run ≡ page)
    → FreeRun words (page - run) run
    → ((find_run words count page rounds run run_start ≡ none)
        × ((s : ℕ) → page - run ≤ s → s + count ≤ page + rounds → ¬ FreeRun words s count))
      ⊎ ((s : ℕ) × (find_run words count page rounds run run_start ≡ some s)
          × (page - run ≤ s)
          × (s + count ≤ page + rounds)
          × FreeRun words s count)
unfolding find_run
find_run_lem words count page zero run start small fits link free' =
    inl (refl, λ s l h f. absurd (omega arith))
find_run_lem words count page (suc rounds) run start small fits link free' =
    elim (Bool-cases (busy words page)) [
      | inl used ↦
          elim (find_run_lem words count (suc page) rounds 0 start (omega arith) (omega arith)
            (λ n. absurd (n refl)) (λ p l h. absurd (omega arith))) [
              | inl (none', none_free) ↦ inl (
                rw used none',
                λ s l h f. elim (Bool-cases (ltb page s)) [
                  | inl later ↦ none_free s (ground arith) (omega arith) f
                  | inr over ↦ absurd (ground (arith, f page))
                ],
              )
              | inr (s, found, l, h, f) ↦ inr (s, rw used found, omega arith, omega arith, f)
            ]
      | inr clear ↦
          let first : ℕ = if run == 0 then page else start in
          let link' : first + suc run ≡ suc page = ground (arith, link) in
          let longer : FreeRun words (suc page - suc run) (suc run) =
            λ p l h. one_more p (omega arith) (omega arith) clear free' in
          elim (Bool-cases (suc run == count)) [
            | inl full ↦
                let back : first ≡ suc page - suc run = omega arith in
                let size : suc run ≡ count = ground arith in
                inr
                  (first, rw (clear, full) refl, omega arith, omega arith, rw (back, ← size) longer)
            | inr short ↦
                elim (find_run_lem words count (suc page) rounds (suc run) first (ground arith)
                  (omega arith) (λ n. link') longer) [
                    | inl (none', none_free) ↦ inl (
                      rw (clear, short) none',
                      λ s l h f. none_free s (omega arith) (omega arith) f,
                    )
                    | inr (s, found, l, h, f) ↦
                        inr (s, rw (clear, short) found, omega arith, omega arith, f)
                  ]
          ]
    ]
  where
    one_more :
        (p : ℕ)
        → page - run ≤ p
        → p ≤ page
        → busy words page ≡ false
        → FreeRun words (page - run) run
        → busy words p ≡ false
    one_more p l h clear before = elim (Bool-cases (p == page)) [
      | inl same ↦ let e : p ≡ page = ground arith in rw e clear
      | inr other ↦ before p l (ground arith)
    ]

take_run-free :
    (n : ℕ) (b : PhysBitmap) (start f : ℕ)
    → take_run (record b { free = f }) start n ≡ record (take_run b start n) { free = f }
unfolding take_run
take_run-free zero b start f = refl
take_run-free (suc n) b start f =
    take_run-free n (record b { words = set_bit b.words start; refs = set b.refs start 1 })
      (suc start) f

-- The bitmap after a run of pages was taken.
abbrev pub run_taken : PhysBitmap → ℕ → ℕ → PhysBitmap
run_taken b start n = record (take_run b start n) { free = b.free - n }

run_taken-suc :
    (b : PhysBitmap) (start n : ℕ)
    → run_taken b start (suc n) ≡ run_taken (taken b start 1 b.cursor) (suc start) n
unfolding take_run
run_taken-suc b start n =
    let e : b.free - 1 - n ≡ b.free - suc n = omega arith in
    rw
      (
        take_run-free n (record b { words = set_bit b.words start; refs = set b.refs start 1 })
            (suc start) (b.free - 1),
        e,
      )
      refl

-- Exactly the pages of the run are used in addition, and the bitmap stays well formed.
pub record Took (b c : PhysBitmap) (start n : ℕ) : Type 0 where
  pub phys : IsPhys c
  pub used : (p : ℕ) → busy c.words p ≡ ((leb start p && ltb p (start + n)) || busy b.words p)

pub run_taken-Took :
    (n : ℕ) (b : PhysBitmap) (start : ℕ)
    → IsPhys b
    → start + n ≤ b.total
    → FreeRun b.words start n
    → Took b (run_taken b start n) start n
run_taken-Took zero b start v h f =
    let e : b.free - 0 ≡ b.free = omega arith in
    unfold take_run in (rw e (record { phys = v; used = λ p. ground arith }))
run_taken-Took (suc n) b start v h f =
    let clear = f start (omega arith) (omega arith) in
    let below : start < b.total = omega arith in
    let now : (p : ℕ) → busy (set_bit b.words start) p ≡ (p == start || busy b.words p) =
      λ p. busy-set_bit b.words start p (page_in_words b start v below) in
    let t =
      run_taken-Took n (taken b start 1 b.cursor) (suc start)
        (taken-IsPhys b start v below 1 b.cursor clear) (omega arith)
        (λ p l u. ground (arith, now p, f p)) in
    rw (run_taken-suc b start n)
      (record { phys = t.phys; used = λ p. ground (arith, t.used p, now p) })

-- The outcome of `alloc_contiguous`.
pub data Allocates (b : PhysBitmap) (count : ℕ) : Type 0 where
  exhausted :
      alloc_contiguous b count ≡ ok none
      → ((start : ℕ) → start + count ≤ b.total → ¬ FreeRun b.words start count)
      → Allocates b count
  granted :
      (start : ℕ) (c : PhysBitmap)
      → alloc_contiguous b count ≡ ok (some (b.base + start * page_size, c))
      → b.reserved ≤ start
      → start + count ≤ b.total
      → FreeRun b.words start count
      → Took b c start count
      → Allocates b count

-- Contiguous pages are found whenever a run of that many free pages exists. The run that is handed
-- out was free and not reserved, and exactly its pages become used. Page 0 is reserved, as `init`
-- sees to.
pub alloc_contiguous_lem :
    (b : PhysBitmap) (count : ℕ) → IsPhys b → 0 < b.reserved → 0 < count → Allocates b count
unfolding alloc_contiguous assert_ready take_found
alloc_contiguous_lem b count v reserved some' =
    let positive = v.positive in
    let on : (b.total == 0) ≡ false = ground arith in
    let real : (count == 0) ≡ false = ground arith in
    elim (find_run_lem b.words count 1 (b.total - 1) 0 0 some' (omega arith) (λ n. absurd (n refl))
      (λ p l h. absurd (omega arith))) [
        | inl (none', none_free) ↦ exhausted (rw (on, real, none') refl) (λ start h f.
            elim (Bool-cases (start == 0)) [
              | inl first ↦ absurd (ground (arith, v.reserved_busy 0 reserved, f 0))
              | inr later ↦ none_free start (ground arith) (omega arith) f
            ])
        | inr (start, found, l, h, f) ↦
            granted start (run_taken b start count) (rw (on, real, found) refl)
              (above start (f start (omega arith) (omega arith))) (omega arith) f
              (run_taken-Took count b start v (omega arith) f)
      ]
  where
    above : (start : ℕ) → busy b.words start ≡ false → b.reserved ≤ start
    above start clear = elim (Bool-cases (ltb start b.reserved)) [
      | inl low ↦ absurd (ground (arith, v.reserved_busy start))
      | inr high ↦ ground arith
    ]
