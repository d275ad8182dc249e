-- ===== src/Mm/PhysBitmap/Histories.antt =====
-- All histories of calls keep the invariant.
use zero_os.Common.{
  ℕ, ◌+◌, ◌-◌, ◌/◌, ◌%◌, ◌≤◌, ◌<◌, ◌≡◌, refl, inl, inr, Bool, ◌||◌, List, [], ◌∷◌, Option, none,
  some, ◌==◌, ltb, leb, get_or, set, Bool-cases, Option-cases, arith,
}
use zero_os.Common.Result.{Result, ok, err, guard, >>=-eq-ok, guard-eq-ok, Result-cases}
use zero_os.Bitmap.{busy}
use zero_os.Mm.PhysBitmap.{
  PhysBitmap, Panic, below_base, unaligned, out_of_range, is_reserved, double_free, not_allocated,
  refcount_underflow, refcount_overflow, page_size, init, assert_ready, take_found, locate_page,
  drop_ref, free_page, retain_page, alloc_page, alloc_contiguous, mark_busy,
}
use zero_os.Mm.PhysBitmap.Invariant.{IsPhys, taken, taken-IsPhys, returned-IsPhys, counting-IsPhys}
use zero_os.Mm.PhysBitmap.Init.{init-IsPhys}
use zero_os.Mm.PhysBitmap.AllocPage.{exhausted, granted, alloc_page_lem}
use zero_os.Mm.PhysBitmap.Contiguous.{find_run_lem, run_taken, run_taken-Took}

-- What a located page is.
locate_page-inv :
    (b : PhysBitmap) (addr page : ℕ)
    → locate_page b addr ≡ ok page
    → (b.reserved ≤ page) × (page < b.total)
unfolding locate_page
locate_page-inv b addr page e =
    let (u₁, p₁, e₁) = >>=-eq-ok (guard (leb b.base addr) below_base) _ e in
    let (u₂, p₂, e₂) = >>=-eq-ok (guard ((addr - b.base) % page_size == 0) unaligned) _ e₁ in
    let (u₃, p₃, e₃) =
      >>=-eq-ok (guard (ltb ((addr - b.base) / page_size) b.total) out_of_range) _ e₂ in
    let (u₄, p₄, e₄) =
      >>=-eq-ok (guard (leb b.reserved ((addr - b.base) / page_size)) is_reserved) _ e₃ in
    let same : (addr - b.base) / page_size ≡ page = cc in
    let inside = guard-eq-ok _ out_of_range p₃ in
    let high = guard-eq-ok _ is_reserved p₄ in rw (← same) (ground arith, ground arith)

free_page-IsPhys : (b c : PhysBitmap) (addr : ℕ) → IsPhys b → free_page b addr ≡ ok c → IsPhys c
unfolding free_page drop_ref
free_page-IsPhys b c addr v e =
    let (u₁, p₁, e₁) = >>=-eq-ok (assert_ready b) _ e in
    let (page, located, e₂) = >>=-eq-ok (locate_page b addr) _ e₁ in
    let (u₃, p₃, e₃) = >>=-eq-ok (guard (busy b.words page) double_free) _ e₂ in
    let (u₄, p₄, e₄) = >>=-eq-ok (guard (leb 1 (get_or b.refs page 0)) refcount_underflow) _ e₃ in
    let (above, below) = locate_page-inv b addr page located in
    let used = guard-eq-ok _ double_free p₃ in
    let shape : drop_ref b page (get_or b.refs page 0) ≡ c = cc in
    rw (← shape) (elim (Bool-cases (get_or b.refs page 0 == 1)) [
      | inl last ↦ rw last (returned-IsPhys b page v below above used)
      | inr more ↦ rw more (counting-IsPhys b page v below (get_or b.refs page 0 - 1) used)
    ])

retain_page-IsPhys : (b c : PhysBitmap) (addr : ℕ) → IsPhys b → retain_page b addr ≡ ok c → IsPhys c
unfolding retain_page
retain_page-IsPhys b c addr v e =
    let (u₁, p₁, e₁) = >>=-eq-ok (assert_ready b) _ e in
    let (page, located, e₂) = >>=-eq-ok (locate_page b addr) _ e₁ in
    let (u₃, p₃, e₃) = >>=-eq-ok (guard (busy b.words page) not_allocated) _ e₂ in
    let (u₄, p₄, e₄) =
      >>=-eq-ok (guard (ltb (get_or b.refs page 0) 65535) refcount_overflow) _ e₃ in
    let (above, below) = locate_page-inv b addr page located in
    let used = guard-eq-ok _ not_allocated p₃ in
    let shape : record b { refs = set b.refs page (get_or b.refs page 0 + 1) } ≡ c = cc in
    rw (← shape) (counting-IsPhys b page v below (get_or b.refs page 0 + 1) used)

mark_busy-IsPhys :
    (b : PhysBitmap) (page : ℕ) (r : Bool × PhysBitmap)
    → IsPhys b
    → mark_busy b page ≡ ok r
    → IsPhys r.1
unfolding mark_busy
mark_busy-IsPhys b page r v e =
    let (u₁, p₁, e₁) = >>=-eq-ok (assert_ready b) _ e in
    elim (Bool-cases (leb b.total page || busy b.words page)) [
      | inl skipped ↦ let same : b ≡ r.1 = ground arith in rw (← same) v
      | inr fresh ↦
          let same : taken b page 0 b.cursor ≡ r.1 = ground arith in
          rw (← same) (taken-IsPhys b page v (ground arith) 0 b.cursor (ground arith))
    ]

alloc_contiguous-IsPhys :
    (b c : PhysBitmap) (count addr : ℕ)
    → IsPhys b
    → alloc_contiguous b count ≡ ok (some (addr, c))
    → IsPhys c
unfolding alloc_contiguous take_found
alloc_contiguous-IsPhys b c count addr v e =
    let (u₁, p₁, e₁) = >>=-eq-ok (assert_ready b) _ e in
    let positive = v.positive in
    elim (Bool-cases (count == 0)) [
      | inl nil ↦ absurd (ground arith)
      | inr real ↦
          elim (find_run_lem b.words count 1 (b.total - 1) 0 0 (ground arith) (omega arith)
            (λ n. absurd (n refl)) (λ p l h. absurd (omega arith))) [
              | inl (none', none_free) ↦ absurd (ground arith)
              | inr (start, found, l, h, f) ↦
                  let same : run_taken b start count ≡ c = ground arith in
                  rw (← same) (run_taken-Took count b start v (omega arith) f).phys
            ]
    ]

-- The calls that change the bitmap after its initialisation.
pub data Call : Type 0 where
  allocs : Call
  allocs_run : (count : ℕ) → Call
  frees retains : (addr : ℕ) → Call
  marks : (page : ℕ) → Call

-- A panic and a failed allocation leave the bitmap as it was.
abbrev pub after_alloc : PhysBitmap → Result Panic (Option (ℕ × PhysBitmap)) → PhysBitmap
after_alloc b (err panic) = b
after_alloc b (ok none) = b
after_alloc b (ok (some r)) = r.1

abbrev pub after_change : PhysBitmap → Result Panic PhysBitmap → PhysBitmap
after_change b (err panic) = b
after_change b (ok c) = c

abbrev pub after_mark : PhysBitmap → Result Panic (Bool × PhysBitmap) → PhysBitmap
after_mark b (err panic) = b
after_mark b (ok r) = r.1

unfoldable pub step : PhysBitmap → Call → PhysBitmap
step b allocs = after_alloc b (alloc_page b)
step b (allocs_run count) = after_alloc b (alloc_contiguous b count)
step b (frees addr) = after_change b (free_page b addr)
step b (retains addr) = after_change b (retain_page b addr)
step b (marks page) = after_mark b (mark_busy b page)

unfoldable pub run : PhysBitmap → List Call → PhysBitmap
run b [] = b
run b (c ∷ cs) = run (step b c) cs

alloc_page-IsPhys : (b : PhysBitmap) → IsPhys b → IsPhys (after_alloc b (alloc_page b))
alloc_page-IsPhys b v = elim (alloc_page_lem b v) [
  | exhausted none' e ↦ rw e v
  | granted page r e g ↦ rw (e, g.result) (taken-IsPhys b page v g.below 1 (page / 64) g.clear)
]

step-IsPhys : (b : PhysBitmap) (c : Call) → IsPhys b → IsPhys (step b c)
unfolding step
step-IsPhys b allocs v = alloc_page-IsPhys b v
step-IsPhys b (allocs_run count) v = elim (Result-cases (alloc_contiguous b count)) [
  | inl (r, done) ↦ elim (Option-cases r) [
    | inl none' ↦ rw (done, none') v
    | inr ((addr, c), some') ↦
        rw (done, some') (alloc_contiguous-IsPhys b c count addr v (rw some' at done))
  ]
  | inr (panic, failed) ↦ rw failed v
]
step-IsPhys b (frees addr) v = elim (Result-cases (free_page b addr)) [
  | inl (c, done) ↦ rw done (free_page-IsPhys b c addr v done)
  | inr (panic, failed) ↦ rw failed v
]
step-IsPhys b (retains addr) v = elim (Result-cases (retain_page b addr)) [
  | inl (c, done) ↦ rw done (retain_page-IsPhys b c addr v done)
  | inr (panic, failed) ↦ rw failed v
]
step-IsPhys b (marks page) v = elim (Result-cases (mark_busy b page)) [
  | inl (r, done) ↦ rw done (mark_busy-IsPhys b page r v done)
  | inr (panic, failed) ↦ rw failed v
]

run_from : (b : PhysBitmap) (cs : List Call) → IsPhys b → IsPhys (run b cs)
unfolding run
run_from b [] v = v
run_from b (c ∷ cs) v = run_from (step b c) cs (step-IsPhys b c v)

-- After an initialisation that does not panic, whatever storage it is given and whatever calls are
-- made: the reserved pages are in use, no free page has a reference, and the count of free pages is
-- the number of clear bits.
pub run-IsPhys :
    (b c : PhysBitmap) (words refs : List ℕ) (base total reserved : ℕ) (cs : List Call)
    → 0 < total
    → init b words refs base total reserved ≡ ok c
    → IsPhys (run c cs)
run-IsPhys b c words refs base total reserved cs some' e =
    run_from c cs (init-IsPhys b c words refs base total reserved some' e)
