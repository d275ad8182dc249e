-- ===== src/Mm/PhysBitmap/Sharing.antt =====
-- Pages that several address spaces share.
use zero_os.Common.{
  ℕ, zero, suc, ◌+◌, ◌-◌, ◌*◌, ◌/◌, ◌%◌, ◌≤◌, ◌<◌, ◌≡◌, ◌∙◌, refl, sym, inl, inr, true, false, some,
  ◌==◌, ltb, leb, get_or, set, set-set, set-get_or, ap, Bool-cases, arith,
}
use zero_os.Common.Result.{Result, ok, ◌>>=◌}
use zero_os.Bitmap.{busy, busy-set_bit, clear_bit-set_bit}
use zero_os.Bitmap.Counting.{clear_below-none}
use zero_os.Mm.PhysBitmap.{
  PhysBitmap, Panic, page_size, assert_ready, locate_page, drop_ref, free_page, retain_page,
  alloc_page,
}
use zero_os.Mm.PhysBitmap.Invariant.{
  IsPhys, taken, taken-IsPhys, returned, counting, page_in_words, ref_set, counting-IsPhys,
}
use zero_os.Mm.PhysBitmap.AllocPage.{exhausted, granted, alloc_page_lem}

abbrev pub address : PhysBitmap → ℕ → ℕ
address b page = b.base + page * page_size

-- A page that was handed out.
pub record Owned (b : PhysBitmap) (page count : ℕ) : Type 0 where
  pub phys : IsPhys b
  pub above : b.reserved ≤ page
  pub below : page < b.total
  pub used : busy b.words page ≡ true
  pub references : get_or b.refs page 0 ≡ count

pub locate_page_lem :
    (b : PhysBitmap) (page : ℕ)
    → b.reserved ≤ page
    → page < b.total
    → locate_page b (address b page) ≡ ok page
unfolding locate_page
locate_page_lem b page above below =
    let offset : b.base + page * 4096 - b.base ≡ page * 4096 = omega arith in
    let number : page * 4096 / 4096 ≡ page = omega arith in
    let aligned : page * 4096 % 4096 ≡ 0 = omega arith in
    let over : leb b.base (b.base + page * 4096) ≡ true = ground arith in
    let inside : ltb page b.total ≡ true = ground arith in
    let high : leb b.reserved page ≡ true = ground arith in
    rw (over, offset, aligned, number, inside, high) refl

ready : (b : PhysBitmap) → IsPhys b → assert_ready b ≡ ok tt
unfolding assert_ready
ready b v =
    let positive = v.positive in let on : (b.total == 0) ≡ false = ground arith in rw on refl

free-Owned :
    (b : PhysBitmap) (page m : ℕ)
    → Owned b page (suc m)
    → free_page b (address b page) ≡ ok (drop_ref b page (suc m))
unfolding free_page
free-Owned b page m o =
    let some' : leb 1 (suc m) ≡ true = ground arith in
    rw (ready b o.phys, locate_page_lem b page o.above o.below, o.used, o.references, some') refl

retain-Owned :
    (b : PhysBitmap) (page m : ℕ)
    → Owned b page m
    → m < 65535
    → retain_page b (address b page) ≡ ok (counting b page (m + 1))
unfolding retain_page
retain-Owned b page m o h =
    let room : ltb m 65535 ≡ true = ground arith in
    rw (ready b o.phys, locate_page_lem b page o.above o.below, o.used, o.references, room) refl

counting-Owned : (b : PhysBitmap) (page m n : ℕ) → Owned b page m → Owned (counting b page n) page n
counting-Owned b page m n o = record {
  phys = counting-IsPhys b page o.phys o.below n o.used;
  above = o.above;
  below = o.below;
  used = o.used;
  references = ref_set b page o.phys o.below n;
}

-- Releases of the same page, one after another.
unfoldable pub free_times : ℕ → PhysBitmap → ℕ → Result Panic PhysBitmap
free_times zero b addr = ok b
free_times (suc k) b addr = do c ← free_page b addr; free_times k c addr

unfoldable pub retain_times : ℕ → PhysBitmap → ℕ → Result Panic PhysBitmap
retain_times zero b addr = ok b
retain_times (suc k) b addr = do c ← retain_page b addr; retain_times k c addr

drop_shared :
    (b : PhysBitmap) (page m : ℕ) → drop_ref b page (suc (suc m)) ≡ counting b page (suc m)
unfolding drop_ref
drop_shared b page m =
    let more : (suc (suc m) == 1) ≡ false = ground arith in
    let less : suc (suc m) - 1 ≡ suc m = omega arith in rw (more, less) refl

free_all :
    (b : PhysBitmap) (page m : ℕ)
    → Owned b page (suc m)
    → free_times (suc m) b (address b page) ≡ ok (returned b page)
unfolding free_times
free_all b page zero o = rw (free-Owned b page 0 o) (unfold drop_ref in refl)
free_all b page (suc m) o =
    rw (free-Owned b page (suc m) o, drop_shared b page m)
      (free_all (counting b page (suc m)) page m (counting-Owned b page (suc (suc m)) (suc m) o)
        ∙ rw (set-set b.refs page (suc m) 0) refl)

same_count : (b : PhysBitmap) (page m : ℕ) → Owned b page m → counting b page m ≡ b
same_count b page m o =
    rw (← o.references) (ap (λ rs. record b { refs = rs }) (set-get_or b.refs page 0))

retain_all :
    (k : ℕ) (b : PhysBitmap) (page m : ℕ)
    → Owned b page m
    → m + k ≤ 65535
    → retain_times k b (address b page) ≡ ok (counting b page (m + k))
unfolding retain_times
retain_all zero b page m o h =
    let e : m + 0 ≡ m = omega arith in rw e (ap ok (sym (same_count b page m o)))
retain_all (suc k) b page m o h =
    let e : m + 1 + k ≡ m + suc k = omega arith in
    rw (retain-Owned b page m o (omega arith)) (
      retain_all k (counting b page (m + 1)) page (m + 1) (counting-Owned b page m (m + 1) o)
        (omega arith)
      ∙ rw (set-set b.refs page (m + 1) (m + 1 + k), e) refl)

free_some :
    (k : ℕ) (b : PhysBitmap) (page m : ℕ)
    → Owned b page (suc m)
    → k ≤ m
    → free_times k b (address b page) ≡ ok (counting b page (suc m - k))
unfolding free_times
free_some zero b page m o h =
    let e : suc m - 0 ≡ suc m = omega arith in rw e (ap ok (sym (same_count b page (suc m) o)))
free_some (suc k) b page zero o h = absurd (omega arith)
free_some (suc k) b page (suc m) o h =
    let e : suc (suc m) - suc k ≡ suc m - k = omega arith in
    rw (free-Owned b page (suc m) o, drop_shared b page m)
      (free_some k (counting b page (suc m)) page m (counting-Owned b page (suc (suc m)) (suc m) o)
          (omega arith)
        ∙ rw (set-set b.refs page (suc m) (suc m - k), e) refl)

-- A page that one owner shares `k` times, with k below 65535, is shared by k + 1 owners: it stays in use while at most k
-- of them released it, and the last release, whoever makes it, gives it back.
pub last_owner_frees :
    (b c : PhysBitmap) (page k j : ℕ)
    → Owned b page 1
    → k < 65535
    → j ≤ k
    → retain_times k b (address b page) ≡ ok c
    → (free_times j c (address b page) ≡ ok (counting b page (suc k - j)))
      × (free_times (suc k) c (address b page) ≡ ok (returned b page))
last_owner_frees b c page k j o room h e =
    let one : 1 + k ≡ suc k = omega arith in
    let shape : c ≡ counting b page (suc k) =
      ground (arith, retain_all k b page 1 o (omega arith), one, e) in
    let shared = counting-Owned b page 1 (suc k) o in
    (
      rw shape (
          free_some j (counting b page (suc k)) page k shared h
          ∙ rw (set-set b.refs page (suc k) (suc k - j)) refl),
      rw shape (
          free_all (counting b page (suc k)) page k shared
          ∙ rw (set-set b.refs page (suc k) 0) refl),
    )

some_free :
    (b : PhysBitmap) (page : ℕ) → IsPhys b → page < b.total → busy b.words page ≡ false → 0 < b.free
some_free b page v below clear = elim (Bool-cases (b.free == 0)) [
  | inl nil ↦ absurd (ground (arith, v.counted, clear_below-none (busy b.words) b.total page))
  | inr some' ↦ ground arith
]

-- A page that is handed out and released leaves the bitmap, the counts of references and the count of
-- free pages as they were; only the cursor remembers the word.
pub free-alloc_page :
    (b c : PhysBitmap) (addr : ℕ)
    → IsPhys b
    → alloc_page b ≡ ok (some (addr, c))
    → free_page c addr ≡ ok (record b { cursor = c.cursor })
free-alloc_page b c addr v e = elim (alloc_page_lem b v) [
  | exhausted none' failed ↦ absurd (cc)
  | granted page r done g ↦
      let result = g.result in
      let at : b.base + page * page_size ≡ addr = cc in
      let after : taken b page 1 (page / 64) ≡ c = cc in
      rw (← after, ← at) (given_back page g.above g.below g.clear)
]
  where
    given_back :
        (page : ℕ)
        → b.reserved ≤ page
        → page < b.total
        → busy b.words page ≡ false
        → free_page (taken b page 1 (page / 64)) (address b page)
          ≡ ok (record b { cursor = page / 64 })
    given_back page above below clear =
        let some' = some_free b page v below clear in
        let count : b.free - 1 + 1 ≡ b.free = omega arith in
        let none' = v.unreferenced page below clear in
        let restored : set b.refs page 0 ≡ b.refs = rw none' at (set-get_or b.refs page 0) in
        let o : Owned (taken b page 1 (page / 64)) page 1 = record {
          phys = taken-IsPhys b page v below 1 (page / 64) clear;
          above = above;
          below = below;
          used = ground (arith, busy-set_bit b.words page page (page_in_words b page v below));
          references = ref_set b page v below 1;
        } in
        free-Owned (taken b page 1 (page / 64)) page 0 o
        ∙ unfold drop_ref in
          (rw
            (
              set-set b.refs page 1 0,
              restored,
              count,
              clear_bit-set_bit b.words page v.words (page_in_words b page v below) clear,
            )
            refl)
