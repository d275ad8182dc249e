-- ===== src/Mm/PhysBitmap/Invariant.antt =====
-- The invariant of the page allocator, and its updates of one page.
use zero_os.Common.{
  ℕ, ◌+◌, ◌-◌, ◌*◌, ◌/◌, ◌≤◌, ◌<◌, ◌≡◌, inl, inr, true, false, not, ◌&&◌, ◌||◌, ◌==◌, length,
  get_or, set, length-set, get_or-set_self, get_or-set_ne, Bool-cases, arith,
}
use zero_os.Bitmap.{
  busy, set_bit, clear_bit, IsWords, set_bit-IsWords, clear_bit-IsWords, length-set_bit,
  length-clear_bit, busy-set_bit, busy-clear_bit,
}
use zero_os.Bitmap.Counting.{clear_below, clear_below-taken}
use zero_os.Mm.PhysBitmap.{PhysBitmap}

-- Both arrays cover the pages, the reserved pages are in use, a free page has no reference, and the
-- count of free pages is that of the clear bits.
pub record IsPhys (b : PhysBitmap) : Type 0 where
  pub sized : b.total ≤ length b.words * 64
  pub refs_sized : b.total ≤ length b.refs
  pub words : IsWords b.words
  pub positive : 0 < b.total
  pub reserved_busy : (p : ℕ) → p < b.reserved → busy b.words p ≡ true
  pub unreferenced : (p : ℕ) → p < b.total → busy b.words p ≡ false → get_or b.refs p 0 ≡ 0
  pub counted : b.free ≡ clear_below (busy b.words) b.total

-- A free page taken with `count` references (0 for a page marked by the firmware), with any cursor.
abbrev pub taken : PhysBitmap → ℕ → ℕ → ℕ → PhysBitmap
taken b page count cursor = record b {
  words = set_bit b.words page;
  refs = set b.refs page count;
  free = b.free - 1;
  cursor = cursor;
}

abbrev pub returned : PhysBitmap → ℕ → PhysBitmap
returned b page = record b {
  words = clear_bit b.words page;
  refs = set b.refs page 0;
  free = b.free + 1;
}

abbrev pub counting : PhysBitmap → ℕ → ℕ → PhysBitmap
counting b page count = record b { refs = set b.refs page count }

module _ (b : PhysBitmap) (page : ℕ) (v : IsPhys b) (h : page < b.total) where
  pub page_in_words : page / 64 < length b.words
  page_in_words = omega (arith, v.sized)

  pub ref_set : (count : ℕ) → get_or (set b.refs page count) page 0 ≡ count
  ref_set count = get_or-set_self b.refs page count 0 (omega (arith, v.refs_sized))

  pub taken-IsPhys :
      (count cursor : ℕ) → busy b.words page ≡ false → IsPhys (taken b page count cursor)
  taken-IsPhys count cursor clear =
      let now : (j : ℕ) → busy (set_bit b.words page) j ≡ (j == page || busy b.words j) =
        λ j. busy-set_bit b.words page j page_in_words in
      record {
        sized = omega (arith, v.sized, length-set_bit b.words page);
        refs_sized = omega (arith, v.refs_sized, length-set b.refs page count);
        words = set_bit-IsWords b.words page v.words;
        positive = v.positive;
        reserved_busy = λ p l. ground (arith, now p, v.reserved_busy p);
        unreferenced = λ p l free'.
            ground (arith, now p, get_or-set_ne b.refs page p count 0, v.unreferenced p);
        counted = omega (
          arith,
          v.counted,
          clear_below-taken (busy b.words) (busy (set_bit b.words page)) page b.total now clear h,
        );
      }

  pub returned-IsPhys : b.reserved ≤ page → busy b.words page ≡ true → IsPhys (returned b page)
  returned-IsPhys above used =
      let now : (j : ℕ) → busy (clear_bit b.words page) j ≡ (not (j == page) && busy b.words j) =
        λ j. busy-clear_bit b.words page j v.words page_in_words in
      record {
        sized = omega (arith, v.sized, length-clear_bit b.words page);
        refs_sized = omega (arith, v.refs_sized, length-set b.refs page 0);
        words = clear_bit-IsWords b.words page v.words;
        positive = v.positive;
        reserved_busy = λ p l. ground (arith, now p, v.reserved_busy p);
        unreferenced = λ p l free'. zeroed p l (ground (arith, now p));
        counted = omega (
          arith,
          v.counted,
          clear_below-taken (busy (clear_bit b.words page)) (busy b.words) page b.total
              (λ j. back j) (ground (arith, now page)) h,
        );
      }
    where
      back : (j : ℕ) → busy b.words j ≡ (j == page || busy (clear_bit b.words page) j)
      back j = elim (Bool-cases (j == page)) [
        | inl same ↦ let e : j ≡ page = ground arith in rw e (ground (arith, used))
        | inr other ↦ ground (arith, busy-clear_bit b.words page j v.words page_in_words)
      ]

      zeroed :
          (p : ℕ)
          → p < b.total
          → (not (p == page) && busy b.words p) ≡ false
          → get_or (set b.refs page 0) p 0 ≡ 0
      zeroed p l free' = elim (Bool-cases (p == page)) [
        | inl same ↦ let e : p ≡ page = ground arith in rw e (ref_set 0)
        | inr other ↦ ground (arith, get_or-set_ne b.refs page p 0 0, v.unreferenced p)
      ]

  pub counting-IsPhys : (count : ℕ) → busy b.words page ≡ true → IsPhys (counting b page count)
  counting-IsPhys count used = record {
    sized = v.sized;
    refs_sized = omega (arith, v.refs_sized, length-set b.refs page count);
    words = v.words;
    positive = v.positive;
    reserved_busy = v.reserved_busy;
    unreferenced =
        λ p l free'. ground (arith, get_or-set_ne b.refs page p count 0, v.unreferenced p, used);
    counted = v.counted;
  }
