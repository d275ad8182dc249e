-- ===== src/Mm/PhysBitmap/AllocPage.antt =====
-- What `alloc_page` hands out.
use Prim.Native.Nat.{bit_and}
use zero_os.Common.{
  ℕ, zero, suc, ◌+◌, ◌*◌, ◌/◌, ◌%◌, ◌^◌, ◌≤◌, ◌<◌, ◌≡◌, ◌∙◌, refl, ◌⊎◌, inl, inr, true, false, ◌||◌,
  Option, none, some, ◌==◌, ltb, leb, length, get_or, Bool-cases, arith,
}
use zero_os.Common.Bits.{bit, bit_and-pow, all_ones}
use zero_os.Common.Result.{ok}
use zero_os.Bitmap.{word_max, busy, busy-bit, set_bit}
use zero_os.Bitmap.Counting.{clear_below-found}
use zero_os.Mm.PhysBitmap.{
  PhysBitmap, page_size, find_bit, take_bit, try_alloc_in_word, or_else, scan_words, alloc_page,
  assert_ready,
}
use zero_os.Mm.PhysBitmap.Invariant.{IsPhys, taken}

find_bit_lem :
    (slot index reserved total bit' rounds : ℕ)
    → ((find_bit slot index reserved total bit' rounds ≡ none)
        × ((k : ℕ)
            → bit' ≤ k
            → k < bit' + rounds
            → reserved ≤ index * 64 + k
            → index * 64 + k < total
            → bit k slot ≡ true))
      ⊎ ((k : ℕ) × (find_bit slot index reserved total bit' rounds ≡ some k)
          × (k < bit' + rounds)
          × (reserved ≤ index * 64 + k)
          × (index * 64 + k < total)
          × (bit k slot ≡ false))
unfolding find_bit
find_bit_lem slot index reserved total b zero = inl (refl, λ k l h r t. absurd (omega arith))
find_bit_lem slot index reserved total b (suc rounds) =
    elim (Bool-cases (ltb (index * 64 + b) reserved || leb total (index * 64 + b))) [
      | inl skipped ↦ elim (find_bit_lem slot index reserved total (suc b) rounds) [
        | inl (none', all) ↦ inl (rw skipped none', λ k l h r t. ground (arith, all k))
        | inr (k, found, h, r, t, clear) ↦ inr (k, rw skipped found, omega arith, r, t, clear)
      ]
      | inr eligible ↦ elim (Bool-cases (bit_and slot (2 ^ b) == 0)) [
        | inl free' ↦ inr (
          b,
          rw (eligible, free') refl,
          omega arith,
          ground arith,
          ground arith,
          ground (arith, bit_and-pow slot b),
        )
        | inr used ↦
            let on : bit b slot ≡ true = ground (arith, bit_and-pow slot b) in
            elim (find_bit_lem slot index reserved total (suc b) rounds) [
              | inl (none', all) ↦ inl (
                rw (eligible, used) none',
                λ k l h r t. this_or_later k b slot on l (λ l'. all k l' (omega arith) r t),
              )
              | inr (k, found, h, r, t, clear) ↦
                  inr (k, rw (eligible, used) found, omega arith, r, t, clear)
            ]
      ]
    ]
  where
    this_or_later :
        (k b slot : ℕ)
        → bit b slot ≡ true
        → b ≤ k
        → (suc b ≤ k → bit k slot ≡ true)
        → bit k slot ≡ true
    this_or_later k b slot on l later = elim (Bool-cases (k == b)) [
      | inl same ↦ let e : k ≡ b = ground arith in rw e on
      | inr other ↦ later (ground arith)
    ]

-- Page `page` of `b` is free for allocation, and `r` is its address with the bitmap after that.
pub record Grants (b : PhysBitmap) (page : ℕ) (r : Option (ℕ × PhysBitmap)) : Type 0 where
  pub above : b.reserved ≤ page
  pub below : page < b.total
  pub clear : busy b.words page ≡ false
  pub result : r ≡ some (b.base + page * page_size, taken b page 1 (page / 64))

-- No page of the words from `index` to `index + rounds` is free for allocation.
abbrev Full : PhysBitmap → ℕ → ℕ → Type 0
Full b index rounds =
    (p : ℕ)
    → index ≤ p / 64
    → p / 64 < index + rounds
    → b.reserved ≤ p
    → p < b.total
    → busy b.words p ≡ true

taken_in_word :
    (b : PhysBitmap) (index k : ℕ)
    → k < 64
    → take_bit b index (some k)
      ≡ some (
        b.base + (index * 64 + k) * page_size,
        taken b (index * 64 + k) 1 ((index * 64 + k) / 64),
      )
unfolding take_bit set_bit
taken_in_word b index k h =
    let q : (index * 64 + k) / 64 ≡ index = omega arith in
    let r : (index * 64 + k) % 64 ≡ k = omega arith in rw (q, r) refl

try_alloc_lem :
    (b : PhysBitmap) (index : ℕ)
    → ((try_alloc_in_word b index ≡ none) × Full b index 1)
      ⊎ ((page : ℕ) × Grants b page (try_alloc_in_word b index))
unfolding try_alloc_in_word take_bit
try_alloc_lem b index = elim (Bool-cases (get_or b.words index 0 == word_max)) [
  | inl full ↦ inl (rw full refl, λ p l h r t. all_used p (omega arith) (ground arith))
  | inr open' ↦ elim (find_bit_lem (get_or b.words index 0) index b.reserved b.total 0 64) [
    | inl (none', all) ↦ inl (
      rw (open', none', take_bit) refl,
      λ p l h r t.
          found_used p (omega arith)
            (all (p % 64) (omega arith) (omega arith) (omega arith) (omega arith)),
    )
    | inr (k, found, h, r, t, clear) ↦
        let q : (index * 64 + k) / 64 ≡ index = omega arith in
        let m : (index * 64 + k) % 64 ≡ k = omega arith in
        inr (
          index * 64 + k,
          record {
            above = r;
            below = t;
            clear = busy-bit b.words (index * 64 + k) ∙ (rw (q, m) clear);
            result = rw (open', found) (taken_in_word b index k (omega arith));
          },
        )
  ]
]
  where
    all_used : (p : ℕ) → p / 64 ≡ index → get_or b.words index 0 ≡ word_max → busy b.words p ≡ true
    all_used p e full = busy-bit b.words p ∙ rw (e, full) (all_ones (p % 64) (omega arith))

    found_used :
        (p : ℕ)
        → p / 64 ≡ index
        → bit (p % 64) (get_or b.words index 0) ≡ true
        → busy b.words p ≡ true
    found_used p e on = busy-bit b.words p ∙ rw e on

scan_lem :
    (b : PhysBitmap) (index rounds : ℕ)
    → ((scan_words b index rounds ≡ none) × Full b index rounds)
      ⊎ ((page : ℕ) × Grants b page (scan_words b index rounds))
unfolding scan_words or_else
scan_lem b index zero = inl (refl, λ p l h r t. absurd (omega arith))
scan_lem b index (suc rounds) = elim (try_alloc_lem b index) [
  | inl (none', all) ↦ elim (scan_lem b (suc index) rounds) [
    | inl (none'', later) ↦
        inl (rw (none', none'') refl, λ p l h r t. ground (arith, all p, later p))
    | inr (page, g) ↦ inr (
      page,
      record { above = g.above; below = g.below; clear = g.clear; result = rw none' g.result },
    )
  ]
  | inr (page, g) ↦ inr (
    page,
    record { above = g.above; below = g.below; clear = g.clear; result = rw (g.result) refl },
  )
]

-- The outcome of `alloc_page`.
pub data Allocates (b : PhysBitmap) : Type 0 where
  exhausted : b.free ≡ 0 → alloc_page b ≡ ok none → Allocates b
  granted :
      (page : ℕ) (r : Option (ℕ × PhysBitmap)) → alloc_page b ≡ ok r → Grants b page r → Allocates b

-- An allocation of a page fails only when no page is free. Otherwise it hands out a page that was
-- free and is not reserved, which alone becomes used, with one reference.
pub alloc_page_lem : (b : PhysBitmap) → IsPhys b → Allocates b
unfolding alloc_page assert_ready or_else
alloc_page_lem b v =
    let positive = v.positive in
    let ready : (b.total == 0) ≡ false = ground arith in
    elim (scan_lem b 0 (length b.words)) [
      | inl (none', all) ↦ elim (Bool-cases (ltb b.cursor (length b.words))) [
        | inl inside ↦ elim (try_alloc_lem b b.cursor) [
          | inl (none'', _) ↦ exhausted (nothing_free all) (rw (ready, inside, none'', none') refl)
          | inr (page, g) ↦ absurd (contradiction page g.above g.below g.clear all)
        ]
        | inr outside ↦ exhausted (nothing_free all) (rw (ready, outside, none') refl)
      ]
      | inr (page, g) ↦ elim (Bool-cases (ltb b.cursor (length b.words))) [
        | inl inside ↦ elim (try_alloc_lem b b.cursor) [
          | inl (none'', _) ↦
              granted page (scan_words b 0 (length b.words)) (rw (ready, inside, none'') refl) g
          | inr (page', g') ↦
              granted page' (try_alloc_in_word b b.cursor) (rw (ready, inside, g'.result) refl) g'
        ]
        | inr outside ↦ granted page (scan_words b 0 (length b.words)) (rw (ready, outside) refl) g
      ]
    ]
  where
    contradiction :
        (page : ℕ)
        → b.reserved ≤ page
        → page < b.total
        → busy b.words page ≡ false
        → ¬ Full b 0 (length b.words)
    contradiction page r t clear all =
        let sized = v.sized in ground (arith, all page (omega arith) (omega arith) r t)

    nothing_free : Full b 0 (length b.words) → b.free ≡ 0
    nothing_free all = elim (Bool-cases (b.free == 0)) [
      | inl nil ↦ ground arith
      | inr some' ↦
          let (i, t, clear) =
            clear_below-found (busy b.words) b.total (ground (arith, v.counted)) in
          elim (Bool-cases (ltb i b.reserved)) [
            | inl low ↦ absurd (ground (arith, v.reserved_busy i))
            | inr high ↦ absurd (contradiction i (ground arith) t clear all)
          ]
    ]
