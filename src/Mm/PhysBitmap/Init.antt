-- ===== src/Mm/PhysBitmap/Init.antt =====
-- What `init` leaves behind.
use zero_os.Common.{
  ℕ, zero, suc, ◌-◌, ◌*◌, ◌≤◌, ◌<◌, ◌≡◌, ◌∙◌, refl, inl, inr, ◌||◌, min, max, List, ◌==◌, ltb, leb,
  length, length-set, length-replicate, replicate, get_or, get_or-set_self, get_or-set_ne,
  Bool-cases, arith,
}
use zero_os.Common.Result.{ok, guard, >>=-eq-ok, guard-eq-ok}
use zero_os.Bitmap.{
  busy, IsWords, busy-set_bit, set_bit-IsWords, length-set_bit, busy-zeros, zeros-IsWords,
}
use zero_os.Bitmap.Counting.{clear_below-reserved}
use zero_os.Mm.PhysBitmap.{
  PhysBitmap, bitmap_too_small, refs_too_small, reserve_first, zero_first, init,
}
use zero_os.Mm.PhysBitmap.Invariant.{IsPhys}

reserve_first-length : (n : ℕ) (words : List ℕ) → length (reserve_first n words) ≡ length words
unfolding reserve_first
reserve_first-length zero words = refl
reserve_first-length (suc n) words =
    length-set_bit (reserve_first n words) n ∙ reserve_first-length n words

reserve_first-IsWords : (n : ℕ) (words : List ℕ) → IsWords words → IsWords (reserve_first n words)
unfolding reserve_first
reserve_first-IsWords zero words v = v
reserve_first-IsWords (suc n) words v =
    set_bit-IsWords (reserve_first n words) n (reserve_first-IsWords n words v)

busy-reserve_first :
    (n : ℕ) (words : List ℕ) (p : ℕ)
    → n ≤ length words * 64
    → busy (reserve_first n words) p ≡ (ltb p n || busy words p)
unfolding reserve_first
busy-reserve_first zero words p h = ground arith
busy-reserve_first (suc n) words p h = ground (
  arith,
  busy-set_bit (reserve_first n words) n p (omega (arith, reserve_first-length n words)),
  busy-reserve_first n words p (omega arith),
)

zero_first-length : (n : ℕ) (refs : List ℕ) → length (zero_first n refs) ≡ length refs
unfolding zero_first
zero_first-length zero refs = refl
zero_first-length (suc n) refs = length-set (zero_first n refs) n 0 ∙ zero_first-length n refs

get_or-zero_first :
    (n : ℕ) (refs : List ℕ) (p : ℕ) → n ≤ length refs → p < n → get_or (zero_first n refs) p 0 ≡ 0
unfolding zero_first
get_or-zero_first zero refs p h lt = elim lt [ ]
get_or-zero_first (suc n) refs p h lt = elim (Bool-cases (n == p)) [
  | inl same ↦
      let e : n ≡ p = ground arith in
      rw (← e) (get_or-set_self (zero_first n refs) n 0 0 (omega (arith, zero_first-length n refs)))
  | inr other ↦
      get_or-set_ne (zero_first n refs) n p 0 0 (ground arith)
      ∙ get_or-zero_first n refs p (omega arith) (ground arith)
]

pub init-IsPhys :
    (b c : PhysBitmap) (words refs : List ℕ) (base total reserved : ℕ)
    → 0 < total
    → init b words refs base total reserved ≡ ok c
    → IsPhys c
unfolding init
init-IsPhys b c words refs base total reserved some' e =
    let (u, fits, e₁) = >>=-eq-ok (guard (leb total (length words * 64)) bitmap_too_small) _ e in
    let (w, fits', e₂) = >>=-eq-ok (guard (leb total (length refs)) refs_too_small) _ e₁ in
    let sized : total ≤ length words * 64 = ground (arith, guard-eq-ok _ bitmap_too_small fits) in
    let refs_sized : total ≤ length refs = ground (arith, guard-eq-ok _ refs_too_small fits') in
    let fresh = replicate (length words) 0 in
    let n = length-replicate {A = ℕ} (length words) 0 in
    let reserve = min total (max reserved 1) in
    let now : (p : ℕ) → busy (reserve_first reserve fresh) p ≡ ltb p reserve = λ p.
      busy-reserve_first reserve fresh p (omega (arith, n))
      ∙ ground (arith, busy-zeros (length words) p) in
    let shape : record b {
      words = reserve_first reserve fresh;
      refs = zero_first total refs;
      base = base;
      total = total;
      reserved = reserve;
      free = total - reserve;
    }
        ≡ c =
      cc in
    rw (← shape) (record {
      sized = omega (arith, reserve_first-length reserve fresh, n);
      refs_sized = omega (arith, zero_first-length total refs);
      words = reserve_first-IsWords reserve fresh (zeros-IsWords (length words));
      positive = some';
      reserved_busy = λ p l. ground (arith, now p);
      unreferenced = λ p l free'. get_or-zero_first total refs p refs_sized l;
      counted = omega (arith, clear_below-reserved _ reserve total now);
    })
