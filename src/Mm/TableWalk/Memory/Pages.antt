-- ===== src/Mm/TableWalk/Memory/Pages.antt =====
-- The pages that take the place of a block: each maps its own part and has the attributes of the block.
use Prim.Native.Nat.{bit_and, bit_or}
use zero_os.Common.{
  ℕ, ◌+◌, ◌*◌, ◌/◌, ◌%◌, ◌^◌, ◌<◌, ◌≡◌, refl, sym, ap, ◌∙◌, inl, inr, true, false, not, ◌&&◌, ◌||◌,
  ◌==◌, leb, Bool-cases, arith,
}
use zero_os.Common.Bits.{bit, bit-bit_or, bit-bit_and, bit_and-lt, bit_or-lt, eq_of_bits}
use zero_os.Common.Bits.Align.{bit_and-align, bit-add_below}
use zero_os.Common.Bits.Constants.{constant_bits}
use zero_os.Mm.TableWalk.{
  is_valid, phys_addr_mask, desc_valid, desc_type_table, desc_sw_borrowed, complement,
}
use zero_os.Mm.TableWalk.Leaves.{has-bit, bit-address, in_address}
use zero_os.Mm.TableWalk.Memory.{leaf_flags, filled}

bit-leaf_flags :
    (desc k : ℕ) → k < 64 → bit k (leaf_flags desc) ≡ (leb k 1 || ((k == 56) || bit k desc))
unfolding leaf_flags
bit-leaf_flags desc k h =
    let low : ℕ = bit_and desc (complement 3) in
    let keep : bit k (complement 3) ≡ not (leb k 1) =
      constant_bits (complement 3) (λ j. not (leb j 1)) refl k h in
    let one : bit k desc_valid ≡ (k == 0) = constant_bits desc_valid (λ j. j == 0) refl k h in
    let two : bit k desc_type_table ≡ (k == 1) =
      constant_bits desc_type_table (λ j. j == 1) refl k h in
    let mark : bit k desc_sw_borrowed ≡ (k == 56) =
      constant_bits desc_sw_borrowed (λ j. j == 56) refl k h in
    rw
      (
        bit-bit_or k (bit_or (bit_or low desc_valid) desc_type_table) desc_sw_borrowed,
        bit-bit_or k (bit_or low desc_valid) desc_type_table,
        bit-bit_or k low desc_valid,
        bit-bit_and k desc (complement 3),
        keep,
        one,
        two,
        mark,
      )
      (ground arith)

bit-filled :
    (base desc slot k : ℕ)
    → k < 64
    → bit k (filled base (leaf_flags desc) slot)
      ≡ ((bit k (base + slot * 4096) && in_address k) || (leb k 1 || ((k == 56) || bit k desc)))
unfolding filled
bit-filled base desc slot k h =
    rw
      (
        bit-bit_or k (bit_and (base + slot * 4096) phys_addr_mask) (leaf_flags desc),
        bit-bit_and k (base + slot * 4096) phys_addr_mask,
        bit-address k h,
        bit-leaf_flags desc k h,
      )
      refl

-- Outside the address, a page has the bits of the block, is valid, and is marked as borrowed.
pub filled-attributes :
    (base desc slot k : ℕ)
    → k < 64
    → in_address k ≡ false
    → bit k (filled base (leaf_flags desc) slot) ≡ (leb k 1 || ((k == 56) || bit k desc))
filled-attributes base desc slot k h out = rw (bit-filled base desc slot k h, out) (ground arith)

pub filled-IsValid : (base desc slot : ℕ) → is_valid (filled base (leaf_flags desc) slot) ≡ true
unfolding is_valid
filled-IsValid base desc slot =
    has-bit (filled base (leaf_flags desc) slot) 0
    ∙ filled-attributes base desc slot 0 (omega arith) refl

-- An address of a page is all in the bits of the address.
page-bits : (x : ℕ) → x < 2 ^ 48 → x % 4096 ≡ 0 → bit_and x phys_addr_mask ≡ x
page-bits x h aligned =
    let (q, low, below, above) = bit_and-align 12 36 x (omega arith) in low ∙ omega arith

filled-lt :
    (base desc slot : ℕ)
    → base + slot * 4096 < 2 ^ 64
    → desc < 2 ^ 64
    → filled base (leaf_flags desc) slot < 2 ^ 64
unfolding filled leaf_flags
filled-lt base desc slot h word =
    bit_or-lt 64 _ _ (bit_and-lt 64 (base + slot * 4096) phys_addr_mask h) (
      bit_or-lt 64 _ desc_sw_borrowed
        (bit_or-lt 64 _ desc_type_table
          (bit_or-lt 64 _ desc_valid (bit_and-lt 64 desc (complement 3) word) (omega arith))
          (omega arith))
        (omega arith))

-- The address that a page maps is that of its own part of the block.
pub filled-phys :
    (base desc slot : ℕ)
    → base < 2 ^ 48
    → base % 2 ^ 21 ≡ 0
    → slot < 512
    → desc < 2 ^ 64
    → bit_and desc phys_addr_mask ≡ base
    → bit_and (filled base (leaf_flags desc) slot) phys_addr_mask ≡ base + slot * 4096
filled-phys base desc slot high window lt word identity =
    let x : ℕ = base + slot * 4096 in
    let below : x < 2 ^ 48 = omega arith in
    let own : bit_and x phys_addr_mask ≡ x = page-bits x below (omega arith) in
    eq_of_bits 64 (bit_and (filled base (leaf_flags desc) slot) phys_addr_mask) x
      (bit_and-lt 64 (filled base (leaf_flags desc) slot) phys_addr_mask
        (filled-lt base desc slot (omega arith) word))
      (omega arith)
      (λ k h.
        rw
          (
            bit-bit_and k (filled base (leaf_flags desc) slot) phys_addr_mask,
            bit-address k h,
            bit-filled base desc slot k h,
          )
          (same k h (sym (bit-bit_and k x phys_addr_mask) ∙ ap (bit k) own)
            (sym (bit-bit_and k desc phys_addr_mask) ∙ ap (bit k) identity)))
  where
    base_bits : (k : ℕ) → bit k base ≡ true → bit k (base + slot * 4096) ≡ true
    base_bits k e =
        let whole : 2 ^ 21 * (base / 2 ^ 21) ≡ base = omega (arith, window) in
        rw whole at (bit-add_below 21 k (base / 2 ^ 21) (slot * 4096) (omega arith) (rw whole e))

    same :
        (k : ℕ)
        → k < 64
        → (bit k (base + slot * 4096) && bit k phys_addr_mask) ≡ bit k (base + slot * 4096)
        → (bit k desc && bit k phys_addr_mask) ≡ bit k base
        → (((bit k (base + slot * 4096) && in_address k) || (leb k 1 || ((k == 56) || bit k desc)))
            && in_address k)
          ≡ bit k (base + slot * 4096)
    same k h own its = elim (Bool-cases (in_address k)) [
      | inl inside ↦
          let mask : bit k phys_addr_mask ≡ true = bit-address k h ∙ inside in
          let high_bits : (leb k 1 || (k == 56)) ≡ false = ground (arith, inside) in
          elim (Bool-cases (bit k desc)) [
            | inl on ↦
                let up : bit k (base + slot * 4096) ≡ true =
                  base_bits k (ground (arith, its, on, mask)) in
                rw (inside, up) refl
            | inr off ↦ rw (inside, off) (ground (arith, high_bits))
          ]
      | inr outside ↦ rw outside (ground (arith, rw (bit-address k h, outside) at (own)))
    ]
