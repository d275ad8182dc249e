-- ===== src/Mm/TableWalk/Leaves.antt =====
-- A leaf that a fork shares and a write fault makes private again.
use Prim.Native.Nat.{bit_and, bit_or}
use zero_os.Common.{
  ℕ, ◌+◌, ◌*◌, ◌/◌, ◌%◌, ◌^◌, ◌<◌, ◌≡◌, refl, sym, ◌∙◌, inl, inr, Bool, true, false, not, ◌&&◌,
  ◌||◌, ◌==◌, ltb, leb, if◌then◌else◌, Bool-cases, arith,
}
use zero_os.Common.Bits.{
  bit, bit-bit_or, bit-bit_and, bit_and-lt, bit_or-lt, eq_of_bits, bit_and-pow,
}
use zero_os.Common.Bits.Constants.{constant_bits}
use zero_os.Common.Bits.Align.{bit_and-three}
use zero_os.Mm.TableWalk.{
  is_valid, descriptor_to_table, phys_addr_mask, ap_mask, ap_shift, desc_sw_cow, desc_sw_device,
  desc_sw_borrowed, user_ap_rx, user_ap_rw, complement, has, access, classify_leaf, is_cow_leaf,
  cow_share_leaf, cow_break_leaf, cow_share, borrowed_direct, skip_device,
}

-- The bits of a shared leaf: read-only, marked, and otherwise those of the leaf.
pub bit-cow_share_leaf :
    (leaf k : ℕ)
    → k < 64
    → bit k (cow_share_leaf leaf) ≡ (((k == 6) || (k == 7)) || ((k == 11) || bit k leaf))
unfolding cow_share_leaf
bit-cow_share_leaf leaf k h =
    let keep : bit k (complement ap_mask) ≡ not ((k == 6) || (k == 7)) =
      constant_bits (complement ap_mask) (λ j. not ((j == 6) || (j == 7))) refl k h in
    let ap : bit k (user_ap_rx * 2 ^ ap_shift) ≡ ((k == 6) || (k == 7)) =
      constant_bits (user_ap_rx * 2 ^ ap_shift) (λ j. (j == 6) || (j == 7)) refl k h in
    let cow : bit k desc_sw_cow ≡ (k == 11) = constant_bits desc_sw_cow (λ j. j == 11) refl k h in
    rw
      (
        bit-bit_or k (bit_or (bit_and leaf (complement ap_mask)) (user_ap_rx * 2 ^ ap_shift))
            desc_sw_cow,
        bit-bit_or k (bit_and leaf (complement ap_mask)) (user_ap_rx * 2 ^ ap_shift),
        bit-bit_and k leaf (complement ap_mask),
        keep,
        ap,
        cow,
      )
      (ground arith)

abbrev pub in_address : ℕ → Bool
in_address k = leb 12 k && ltb k 48

-- The bits of a leaf made private: the new page, readable and writable, no mark.
pub bit-cow_break_leaf :
    (leaf new_pa k : ℕ)
    → k < 64
    → bit k (cow_break_leaf leaf new_pa) ≡ (
        if in_address k
        then bit k new_pa
        else if k == 6
        then true
        else if (k == 7) || (k == 11)
        then false
        else bit k leaf)
unfolding cow_break_leaf
bit-cow_break_leaf leaf new_pa k h =
    let cleared : ℕ = complement (bit_or (bit_or ap_mask desc_sw_cow) phys_addr_mask) in
    let keep : bit k cleared ≡ not (((k == 6) || (k == 7)) || ((k == 11) || in_address k)) =
      constant_bits cleared (λ j. not (((j == 6) || (j == 7)) || ((j == 11) || in_address j))) refl
        k h in
    let address : bit k phys_addr_mask ≡ in_address k =
      constant_bits phys_addr_mask in_address refl k h in
    let ap : bit k (user_ap_rw * 2 ^ ap_shift) ≡ (k == 6) =
      constant_bits (user_ap_rw * 2 ^ ap_shift) (λ j. j == 6) refl k h in
    rw
      (
        bit-bit_or k (bit_or (bit_and leaf cleared) (bit_and new_pa phys_addr_mask))
            (user_ap_rw * 2 ^ ap_shift),
        bit-bit_or k (bit_and leaf cleared) (bit_and new_pa phys_addr_mask),
        bit-bit_and k leaf cleared,
        bit-bit_and k new_pa phys_addr_mask,
        keep,
        address,
        ap,
      )
      (ground arith)

pub has-bit : (leaf k : ℕ) → has leaf (2 ^ k) ≡ bit k leaf
has-bit leaf k = ground (arith, bit_and-pow leaf k)

-- The permissions are bits 6 and 7.
access-bits :
    (leaf : ℕ)
    → leaf < 2 ^ 64
    → access leaf ≡ (if bit 7 leaf then 2 else 0) + (if bit 6 leaf then 1 else 0)
access-bits leaf h =
    let two : bit_and (leaf / 2 ^ 6) 3 ≡ leaf / 64 % 4 = bit_and-three (leaf / 64) (omega arith) in
    rw two (ground arith)

share-lt : (leaf : ℕ) → leaf < 2 ^ 64 → cow_share_leaf leaf < 2 ^ 64
unfolding cow_share_leaf
share-lt leaf h =
    bit_or-lt 64 _ desc_sw_cow
      (bit_or-lt 64 _ (user_ap_rx * 2 ^ ap_shift) (bit_and-lt 64 leaf (complement ap_mask) h)
        (omega arith))
      (omega arith)

break-lt : (leaf new_pa : ℕ) → leaf < 2 ^ 64 → new_pa < 2 ^ 64 → cow_break_leaf leaf new_pa < 2 ^ 64
unfolding cow_break_leaf
break-lt leaf new_pa h g =
    bit_or-lt 64 _ (user_ap_rw * 2 ^ ap_shift)
      (bit_or-lt 64 _ (bit_and new_pa phys_addr_mask) (bit_and-lt 64 leaf _ h)
        (bit_and-lt 64 new_pa phys_addr_mask g))
      (omega arith)

-- A flag of a shared leaf.
shared_flag :
    (leaf k : ℕ)
    → k < 64
    → has (cow_share_leaf leaf) (2 ^ k) ≡ (((k == 6) || (k == 7)) || ((k == 11) || bit k leaf))
shared_flag leaf k h = has-bit (cow_share_leaf leaf) k ∙ bit-cow_share_leaf leaf k h

access-cow_share_leaf : (leaf : ℕ) → leaf < 2 ^ 64 → access (cow_share_leaf leaf) ≡ user_ap_rx
access-cow_share_leaf leaf h =
    rw
      (
        access-bits (cow_share_leaf leaf) (share-lt leaf h),
        bit-cow_share_leaf leaf 6 (omega arith),
        bit-cow_share_leaf leaf 7 (omega arith),
      )
      refl

marked : (leaf : ℕ) → has (cow_share_leaf leaf) desc_sw_cow ≡ true
marked leaf = shared_flag leaf 11 (omega arith)

-- The flags other than the mark and the permissions stay.
kept_flag :
    (leaf k : ℕ)
    → k < 64
    → ((k == 6) || (k == 7)) || (k == 11) ≡ false
    → has (cow_share_leaf leaf) (2 ^ k) ≡ has leaf (2 ^ k)
kept_flag leaf k h other = ground (arith, shared_flag leaf k h, has-bit leaf k)

pub bit-address : (k : ℕ) → k < 64 → bit k phys_addr_mask ≡ in_address k
bit-address = constant_bits phys_addr_mask in_address refl

shared_page :
    (leaf : ℕ)
    → leaf < 2 ^ 64
    → bit_and (cow_share_leaf leaf) phys_addr_mask ≡ bit_and leaf phys_addr_mask
shared_page leaf h =
    eq_of_bits 64 _ _ (bit_and-lt 64 (cow_share_leaf leaf) phys_addr_mask (share-lt leaf h))
      (bit_and-lt 64 leaf phys_addr_mask h)
      (λ k lt.
        rw
          (
            bit-bit_and k (cow_share_leaf leaf) phys_addr_mask,
            bit-bit_and k leaf phys_addr_mask,
            bit-address k lt,
            bit-cow_share_leaf leaf k lt,
          )
          (ground arith))

-- A leaf shared by a fork is read-only, is recognised as shared when it is valid, points to the same
-- page, and is shared again by the next fork unless it is borrowed or a device's.
pub cow_share_leaf_lem :
    (leaf : ℕ)
    → leaf < 2 ^ 64
    → (access (cow_share_leaf leaf) ≡ user_ap_rx)
      × (is_cow_leaf (cow_share_leaf leaf) ≡ is_valid leaf)
      × (descriptor_to_table (cow_share_leaf leaf) ≡ descriptor_to_table leaf)
      × (classify_leaf (cow_share_leaf leaf) ≡ (
          if has leaf desc_sw_borrowed
          then borrowed_direct
          else if has leaf desc_sw_device
          then skip_device
          else cow_share))
unfolding is_cow_leaf is_valid descriptor_to_table classify_leaf
cow_share_leaf_lem leaf h = (
  access-cow_share_leaf leaf h,
  rw (marked leaf, kept_flag leaf 0 (omega arith) refl) (ground arith),
  shared_page leaf h,
  rw (marked leaf, kept_flag leaf 55 (omega arith) refl, kept_flag leaf 56 (omega arith) refl) refl,
)

-- The permissions read back from the descriptor are the two bits.
rw_bits :
    (leaf : ℕ)
    → leaf < 2 ^ 64
    → access leaf ≡ user_ap_rw
    → (bit 6 leaf ≡ true) × (bit 7 leaf ≡ false)
rw_bits leaf h e = let at_bits = access-bits leaf h in (ground arith, ground arith)

-- No mark and no permission lies among the bits of the address.
outside_marks :
    (f : ℕ → Bool) (k : ℕ)
    → in_address k ≡ true
    → ((((k == 6) || (k == 7)) || ((k == 11) || f k)) && true) ≡ f k
outside_marks f k inside =
    let six : (k == 6) ≡ false = ground (arith, inside) in
    let seven : (k == 7) ≡ false = ground (arith, inside) in
    let eleven : (k == 11) ≡ false = ground (arith, inside) in
    rw (six, seven, eleven) (ground arith)

-- Bits 6, 7 and 11 are written with the values that a private writable leaf has.
three_bits :
    (f : ℕ → Bool) (k : ℕ)
    → f 6 ≡ true
    → f 7 ≡ false
    → f 11 ≡ false
    → (if k == 6
        then true
        else if (k == 7) || (k == 11)
        then false
        else (((k == 6) || (k == 7)) || ((k == 11) || f k)))
      ≡ f k
three_bits f k six seven eleven = split (k == 6) refl (k == 7) refl (k == 11) refl
  where
    is_at : (n : ℕ) → (k == n) ≡ true → f n ≡ f k
    is_at n e = let same : k ≡ n = ground (arith, e) in rw same refl

    split :
        (a : Bool)
        → (k == 6) ≡ a
        → (b : Bool) → (k == 7) ≡ b
        → (c : Bool) → (k == 11) ≡ c
        → (if a then true else if b || c then false else ((a || b) || (c || f k))) ≡ f k
    split true e b _ c _ = sym six ∙ is_at 6 e
    split false _ true e c _ = sym seven ∙ is_at 7 e
    split false _ false _ true e = sym eleven ∙ is_at 11 e
    split false _ false _ false _ = refl

-- A private writable leaf that a fork shares, and that the last owner makes private again on its own
-- page, is the leaf it was.
pub cow_break_leaf-cow_share_leaf :
    (leaf : ℕ)
    → leaf < 2 ^ 64
    → access leaf ≡ user_ap_rw
    → has leaf desc_sw_cow ≡ false
    → cow_break_leaf (cow_share_leaf leaf) (descriptor_to_table (cow_share_leaf leaf)) ≡ leaf
unfolding descriptor_to_table
cow_break_leaf-cow_share_leaf leaf h writable private =
    let page : ℕ = bit_and (cow_share_leaf leaf) phys_addr_mask in
    let (six, seven) = rw_bits leaf h writable in
    let eleven : bit 11 leaf ≡ false = sym (has-bit leaf 11) ∙ private in
    eq_of_bits 64 _ leaf
      (break-lt (cow_share_leaf leaf) page (share-lt leaf h)
        (bit_and-lt 64 (cow_share_leaf leaf) phys_addr_mask (share-lt leaf h)))
      h (λ k lt. bit-cow_break_leaf (cow_share_leaf leaf) page k lt ∙ same k lt six seven eleven)
  where
    same :
        (k : ℕ)
        → k < 64
        → bit 6 leaf ≡ true
        → bit 7 leaf ≡ false
        → bit 11 leaf ≡ false
        → (if in_address k
            then bit k (bit_and (cow_share_leaf leaf) phys_addr_mask)
            else if k == 6
            then true
            else if (k == 7) || (k == 11)
            then false
            else bit k (cow_share_leaf leaf))
          ≡ bit k leaf
    same k lt six seven eleven = elim (Bool-cases (in_address k)) [
      | inl inside ↦ rw inside (
          rw
            (
              bit-bit_and k (cow_share_leaf leaf) phys_addr_mask,
              bit-address k lt,
              inside,
              bit-cow_share_leaf leaf k lt,
            )
            (outside_marks (λ j. bit j leaf) k inside))
      | inr outside ↦
          rw (outside, bit-cow_share_leaf leaf k lt)
            (three_bits (λ j. bit j leaf) k six seven eleven)
    ]
