-- ===== src/Mm/TableWalk/Memory/Split.antt =====
-- The pages that a walk finds after a block was split.
use Prim.Native.Nat.{bit_and, bit_or}
use zero_os.Common.{
  ℕ, zero, suc, ◌+◌, ◌*◌, ◌%◌, ◌^◌, ◌≤◌, ◌<◌, ◌≡◌, ◌≢◌, refl, ◌∙◌, ◌⊎◌, inl, inr, true, false, ◌&&◌,
  ◌||◌, ◌==◌, ltb, leb, if◌then◌else◌, Bool-cases, arith, [], ◌∷◌, some, ==_refl, ne→==,
}
use zero_os.Common.Bits.{bit, bit-bit_or, bit-bit_and, bit_and-lt, bit_or-lt, eq_of_bits}
use zero_os.Common.Bits.Constants.{constant_bits}
use zero_os.Mm.TableWalk.{
  is_valid, is_table, descriptor_to_table, make_table_descriptor, phys_addr_mask, desc_valid,
  desc_type_table, has,
}
use zero_os.Mm.TableWalk.Memory.Pages.{filled-phys, filled-attributes, filled-IsValid}
use zero_os.Mm.TableWalk.Leaves.{has-bit, bit-address, in_address}
use zero_os.Mm.TableWalk.Memory.{
  Memory, read, write, Indices, WalkOutcome, page, walk_page, walk_entry, leaf_flags, filled, fill,
  bbm_split_block,
}

read-write : (m : Memory) (table i word : ℕ) → read (write m table i word) table i ≡ word
read-write m table i word = rw (==_refl (table + 8 * i)) refl

write-other : (m : Memory) (table i word a : ℕ) → a ≢ table + 8 * i → write m table i word a ≡ m a
write-other m table i word a ne = rw (ne→== a (table + 8 * i) ne) refl

-- The loop leaves what is not in the table.
fill-other :
    (m : Memory) (l3 base flags n a : ℕ)
    → (a < l3) ⊎ (l3 + 8 * n ≤ a)
    → fill m l3 base flags n a ≡ m a
unfolding fill
fill-other m l3 base flags zero a h = refl
fill-other m l3 base flags (suc n) a h =
    write-other (fill m l3 base flags n) l3 n (filled base flags n) a (λ e. omega (arith, e, h))
    ∙ fill-other m l3 base flags n a (omega (arith, h))

-- Every slot has its page.
read-fill :
    (m : Memory) (l3 base flags n slot : ℕ)
    → slot < n
    → read (fill m l3 base flags n) l3 slot ≡ filled base flags slot
unfolding fill
read-fill m l3 base flags zero slot h = absurd (omega arith)
read-fill m l3 base flags (suc n) slot h = elim (Bool-cases (slot == n)) [
  | inl last ↦
      let same : slot ≡ n = ground (arith, last) in
      rw same (read-write (fill m l3 base flags n) l3 n (filled base flags n))
  | inr before ↦
      write-other (fill m l3 base flags n) l3 n (filled base flags n) (l3 + 8 * slot)
        (ground (arith, before))
      ∙ read-fill m l3 base flags n slot (ground (arith, before))
]

bit-table :
    (l3 k : ℕ) → k < 64 → bit k (make_table_descriptor l3) ≡ ((in_address k && bit k l3) || leb k 1)
unfolding make_table_descriptor
bit-table l3 k h =
    let one : bit k desc_valid ≡ (k == 0) = constant_bits desc_valid (λ j. j == 0) refl k h in
    let two : bit k desc_type_table ≡ (k == 1) =
      constant_bits desc_type_table (λ j. j == 1) refl k h in
    rw
      (
        bit-bit_or k (bit_or (bit_and l3 phys_addr_mask) desc_valid) desc_type_table,
        bit-bit_or k (bit_and l3 phys_addr_mask) desc_valid,
        bit-bit_and k l3 phys_addr_mask,
        bit-address k h,
        one,
        two,
      )
      (ground arith)

table-IsTable :
    (l3 : ℕ)
    → (is_valid (make_table_descriptor l3) ≡ true) × (is_table (make_table_descriptor l3) ≡ true)
unfolding is_valid is_table
table-IsTable l3 = (
  has-bit (make_table_descriptor l3) 0 ∙ bit-table l3 0 (omega arith),
  has-bit (make_table_descriptor l3) 1 ∙ bit-table l3 1 (omega arith),
)

table_lt : (l3 : ℕ) → l3 < 2 ^ 64 → make_table_descriptor l3 < 2 ^ 64
unfolding make_table_descriptor
table_lt l3 h =
    bit_or-lt 64 _ desc_type_table
      (bit_or-lt 64 _ desc_valid (bit_and-lt 64 l3 phys_addr_mask h) (omega arith)) (omega arith)

-- The address in a table descriptor is the address of the table.
descriptor_to_table-make_table_descriptor :
    (l3 : ℕ)
    → l3 < 2 ^ 64
    → bit_and l3 phys_addr_mask ≡ l3
    → descriptor_to_table (make_table_descriptor l3) ≡ l3
unfolding descriptor_to_table
descriptor_to_table-make_table_descriptor l3 h aligned =
    eq_of_bits 64 _ (bit_and l3 phys_addr_mask)
      (bit_and-lt 64 (make_table_descriptor l3) phys_addr_mask (table_lt l3 h))
      (bit_and-lt 64 l3 phys_addr_mask h)
      (λ k lt.
        rw
          (
            bit-bit_and k (make_table_descriptor l3) phys_addr_mask,
            bit-bit_and k l3 phys_addr_mask,
            bit-table l3 k lt,
            bit-address k lt,
          )
          (ground arith))
    ∙ aligned

-- Memory after the split.
abbrev after_split : Memory → (l2 index l3 virt_base block_desc target target_desc : ℕ) → Memory
after_split m l2 index l3 virt_base block_desc target target_desc =
    write
      (write (fill (write m l2 index 0) l3 virt_base (leaf_flags block_desc) 512) l3 target
        target_desc)
      l2 index (make_table_descriptor l3)

module _ (m : Memory) (l2 index l3 virt_base block_desc target target_desc : ℕ)
    (apart : (l2 + 8 * index < l3) ⊎ (l3 + 4096 ≤ l2 + 8 * index)) where
  after : Memory
  after = after_split m l2 index l3 virt_base block_desc target target_desc

  broken : Memory
  broken = write m l2 index 0

  full : Memory
  full = fill broken l3 virt_base (leaf_flags block_desc) 512

  slot_word :
      (slot : ℕ)
      → slot < 512
      → read after l3 slot
        ≡ (if slot == target then target_desc else filled virt_base (leaf_flags block_desc) slot)
  unfolding after full broken
  slot_word slot lt =
      write-other (write full l3 target target_desc) l2 index (make_table_descriptor l3)
        (l3 + 8 * slot) (λ e. omega (arith, e, apart))
      ∙ elim (Bool-cases (slot == target)) [
        | inl same ↦
            let at_target : slot ≡ target = ground (arith, same) in
            rw same (rw at_target (read-write full l3 target target_desc))
        | inr other ↦ rw other (
            write-other full l3 target target_desc (l3 + 8 * slot) (ground (arith, other))
            ∙ read-fill broken l3 virt_base (leaf_flags block_desc) 512 slot lt)
      ]

  outside_word :
      (a : ℕ) → target < 512 → a ≢ l2 + 8 * index → (a < l3) ⊎ (l3 + 4096 ≤ a) → after a ≡ m a
  unfolding after full broken
  outside_word a ht ne out =
      write-other (write full l3 target target_desc) l2 index (make_table_descriptor l3) a ne
      ∙ write-other full l3 target target_desc a (λ e. omega (arith, e, out))
      ∙ fill-other broken l3 virt_base (leaf_flags block_desc) 512 a (omega (arith, out))
      ∙ write-other m l2 index 0 a ne

  walk_after :
      (i : Indices)
      → i.index3 < 512
      → l3 < 2 ^ 64
      → bit_and l3 phys_addr_mask ≡ l3
      → walk_entry after i (read after l2 index) ≡ (
          let desc = filled virt_base (leaf_flags block_desc) i.index3 in
          if i.index3 == target
          then walk_page target_desc
          else page desc (bit_and desc phys_addr_mask))
  unfolding walk_entry walk_page
  walk_after i lt h aligned =
      let entry : read after l2 index ≡ make_table_descriptor l3 =
        unfold after full broken in
        read-write (write full l3 target target_desc) l2 index (make_table_descriptor l3) in
      let (valid, table) = table-IsTable l3 in
      rw
        (
          entry,
          valid,
          table,
          descriptor_to_table-make_table_descriptor l3 h aligned,
          slot_word i.index3 lt,
        )
        (elim (Bool-cases (i.index3 == target)) [
          | inl same ↦ rw same refl
          | inr other ↦ rw (other, filled-IsValid virt_base block_desc i.index3) refl
        ])

-- What a walk finds in slot `slot` after the split: in the target's slot the given descriptor, in any
-- other a page at its own part of the block, with the block's bits outside the address, valid, not a
-- block any more and marked as borrowed.
pub data Finds (old virt_base target target_desc slot : ℕ) : WalkOutcome → Type 0 where
  asked : slot ≡ target → Finds old virt_base target target_desc slot (walk_page target_desc)
  own_part :
      (desc : ℕ)
      → slot ≢ target
      → ((k : ℕ)
          → k < 64
          → in_address k ≡ false
          → bit k desc ≡ (leb k 1 || ((k == 56) || bit k old)))
      → Finds old virt_base target target_desc slot (page desc (virt_base + slot * 4096))

found_page :
    (old virt_base target target_desc slot : ℕ)
    → old < 2 ^ 64
    → virt_base < 2 ^ 48
    → virt_base % 2 ^ 21 ≡ 0
    → bit_and old phys_addr_mask ≡ virt_base
    → slot < 512
    → Finds old virt_base target target_desc slot (
        let desc = filled virt_base (leaf_flags old) slot in
        if slot == target then walk_page target_desc else page desc (bit_and desc phys_addr_mask))
found_page old virt_base target target_desc slot word high window identity lt =
    elim (Bool-cases (slot == target)) [
      | inl same ↦ rw same (asked (ground (arith, same)))
      | inr other ↦
          rw (other, filled-phys virt_base old slot high window lt word identity)
            (own_part (filled virt_base (leaf_flags old) slot) (λ e. ground (arith, other, e))
              (λ k h out. filled-attributes virt_base old slot k h out))
    ]

-- Splitting a valid block that maps its window of 2 MiB below 2 ^ 48 onto itself, with a new table that is aligned to
-- a page and does not lie over the entry: the entry is invalid at the first barrier and points to the
-- new table at the second. After it a walk finds the given descriptor in the slot of the target, and in
-- every other slot a page at its own part of the block with the attributes of the block, marked as
-- borrowed. The words outside the new table and the entry stay.
pub bbm_split_block_lem :
    (m : Memory) (l2 index l3 virt_base target target_desc : ℕ)
    → index < 512
    → target < 512
    → has (read m l2 index) desc_valid ≡ true
    → has (read m l2 index) desc_type_table ≡ false
    → read m l2 index < 2 ^ 64
    → virt_base < 2 ^ 48
    → virt_base % 2 ^ 21 ≡ 0
    → bit_and (read m l2 index) phys_addr_mask ≡ virt_base
    → l3 < 2 ^ 64
    → bit_and l3 phys_addr_mask ≡ l3
    → (l2 + 8 * index < l3) ⊎ (l3 + 4096 ≤ l2 + 8 * index)
    → (after : Memory) × (bbm_split_block m l2 index l3 virt_base
          (read m l2 index)
          target
          target_desc
        ≡ some (
          record { va = virt_base; entry = 0 }
              ∷ record { va = virt_base; entry = make_table_descriptor l3 }
              ∷ [],
          after,
        ))
      × ((i : Indices)
          → i.index3 < 512
          → Finds
              (read m l2 index)
              virt_base
              target
              target_desc
              i.index3
              (walk_entry after i (read after l2 index)))
      × ((a : ℕ) → a ≢ l2 + 8 * index → (a < l3) ⊎ (l3 + 4096 ≤ a) → after a ≡ m a)
unfolding bbm_split_block
bbm_split_block_lem m l2 index l3 virt_base target target_desc hi ht valid plain word high window
      identity h aligned apart =
    let i512 : ltb index 512 ≡ true = ground arith in
    let t512 : ltb target 512 ≡ true = ground arith in
    let old : ℕ = read m l2 index in
    let full' : Memory = fill (write m l2 index 0) l3 virt_base (leaf_flags old) 512 in
    let after' : Memory = after_split m l2 index l3 virt_base old target target_desc in
    (
      after',
      rw
          (
            i512,
            t512,
            valid,
            plain,
            read-write m l2 index 0,
            read-write (write full' l3 target target_desc) l2 index (make_table_descriptor l3),
          )
          refl,
      λ i lt.
          let found : walk_entry after' i (read after' l2 index) ≡ (
              let desc = filled virt_base (leaf_flags old) i.index3 in
              if i.index3 == target
              then walk_page target_desc
              else page desc (bit_and desc phys_addr_mask)) =
            unfold after in
            walk_after m l2 index l3 virt_base old target target_desc apart i lt h aligned in
          rw found
            (found_page old virt_base target target_desc i.index3 word high window identity lt),
      λ a ne out.
          unfold after in
          outside_word m l2 index l3 virt_base old target target_desc apart a ht ne out,
    )
