-- ===== src/Mm/TableWalk/Memory.antt =====
-- microkernel/src/mm/table_walk.rs: the walk of the page tables in memory, and the changes to a live
-- table with an invalid entry in between (break before make). Memory is a function from the address
-- of a word to the word. The barrier, which the caller passes, cannot change memory; what it is called
-- with is recorded, in order, with the entry of the table at that moment.
pub mod Pages
pub mod Split
use Prim.Native.Nat.{bit_and, bit_or}
use zero_os.Common.{
  ℕ, zero, suc, ◌+◌, ◌*◌, ◌-◌, ◌/◌, ◌%◌, ◌^◌, Bool, true, false, not, ◌&&◌, ◌||◌, ◌==◌, ltb, leb,
  if◌then◌else◌, List, [], ◌∷◌, Option, none, some,
}
use zero_os.Mm.TableWalk.{
  is_valid, is_table, descriptor_to_table, make_table_descriptor, phys_addr_mask, desc_valid,
  desc_type_table, desc_sw_borrowed, complement, has,
}

abbrev pub page_size : ℕ
page_size = 4096

abbrev pub Memory : Type 0
Memory = ℕ → ℕ

-- `*table.add(index)`
abbrev pub read : Memory → ℕ → ℕ → ℕ
read m table index = m (table + 8 * index)

abbrev pub write : Memory → ℕ → ℕ → ℕ → Memory
write m table index word = λ a. if a == table + 8 * index then word else m a

pub record Indices : Type 0 where
  pub index0 : ℕ
  pub index1 : ℕ
  pub index2 : ℕ
  pub index3 : ℕ

unfoldable pub page_table_indices : ℕ → Indices
page_table_indices addr = record {
  index0 = addr / 2 ^ 39 % 512;
  index1 = addr / 2 ^ 30 % 512;
  index2 = addr / 2 ^ 21 % 512;
  index3 = addr / 2 ^ 12 % 512;
}

pub data WalkOutcome : Type 0 where
  unmapped : WalkOutcome
  block : (desc block_base : ℕ) → WalkOutcome
  page : (desc phys : ℕ) → WalkOutcome

-- The entry of the third table.
unfoldable pub walk_page : ℕ → WalkOutcome
walk_page e3 = if not (is_valid e3) then unmapped else page e3 (bit_and e3 phys_addr_mask)

-- The walk from an entry of the second table on.
unfoldable pub walk_entry : Memory → Indices → ℕ → WalkOutcome
walk_entry m i e2 =
    if not (is_valid e2)
    then unmapped
    else if not (is_table e2)
    then block e2 (bit_or (bit_or (i.index0 * 2 ^ 39) (i.index1 * 2 ^ 30)) (i.index2 * 2 ^ 21))
    else walk_page (read m (descriptor_to_table e2) i.index3)

unfoldable pub walk : Memory → ℕ → ℕ → WalkOutcome
walk m l0 va =
    let i = page_table_indices va in
    let e0 = read m l0 i.index0 in
    let e1 = read m (descriptor_to_table e0) i.index1 in
    if not (is_valid e0)
    then unmapped
    else if not (is_valid e1)
    then unmapped
    else walk_entry m i (read m (descriptor_to_table e1) i.index2)

-- A barrier: its address, and the entry under change when it was called.
pub record Barrier : Type 0 where
  pub va : ℕ
  pub entry : ℕ

unfoldable pub leaf_flags : ℕ → ℕ
leaf_flags block_desc =
    bit_or (bit_or (bit_or (bit_and block_desc (complement 3)) desc_valid) desc_type_table)
      desc_sw_borrowed

-- What the loop writes for a slot.
unfoldable pub filled : ℕ → ℕ → ℕ → ℕ
filled virt_base flags slot = bit_or (bit_and (virt_base + slot * page_size) phys_addr_mask) flags

-- The first n rounds of the loop over the slots.
unfoldable pub fill : Memory → ℕ → ℕ → ℕ → ℕ → Memory
fill m l3 virt_base flags zero = m
fill m l3 virt_base flags (suc n) =
    write (fill m l3 virt_base flags n) l3 n (filled virt_base flags n)

-- None is a failed assertion.
unfoldable pub bbm_split_block :
    Memory
    → (l2 index l3 virt_base block_desc target target_desc : ℕ) → Option (List Barrier × Memory)
bbm_split_block m l2 index l3 virt_base block_desc target target_desc =
    let old = read m l2 index in
    let broken = write m l2 index 0 in
    let full = fill broken l3 virt_base (leaf_flags block_desc) 512 in
    let made = write (write full l3 target target_desc) l2 index (make_table_descriptor l3) in
    if not (ltb index 512 && ltb target 512)
    then none
    else if not (has old desc_valid && not (has old desc_type_table))
    then none
    else some (
      record { va = virt_base; entry = read broken l2 index }
          ∷ record { va = virt_base; entry = read made l2 index }
          ∷ [],
      made,
    )

unfoldable pub bbm_update_page :
    Memory → (l3 index va new_desc : ℕ) → Option (List Barrier × Memory)
bbm_update_page m l3 index va new_desc =
    let broken = write m l3 index 0 in
    let made = write broken l3 index new_desc in
    if not (ltb index 512)
    then none
    else if not (has (read m l3 index) desc_valid)
    then none
    else some (
      record { va = va; entry = read broken l3 index }
          ∷ record { va = va; entry = read made l3 index }
          ∷ [],
      made,
    )
