-- ===== src/Mm/TableWalk.antt =====
-- microkernel/src/mm/table_walk.rs: descriptors of page tables, and their copies on fork (copy on write).
-- The walk of the tables is in Memory. A descriptor is a 64-bit word.
pub mod Leaves
pub mod Memory
mod Tests
mod MemoryTests
use Prim.Native.Nat.{bit_and, bit_or}
use zero_os.Common.{
  ℕ, ◌+◌, ◌*◌, ◌-◌, ◌/◌, ◌%◌, ◌^◌, Bool, true, false, not, ◌&&◌, ◌||◌, ◌==◌, if◌then◌else◌,
}

abbrev pub phys_addr_mask : ℕ
phys_addr_mask = 0x0000_ffff_ffff_f000

abbrev pub desc_valid : ℕ
desc_valid = 1

abbrev pub desc_type_table : ℕ
desc_type_table = 2

abbrev pub desc_af : ℕ
desc_af = 2 ^ 10

abbrev pub desc_sh_inner : ℕ
desc_sh_inner = 3 * 2 ^ 8

abbrev pub desc_attridx_normal : ℕ
desc_attridx_normal = 0

abbrev pub desc_uxn : ℕ
desc_uxn = 2 ^ 54

abbrev pub desc_sw_cow : ℕ
desc_sw_cow = 2 ^ 11

abbrev pub desc_sw_device : ℕ
desc_sw_device = 2 ^ 55

abbrev pub desc_sw_borrowed : ℕ
desc_sw_borrowed = 2 ^ 56

abbrev pub ap_shift : ℕ
ap_shift = 6

abbrev pub ap_mask : ℕ
ap_mask = 3 * 2 ^ ap_shift

abbrev pub user_ap_rx : ℕ
user_ap_rx = 3

abbrev pub user_ap_rw : ℕ
user_ap_rw = 1

-- `!x` on 64 bits
abbrev pub complement : ℕ → ℕ
complement x = 2 ^ 64 - 1 - x

unfoldable pub is_valid : ℕ → Bool
is_valid desc = not (bit_and desc desc_valid == 0)

unfoldable pub is_table : ℕ → Bool
is_table desc = not (bit_and desc desc_type_table == 0)

unfoldable pub descriptor_to_table : ℕ → ℕ
descriptor_to_table desc = bit_and desc phys_addr_mask

unfoldable pub make_table_descriptor : ℕ → ℕ
make_table_descriptor child =
    bit_or (bit_or (bit_and child phys_addr_mask) desc_valid) desc_type_table

-- The shift of the access permissions drops what leaves 64 bits.
unfoldable pub make_leaf_descriptor : ℕ → ℕ → Bool → ℕ
make_leaf_descriptor phys ap executable =
    let desc =
      bit_or
        (bit_or
          (bit_or
            (bit_or (bit_or (bit_or (bit_and phys phys_addr_mask) desc_valid) desc_type_table)
              desc_af)
            desc_sh_inner)
          desc_attridx_normal)
        (ap * 2 ^ ap_shift % 2 ^ 64) in
    if not executable then bit_or desc desc_uxn else desc

pub data LeafShareClass : Type 0 where
  borrowed_direct read_only_direct cow_share eager_copy skip_device : LeafShareClass

abbrev pub cow_shared_fork : Bool
cow_shared_fork = true

-- `(leaf >> AP_SHIFT) & 0b11`
abbrev pub access : ℕ → ℕ
access leaf = bit_and (leaf / 2 ^ ap_shift) 3

abbrev pub has : ℕ → ℕ → Bool
has leaf flag = not (bit_and leaf flag == 0)

unfoldable pub classify_leaf : ℕ → LeafShareClass
classify_leaf leaf =
    if has leaf desc_sw_borrowed
    then borrowed_direct
    else if has leaf desc_sw_device
    then skip_device
    else if not cow_shared_fork
    then (if not (has leaf desc_sw_cow) && (access leaf == user_ap_rx)
        then read_only_direct
        else eager_copy)
    else if has leaf desc_sw_cow
    then cow_share
    else if access leaf == user_ap_rw
    then cow_share
    else if access leaf == user_ap_rx
    then read_only_direct
    else eager_copy

unfoldable pub is_cow_leaf : ℕ → Bool
is_cow_leaf desc = has desc desc_valid && has desc desc_sw_cow

unfoldable pub cow_share_leaf : ℕ → ℕ
cow_share_leaf leaf =
    bit_or (bit_or (bit_and leaf (complement ap_mask)) (user_ap_rx * 2 ^ ap_shift)) desc_sw_cow

unfoldable pub cow_break_leaf : ℕ → ℕ → ℕ
cow_break_leaf leaf new_pa =
    bit_or
      (bit_or (bit_and leaf (complement (bit_or (bit_or ap_mask desc_sw_cow) phys_addr_mask)))
        (bit_and new_pa phys_addr_mask))
      (user_ap_rw * 2 ^ ap_shift)
