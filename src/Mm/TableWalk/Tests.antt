-- ===== src/Mm/TableWalk/Tests.antt =====
-- Runs of microkernel/src/mm/table_walk.rs on a leaf for page 0x5000.
use zero_os.Common.{ℕ, ◌^◌, ◌<◌, ◌≡◌, refl, true, false, if◌then◌else◌, arith}
use zero_os.Mm.TableWalk.{
  desc_sw_cow, desc_sw_device, desc_sw_borrowed, user_ap_rw, user_ap_rx, has, access, is_valid,
  is_table, descriptor_to_table, make_table_descriptor, make_leaf_descriptor, classify_leaf,
  is_cow_leaf, cow_share_leaf, cow_break_leaf, cow_share, read_only_direct, borrowed_direct,
  skip_device,
}
use zero_os.Mm.TableWalk.Leaves.{cow_share_leaf_lem, cow_break_leaf-cow_share_leaf}

leaf : ℕ
unfolding make_leaf_descriptor
leaf = make_leaf_descriptor 0x5000 user_ap_rw false

leaf_lt : leaf < 2 ^ 64
unfolding leaf make_leaf_descriptor
leaf_lt = omega arith

leaf_writable : access leaf ≡ user_ap_rw
unfolding leaf make_leaf_descriptor
leaf_writable = refl

leaf_private : has leaf desc_sw_cow ≡ false
unfolding leaf make_leaf_descriptor
leaf_private = refl

leaf_classes :
    (classify_leaf leaf ≡ cow_share)
    × (classify_leaf (make_leaf_descriptor 0x5000 user_ap_rx true) ≡ read_only_direct)
unfolding leaf make_leaf_descriptor classify_leaf
leaf_classes = (refl, refl)

table_descriptor :
    (is_table (make_table_descriptor 0x7000) ≡ true)
    × (is_valid (make_table_descriptor 0x7000) ≡ true)
    × (descriptor_to_table (make_table_descriptor 0x7000) ≡ 0x7000)
unfolding is_table is_valid make_table_descriptor descriptor_to_table
table_descriptor = (refl, refl, refl)

cow_break_leaf-cow_share_leaf_example :
    cow_break_leaf (cow_share_leaf leaf) (descriptor_to_table (cow_share_leaf leaf)) ≡ leaf
cow_break_leaf-cow_share_leaf_example =
    cow_break_leaf-cow_share_leaf leaf leaf_lt leaf_writable leaf_private

cow_share_leaf_lem_example :
    (access (cow_share_leaf leaf) ≡ user_ap_rx)
    × (is_cow_leaf (cow_share_leaf leaf) ≡ is_valid leaf)
    × (descriptor_to_table (cow_share_leaf leaf) ≡ descriptor_to_table leaf)
    × (classify_leaf (cow_share_leaf leaf) ≡ (
        if has leaf desc_sw_borrowed
        then borrowed_direct
        else if has leaf desc_sw_device
        then skip_device
        else cow_share))
cow_share_leaf_lem_example = cow_share_leaf_lem leaf leaf_lt
