-- ===== src/Mm/TableWalk/MemoryTests.antt =====
-- Runs of microkernel/src/mm/table_walk.rs on tables in a small memory.
use zero_os.Common.{
  ℕ, ◌+◌, ◌*◌, ◌<◌, ◌≤◌, ◌≡◌, ◌≢◌, refl, ◌⊎◌, inl, if◌then◌else◌, ◌==◌, some, [], ◌∷◌, arith,
}
use zero_os.Mm.TableWalk.{is_valid, is_table, descriptor_to_table, make_table_descriptor}
use zero_os.Mm.TableWalk.Memory.{
  Memory, read, Indices, page_table_indices, unmapped, block, walk_page, walk_entry, walk,
  bbm_split_block,
}
use zero_os.Mm.TableWalk.Memory.Split.{Finds, bbm_split_block_lem}

-- Tables at 0x1000 and 0x2000 below the root at 0; entry 3 of the second is a block at 0x60_0000.
abbrev tables : Memory
tables a =
    if a == 0 then 0x1003 else if a == 0x1000 then 0x2003 else if a == 0x2018 then 0x60_0001 else 0

indices : page_table_indices 0x40_1000 ≡ record { index0 = 0; index1 = 0; index2 = 2; index3 = 1 }
unfolding page_table_indices
indices = refl

walks :
    (walk tables 0 0x60_1234 ≡ block 0x60_0001 0x60_0000)
    × (walk tables 0 0x20_0000 ≡ unmapped)
    × (walk tables 0 0x40_0000_0000 ≡ unmapped)
unfolding walk walk_entry walk_page page_table_indices is_valid is_table descriptor_to_table
walks = (refl, refl, refl)

bbm_split_block_lem_example :
    (after : Memory) × (bbm_split_block tables 0x2000 3 0x4000 0x60_0000
        (read tables 0x2000 3)
        7
        0x9043
      ≡ some (
        record { va = 0x60_0000; entry = 0 }
            ∷ record { va = 0x60_0000; entry = make_table_descriptor 0x4000 }
            ∷ [],
        after,
      ))
    × ((i : Indices)
        → i.index3 < 512
        → Finds
            (read tables 0x2000 3)
            0x60_0000
            7
            0x9043
            i.index3
            (walk_entry after i (read after 0x2000 3)))
    × ((a : ℕ) → a ≢ 0x2000 + 8 * 3 → (a < 0x4000) ⊎ (0x4000 + 4096 ≤ a) → after a ≡ tables a)
bbm_split_block_lem_example =
    bbm_split_block_lem tables 0x2000 3 0x4000 0x60_0000 7 0x9043 (omega arith) (omega arith) refl
      refl (omega arith) (omega arith) refl refl (omega arith) refl (inl (omega arith))
