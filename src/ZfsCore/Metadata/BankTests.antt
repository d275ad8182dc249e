-- ===== src/ZfsCore/Metadata/BankTests.antt =====
-- Runs of the banks of libs/zfs-core/src/metadata.rs on a device in memory.
use zero_os.Common.{ℕ, ◌≡◌, refl, List, [], ◌∷◌, ◌==◌, if◌then◌else◌, replicate}
use zero_os.Common.Result.{ok}
use zero_os.ZfsCore.Bytes.{DeviceError}
use zero_os.ZfsCore.Crc.{crc32}
use zero_os.ZfsCore.Metadata.Banks.{BlockDevice, bank_a, bank_b, MetadataState}

-- The known value for "123456789".
known_vector_test : crc32 (49 ∷ 50 ∷ 51 ∷ 52 ∷ 53 ∷ 54 ∷ 55 ∷ 56 ∷ 57 ∷ []) ≡ 0xCBF4_3926
unfolding crc32 zero_os.ZfsCore.Crc.crc_bytes zero_os.ZfsCore.Crc.shift_byte
known_vector_test = refl

abbrev Disk : Type 0
Disk = List (ℕ × List ℕ)

abbrev block_at : ℕ → Disk → List ℕ
block_at lba [] = replicate 64 0
block_at lba (x ∷ xs) = if x.0 == lba then x.1 else block_at lba xs

abbrev disk : BlockDevice Disk
disk = record {
  block_size = 64;
  read_block = λ d lba. ok (block_at lba d);
  write_block = λ d lba block. (ok tt, (lba, block) ∷ d);
}
