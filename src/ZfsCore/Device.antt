-- ===== src/ZfsCore/Device.antt =====
-- libs/zfs-core/src/device.rs: the device in memory (`MemoryBlockDevice`), which grows with the blocks
-- that are written. Its storage is the list of its bytes; offsets wrap at 2 ^ 64 as usize does.
pub mod Windows
pub mod Keeps
mod Tests
use zero_os.Common.{
  ℕ, ◌+◌, ◌*◌, ◌-◌, ◌%◌, ◌^◌, not, List, ◌++◌, ◌==◌, ltb, if◌then◌else◌, length, replicate, take,
  drop,
}
use zero_os.Common.Result.{Result, ok, err}
use zero_os.ZfsCore.Bytes.{DeviceError, out_of_bounds, unsupported}
use zero_os.ZfsCore.Metadata.Banks.{BlockDevice}

abbrev pub block_size : ℕ
block_size = 4096

abbrev pub offset_of : ℕ → ℕ
offset_of lba = lba * block_size % 2 ^ 64

abbrev pub end_of : ℕ → ℕ → ℕ
end_of lba len = (offset_of lba + len) % 2 ^ 64

unfoldable pub ensure_capacity : ℕ → ℕ → List ℕ → List ℕ
ensure_capacity lba len storage =
    if ltb (length storage) (end_of lba len)
    then storage ++ replicate (end_of lba len - length storage) 0
    else storage

-- The buffer has the size of a block: `load_bank` reads into no other.
unfoldable pub read_block : List ℕ → ℕ → Result DeviceError (List ℕ)
read_block storage lba =
    if ltb (length storage) (end_of lba block_size)
    then err out_of_bounds
    else ok (take block_size (drop (offset_of lba) storage))

unfoldable pub write_block : List ℕ → ℕ → List ℕ → Result DeviceError (Unit {0}) × List ℕ
write_block storage lba buffer =
    let grown = ensure_capacity lba block_size storage in
    if not (length buffer == block_size)
    then (err unsupported, storage)
    else if ltb (length grown) (end_of lba block_size)
    then (err out_of_bounds, grown)
    else (ok tt, take (offset_of lba) grown ++ (buffer ++ drop (offset_of lba + block_size) grown))

abbrev pub memory_device : BlockDevice (List ℕ)
memory_device = record {
  block_size = block_size;
  read_block = read_block;
  write_block = write_block;
}
