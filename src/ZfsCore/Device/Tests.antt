-- ===== src/ZfsCore/Device/Tests.antt =====
-- Runs of libs/zfs-core/src/device.rs, and of a commit of the metadata on that device.
use zero_os.Common.{ℕ, ◌≡◌, refl, List, [], ◌++◌, some, replicate}
use zero_os.Common.Result.{ok}
use zero_os.ZfsCore.Device.{read_block, memory_device}
use zero_os.ZfsCore.Device.Keeps.{memory_device-KeepsBlocks}
use zero_os.ZfsCore.Metadata.Banks.{MetadataState, header, pad, load_bank, store}
use zero_os.ZfsCore.Metadata.Commit.{other_bank}
use zero_os.ZfsCore.Metadata.Kept.{store_keeps_other}
use zero_os.ZfsCore.Metadata.RoundTrip.{encoded}
use zero_os.ZfsCore.Metadata.Loaded.{state_of}

-- A checkpoint without entries in the first bank, and no more blocks.
abbrev storage : List ℕ
storage = replicate 4096 0 ++ (header 4096 5 (encoded [] 2 1) 0 ++ pad 4096 (encoded [] 2 1))

loaded : load_bank memory_device storage (other_bank 5) ≡ ok (some (state_of 5 [] 2 1))
unfolding zero_os.ZfsCore.Metadata.Banks.next_generation_of load_bank read_block header
    zero_os.ZfsCore.Bytes.to_le_bytes zero_os.ZfsCore.Bytes.from_le_bytes
    zero_os.ZfsCore.Metadata.Banks.read_header zero_os.ZfsCore.Directory.text_eq
    zero_os.ZfsCore.Metadata.Banks.read_payload zero_os.ZfsCore.Crc.crc32
    zero_os.ZfsCore.Crc.crc_bytes zero_os.ZfsCore.Crc.shift_byte zero_os.ZfsCore.Metadata.decode
    zero_os.ZfsCore.Metadata.read_checkpoint zero_os.ZfsCore.Metadata.decode_entries
    zero_os.ZfsCore.Bytes.bytes zero_os.ZfsCore.Bytes.u32 zero_os.ZfsCore.Bytes.u64
loaded = refl

store_keeps_other_example :
    load_bank memory_device (store memory_device storage 5 [] 8 11).1 (other_bank 5)
    ≡ ok (some (state_of 5 [] 2 1))
store_keeps_other_example =
    store_keeps_other memory_device memory_device-KeepsBlocks storage 5 [] 8 11 (state_of 5 [] 2 1)
      loaded
