-- ===== src/ZfsCore/Metadata/Banks.antt =====
-- libs/zfs-core/src/metadata.rs: the two banks of the checkpoint on the device (`store`, `load_bank`,
-- `load`), over the trait `BlockDevice` of device.rs.
use zero_os.Common.{
  ℕ, zero, suc, ◌+◌, ◌-◌, ◌*◌, ◌/◌, ◌%◌, ◌^◌, min, max, not, List, [], ◌∷◌, ◌++◌, Option, none,
  some, ◌==◌, ltb, if◌then◌else◌, length, replicate, take, drop,
}
use zero_os.Common.Result.{Result, ok, err}
use zero_os.ZfsCore.Bytes.{
  ZfsError, device, DeviceError, out_of_bounds, checkpoint_too_large, to_le_bytes, from_le_bytes,
}
use zero_os.ZfsCore.Crc.{crc32}
use zero_os.ZfsCore.Directory.{Index, text_eq}
use zero_os.ZfsCore.Metadata.{Entry, Checkpoint, encode, decode}

-- `BlockDevice`, on a state of the device.
pub record BlockDevice (D : Type 0) : Type 0 where
  pub block_size : ℕ
  pub read_block : D → ℕ → Result DeviceError (List ℕ)
  pub write_block : D → ℕ → List ℕ → Result DeviceError (Unit {0}) × D

abbrev pub bank_blocks : ℕ
bank_blocks = 32

abbrev pub bank_a : ℕ
bank_a = 1

abbrev pub bank_b : ℕ
bank_b = bank_a + bank_blocks

-- b"ZMDT0001"
abbrev pub magic : List ℕ
magic = 90 ∷ 77 ∷ 68 ∷ 84 ∷ 48 ∷ 48 ∷ 48 ∷ 49 ∷ []

pub record MetadataState : Type 0 where
  pub generation : ℕ
  pub entries : Index Entry
  pub next_inode : ℕ
  pub logical_time : ℕ

-- Zeros up to the length of a block.
abbrev pub pad : ℕ → List ℕ → List ℕ
pad size bs = bs ++ replicate (size - length bs) 0

unfoldable pub header : ℕ → ℕ → List ℕ → ℕ → List ℕ
header size generation payload count = pad size (
    magic
    ++ (to_le_bytes 8 generation
        ++ (to_le_bytes 4 (length payload % 2 ^ 32)
            ++ (to_le_bytes 4 (crc32 payload) ++ to_le_bytes 4 (count % 2 ^ 32)))))

unfoldable pub next_generation_of : ℕ → ℕ
next_generation_of generation = max (min (generation + 1) (2 ^ 64 - 1)) 1

abbrev pub target_of : ℕ → ℕ
target_of next_generation = if next_generation % 2 == 1 then bank_a else bank_b

-- The header's fields: generation, length, checksum; none for another magic.
unfoldable pub read_header : List ℕ → Option (ℕ × ℕ × ℕ)
read_header block =
    if not (text_eq (take 8 block) magic)
    then none
    else some (
      from_le_bytes (take 8 (drop 8 block)),
      from_le_bytes (take 4 (drop 16 block)),
      from_le_bytes (take 4 (drop 20 block)),
    )

module _ {D : Type 0} (dev : BlockDevice D) where
  abbrev pub size : ℕ
  size = dev.block_size

  -- `for i in 0..payload_blocks`: the blocks from `lba` on, and the device when it stops.
  unfoldable pub write_payload : ℕ → ℕ → List ℕ → D → Result ZfsError (Unit {0}) × D
  write_payload zero lba rest d = (ok tt, d)
  write_payload (suc n) lba rest d =
      let wrote : Result DeviceError (Unit {0}) × D =
        dev.write_block d lba (pad size (take size rest)) in
      elim wrote.0 [
        | err e ↦ (err (device e), wrote.1)
        | ok u ↦ write_payload n (suc lba) (drop size rest) wrote.1
      ]

  abbrev pub finished : ℕ → Result DeviceError (Unit {0}) × D → Result ZfsError ℕ × D
  finished generation (ok u, d) = (ok generation, d)
  finished generation (err e, d) = (err (device e), d)

  -- The header comes last.
  abbrev pub after_payload : ℕ → List ℕ → ℕ → Result ZfsError (Unit {0}) × D → Result ZfsError ℕ × D
  after_payload generation payload count (err e, d) = (err e, d)
  after_payload generation payload count (ok u, d) =
      finished generation
        (dev.write_block d (target_of generation) (header size generation payload count))

  abbrev pub store_payload : ℕ → ℕ → D → Result ZfsError (List ℕ) → Result ZfsError ℕ × D
  store_payload generation count d (err e) = (err e, d)
  store_payload generation count d (ok payload) =
      if ltb ((bank_blocks - 1) * size) (length payload)
      then (err checkpoint_too_large, d)
      else after_payload generation payload count
          (write_payload ((length payload + size - 1) / size) (target_of generation + 1) payload d)

  unfoldable pub store : D → ℕ → Index Entry → ℕ → ℕ → Result ZfsError ℕ × D
  store d generation entries next_inode logical_time =
      store_payload (next_generation_of generation) (length entries) d
        (encode entries next_inode logical_time)

  abbrev pub joined : ℕ → ℕ → List ℕ → Result ZfsError (List ℕ) → Result ZfsError (List ℕ)
  joined n left block (ok rest) = ok (take (min n left) block ++ rest)
  joined n left block (err e) = err e

  abbrev pub gathered :
      ℕ → Result DeviceError (List ℕ) → Result ZfsError (List ℕ) → Result ZfsError (List ℕ)
  gathered left (err e) rest = err (device e)
  gathered left (ok block) rest = joined size left block rest

  -- `left` bytes are still to be read, from `lba` on, in at most so many rounds.
  unfoldable pub read_payload : D → ℕ → ℕ → ℕ → Result ZfsError (List ℕ)
  read_payload d lba zero left = ok (replicate left 0)
  read_payload d lba (suc rounds) left =
      let rest = read_payload d (suc lba) rounds (left - min size left) in
      if left == 0 then ok [] else gathered left (dev.read_block d lba) rest

  abbrev pub decoded : ℕ → Result ZfsError Checkpoint → Result ZfsError (Option MetadataState)
  decoded generation (err e) = err e
  decoded generation (ok (entries, next_inode, logical_time)) = ok (
      some (record {
        generation = generation;
        entries = entries;
        next_inode = next_inode;
        logical_time = logical_time;
      }))

  abbrev pub verified : ℕ → ℕ → Result ZfsError (List ℕ) → Result ZfsError (Option MetadataState)
  verified generation expected (err e) = err e
  verified generation expected (ok payload) =
      if not (crc32 payload == expected) then ok none else decoded generation (decode payload)

  abbrev pub from_header : D → ℕ → Option (ℕ × ℕ × ℕ) → Result ZfsError (Option MetadataState)
  from_header d start none = ok none
  from_header d start (some (generation, len, expected)) =
      if ltb ((bank_blocks - 1) * size) len
      then ok none
      else verified generation expected (read_payload d (start + 1) (bank_blocks - 1) len)

  abbrev pub from_block :
      D → ℕ → Result DeviceError (List ℕ) → Result ZfsError (Option MetadataState)
  from_block d start (ok block) = from_header d start (read_header block)
  from_block d start (err out_of_bounds) = ok none
  from_block d start (err e) = err (device e)

  unfoldable pub load_bank : D → ℕ → Result ZfsError (Option MetadataState)
  load_bank d start = from_block d start (dev.read_block d start)

  abbrev pub newer : Option MetadataState → Option MetadataState → Option MetadataState
  newer (some a) (some b) = some (if ltb a.generation b.generation then b else a)
  newer (some a) none = some a
  newer none b = b

  abbrev pub both :
      Result ZfsError (Option MetadataState)
      → Result ZfsError (Option MetadataState)
      → Result ZfsError (Option MetadataState)
  both (err e) b = err e
  both (ok a) (err e) = err e
  both (ok a) (ok b) = ok (newer a b)

  unfoldable pub load : D → Result ZfsError (Option MetadataState)
  load d = both (load_bank d bank_a) (load_bank d bank_b)
