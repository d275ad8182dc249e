-- ===== src/ZfsCore/Metadata/Loaded.antt =====
-- A commit that succeeds is what the next mount loads.
use zero_os.Common.{ℕ, ◌≡◌, max, List}
use zero_os.Common.Result.{Result, ok}
use zero_os.ZfsCore.Bytes.{ZfsError}
use zero_os.ZfsCore.Directory.{Index}
use zero_os.ZfsCore.Metadata.{Entry}
use zero_os.ZfsCore.Metadata.Banks.{
  BlockDevice, MetadataState, header, target_of, size, after_payload,
}
use zero_os.ZfsCore.Metadata.Commit.{IsDevice}

-- The state that a commit writes.
abbrev pub state_of : ℕ → Index Entry → ℕ → ℕ → MetadataState
state_of generation m next time = record {
  generation = generation;
  entries = m;
  next_inode = max next 2;
  logical_time = max time 1;
}

module _ {D : Type 0} (dev : BlockDevice D) (v : IsDevice dev) where
  -- A write of the header that succeeded came after a payload that was written whole.
  record Committed (generation count : ℕ) (payload : List ℕ) (out : Result ZfsError (Unit {0}) × D)
      (got : ℕ) : Type 0 where
    payload_done : (u : Unit {0}) × (out.0 ≡ ok u)
    header_done :
        (u : Unit {0}) × ((dev.write_block out.1
            (target_of generation)
            (header (size dev) generation payload count)).0
          ≡ ok u)
    answer : got ≡ generation
    final :
        (after_payload dev generation payload count out).1
        ≡ (dev.write_block out.1
            (target_of generation)
            (header (size dev) generation payload count)).1
