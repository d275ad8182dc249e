-- ===== src/ZfsCore/Journal.antt =====
-- libs/zfs-core/src/journal.rs: the journal keeps the last entries (`Journal`). A string is the list
-- of its bytes.
pub mod Recent
mod Tests
use zero_os.Common.{
  ℕ, ◌+◌, ◌%◌, ◌^◌, Bool, List, [], ◌∷◌, ◌++◌, Option, none, some, ◌==◌, if◌then◌else◌, length,
}
use zero_os.Common.Result.{Result, ok, err, ◌>>=◌}

pub data JournalEntry : Type 0 where
  allocated freed : (block : ℕ) → JournalEntry
  written : (path blocks : List ℕ) (size : ℕ) (checksum : List ℕ) → JournalEntry
  snapshotted : (id : ℕ) (label : List ℕ) → JournalEntry

pub record Journal : Type 0 where
  pub entries : List JournalEntry
  pub capacity : ℕ
  pub sequence : ℕ

-- `Vec::remove(0)` panics on an empty vector.
pub data Panic : Type 0 where
  removed_from_empty : Panic

unfoldable pub new : ℕ → Journal
new capacity = record { entries = []; capacity = capacity; sequence = 0 }

unfoldable pub remove_first : List JournalEntry → Result Panic (List JournalEntry)
remove_first [] = err removed_from_empty
remove_first (e ∷ es) = ok es

-- `record` of the code.
unfoldable pub record_entry : Journal → JournalEntry → Result Panic Journal
record_entry j entry = do
  kept ← (if length j.entries == j.capacity then remove_first j.entries else ok j.entries)
  ok (record j { entries = kept ++ entry ∷ []; sequence = (j.sequence + 1) % 2 ^ 64 })

pub clear : Journal → Journal
clear j = record j { entries = [] }
