-- ===== src/ZfsCore/Journal/Tests.antt =====
-- Runs of libs/zfs-core/src/journal.rs at concrete inputs.
use zero_os.Common.{◌≡◌, List, [], ◌∷◌, arith}
use zero_os.Common.Result.{ok}
use zero_os.ZfsCore.Journal.{JournalEntry, allocated, freed, new}
use zero_os.ZfsCore.Journal.Recent.{record_all, holding, record_all_lem}

abbrev history : List JournalEntry
history = allocated 7 ∷ freed 7 ∷ allocated 9 ∷ []

record_all_lem_example : record_all (new 2) history ≡ ok (holding 2 history)
record_all_lem_example = record_all_lem 2 history (omega arith)
