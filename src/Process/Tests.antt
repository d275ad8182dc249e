-- ===== src/Process/Tests.antt =====
-- Runs of microkernel/src/process.rs at concrete inputs.
use zero_os.Common.{◌≡◌, refl, false, [], ◌∷◌, some, none}
use zero_os.Common.Result.{ok}
use zero_os.Process.{ProcessRecord, Table, runnable, running}
use zero_os.Process.Blocking.{blocks_while_woken, ready, blocks_while_woken_lem}
use zero_os.Process.Jobs.{Job, IsJob, Fine, dispatches, intends, completes, wakes, run, run-Fine}
use zero_os.Common.{List, Option}
use zero_os.Process.{zombie}
use zero_os.Process.Wait.{
  ProcView, wait_scan, scan, collect_or, collect, first_dead, any_alive, decided, wait_scan-decided,
}

abbrev editor : ProcessRecord
editor = record {
  pid = 7;
  state = running;
  slot = 2;
  capabilities = 5;
  session = 3;
  block_intent = false;
  wake_pending = false;
  owner = some 1;
}

blocks_while_woken_lem_example : blocks_while_woken 0 2 1 1 editor ≡ ok (1, ready editor)
blocks_while_woken_lem_example = blocks_while_woken_lem 0 2 1 1 editor refl

-- The process waits in one run queue.
abbrev waiting : Job
waiting = record { process = record editor { state = runnable; owner = none }; queued = 1 }

waiting-IsJob : IsJob waiting
waiting-IsJob = record { once = refl; owned = refl; intent = refl; latch = refl }

run-Fine_example :
    Fine (run waiting (dispatches 0 ∷ intends 0 ∷ wakes ∷ completes 0 ∷ wakes ∷ dispatches 1 ∷ []))
run-Fine_example =
    run-Fine waiting (dispatches 0 ∷ intends 0 ∷ wakes ∷ completes 0 ∷ wakes ∷ dispatches 1 ∷ [])
      waiting-IsJob

abbrev table : Table
table = some editor ∷ none ∷ some (record editor { pid = 8; slot = 2 }) ∷ []

-- Process 7 has a live child before a dead one.
abbrev family : List (Option ProcView)
family =
    some (record { slot = 1; pid = 8; parent = some 7; state = running; exit_code = none })
    ∷ none
    ∷ some (record { slot = 3; pid = 9; parent = some 7; state = zombie; exit_code = some 42 })
    ∷ []

wait_scan-decided_example :
    wait_scan 7 0 family ≡ decided (first_dead 7 0 family) (any_alive 7 0 family)
wait_scan-decided_example = wait_scan-decided 7 0 family

zombie_first : wait_scan 7 0 family ≡ collect 3 9 42
unfolding wait_scan scan collect_or
zombie_first = refl
