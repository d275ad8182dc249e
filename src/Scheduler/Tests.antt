-- ===== src/Scheduler/Tests.antt =====
-- Runs of microkernel/src/scheduler.rs at concrete inputs.
use zero_os.Common.{
  ℕ, ◌≡◌, refl, ◌&&◌, ltb, List, [], ◌∷◌, Option, some, none, get_or, if◌then◌else◌,
  length-replicate, arith,
}
use zero_os.Common.Result.{ok}
use zero_os.Process.{ProcessState, runnable, running}
use zero_os.Scheduler.{SleepEntry, new, pop_level, insert_entry, sleep, expire, boost}
use zero_os.Scheduler.Sleep.{SortedFrom, Expires, expire-Expires}
use zero_os.Scheduler.Levels.{IsRing, Pops, pop_level-Pops, slot_runnable, get_or-boost}

abbrev sleepers : List SleepEntry
sleepers =
    record { wake_at = 10; start = 4; pid = 7 } ∷ record { wake_at = 20; start = 5; pid = 8 } ∷ []

sleepers-SortedFrom : SortedFrom 0 sleepers
sleepers-SortedFrom = (omega arith, (omega arith, tt))

abbrev with_9 : List SleepEntry
with_9 =
    record { wake_at = 10; start = 4; pid = 7 }
    ∷ record { wake_at = 10; start = 6; pid = 9 }
    ∷ record { wake_at = 20; start = 5; pid = 8 }
    ∷ []

asleep : sleep sleepers 9 6 4 ≡ ok with_9
unfolding sleep insert_entry
asleep = refl

expire-Expires_example : Expires 12 0 with_9 (expire 12 with_9)
expire-Expires_example = expire-Expires 12 0 with_9 (omega arith, (omega arith, (omega arith, tt)))

new-IsRing : IsRing new
unfolding new
new-IsRing = record {
  sized = length-replicate {A = Option ℕ} 256 none;
  in_ring = omega arith;
  tail_at = refl;
  fits = omega arith;
  filled = λ k h. absurd (omega arith);
}

pop_level-Pops_example : Pops (new ∷ new ∷ []) (pop_level (new ∷ new ∷ []))
pop_level-Pops_example = pop_level-Pops (new ∷ new ∷ []) (new-IsRing, (new-IsRing, tt))

abbrev states : List (Option ProcessState)
states = some running ∷ none ∷ some runnable ∷ []

get_or-boost_example :
    get_or (boost states (3 ∷ 2 ∷ 1 ∷ [])) 2 0
    ≡ (if ltb 2 64 && slot_runnable (get_or states 2 none) then 0 else get_or (3 ∷ 2 ∷ 1 ∷ []) 2 0)
get_or-boost_example = get_or-boost 2 states (3 ∷ 2 ∷ 1 ∷ [])
