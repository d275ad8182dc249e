-- ===== src/Scheduler.antt =====
-- microkernel/src/scheduler.rs: the queues of the scheduler. The atomics of a slot are entries of
-- lists; the switch of stacks and the interrupts are not modelled.
pub mod Sleep
pub mod Levels
mod Tests
use zero_os.Common.{
  ℕ, zero, suc, ◌+◌, ◌-◌, ◌*◌, ◌%◌, ◌^◌, Bool, true, false, not, ◌&&◌, min, List, [], ◌∷◌, Option,
  none, some, ◌==◌, ltb, leb, if◌then◌else◌, get_or, set, replicate, length,
}
use zero_os.Common.Result.{Result, ok, err, ◌>>=◌, ◌>>◌, guard}
use zero_os.Ipc.Queue.{ProcessId}
use zero_os.Process.{ProcessState, is_runnable}

abbrev pub mlfq_levels : ℕ
mlfq_levels = 4

abbrev pub slice_ticks : ℕ
slice_ticks = 4

abbrev pub boost_every_ticks : ℕ
boost_every_ticks = 200

abbrev pub sleep_queue_cap : ℕ
sleep_queue_cap = 128

-- `process::MAX_PROCESSES`
abbrev pub runqueue_capacity : ℕ
runqueue_capacity = 256

pub data Panic : Type 0 where
  runqueue_full sleep_queue_full : Panic

pub record SleepEntry : Type 0 where
  pub wake_at : ℕ
  pub start : ℕ
  pub pid : ProcessId

unfoldable pub slice_for_level : ℕ → ℕ
slice_for_level level = slice_ticks * 2 ^ min level (mlfq_levels - 1)

unfoldable pub next_level_after_slice : ℕ → ℕ
next_level_after_slice level = min (level + 1) (mlfq_levels - 1)

unfoldable pub next_level_after_yield : ℕ → ℕ
next_level_after_yield level = min (level + 1) (mlfq_levels - 1)

pub record RunQueue : Type 0 where
  pub buf : List (Option ProcessId)
  pub head : ℕ
  pub tail : ℕ
  pub len : ℕ

unfoldable pub new : RunQueue
new = record { buf = replicate runqueue_capacity none; head = 0; tail = 0; len = 0 }

unfoldable pub clear : RunQueue → RunQueue
clear q = record { buf = replicate (length q.buf) none; head = 0; tail = 0; len = 0 }

unfoldable pub push : RunQueue → ProcessId → Result Panic RunQueue
push q pid = do
  guard (ltb q.len runqueue_capacity) runqueue_full
  ok (record q {
    buf = set q.buf q.tail (some pid);
    tail = (q.tail + 1) % length q.buf;
    len = q.len + 1;
  })

unfoldable pub pop : RunQueue → Option ProcessId × RunQueue
pop q = if q.len == 0 then (none, q) else (
  get_or q.buf q.head none,
  record q { buf = set q.buf q.head none; head = (q.head + 1) % length q.buf; len = q.len - 1 },
)

-- `self.levels[level.min(MLFQ_LEVELS - 1)].push(pid)`, at a level of the list.
unfoldable pub push_in : List RunQueue → ProcessId → ℕ → Result Panic (List RunQueue)
push_in [] pid level = ok []
push_in (q ∷ qs) pid zero = do q' ← push q pid; ok (q' ∷ qs)
push_in (q ∷ qs) pid (suc level) = do qs' ← push_in qs pid level; ok (q ∷ qs')

unfoldable pub push_at : List RunQueue → ProcessId → ℕ → Result Panic (List RunQueue)
push_at levels pid level = push_in levels pid (min level (mlfq_levels - 1))

-- What one level gives ends the loop, or the loop goes on.
unfoldable pub pop_or_next :
    Option ProcessId
    → RunQueue
    → List RunQueue
    → Option ProcessId × List RunQueue
    → Option ProcessId × List RunQueue
pop_or_next none q qs rest = (rest.0, q ∷ rest.1)
pop_or_next (some pid) q qs rest = (some pid, q ∷ qs)

-- The loop over the levels, from the highest priority on.
unfoldable pub pop_level : List RunQueue → Option ProcessId × List RunQueue
pop_level [] = (none, [])
pop_level (q ∷ qs) = let r = pop q in pop_or_next r.0 r.1 qs (pop_level qs)

-- `q.insert(q.partition_point(|e| e.wake_at <= start + ticks), entry)`: behind all entries that are due
-- no later, in a queue that is sorted by `wake_at`.
unfoldable pub insert_entry : SleepEntry → List SleepEntry → List SleepEntry
insert_entry e [] = e ∷ []
insert_entry e (x ∷ xs) = if leb x.wake_at e.wake_at then x ∷ insert_entry e xs else e ∷ x ∷ xs

-- The part of `sleep_current` before it blocks.
unfoldable pub sleep : List SleepEntry → ProcessId → ℕ → ℕ → Result Panic (List SleepEntry)
sleep q pid start ticks = do
  guard (ltb (length q) sleep_queue_cap) sleep_queue_full
  ok (insert_entry (record { wake_at = start + ticks; start = start; pid = pid }) q)

-- The loop of `on_tick_consume` over the entries that are due, with the ticks that each one slept.
unfoldable pub expire : ℕ → List SleepEntry → List (ProcessId × ℕ) × List SleepEntry
expire now [] = ([], [])
expire now (x ∷ xs) =
    let rest = expire now xs in
    if leb x.wake_at now then ((x.pid, now - x.start) ∷ rest.0, rest.1) else ([], x ∷ xs)

-- So many rounds of the loop of `boost`.
unfoldable pub boost_slots : ℕ → List (Option ProcessState) → List ℕ → List ℕ
boost_slots zero states levels = levels
boost_slots (suc rounds) [] levels = levels
boost_slots (suc rounds) (s ∷ states) [] = []
boost_slots (suc rounds) (none ∷ states) (l ∷ levels) = l ∷ boost_slots rounds states levels
boost_slots (suc rounds) (some s ∷ states) (l ∷ levels) =
    (if is_runnable s then 0 else l) ∷ boost_slots rounds states levels

-- `for slot in 0..64`: the level of a runnable slot goes back to 0.
unfoldable pub boost : List (Option ProcessState) → List ℕ → List ℕ
boost states levels = boost_slots 64 states levels

-- The account of the running process at a tick: whether it is preempted, its ticks used and level.
unfoldable pub account : ℕ → ℕ → Bool × (ℕ × ℕ)
account used level =
    if leb (slice_for_level level) (used + 1)
    then (true, (0, next_level_after_slice level))
    else (false, (used + 1, level))
