-- ===== src/Scheduler/Levels.antt =====
-- The run queues: each level is first in, first out, and a higher level goes first.
use zero_os.Common.{
  ℕ, zero, suc, ◌+◌, ◌-◌, ◌%◌, ◌≤◌, ◌<◌, ◌≡◌, refl, ◌∙◌, inl, inr, Bool, true, false, ◌&&◌, List,
  [], ◌∷◌, ◌++◌, Option, none, some, ◌==◌, ltb, if◌then◌else◌, length, get_or, set, length-set,
  get_or-set_self, get_or-set_ne, All, Bool-cases, arith,
}
use zero_os.Common.Result.{ok}
use zero_os.Ipc.Queue.{ProcessId}
use zero_os.Process.{ProcessState, is_runnable}
use zero_os.Scheduler.{RunQueue, push, pop, pop_or_next, pop_level, boost_slots, boost}

-- The process at place k of a queue, counted from the one that is next.
abbrev pub entry : RunQueue → ℕ → Option ProcessId
entry q k = get_or q.buf ((q.head + k) % 256) none

pub record IsRing (q : RunQueue) : Type 0 where
  pub sized : length q.buf ≡ 256
  pub in_ring : q.head < 256
  pub tail_at : q.tail ≡ (q.head + q.len) % 256
  pub fits : q.len ≤ 256
  pub filled : (k : ℕ) → k < q.len → (pid : ProcessId) × (entry q k ≡ some pid)

-- What an entry of one more process does to a queue.
pub record Pushed (q r : RunQueue) (pid : ProcessId) : Type 0 where
  pub ring : IsRing r
  pub longer : r.len ≡ suc q.len
  pub last : entry r q.len ≡ some pid
  pub kept : (k : ℕ) → k < q.len → entry r k ≡ entry q k

-- A push onto a queue with room puts the process behind all others.
pub push-Pushed :
    (q : RunQueue) (pid : ProcessId)
    → IsRing q
    → q.len < 256
    → (r : RunQueue) × (push q pid ≡ ok r) × Pushed q r pid
unfolding push
push-Pushed q pid v h =
    let room : ltb q.len 256 ≡ true = ground arith in
    let at : q.tail ≡ (q.head + q.len) % 256 = v.tail_at in
    let sized : length q.buf ≡ 256 = v.sized in
    let r : RunQueue = record q {
      buf = set q.buf q.tail (some pid);
      tail = (q.tail + 1) % length q.buf;
      len = q.len + 1;
    } in
    let last' : entry r q.len ≡ some pid =
      rw at (get_or-set_self q.buf ((q.head + q.len) % 256) (some pid) none (omega arith)) in
    let kept' : (k : ℕ) → k < q.len → entry r k ≡ entry q k = λ k l.
      get_or-set_ne q.buf q.tail ((q.head + k) % 256) (some pid) none (λ e. absurd (omega arith)) in
    (
      r,
      rw room refl,
      record {
        ring = record {
          sized = length-set q.buf q.tail (some pid) ∙ sized;
          in_ring = v.in_ring;
          tail_at = rw sized (omega arith);
          fits = omega arith;
          filled = λ k l. elim (Bool-cases (k == q.len)) [
            | inl new ↦ let e : k ≡ q.len = ground arith in rw e (pid, last')
            | inr old ↦
                let (p, there) = v.filled k (ground arith) in (p, kept' k (ground arith) ∙ there)
          ];
        };
        longer = omega arith;
        last = last';
        kept = kept';
      },
    )

-- What taking a process out of a queue does to it.
pub record Popped (q r : RunQueue) (pid : ProcessId) : Type 0 where
  pub ring : IsRing r
  pub shorter : q.len ≡ suc r.len
  pub front : entry q 0 ≡ some pid
  pub moved : (k : ℕ) → k < r.len → entry r k ≡ entry q (suc k)

pop-Popped :
    (q : RunQueue)
    → IsRing q
    → (q.len == 0) ≡ false
    → (pid : ProcessId) × (r : RunQueue) × (pop q ≡ (some pid, r)) × Popped q r pid
unfolding pop
pop-Popped q v some' =
    let (pid, front') = v.filled 0 (ground arith) in
    let positive : 0 < q.len = ground arith in
    let sized : length q.buf ≡ 256 = v.sized in
    let inside : q.head < 256 = v.in_ring in
    let at : q.tail ≡ (q.head + q.len) % 256 = v.tail_at in
    let fits : q.len ≤ 256 = v.fits in
    let first : (q.head + 0) % 256 ≡ q.head = omega arith in
    let here : get_or q.buf q.head none ≡ some pid = rw first at front' in
    let r : RunQueue = record q {
      buf = set q.buf q.head none;
      head = (q.head + 1) % length q.buf;
      len = q.len - 1;
    } in
    let moved' : (k : ℕ) → k < q.len - 1 → entry r k ≡ entry q (suc k) = λ k l.
      let place : ((q.head + 1) % 256 + k) % 256 ≡ (q.head + suc k) % 256 = omega arith in
      rw (sized, place)
        (get_or-set_ne q.buf q.head ((q.head + suc k) % 256) none none
          (λ e. absurd (omega arith))) in
    (
      pid,
      r,
      rw (some', here) refl,
      record {
        ring = record {
          sized = length-set q.buf q.head none ∙ sized;
          in_ring = rw sized (omega arith);
          tail_at = rw sized (omega arith);
          fits = omega arith;
          filled =
              λ k l. let (p, there) = v.filled (suc k) (omega arith) in (p, moved' k l ∙ there);
        };
        shorter = ground arith;
        front = front';
        moved = moved';
      },
    )

-- The outcome of a pop of all levels: every level is empty, or the level after some empty ones gives
-- its front.
pub data Pops : List RunQueue → Option ProcessId × List RunQueue → Type 0 where
  idle : (qs : List RunQueue) → All (λ (q : RunQueue). q.len ≡ 0) qs → Pops qs (none, qs)
  taken :
      (higher lower : List RunQueue) (q r : RunQueue) (pid : ProcessId)
      → All (λ (q : RunQueue). q.len ≡ 0) higher
      → Popped q r pid
      → Pops (higher ++ q ∷ lower) (some pid, higher ++ r ∷ lower)

below_empty :
    (q : RunQueue) (qs : List RunQueue) (r : Option ProcessId × List RunQueue)
    → q.len ≡ 0
    → Pops qs r
    → Pops (q ∷ qs) (r.0, q ∷ r.1)
below_empty q qs r e (idle rest all) = idle (q ∷ rest) (e, all)
below_empty q qs r e (taken higher lower p s pid all popped) =
    taken (q ∷ higher) lower p s pid (e, all) popped

pop_empty : (q : RunQueue) → (q.len == 0) ≡ true → pop q ≡ (none, q)
unfolding pop
pop_empty q e = rw e refl

-- The scheduler takes the process that waits longest on the highest level that is not empty, and
-- finds nothing only if every level is empty.
pub pop_level-Pops : (qs : List RunQueue) → All IsRing qs → Pops qs (pop_level qs)
unfolding pop_level pop_or_next
pop_level-Pops [] v = idle [] tt
pop_level-Pops (q ∷ qs) v = elim (Bool-cases (q.len == 0)) [
  | inl nil ↦
      rw (pop_empty q nil) (below_empty q qs (pop_level qs) (ground arith) (pop_level-Pops qs v.1))
  | inr some' ↦
      let (pid, r, popped, p) = pop-Popped q v.0 some' in rw popped (taken [] qs q r pid tt p)
]

-- The state of a slot, if it has a process, is runnable.
abbrev pub slot_runnable : Option ProcessState → Bool
slot_runnable none = false
slot_runnable (some s) = is_runnable s

get_or-boost_slots :
    (n i : ℕ) (states : List (Option ProcessState)) (levels : List ℕ)
    → get_or (boost_slots n states levels) i 0
      ≡ (if ltb i n && slot_runnable (get_or states i none) then 0 else get_or levels i 0)
unfolding boost_slots
get_or-boost_slots zero i states levels = ground arith
get_or-boost_slots (suc n) i [] levels = ground arith
get_or-boost_slots (suc n) i (s ∷ states) [] = ground arith
get_or-boost_slots (suc n) zero (none ∷ states) (l ∷ levels) = ground arith
get_or-boost_slots (suc n) (suc i) (none ∷ states) (l ∷ levels) =
    ground (arith, get_or-boost_slots n i states levels)
get_or-boost_slots (suc n) zero (some s ∷ states) (l ∷ levels) = ground arith
get_or-boost_slots (suc n) (suc i) (some s ∷ states) (l ∷ levels) =
    ground (arith, get_or-boost_slots n i states levels)

-- A boost puts the runnable processes of the slots 0 to 63 on the highest level. The other slots keep
-- their level, also those from 64 on that have a runnable process.
pub get_or-boost :
    (i : ℕ) (states : List (Option ProcessState)) (levels : List ℕ)
    → get_or (boost states levels) i 0
      ≡ (if ltb i 64 && slot_runnable (get_or states i none) then 0 else get_or levels i 0)
unfolding boost
get_or-boost i states levels = get_or-boost_slots 64 i states levels
