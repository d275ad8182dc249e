-- ===== src/Process/Blocking.antt =====
-- The race between blocking and waking, for one process.
use zero_os.Common.{
  ℕ, zero, suc, ◌+◌, ◌≡◌, refl, inl, inr, Bool, true, false, not, ◌&&◌, none, some, ◌==◌, ==_refl,
  if◌then◌else◌, Bool-cases, arith,
}
use zero_os.Common.Result.{Result, ok, ◌>>=◌}
use zero_os.Process.{
  ProcessRecord, Panic, runnable, running, blocked, WakeTransition, enqueue, pending, ignore,
  BlockFinish, now_blocked, invalid_block, requeue, wake, wake_in, intend_block, complete_block,
}

-- How often a result puts the process into a run queue.
abbrev pub enqueues : WakeTransition → ℕ
enqueues (enqueue pid slot) = 1
enqueues pending = 0
enqueues ignore = 0

abbrev pub requeues : BlockFinish → ℕ
requeues now_blocked = 0
requeues invalid_block = 0
requeues (requeue pid) = 1

-- Wake-ups one after another, with the number of times that the process is put into a run queue.
unfoldable pub wakes : ℕ → ProcessRecord → Result Panic (ℕ × ProcessRecord)
wakes zero r = ok (0, r)
wakes (suc n) r = do w ← wake r; later ← wakes n w.1; ok (enqueues w.0 + later.0, later.1)

-- A process blocks in two phases while other processors wake it, at any of three places.
unfoldable pub blocks_while_woken : ℕ → ℕ → ℕ → ℕ → ProcessRecord → Result Panic (ℕ × ProcessRecord)
blocks_while_woken before between after cpu r = do
  a ← wakes before r
  b ← intend_block cpu a.1
  c ← wakes between b.1
  d ← complete_block cpu c.1
  e ← wakes after d.1
  ok (a.0 + c.0 + requeues d.0 + e.0, e.1)

-- The record of a process that runs, is ready or is blocked, with its latch.
abbrev runs : ProcessRecord → ℕ → Bool → Bool → ProcessRecord
runs r cpu intent latch = record r {
  state = running;
  owner = some cpu;
  block_intent = intent;
  wake_pending = latch;
}

abbrev pub ready : ProcessRecord → ProcessRecord
ready r = record r { state = runnable; owner = none; block_intent = false; wake_pending = false }

abbrev pub sleeps : ProcessRecord → ProcessRecord
sleeps r = record r { state = blocked; owner = none; block_intent = false; wake_pending = false }

wakes-latched :
    (n : ℕ) (r : ProcessRecord) (cpu : ℕ) (intent : Bool)
    → wakes n (runs r cpu intent true) ≡ ok (0, runs r cpu intent true)
unfolding wakes wake wake_in
wakes-latched zero r cpu intent = refl
wakes-latched (suc n) r cpu intent = rw (wakes-latched n r cpu intent) refl

wakes-running :
    (n : ℕ) (r : ProcessRecord) (cpu : ℕ) (intent latch : Bool)
    → wakes n (runs r cpu intent latch) ≡ ok (0, runs r cpu intent (if n == 0 then latch else true))
unfolding wakes wake wake_in
wakes-running zero r cpu intent latch = refl
wakes-running (suc n) r cpu intent latch =
    let some' : (suc n == 0) ≡ false = ground arith in rw (wakes-latched n r cpu intent, some') refl

wakes-ready : (n : ℕ) (r : ProcessRecord) → wakes n (ready r) ≡ ok (0, ready r)
unfolding wakes wake wake_in
wakes-ready zero r = refl
wakes-ready (suc n) r = rw (wakes-ready n r) refl

wakes-asleep :
    (n : ℕ) (r : ProcessRecord)
    → wakes n (sleeps r) ≡ (if n == 0 then ok (0, sleeps r) else ok (1, ready r))
unfolding wakes wake wake_in
wakes-asleep zero r = refl
wakes-asleep (suc n) r =
    let some' : (suc n == 0) ≡ false = ground arith in rw (some', wakes-ready n r) refl

completes :
    (r : ProcessRecord) (cpu : ℕ) (latch : Bool)
    → complete_block cpu (runs r cpu true latch)
      ≡ (if latch then ok (requeue r.pid, ready r) else ok (now_blocked, sleeps r))
unfolding complete_block
completes r cpu true = rw (==_refl cpu) refl
completes r cpu false = rw (==_refl cpu) refl

intends :
    (r : ProcessRecord) (cpu : ℕ) (latch : Bool)
    → intend_block cpu (runs r cpu false latch) ≡ ok (true, runs r cpu true latch)
unfolding intend_block
intends r cpu latch = rw (==_refl cpu) refl

finishing :
    (r : ProcessRecord) (cpu after : ℕ) (latch : Bool)
    → ◌>>=◌ {B = ℕ × ProcessRecord} (complete_block cpu (runs r cpu true latch)) (λ d.
      ◌>>=◌ {B = ℕ × ProcessRecord} (wakes after d.1) (λ e. ok (0 + 0 + requeues d.0 + e.0, e.1)))
      ≡ ok (if not latch && after == 0 then (0, sleeps r) else (1, ready r))
finishing r cpu after true = rw (completes r cpu true, wakes-ready after r) refl
finishing r cpu after false = elim (Bool-cases (after == 0)) [
  | inl nobody ↦ rw (completes r cpu false, wakes-asleep after r, nobody) refl
  | inr somebody ↦ rw (completes r cpu false, wakes-asleep after r, somebody) refl
]

-- A running process without a latched wake-up blocks on the processor that owns it. However many
-- wake-ups arrive before, between and after the two phases of the block: without any the process ends up blocked and in no run queue, and otherwise runnable and put into a run queue
-- exactly once. No assertion fails.
pub blocks_while_woken_lem :
    (before between after cpu : ℕ) (r : ProcessRecord)
    → r ≡ runs r cpu false false
    → blocks_while_woken before between after cpu r
      ≡ ok (if before + between + after == 0 then (0, sleeps r) else (1, ready r))
unfolding blocks_while_woken
blocks_while_woken_lem before between after cpu r e =
    let latch : Bool = if between == 0 then (if before == 0 then false else true) else true in
    let any' : (not latch && after == 0) ≡ (before + between + after == 0) = ground arith in
    rw
      (
        e,
        wakes-running before r cpu false false,
        intends r cpu (if before == 0 then false else true),
        wakes-running between r cpu true (if before == 0 then false else true),
        ← any',
      )
      (finishing r cpu after latch)
