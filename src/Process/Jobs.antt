-- ===== src/Process/Jobs.antt =====
-- The hand-over of one process between the processors: it is in a run queue exactly while it is
-- runnable, and owned exactly while it runs.
use zero_os.Common.{
  ℕ, ◌+◌, ◌-◌, ◌≡◌, refl, inl, inr, Bool, true, false, not, ◌&&◌, List, [], ◌∷◌, Option, none, some,
  ◌==◌, if◌then◌else◌, Bool-cases, arith,
}
use zero_os.Common.Result.{Result, ok, err, ◌>>=◌}
use zero_os.Process.{
  ProcessRecord, ProcessState, runnable, running, blocked, dying, zombie, Panic, owner_mismatch,
  is_runnable, is_running, unowned, claim, yield_cpu, wake, wake_in, intend_block, complete_block,
}
use zero_os.Process.Blocking.{enqueues, requeues}

-- A process with the number of its entries in the run queues.
pub record Job : Type 0 where
  pub process : ProcessRecord
  pub queued : ℕ

pub data Event : Type 0 where
  dispatches yields intends completes : (cpu : ℕ) → Event
  wakes : Event

-- A dispatcher takes an entry out of its queue and claims the process.
abbrev pub claims : ℕ → Job → Result Panic Job
claims cpu j = do r ← claim cpu j.process; ok (record { process = r.1; queued = j.queued - 1 })

-- A process that yields is put into a run queue.
abbrev pub given : Option ℕ → ℕ
given none = 0
given (some pid) = 1

unfoldable pub step : Job → Event → Result Panic Job
step j (dispatches cpu) = if j.queued == 0 then ok j else claims cpu j
step j (yields cpu) = do
  r ← yield_cpu cpu j.process
  ok (record { process = r.1; queued = j.queued + given r.0 })
step j (intends cpu) = do
  r ← intend_block cpu j.process
  ok (record { process = r.1; queued = j.queued })
step j (completes cpu) = do
  r ← complete_block cpu j.process
  ok (record { process = r.1; queued = j.queued + requeues r.0 })
step j wakes = do
  r ← wake j.process
  ok (record { process = r.1; queued = j.queued + enqueues r.0 })

unfoldable pub run : Job → List Event → Result Panic Job
run j [] = ok j
run j (e ∷ es) = do k ← step j e; run k es

pub record IsJob (j : Job) : Type 0 where
  pub once : j.queued ≡ (if is_runnable j.process.state then 1 else 0)
  pub owned : unowned j.process.owner ≡ not (is_running j.process.state)
  pub intent : (j.process.block_intent && not (is_running j.process.state)) ≡ false
  pub latch : (j.process.wake_pending && not (is_running j.process.state)) ≡ false

-- What one event does to a good job: it stays good, or the event was one of the running process's
-- own, raised by a processor that does not own it.
pub data Fine : Result Panic Job → Type 0 where
  good : (j : Job) → IsJob j → Fine (ok j)
  foreign : Fine (err owner_mismatch)

abbrev job : (pid slot caps session q : ℕ) → ProcessState → (b w : Bool) → Option ℕ → Job
job pid slot caps session q s b w o = record {
  process = record {
    pid = pid;
    state = s;
    slot = slot;
    capabilities = caps;
    session = session;
    block_intent = b;
    wake_pending = w;
    owner = o;
  };
  queued = q;
}

dispatch-Fine :
    (cpu pid slot caps session q : ℕ) (s : ProcessState) (b w : Bool) (o : Option ℕ)
    → q ≡ (if is_runnable s then 1 else 0)
    → unowned o ≡ not (is_running s)
    → (b && not (is_running s)) ≡ false
    → (w && not (is_running s)) ≡ false
    → Fine (step (job pid slot caps session q s b w o) (dispatches cpu))
unfolding step claim
dispatch-Fine cpu pid slot caps session q runnable b w none h₁ h₂ h₃ h₄ =
    rw h₁ (good _ (record { once = refl; owned = refl; intent = refl; latch = refl }))
dispatch-Fine cpu pid slot caps session q runnable b w (some c) h₁ h₂ h₃ h₄ = absurd (cc)
dispatch-Fine cpu pid slot caps session q running b w o h₁ h₂ h₃ h₄ =
    rw h₁ (good _ (record { once = refl; owned = h₂; intent = h₃; latch = h₄ }))
dispatch-Fine cpu pid slot caps session q blocked b w o h₁ h₂ h₃ h₄ =
    rw h₁ (good _ (record { once = refl; owned = h₂; intent = h₃; latch = h₄ }))
dispatch-Fine cpu pid slot caps session q dying b w o h₁ h₂ h₃ h₄ =
    rw h₁ (good _ (record { once = refl; owned = h₂; intent = h₃; latch = h₄ }))
dispatch-Fine cpu pid slot caps session q zombie b w o h₁ h₂ h₃ h₄ =
    rw h₁ (good _ (record { once = refl; owned = h₂; intent = h₃; latch = h₄ }))

yield-Fine :
    (cpu pid slot caps session q : ℕ) (s : ProcessState) (b w : Bool) (o : Option ℕ)
    → q ≡ (if is_runnable s then 1 else 0)
    → unowned o ≡ not (is_running s)
    → (b && not (is_running s)) ≡ false
    → (w && not (is_running s)) ≡ false
    → Fine (step (job pid slot caps session q s b w o) (yields cpu))
unfolding step yield_cpu
yield-Fine cpu pid slot caps session q running b w none h₁ h₂ h₃ h₄ = absurd (cc)
yield-Fine cpu pid slot caps session q running b w (some c) h₁ h₂ h₃ h₄ =
    elim (Bool-cases (c == cpu)) [
      | inl mine ↦
          rw mine (
            good _ (record { once = omega (arith, h₁); owned = refl; intent = refl; latch = refl }))
      | inr other ↦ rw other foreign
    ]
yield-Fine cpu pid slot caps session q runnable b w o h₁ h₂ h₃ h₄ =
    good _ (record { once = omega (arith, h₁); owned = h₂; intent = h₃; latch = h₄ })
yield-Fine cpu pid slot caps session q blocked b w o h₁ h₂ h₃ h₄ =
    good _ (record { once = omega (arith, h₁); owned = h₂; intent = h₃; latch = h₄ })
yield-Fine cpu pid slot caps session q dying b w o h₁ h₂ h₃ h₄ =
    good _ (record { once = omega (arith, h₁); owned = h₂; intent = h₃; latch = h₄ })
yield-Fine cpu pid slot caps session q zombie b w o h₁ h₂ h₃ h₄ =
    good _ (record { once = omega (arith, h₁); owned = h₂; intent = h₃; latch = h₄ })

intend-Fine :
    (cpu pid slot caps session q : ℕ) (s : ProcessState) (b w : Bool) (o : Option ℕ)
    → q ≡ (if is_runnable s then 1 else 0)
    → unowned o ≡ not (is_running s)
    → (b && not (is_running s)) ≡ false
    → (w && not (is_running s)) ≡ false
    → Fine (step (job pid slot caps session q s b w o) (intends cpu))
unfolding step intend_block
intend-Fine cpu pid slot caps session q running b w none h₁ h₂ h₃ h₄ = absurd (cc)
intend-Fine cpu pid slot caps session q running b w (some c) h₁ h₂ h₃ h₄ =
    elim (Bool-cases (c == cpu)) [
      | inl mine ↦ rw mine (good _ (record { once = h₁; owned = refl; intent = refl; latch = h₄ }))
      | inr other ↦ rw other foreign
    ]
intend-Fine cpu pid slot caps session q runnable b w o h₁ h₂ h₃ h₄ =
    good _ (record { once = h₁; owned = h₂; intent = h₃; latch = h₄ })
intend-Fine cpu pid slot caps session q blocked b w o h₁ h₂ h₃ h₄ =
    good _ (record { once = h₁; owned = h₂; intent = h₃; latch = h₄ })
intend-Fine cpu pid slot caps session q dying b w o h₁ h₂ h₃ h₄ =
    good _ (record { once = h₁; owned = h₂; intent = h₃; latch = h₄ })
intend-Fine cpu pid slot caps session q zombie b w o h₁ h₂ h₃ h₄ =
    good _ (record { once = h₁; owned = h₂; intent = h₃; latch = h₄ })

complete-Fine :
    (cpu pid slot caps session q : ℕ) (s : ProcessState) (b w : Bool) (o : Option ℕ)
    → q ≡ (if is_runnable s then 1 else 0)
    → unowned o ≡ not (is_running s)
    → (b && not (is_running s)) ≡ false
    → (w && not (is_running s)) ≡ false
    → Fine (step (job pid slot caps session q s b w o) (completes cpu))
unfolding step complete_block
complete-Fine cpu pid slot caps session q running true w none h₁ h₂ h₃ h₄ = absurd (cc)
complete-Fine cpu pid slot caps session q running true true (some c) h₁ h₂ h₃ h₄ =
    elim (Bool-cases (c == cpu)) [
      | inl mine ↦
          rw mine (
            good _ (record { once = omega (arith, h₁); owned = refl; intent = refl; latch = refl }))
      | inr other ↦ rw other foreign
    ]
complete-Fine cpu pid slot caps session q running true false (some c) h₁ h₂ h₃ h₄ =
    elim (Bool-cases (c == cpu)) [
      | inl mine ↦
          rw mine (
            good _ (record { once = omega (arith, h₁); owned = refl; intent = refl; latch = refl }))
      | inr other ↦ rw other foreign
    ]
complete-Fine cpu pid slot caps session q running false w o h₁ h₂ h₃ h₄ =
    good _ (record { once = omega (arith, h₁); owned = h₂; intent = h₃; latch = h₄ })
complete-Fine cpu pid slot caps session q runnable b w o h₁ h₂ h₃ h₄ =
    good _ (record { once = omega (arith, h₁); owned = h₂; intent = h₃; latch = h₄ })
complete-Fine cpu pid slot caps session q blocked b w o h₁ h₂ h₃ h₄ =
    good _ (record { once = omega (arith, h₁); owned = h₂; intent = h₃; latch = h₄ })
complete-Fine cpu pid slot caps session q dying b w o h₁ h₂ h₃ h₄ =
    good _ (record { once = omega (arith, h₁); owned = h₂; intent = h₃; latch = h₄ })
complete-Fine cpu pid slot caps session q zombie b w o h₁ h₂ h₃ h₄ =
    good _ (record { once = omega (arith, h₁); owned = h₂; intent = h₃; latch = h₄ })

wake-Fine :
    (pid slot caps session q : ℕ) (s : ProcessState) (b w : Bool) (o : Option ℕ)
    → q ≡ (if is_runnable s then 1 else 0)
    → unowned o ≡ not (is_running s)
    → (b && not (is_running s)) ≡ false
    → (w && not (is_running s)) ≡ false
    → Fine (step (job pid slot caps session q s b w o) wakes)
unfolding step wake wake_in
wake-Fine pid slot caps session q blocked b w none h₁ h₂ h₃ h₄ =
    good _ (record { once = omega (arith, h₁); owned = refl; intent = refl; latch = refl })
wake-Fine pid slot caps session q blocked b w (some c) h₁ h₂ h₃ h₄ = absurd (cc)
wake-Fine pid slot caps session q running b w o h₁ h₂ h₃ h₄ =
    good _ (record { once = omega (arith, h₁); owned = h₂; intent = h₃; latch = refl })
wake-Fine pid slot caps session q runnable b w o h₁ h₂ h₃ h₄ =
    good _ (record { once = omega (arith, h₁); owned = h₂; intent = h₃; latch = h₄ })
wake-Fine pid slot caps session q dying b w o h₁ h₂ h₃ h₄ =
    good _ (record { once = omega (arith, h₁); owned = h₂; intent = h₃; latch = h₄ })
wake-Fine pid slot caps session q zombie b w o h₁ h₂ h₃ h₄ =
    good _ (record { once = omega (arith, h₁); owned = h₂; intent = h₃; latch = h₄ })

step-Fine : (j : Job) (e : Event) → IsJob j → Fine (step j e)
step-Fine j (dispatches cpu) v =
    dispatch-Fine cpu j.process.pid j.process.slot j.process.capabilities j.process.session j.queued
      j.process.state j.process.block_intent j.process.wake_pending j.process.owner v.once v.owned
      v.intent v.latch
step-Fine j (yields cpu) v =
    yield-Fine cpu j.process.pid j.process.slot j.process.capabilities j.process.session j.queued
      j.process.state j.process.block_intent j.process.wake_pending j.process.owner v.once v.owned
      v.intent v.latch
step-Fine j (intends cpu) v =
    intend-Fine cpu j.process.pid j.process.slot j.process.capabilities j.process.session j.queued
      j.process.state j.process.block_intent j.process.wake_pending j.process.owner v.once v.owned
      v.intent v.latch
step-Fine j (completes cpu) v =
    complete-Fine cpu j.process.pid j.process.slot j.process.capabilities j.process.session j.queued
      j.process.state j.process.block_intent j.process.wake_pending j.process.owner v.once v.owned
      v.intent v.latch
step-Fine j wakes v =
    wake-Fine j.process.pid j.process.slot j.process.capabilities j.process.session j.queued
      j.process.state j.process.block_intent j.process.wake_pending j.process.owner v.once v.owned
      v.intent v.latch

bind-Fine :
    (r : Result Panic Job) (f : Job → Result Panic Job)
    → Fine r
    → ((k : Job) → IsJob k → Fine (f k))
    → Fine (r >>= f)
bind-Fine r f (good k w) next = next k w
bind-Fine r f foreign next = foreign

-- However a process is dispatched, yields, blocks in two phases and is woken, in any order and by any
-- processors: it stands in the run queues exactly once while it is runnable and not at all otherwise, it is owned exactly while it runs, and the only
-- assertion that can fail is the one that stops a processor that does not own the process.
pub run-Fine : (j : Job) (es : List Event) → IsJob j → Fine (run j es)
unfolding run
run-Fine j [] v = good j v
run-Fine j (e ∷ es) v =
    bind-Fine (step j e) (λ k. run k es) (step-Fine j e v) (λ k w. run-Fine k es w)
