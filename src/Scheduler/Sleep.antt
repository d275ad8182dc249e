-- ===== src/Scheduler/Sleep.antt =====
-- The sleepers are woken in the order of their deadlines, none early and none late.
use zero_os.Common.{
  ℕ, ◌+◌, ◌-◌, ◌≤◌, ◌<◌, ◌≡◌, refl, ap, inl, inr, List, [], ◌∷◌, ◌++◌, map, ◌==◌, ltb, leb,
  if◌then◌else◌, length, All, Bool-cases, arith,
}
use zero_os.Common.Result.{ok, guard, >>=-eq-ok}
use zero_os.Ipc.Queue.{ProcessId}
use zero_os.Scheduler.{SleepEntry, sleep_queue_full, insert_entry, sleep, expire}

-- No entry is due before `lo`, and each is due no later than the next.
abbrev pub SortedFrom : ℕ → List SleepEntry → Type 0
SortedFrom lo [] = Unit
SortedFrom lo (x ∷ xs) = (lo ≤ x.wake_at) × SortedFrom x.wake_at xs

insert_entry-SortedFrom :
    (lo : ℕ) (e : SleepEntry) (q : List SleepEntry)
    → lo ≤ e.wake_at
    → SortedFrom lo q
    → SortedFrom lo (insert_entry e q)
unfolding insert_entry
insert_entry-SortedFrom lo e [] h s = (h, tt)
insert_entry-SortedFrom lo e (x ∷ xs) h s = elim (Bool-cases (leb x.wake_at e.wake_at)) [
  | inl before ↦ rw before (s.0, insert_entry-SortedFrom x.wake_at e xs (ground arith) s.1)
  | inr after ↦ rw after (h, (ground arith, s.1))
]

-- How many sleepers of a process are in the queue.
abbrev pub sleeps_of : ProcessId → List SleepEntry → ℕ
sleeps_of pid [] = 0
sleeps_of pid (x ∷ xs) = (if x.pid == pid then 1 else 0) + sleeps_of pid xs

insert_entry-sleeps_of :
    (pid : ProcessId) (e : SleepEntry) (q : List SleepEntry)
    → sleeps_of pid (insert_entry e q) ≡ (if e.pid == pid then 1 else 0) + sleeps_of pid q
unfolding insert_entry
insert_entry-sleeps_of pid e [] = refl
insert_entry-sleeps_of pid e (x ∷ xs) = elim (Bool-cases (leb x.wake_at e.wake_at)) [
  | inl before ↦ rw before (omega (arith, insert_entry-sleeps_of pid e xs))
  | inr after ↦ rw after refl
]

-- Falling asleep, in a sorted queue with room, keeps the queue sorted by deadline, adds one sleeper
-- and loses none.
pub sleep-SortedFrom :
    (q r : List SleepEntry) (pid other : ProcessId) (start ticks : ℕ)
    → SortedFrom 0 q
    → sleep q pid start ticks ≡ ok r
    → SortedFrom 0 r × (sleeps_of other r ≡ (if pid == other then 1 else 0) + sleeps_of other q)
unfolding sleep
sleep-SortedFrom q r pid other start ticks s e =
    let entry : SleepEntry = record { wake_at = start + ticks; start = start; pid = pid } in
    let (u, room, e₁) = >>=-eq-ok (guard (ltb (length q) 128) sleep_queue_full) _ e in
    let same : insert_entry entry q ≡ r = cc in
    rw (← same)
      (insert_entry-SortedFrom 0 entry q (omega arith) s, insert_entry-sleeps_of other entry q)

-- The entries that a tick takes out, and those that it leaves.
pub record Expires (now lo : ℕ) (q : List SleepEntry) (r : List (ProcessId × ℕ) × List SleepEntry)
    : Type 0 where
  pub due : List SleepEntry
  pub split : q ≡ due ++ r.1
  pub woken : r.0 ≡ map (λ x. (x.pid, now - x.start)) due
  pub past : All (λ (x : SleepEntry). x.wake_at ≤ now) due
  pub later : All (λ (x : SleepEntry). now < x.wake_at) r.1
  pub sorted : SortedFrom lo r.1

all_later :
    (now lo : ℕ) (q : List SleepEntry)
    → now < lo
    → SortedFrom lo q
    → All (λ (x : SleepEntry). now < x.wake_at) q
all_later now lo [] h s = tt
all_later now lo (x ∷ xs) h s =
    (omega (arith, s.0), all_later now x.wake_at xs (omega (arith, s.0)) s.1)

weaken : (lo hi : ℕ) (q : List SleepEntry) → lo ≤ hi → SortedFrom hi q → SortedFrom lo q
weaken lo hi [] h s = tt
weaken lo hi (x ∷ xs) h s = (omega (arith, s.0), s.1)

-- A tick wakes exactly the sleepers that are due, in the order of their deadlines, each with the
-- ticks that it slept. Nobody who is due stays in the queue, which stays sorted.
pub expire-Expires :
    (now lo : ℕ) (q : List SleepEntry) → SortedFrom lo q → Expires now lo q (expire now q)
unfolding expire
expire-Expires now lo [] s = record {
  due = [];
  split = refl;
  woken = refl;
  past = tt;
  later = tt;
  sorted = tt;
}
expire-Expires now lo (x ∷ xs) s = elim (Bool-cases (leb x.wake_at now)) [
  | inl due' ↦
      let rest = expire-Expires now x.wake_at xs s.1 in
      rw due' (record {
        due = x ∷ rest.due;
        split = ap (λ ys. x ∷ ys) rest.split;
        woken = ap (λ ys. (x.pid, now - x.start) ∷ ys) rest.woken;
        past = (ground arith, rest.past);
        later = rest.later;
        sorted = weaken lo x.wake_at _ s.0 rest.sorted;
      })
  | inr early ↦ rw early (record {
    due = [];
    split = refl;
    woken = refl;
    past = tt;
    later = (ground arith, all_later now x.wake_at xs (ground arith) s.1);
    sorted = s;
  })
]
