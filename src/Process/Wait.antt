-- ===== src/Process/Wait.antt =====
-- microkernel/src/process.rs: the decisions about a process that exits and a parent that waits, which
-- the code takes on a snapshot of the process table.
use zero_os.Common.{
  ℕ, ◌≡◌, refl, inl, inr, Bool, true, false, not, ◌&&◌, ◌||◌, List, [], ◌∷◌, Option, none, some,
  ◌==◌, if◌then◌else◌, Bool-cases, Option-cases, arith,
}
use zero_os.Ipc.Queue.{ProcessId}
use zero_os.Process.{ProcessState, runnable, running, blocked, dying, zombie}

-- An exit code is the number of its two's complement.
pub record ProcView : Type 0 where
  pub slot : ℕ
  pub pid : ProcessId
  pub parent : Option ProcessId
  pub state : ProcessState
  pub exit_code : Option ℕ

pub data ExitDisposition : Type 0 where
  become_zombie reap_immediately : ExitDisposition

unfoldable pub exit_disposition : Option ProcessId → Bool → Bool → ExitDisposition
exit_disposition parent alive true = reap_immediately
exit_disposition none alive false = reap_immediately
exit_disposition (some p) true false = become_zombie
exit_disposition (some p) false false = reap_immediately

abbrev pub is_zombie : ProcessState → Bool
is_zombie runnable = false
is_zombie running = false
is_zombie blocked = false
is_zombie dying = false
is_zombie zombie = true

abbrev pub is_parent : Option ProcessId → ProcessId → Bool
is_parent none p = false
is_parent (some q) p = q == p

pub data OrphanAction : Type 0 where
  cascade_reap adopt_to_init ignore_orphan : OrphanAction

unfoldable pub orphan_action : Option ProcessId → ProcessState → ProcessId → OrphanAction
orphan_action parent state dying_pid =
    if is_parent parent dying_pid
    then (if is_zombie state then cascade_reap else adopt_to_init)
    else ignore_orphan

pub data WaitDecision : Type 0 where
  collect : (slot : ℕ) (pid : ProcessId) (code : ℕ) → WaitDecision
  block no_child : WaitDecision

-- What a zombie of the loop gives: the result, or the loop goes on.
unfoldable pub collect_or : ProcView → Option ℕ → WaitDecision → WaitDecision
collect_or view none later = later
collect_or view (some code) later = collect view.slot view.pid code

-- The loop of `wait_scan` with its flag `has_live_child`.
unfoldable pub scan : ProcessId → ℕ → Bool → List (Option ProcView) → WaitDecision
scan caller target live [] = if live then block else no_child
scan caller target live (none ∷ es) = scan caller target live es
scan caller target live (some v ∷ es) =
    let same = scan caller target live es in
    let found_live = scan caller target true es in
    if not (is_parent v.parent caller)
    then same
    else if not (target == 0) && not (v.pid == target)
    then same
    else if is_zombie v.state
    then collect_or v v.exit_code same
    else found_live

unfoldable pub wait_scan : ProcessId → ℕ → List (Option ProcView) → WaitDecision
wait_scan caller target procs = scan caller target false procs

-- A child of the caller that the call waits for: any child for target 0.
abbrev pub is_awaited : ProcessId → ℕ → ProcView → Bool
is_awaited caller target v = is_parent v.parent caller && (target == 0 || v.pid == target)

-- The first zombie among the awaited children that has left an exit code.
pub first_dead : ProcessId → ℕ → List (Option ProcView) → Option (ProcView × ℕ)
first_dead caller target [] = none
first_dead caller target (none ∷ es) = first_dead caller target es
first_dead caller target (some v ∷ es) =
    let rest = first_dead caller target es in
    if is_awaited caller target v && is_zombie v.state
    then elim v.exit_code [ none ↦ rest | some code ↦ some (v, code) ]
    else rest

-- Some awaited child has not exited.
pub any_alive : ProcessId → ℕ → List (Option ProcView) → Bool
any_alive caller target [] = false
any_alive caller target (none ∷ es) = any_alive caller target es
any_alive caller target (some v ∷ es) =
    (is_awaited caller target v && not (is_zombie v.state)) || any_alive caller target es

abbrev pub decided : Option (ProcView × ℕ) → Bool → WaitDecision
decided (some (v, code)) alive = collect v.slot v.pid code
decided none true = block
decided none false = no_child

scan-decided :
    (caller : ProcessId) (target : ℕ) (live : Bool) (procs : List (Option ProcView))
    → scan caller target live procs
      ≡ decided (first_dead caller target procs) (live || any_alive caller target procs)
unfolding scan first_dead any_alive collect_or
scan-decided caller target true [] = refl
scan-decided caller target false [] = refl
scan-decided caller target live (none ∷ es) = scan-decided caller target live es
scan-decided caller target live (some v ∷ es) =
    let same = scan-decided caller target live es in
    let found_live = scan-decided caller target true es in
    elim (Bool-cases (is_parent v.parent caller)) [
      | inr stranger ↦ rw stranger same
      | inl child ↦ elim (Bool-cases (target == 0 || v.pid == target)) [
        | inr other ↦
            let skipped : (not (target == 0) && not (v.pid == target)) ≡ true = ground arith in
            rw (child, other, skipped) same
        | inl awaited ↦
            let kept : (not (target == 0) && not (v.pid == target)) ≡ false = ground arith in
            elim (Bool-cases (is_zombie v.state)) [
              | inl dead ↦ elim (Option-cases v.exit_code) [
                | inl none' ↦ rw (child, awaited, kept, dead, none') same
                | inr (code, left) ↦ rw (child, awaited, kept, dead, left) refl
              ]
              | inr alive ↦ rw (child, awaited, kept, alive) (orders live found_live)
            ]
      ]
    ]
  where
    orders :
        (live : Bool)
        → scan caller target true es
          ≡ decided (first_dead caller target es) (true || any_alive caller target es)
        → scan caller target true es
          ≡ decided (first_dead caller target es) (live || (true || any_alive caller target es))
    orders true e = e
    orders false e = e

-- A wait collects the first dead child that it waits for, even where live ones stand before it in the
-- table. Without a dead one it blocks exactly if some child that it waits for is alive.
pub wait_scan-decided :
    (caller : ProcessId) (target : ℕ) (procs : List (Option ProcView))
    → wait_scan caller target procs
      ≡ decided (first_dead caller target procs) (any_alive caller target procs)
unfolding wait_scan
wait_scan-decided caller target procs = scan-decided caller target false procs
