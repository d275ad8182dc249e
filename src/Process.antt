-- ===== src/Process.antt =====
-- microkernel/src/process.rs: the parts of a process record that the processors hand over between
-- each other when a process is claimed, yields, blocks and is woken, and the login sessions. The
-- entry of PROCESS_OWNER for a slot stands in the record of that slot (`owner`, none for
-- PROCESS_OWNER_NONE). Each function of the crate holds the lock of the table from beginning to end.
pub mod Jobs
pub mod Blocking
pub mod Members
pub mod Wait
mod Tests
use zero_os.Common.{
  ℕ, zero, suc, ◌+◌, Bool, true, false, not, ◌&&◌, ◌||◌, List, [], ◌∷◌, Option, none, some, ◌==◌,
  if◌then◌else◌,
}
use zero_os.Common.Result.{Result, ok, err, ◌>>=◌, ◌>>◌, guard}
use zero_os.Ipc.Queue.{ProcessId}

pub data ProcessState : Type 0 where
  runnable running blocked dying zombie : ProcessState

-- The fields that the functions below read and write.
pub record ProcessRecord : Type 0 where
  pub pid : ProcessId
  pub state : ProcessState
  pub slot : ℕ
  pub capabilities : ℕ
  pub session : ℕ
  pub block_intent : Bool
  pub wake_pending : Bool
  pub owner : Option ℕ

-- The failed assertions.
pub data Panic : Type 0 where
  still_owned owner_mismatch not_running no_record : Panic

abbrev pub is_runnable : ProcessState → Bool
is_runnable runnable = true
is_runnable running = false
is_runnable blocked = false
is_runnable dying = false
is_runnable zombie = false

abbrev pub is_running : ProcessState → Bool
is_running runnable = false
is_running running = true
is_running blocked = false
is_running dying = false
is_running zombie = false

abbrev pub unowned : Option ℕ → Bool
unowned none = true
unowned (some cpu) = false

abbrev pub owned_by : Option ℕ → ℕ → Bool
owned_by none cpu = false
owned_by (some owner) cpu = owner == cpu

-- The record found is claimed by a processor.
unfoldable pub claim : ℕ → ProcessRecord → Result Panic (Option ℕ × ProcessRecord)
claim cpu r = if not (is_runnable r.state) then ok (none, r) else do
  guard (unowned r.owner) still_owned
  ok (
    some r.slot,
    record r { owner = some cpu; state = running; block_intent = false; wake_pending = false },
  )

unfoldable pub yield_cpu : ℕ → ProcessRecord → Result Panic (Option ProcessId × ProcessRecord)
yield_cpu cpu r = if not (is_running r.state) then ok (none, r) else do
  guard (owned_by r.owner cpu) owner_mismatch
  ok (
    some r.pid,
    record r { owner = none; state = runnable; block_intent = false; wake_pending = false },
  )

unfoldable pub drop_owner : ℕ → ProcessRecord → Result Panic (Unit {0} × ProcessRecord)
drop_owner cpu r = do
  guard (is_running r.state) not_running
  guard (owned_by r.owner cpu) owner_mismatch
  ok (tt, record r { owner = none })

pub data WakeTransition : Type 0 where
  enqueue : (pid : ProcessId) (slot : ℕ) → WakeTransition
  pending ignore : WakeTransition

-- The `match record.state` of `request_wake`.
unfoldable pub wake_in :
    ProcessState → ProcessRecord → Result Panic (WakeTransition × ProcessRecord)
wake_in blocked r = do
  guard (unowned r.owner) still_owned
  ok (
    enqueue r.pid r.slot,
    record r { state = runnable; block_intent = false; wake_pending = false },
  )
wake_in running r = ok (pending, record r { wake_pending = true })
wake_in runnable r = ok (ignore, r)
wake_in dying r = ok (ignore, r)
wake_in zombie r = ok (ignore, r)

unfoldable pub wake : ProcessRecord → Result Panic (WakeTransition × ProcessRecord)
wake r = wake_in r.state r

unfoldable pub intend_block : ℕ → ProcessRecord → Result Panic (Bool × ProcessRecord)
intend_block cpu r =
    if not (is_running r.state)
    then ok (false, r)
    else do guard (owned_by r.owner cpu) owner_mismatch; ok (true, record r { block_intent = true })

pub data BlockFinish : Type 0 where
  now_blocked invalid_block : BlockFinish
  requeue : ProcessId → BlockFinish

unfoldable pub complete_block : ℕ → ProcessRecord → Result Panic (BlockFinish × ProcessRecord)
complete_block cpu r =
    if not (is_running r.state) || not r.block_intent then ok (invalid_block, r) else do
      guard (owned_by r.owner cpu) owner_mismatch
      ok (
          if r.wake_pending
          then (
            requeue r.pid,
            record r { owner = none; block_intent = false; wake_pending = false; state = runnable },
          )
          else (now_blocked, record r { owner = none; block_intent = false; state = blocked }))

abbrev pub Table : Type 0
Table = List (Option ProcessRecord)

-- `iter_mut().flatten().find(|record| record.pid == pid)`, then `f` on the record in its place.
unfoldable pub with_pid :
    {A : Type 0}
    → ProcessId
    → (ProcessRecord → Result Panic (A × ProcessRecord))
    → Result Panic A
    → Table
    → Result Panic (A × Table)
with_pid pid f miss [] = do a ← miss; ok (a, [])
with_pid pid f miss (none ∷ es) = do r ← with_pid pid f miss es; ok (r.0, none ∷ r.1)
with_pid pid f miss (some e ∷ es) =
    let rest = with_pid pid f miss es in
    if e.pid == pid
    then (do r ← f e; ok (r.0, some r.1 ∷ es))
    else (do r ← rest; ok (r.0, some e ∷ r.1))

-- `table.get_mut(slot).and_then(|entry| entry.as_mut())`, then `f` on the record in its place.
unfoldable pub with_slot :
    {A : Type 0}
    → ℕ
    → (ProcessRecord → Result Panic (A × ProcessRecord))
    → Result Panic A
    → Table
    → Result Panic (A × Table)
with_slot slot f miss [] = do a ← miss; ok (a, [])
with_slot zero f miss (none ∷ es) = do a ← miss; ok (a, none ∷ es)
with_slot zero f miss (some e ∷ es) = do r ← f e; ok (r.0, some r.1 ∷ es)
with_slot (suc slot) f miss (e ∷ es) = do r ← with_slot slot f miss es; ok (r.0, e ∷ r.1)

pub claim_runnable : ProcessId → ℕ → Table → Result Panic (Option ℕ × Table)
claim_runnable pid cpu = with_pid pid (claim cpu) (ok none)

pub release_running : ℕ → ℕ → Table → Result Panic (Option ProcessId × Table)
release_running slot cpu = with_slot slot (yield_cpu cpu) (ok none)

pub release_owner_for_exit : ℕ → ℕ → Table → Result Panic (Unit {0} × Table)
release_owner_for_exit slot cpu = with_slot slot (drop_owner cpu) (err no_record)

pub request_wake : ProcessId → Table → Result Panic (WakeTransition × Table)
request_wake pid = with_pid pid wake (ok ignore)

pub begin_block : ℕ → ℕ → Table → Result Panic (Bool × Table)
begin_block slot cpu = with_slot slot (intend_block cpu) (ok false)

pub finish_block : ℕ → ℕ → Table → Result Panic (BlockFinish × Table)
finish_block slot cpu = with_slot slot (complete_block cpu) (ok invalid_block)

-- `iter().flatten().find(|record| record.pid == pid)`
unfoldable pub find_pid : ProcessId → Table → Option ProcessRecord
find_pid pid [] = none
find_pid pid (none ∷ es) = find_pid pid es
find_pid pid (some e ∷ es) = let rest = find_pid pid es in if e.pid == pid then some e else rest

abbrev pub capabilities_or_none : Option ProcessRecord → ℕ
capabilities_or_none none = 0
capabilities_or_none (some r) = r.capabilities

unfoldable pub capabilities_of_pid : ProcessId → Table → ℕ
capabilities_of_pid pid t = capabilities_or_none (find_pid pid t)

abbrev pub session_or_none : Option ProcessRecord → ℕ
session_or_none none = 0
session_or_none (some r) = r.session

unfoldable pub session_of_pid : ProcessId → Table → ℕ
session_of_pid pid t = session_or_none (find_pid pid t)

abbrev pub slot_or_none : Option ProcessRecord → Option ℕ
slot_or_none none = none
slot_or_none (some r) = some r.slot

unfoldable pub slot_for_pid : ProcessId → Table → Option ℕ
slot_for_pid pid t = slot_or_none (find_pid pid t)

unfoldable pub set_session : ProcessId → ℕ → Table → Table
set_session pid session [] = []
set_session pid session (none ∷ es) = none ∷ set_session pid session es
set_session pid session (some e ∷ es) =
    if e.pid == pid
    then some (record e { session = session }) ∷ es
    else some e ∷ set_session pid session es

-- One round of the loop of `clear_session_members`.
abbrev pub is_member : ℕ → ProcessId → ProcessRecord → Bool
is_member sid keep r = r.session == sid && not (r.pid == keep)

unfoldable pub clear_from : ℕ → ProcessId → Table → ℕ × Table
clear_from sid keep [] = (0, [])
clear_from sid keep (none ∷ es) = let rest = clear_from sid keep es in (rest.0, none ∷ rest.1)
clear_from sid keep (some e ∷ es) =
    let rest = clear_from sid keep es in
    if is_member sid keep e
    then (suc rest.0, some (record e { session = 0 }) ∷ rest.1)
    else (rest.0, some e ∷ rest.1)

unfoldable pub clear_session_members : ℕ → ProcessId → Table → ℕ × Table
clear_session_members sid keep t = if sid == 0 then (0, t) else clear_from sid keep t
