-- ===== src/Security/Kernel.antt =====
-- The calls of microkernel/src/security.rs on the grant book and the process table together. The code
-- locks the book and the table one after the other, in the order of the parts below; a function here
-- is a call in which nothing else happens between its parts. The time is an argument (`now()` reads
-- the monotonic clock).
use zero_os.Common.{ℕ, Bool, true, false, Option, none, some, ◌==◌, if◌then◌else◌}
use zero_os.Common.Result.{Result, ok, err, ◌>>=◌}
use zero_os.Ipc.Queue.{ProcessId}
use zero_os.Process.{
  Table, session_of_pid, capabilities_of_pid, slot_for_pid, set_session, clear_session_members,
}
use zero_os.Security.{
  GrantBook, SessionRecord, IssueError, no_such_process, SessionError, issue, revoke, effective,
}
use zero_os.Security

pub record Kernel : Type 0 where
  pub book : GrantBook
  pub table : Table

unfoldable pub effective_caps : Kernel → ProcessId → ℕ → ℕ
effective_caps k pid now =
    effective k.book pid (capabilities_of_pid pid k.table) (session_of_pid pid k.table) now

-- `slot_for_pid(target).is_none()`
abbrev pub is_none : Option ℕ → Bool
is_none none = true
is_none (some slot) = false

unfoldable pub issue_grant : Kernel → ProcessId → ℕ → ℕ → ℕ → Result IssueError ℕ × Kernel
issue_grant k target caps ttl now =
    if is_none (slot_for_pid target k.table)
    then (err no_such_process, k)
    else let r = issue k.book target caps ttl (session_of_pid target k.table) now in
      (r.0, record k { book = r.1 })

unfoldable pub revoke_grant : Kernel → ℕ → Option (Unit {0}) × Kernel
revoke_grant k token =
    let r = revoke k.book token in (if r.0 then some tt else none, record k { book = r.1 })

-- `if let Some(dead) = dead_sid { clear_session_members(dead, keep) }`
unfoldable pub clear_dead : Option ℕ → ProcessId → Table → Table
clear_dead none keep t = t
clear_dead (some sid) keep t = (clear_session_members sid keep t).1

unfoldable pub begin_session : Kernel → ProcessId → ℕ → ℕ → Result SessionError (ℕ × Kernel)
begin_session k caller token now = do
  r ← Security.begin_session k.book caller token now
  ok (
    r.0.0,
    record { book = r.1; table = set_session caller r.0.0 (clear_dead r.0.1 caller k.table) },
  )

unfoldable pub on_process_gone : Kernel → ProcessId → Kernel
on_process_gone k pid =
    let r = Security.on_process_gone k.book pid in
    record { book = r.1; table = clear_dead r.0 pid k.table }

-- A session is the one that ends.
abbrev pub bound : ℕ → Option ℕ → Bool
bound session none = false
bound session (some sid) = session == sid

-- A session is the one that the leader has, if any.
abbrev pub is_led : Option SessionRecord → ℕ → Bool
is_led none session = false
is_led (some s) session = session == s.id
