-- ===== src/Process/Members.antt =====
-- What the end of a session leaves in the process table.
use zero_os.Common.{
  ℕ, ◌≡◌, refl, inl, inr, not, ◌&&◌, [], ◌∷◌, Option, none, some, ◌==◌, if◌then◌else◌, Bool-cases,
  Option-cases, arith,
}
use zero_os.Ipc.Queue.{ProcessId}
use zero_os.Process.{
  ProcessRecord, Table, is_member, find_pid, session_of_pid, capabilities_of_pid, slot_for_pid,
  clear_from, clear_session_members,
}

-- The record as the end of session `sid` leaves it.
abbrev left_by : ℕ → ProcessId → Option ProcessRecord → Option ProcessRecord
left_by sid keep none = none
left_by sid keep (some r) = if is_member sid keep r then some (record r { session = 0 }) else some r

find_pid-clear_from :
    (sid : ℕ) (keep p : ProcessId) (t : Table)
    → find_pid p (clear_from sid keep t).1 ≡ left_by sid keep (find_pid p t)
unfolding find_pid clear_from
find_pid-clear_from sid keep p [] = refl
find_pid-clear_from sid keep p (none ∷ es) = find_pid-clear_from sid keep p es
find_pid-clear_from sid keep p (some e ∷ es) = elim (Bool-cases (is_member sid keep e)) [
  | inl member ↦ elim (Bool-cases (e.pid == p)) [
    | inl found ↦ rw (member, found) (rw member refl)
    | inr other ↦ rw (member, other) (find_pid-clear_from sid keep p es)
  ]
  | inr stays ↦ elim (Bool-cases (e.pid == p)) [
    | inl found ↦ rw (stays, found) (rw stays refl)
    | inr other ↦ rw (stays, other) (find_pid-clear_from sid keep p es)
  ]
]

find_pid-pid : (p : ProcessId) (t : Table) (r : ProcessRecord) → find_pid p t ≡ some r → r.pid ≡ p
unfolding find_pid
find_pid-pid p [] r e = cc
find_pid-pid p (none ∷ es) r e = find_pid-pid p es r e
find_pid-pid p (some x ∷ es) r e = ground (arith, find_pid-pid p es r)

-- The end of a session: each of its processes but `keep` has no session any more. Every other
-- session, every capability and every slot stays as it was.
pub clear_session_members_lem :
    (sid : ℕ) (keep p : ProcessId) (t : Table)
    → (session_of_pid p (clear_session_members sid keep t).1
        ≡ (if session_of_pid p t == sid && not (p == keep) then 0 else session_of_pid p t))
      × (capabilities_of_pid p (clear_session_members sid keep t).1 ≡ capabilities_of_pid p t)
      × (slot_for_pid p (clear_session_members sid keep t).1 ≡ slot_for_pid p t)
unfolding clear_session_members session_of_pid capabilities_of_pid slot_for_pid
clear_session_members_lem sid keep p t = elim (Bool-cases (sid == 0)) [
  | inl nobody ↦ rw nobody (ground arith, refl, refl)
  | inr real ↦ elim (Option-cases (find_pid p t)) [
    | inl none' ↦ rw (real, find_pid-clear_from sid keep p t, none') (ground arith, refl, refl)
    | inr (r, found) ↦
        let e = find_pid-pid p t r found in
        elim (Bool-cases (is_member sid keep r)) [
          | inl member ↦
              rw (real, find_pid-clear_from sid keep p t, found, member) (ground arith, refl, refl)
          | inr stays ↦
              rw (real, find_pid-clear_from sid keep p t, found, stays) (ground arith, refl, refl)
        ]
  ]
]
