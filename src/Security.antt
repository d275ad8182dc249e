-- ===== src/Security.antt =====
-- microkernel/src/security.rs: the book of dynamically granted capabilities and login sessions
-- (`GrantBook`). Tokens, session ids and times are the u64 values of the code. The two counters wrap at
-- 2 ^ 64, as they do in a release build, and `saturating_add` keeps its cap.
pub mod Invariant
pub mod Histories
pub mod Effective
pub mod Tokens
pub mod Sessions
pub mod Kernel
mod Tests
use Prim.Native.Nat.{bit_and, bit_or}
use zero_os.Common.{
  ℕ, suc, ◌+◌, ◌^◌, ◌-◌, ◌%◌, Bool, true, false, ◌&&◌, ◌||◌, not, min, List, [], ◌∷◌, ◌++◌, Option,
  none, some, ◌==◌, ltb, leb, if◌then◌else◌, length, map,
}
use zero_os.Common.Result.{Result, ok, err, ◌>>=◌, ◌>>◌, guard}
use zero_os.Common.Retain.{retain, any}
use zero_os.Ipc.Queue.{ProcessId}

-- libs/abi/src/lib.rs, mod cap
abbrev pub cap_issuer : ℕ
cap_issuer = 2 ^ 5

abbrev pub cap_session : ℕ
cap_session = 2 ^ 6

abbrev pub u64_max : ℕ
u64_max = 2 ^ 64 - 1

abbrev pub max_grants : ℕ
max_grants = 16

abbrev pub max_sessions : ℕ
max_sessions = 8

pub data IssueError : Type 0 where
  invalid_scope no_such_process table_full : IssueError

pub data SessionError : Type 0 where
  no_such_token not_yours expired sessions_full : SessionError

pub record Grant : Type 0 where
  pub token : ℕ
  pub pid : ProcessId
  pub caps : ℕ
  pub expires_at : ℕ
  pub session : ℕ
  pub login_once : Bool

pub record SessionRecord : Type 0 where
  pub id : ℕ
  pub leader : ProcessId

pub record GrantBook : Type 0 where
  pub grants : List Grant
  pub sessions : List SessionRecord
  pub next_token : ℕ
  pub next_session : ℕ

pub new : GrantBook
new = record { grants = []; sessions = []; next_token = 1; next_session = 1 }

-- `x & mask != 0`
abbrev pub meets : ℕ → ℕ → Bool
meets x mask = not (bit_and x mask == 0)

unfoldable pub covers : Grant → ProcessId → ℕ → ℕ → Bool
covers g pid session now =
    g.pid == pid && (ltb now g.expires_at && (g.session == 0 || g.session == session))

unfoldable pub sweep : GrantBook → ℕ → GrantBook
sweep b now = record b { grants = retain (λ g. ltb now g.expires_at) b.grants }

-- The pushed row of `issue`.
unfoldable pub granted : ℕ → ProcessId → ℕ → ℕ → ℕ → ℕ → Grant
granted token target caps ttl session now = record {
  token = token;
  pid = target;
  caps = caps;
  expires_at = if ttl == 0 then u64_max else min (now + ttl) u64_max;
  session = session;
  login_once = meets caps cap_session;
}

-- An error leaves the swept book behind: the sweep comes before the test of the capacity.
unfoldable pub issue : GrantBook → ProcessId → ℕ → ℕ → ℕ → ℕ → Result IssueError ℕ × GrantBook
issue b target caps ttl target_session now =
    let swept = sweep b now in
    if caps == 0 || meets caps cap_issuer
    then (err invalid_scope, b)
    else if leb max_grants (length swept.grants)
    then (err table_full, swept)
    else (
      ok swept.next_token,
      record swept {
        next_token = (swept.next_token + 1) % 2 ^ 64;
        grants = swept.grants ++ granted swept.next_token target caps ttl target_session now ∷ [];
      },
    )

-- `before != self.grants.len()`
pub revoke : GrantBook → ℕ → Bool × GrantBook
revoke b token =
    let kept = retain (λ g. not (g.token == token)) b.grants in
    (not (length b.grants == length kept), record b { grants = kept })

-- The loop of `effective`: one row after another is added.
pub effective_from : List Grant → ProcessId → ℕ → ℕ → ℕ → ℕ
effective_from [] pid caps session now = caps
effective_from (g ∷ gs) pid caps session now =
    effective_from gs pid (if covers g pid session now then bit_or caps g.caps else caps) session
      now

pub effective : GrantBook → ProcessId → ℕ → ℕ → ℕ → ℕ
effective b pid base session now = effective_from b.grants pid base session now

-- `position(|g| g.token == token)`, with the row there.
unfoldable pub find_grant : ℕ → List Grant → Option Grant
find_grant token [] = none
find_grant token (g ∷ gs) = if g.token == token then some g else find_grant token gs

-- `grants.remove(idx)` at that position.
unfoldable pub remove_grant : ℕ → List Grant → List Grant
remove_grant token [] = []
remove_grant token (g ∷ gs) = if g.token == token then gs else g ∷ remove_grant token gs

unfoldable pub find_led : ProcessId → List SessionRecord → Option SessionRecord
find_led leader [] = none
find_led leader (s ∷ ss) = if s.leader == leader then some s else find_led leader ss

unfoldable pub purge_session_book : GrantBook → ℕ → GrantBook
purge_session_book b sid = if sid == 0 then b else record b {
  grants = retain (λ g. not (g.session == sid)) b.grants;
  sessions = retain (λ s. not (s.id == sid)) b.sessions;
}

-- The session that the caller leads, if any, is purged.
unfoldable pub purge_led : GrantBook → Option SessionRecord → Option ℕ × GrantBook
purge_led b none = (none, b)
purge_led b (some s) = (some s.id, purge_session_book b s.id)

-- The last part of `begin_session`: a new session led by the caller.
unfoldable pub open_session : ProcessId → Option ℕ × GrantBook → (ℕ × Option ℕ) × GrantBook
open_session caller (dead, b) = (
  (b.next_session, dead),
  record b {
    next_session = (b.next_session + 1) % 2 ^ 64;
    sessions = b.sessions ++ record { id = b.next_session; leader = caller } ∷ [];
  },
)

-- The checks of `begin_session`, before anything changes.
unfoldable pub login_grant :
    GrantBook → ProcessId → ℕ → ℕ → Option Grant → Result SessionError Grant
login_grant b caller token now none = err no_such_token
login_grant b caller token now (some g) = do
  guard (g.pid == caller && g.login_once) not_yours
  guard (ltb now g.expires_at) expired
  guard (any (λ s. s.leader == caller) b.sessions || ltb (length b.sessions) max_sessions)
      sessions_full
  ok g

unfoldable pub begin_session :
    GrantBook → ProcessId → ℕ → ℕ → Result SessionError ((ℕ × Option ℕ) × GrantBook)
begin_session b caller token now = do
  g ← login_grant b caller token now (find_grant token b.grants)
  let spent = record b { grants = remove_grant token b.grants }
  ok (open_session caller (purge_led spent (find_led caller spent.sessions)))

pub on_process_gone : GrantBook → ProcessId → Option ℕ × GrantBook
on_process_gone b pid =
    let kept = record b { grants = retain (λ g. not (g.pid == pid)) b.grants } in
    purge_led kept (find_led pid kept.sessions)

pub sessions_snapshot : GrantBook → List (ℕ × ProcessId)
sessions_snapshot b = map (λ s. (s.id, s.leader)) b.sessions
