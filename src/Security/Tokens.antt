-- ===== src/Security/Tokens.antt =====
-- A login token works once.
use zero_os.Common.{
  ℕ, suc, ◌+◌, ◌^◌, length, ◌<◌, ◌≡◌, refl, inl, inr, Bool, false, not, List, [], ◌∷◌, ◌++◌, Option,
  none, some, ◌==◌, ltb, All, Bool-cases, arith,
}
use zero_os.Common.Result.{ok, err, Result-cases}
use zero_os.Common.Retain.{retain}
use zero_os.Common.Ascending.{Ascending}
use zero_os.Ipc.Queue.{ProcessId}
use zero_os.Security.{
  Grant, SessionRecord, GrantBook, no_such_token, issue, sweep, granted, revoke, find_grant,
  remove_grant, find_led, purge_session_book, purge_led, open_session, login_grant, begin_session,
  on_process_gone,
}
use zero_os.Security.Invariant.{IsBook, RowOk, remove_grant-retain}
use zero_os.Security.Histories.{
  HasRoom, begun-HasRoom, step-HasRoom, Call, issues, revokes, begins, process_gone, step, run,
  step-IsBook, begin_session-inv, begin_session-IsBook, login_grant-inv,
}

-- The token was issued and is no longer in the book.
pub record IsSpent (token : ℕ) (b : GrantBook) : Type 0 where
  pub absent : find_grant token b.grants ≡ none
  pub issued : token < b.next_token

find_grant-retain :
    (token : ℕ) (keep : Grant → Bool) (gs : List Grant)
    → find_grant token gs ≡ none
    → find_grant token (retain keep gs) ≡ none
unfolding find_grant retain
find_grant-retain token keep [] e = refl
find_grant-retain token keep (g ∷ gs) e = ground (arith, find_grant-retain token keep gs)

find_grant-dropped :
    (token : ℕ) (gs : List Grant)
    → find_grant token (retain (λ g. not (g.token == token)) gs) ≡ none
unfolding find_grant retain
find_grant-dropped token [] = refl
find_grant-dropped token (g ∷ gs) = ground (arith, find_grant-dropped token gs)

find_grant-snoc :
    (token : ℕ) (gs : List Grant) (g : Grant)
    → find_grant token gs ≡ none
    → (g.token == token) ≡ false
    → find_grant token (gs ++ g ∷ []) ≡ none
unfolding find_grant
find_grant-snoc token [] g e n = ground arith
find_grant-snoc token (x ∷ gs) g e n = ground (arith, find_grant-snoc token gs g)

find_grant-below :
    (token next : ℕ) (gs : List Grant) (g : Grant)
    → All (RowOk next) gs
    → find_grant token gs ≡ some g
    → token < next
unfolding find_grant
find_grant-below token next [] g a e = cc
find_grant-below token next (x ∷ gs) g a e =
    let low = a.0.below in ground (arith, low, find_grant-below token next gs g a.1)

purge-IsSpent :
    (token sid : ℕ) (b : GrantBook) → IsSpent token b → IsSpent token (purge_session_book b sid)
unfolding purge_session_book
purge-IsSpent token sid b s = elim (Bool-cases (sid == 0)) [
  | inl z ↦ rw z s
  | inr nz ↦
      rw nz (record { absent = find_grant-retain token _ b.grants s.absent; issued = s.issued })
]

purge_led-IsSpent :
    (token : ℕ) (o : Option SessionRecord) (b : GrantBook)
    → IsSpent token b
    → IsSpent token (purge_led b o).1
unfolding purge_led
purge_led-IsSpent token none b s = s
purge_led-IsSpent token (some r) b s = purge-IsSpent token r.id b s

open-IsSpent :
    (token : ℕ) (caller : ProcessId) (l : Option ℕ × GrantBook)
    → IsSpent token l.1
    → IsSpent token (open_session caller l).1
unfolding open_session
open-IsSpent token caller l s = record { absent = s.absent; issued = s.issued }

issue-IsSpent :
    (token : ℕ) (b : GrantBook) (target : ProcessId) (caps ttl session now : ℕ)
    → b.next_token + 1 < 2 ^ 64
    → IsSpent token b
    → IsSpent token (issue b target caps ttl session now).1
unfolding issue sweep granted
issue-IsSpent token b target caps ttl session now h s =
    let kept = retain (λ (g : Grant). ltb now g.expires_at) b.grants in
    let absent' = find_grant-retain token (λ (g : Grant). ltb now g.expires_at) b.grants s.absent in
    let low : token < b.next_token = s.issued in
    ground (
      arith,
      s,
      absent',
      find_grant-snoc token kept (granted b.next_token target caps ttl session now),
    )

remove-absent :
    (token spent lo : ℕ) (gs : List Grant)
    → Ascending (λ (g : Grant). g.token) lo gs
    → find_grant token gs ≡ none
    → find_grant token (remove_grant spent gs) ≡ none
remove-absent token spent lo gs a e =
    rw (remove_grant-retain spent lo gs a) (find_grant-retain token _ gs e)

step-IsSpent :
    (token : ℕ) (b : GrantBook) (c : Call)
    → b.next_token + 1 < 2 ^ 64
    → IsBook b
    → IsSpent token b
    → IsSpent token (step b c)
unfolding step revoke on_process_gone
step-IsSpent token b (issues target caps ttl session now) h v s =
    issue-IsSpent token b target caps ttl session now h s
step-IsSpent token b (revokes other) h v s = record {
  absent = find_grant-retain token _ b.grants s.absent;
  issued = s.issued;
}
step-IsSpent token b (begins caller other now) h v s =
    elim (Result-cases (begin_session b caller other now)) [
      | inl (r, done) ↦
          let (g, checked, shape) = begin_session-inv b caller other now r done in
          rw (done, shape)
            (open-IsSpent token caller _ (
              purge_led-IsSpent token (find_led caller b.sessions) _ (record {
                absent = remove-absent token other 1 b.grants v.tokens s.absent;
                issued = s.issued;
              })))
      | inr (x, failed) ↦ rw failed s
    ]
step-IsSpent token b (process_gone pid) h v s =
    purge_led-IsSpent token _ _
      (record { absent = find_grant-retain token _ b.grants s.absent; issued = s.issued })

run-IsSpent :
    (token : ℕ) (b : GrantBook) (cs : List Call)
    → HasRoom b (length cs)
    → IsBook b
    → IsSpent token b
    → IsSpent token (run b cs)
unfolding run
run-IsSpent token b [] h v s = s
run-IsSpent token b (c ∷ cs) h v s =
    run-IsSpent token (step b c) cs (step-HasRoom b c (length cs) h)
      (step-IsBook b c (length cs) h v) (step-IsSpent token b c (omega (arith, h.token_left)) v s)

begin_session-spends :
    (b : GrantBook) (caller : ProcessId) (token now : ℕ) (r : (ℕ × Option ℕ) × GrantBook)
    → IsBook b
    → begin_session b caller token now ≡ ok r
    → IsSpent token r.1
begin_session-spends b caller token now r v e =
    let (g, checked, shape) = begin_session-inv b caller token now r e in
    let (found, mine, login, fresh, room) = login_grant-inv b caller token now _ g checked in
    rw shape (
      open-IsSpent token caller _ (
        purge_led-IsSpent token (find_led caller b.sessions) _ (record {
          absent =
              rw (remove_grant-retain token 1 b.grants v.tokens)
                (find_grant-dropped token b.grants);
          issued = find_grant-below token b.next_token b.grants g v.rows found;
        })))

spent-refused :
    (b : GrantBook) (caller : ProcessId) (token now : ℕ)
    → IsSpent token b
    → begin_session b caller token now ≡ err no_such_token
unfolding begin_session login_grant
spent-refused b caller token now s = rw (s.absent, login_grant)

-- A login token cannot be replayed: after a login with it, whatever calls follow, as long as neither
-- counter runs out of 64 bits, no process can open a session with that token at any time.
pub replay_refused :
    (b : GrantBook) (caller : ProcessId) (token now : ℕ) (r : (ℕ × Option ℕ) × GrantBook)
    (cs : List Call) (other : ProcessId) (later : ℕ)
    → HasRoom b (suc (length cs))
    → IsBook b
    → begin_session b caller token now ≡ ok r
    → begin_session (run r.1 cs) other token later ≡ err no_such_token
replay_refused b caller token now r cs other later h v e =
    spent-refused (run r.1 cs) other token later (
      run-IsSpent token r.1 cs (begun-HasRoom b caller token now r (length cs) h e)
        (begin_session-IsBook b caller token now r e (omega (arith, h.session_left)) v)
        (begin_session-spends b caller token now r v e))
