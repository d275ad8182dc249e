-- ===== src/Security/Histories.antt =====
-- Logins, the end of a process, and all histories of calls: the invariant holds throughout.
use zero_os.Common.{
  ℕ, suc, ◌+◌, ◌%◌, ◌^◌, ◌≤◌, ◌<◌, ◌≡◌, refl, inl, inr, true, false, not, ◌&&◌, ◌||◌, List, [], ◌∷◌,
  Option, none, some, ◌==◌, ltb, length, length-append, All-append, All-imp, Option-cases, arith,
}
use zero_os.Common.Result.{Result, ok, err, guard, >>=-eq-ok, guard-eq-ok, Result-cases}
use zero_os.Common.Retain.{retain, any}
use zero_os.Common.Ascending.{Ascending, Ascending-snoc}
use zero_os.Ipc.Queue.{ProcessId}
use zero_os.Security.{
  Grant, SessionRecord, GrantBook, SessionError, not_yours, expired, sessions_full, issue, sweep,
  revoke, find_grant, remove_grant, find_led, purge_session_book, purge_led, open_session,
  login_grant, begin_session, on_process_gone,
}
use zero_os.Security.Invariant.{
  IsBook, retain-IsBook, remove_grant-retain, find_led-purged, purged-length, snoc-LeadersDistinct,
  purge-IsBook, issue-IsBook, revoke-IsBook,
}

pub led-id :
    (p : ProcessId) (lo : ℕ) (ss : List SessionRecord) (s : SessionRecord)
    → Ascending (λ (x : SessionRecord). x.id) lo ss
    → find_led p ss ≡ some s
    → lo ≤ s.id
unfolding find_led
led-id p lo [] s a e = cc
led-id p lo (x ∷ xs) s a e = ground (arith, led-id p (suc x.id) xs s a.1, a.0)

not_led-any :
    (p : ProcessId) (ss : List SessionRecord)
    → find_led p ss ≡ none
    → any (λ s. s.leader == p) ss ≡ false
unfolding find_led any
not_led-any p [] e = refl
not_led-any p (x ∷ xs) e = ground (arith, not_led-any p xs)

-- Once the session that a process leads is purged, it leads none, and there is room for another.
pub record Freed (p : ProcessId) (ss : List SessionRecord) (c : GrantBook) : Type 0 where
  pub book : IsBook c
  pub leaderless : find_led p c.sessions ≡ none
  pub free : (any (λ s. s.leader == p) ss || ltb (length ss) 8) ≡ true → length c.sessions < 8

pub purge_led-Freed :
    (p : ProcessId) (b : GrantBook)
    → IsBook b
    → Freed p b.sessions (purge_led b (find_led p b.sessions)).1
unfolding purge_led
purge_led-Freed p b v = elim (Option-cases (find_led p b.sessions)) [
  | inl none' ↦
      rw (none', purge_led)
        (record {
          book = v;
          leaderless = none';
          free = λ h. ground (arith, not_led-any p b.sessions none');
        })
  | inr (s, led) ↦
      let real : (s.id == 0) ≡ false = ground (arith, led-id p 1 b.sessions s v.sids led) in
      rw (led, purge_led)
        (record {
          book = purge-IsBook b s.id v;
          leaderless =
              unfold purge_session_book in rw real (find_led-purged p s b.sessions v.leaders led);
          free = λ h.
              unfold purge_session_book in
              rw real (omega (arith, purged-length p s b.sessions led, v.session_room));
        })
]

opened-IsBook :
    (p : ProcessId) (dead : Option ℕ) (b : GrantBook)
    → IsBook b
    → find_led p b.sessions ≡ none
    → length b.sessions < 8
    → b.next_session + 1 < 2 ^ 64
    → IsBook (open_session p (dead, b)).1
unfolding open_session
opened-IsBook p dead b v leaderless room h =
    let plain : (b.next_session + 1) % 2 ^ 64 ≡ b.next_session + 1 = omega arith in
    rw plain (record {
      tokens = v.tokens;
      rows = v.rows;
      counter = v.counter;
      room = v.room;
      sids = Ascending-snoc _ 1 b.sessions _ v.session_counter v.below v.sids;
      below =
          All-append _ b.sessions _ (All-imp (λ s h. omega (arith, h)) b.sessions v.below)
            (omega arith, tt);
      session_counter = omega arith;
      leaders = snoc-LeadersDistinct b.sessions _ v.leaders leaderless;
      session_room =
          omega (arith, length-append b.sessions (record { id = b.next_session; leader = p } ∷ []));
    })

pub purge_led-next :
    (o : Option SessionRecord) (b : GrantBook)
    → ((purge_led b o).1.next_session ≡ b.next_session)
      × ((purge_led b o).1.next_token ≡ b.next_token)
unfolding purge_led purge_session_book
purge_led-next none b = (refl, refl)
purge_led-next (some s) b = (ground arith, ground arith)

-- What a successful login went through.
pub login_grant-inv :
    (b : GrantBook) (caller : ProcessId) (token now : ℕ) (o : Option Grant) (g : Grant)
    → login_grant b caller token now o ≡ ok g
    → (o ≡ some g)
      × (g.pid ≡ caller)
      × (g.login_once ≡ true)
      × (now < g.expires_at)
      × ((any (λ s. s.leader == caller) b.sessions || ltb (length b.sessions) 8) ≡ true)
unfolding login_grant
login_grant-inv b caller token now none g e = absurd (cc)
login_grant-inv b caller token now (some h) g e =
    let (u, mine, e₁) = >>=-eq-ok (guard (h.pid == caller && h.login_once) not_yours) _ e in
    let (v, fresh, e₂) = >>=-eq-ok (guard (ltb now h.expires_at) expired) _ e₁ in
    let (w, room, e₃) =
      >>=-eq-ok
        (guard (any (λ s. s.leader == caller) b.sessions || ltb (length b.sessions) 8)
          sessions_full)
        _ e₂ in
    let own = guard-eq-ok _ not_yours mine in
    let alive = guard-eq-ok _ expired fresh in
    let same : h ≡ g = cc in
    rw (← same) (refl, ground arith, ground arith, ground arith, guard-eq-ok _ sessions_full room)

pub begin_session-inv :
    (b : GrantBook) (caller : ProcessId) (token now : ℕ) (r : (ℕ × Option ℕ) × GrantBook)
    → begin_session b caller token now ≡ ok r
    → (g : Grant) × (login_grant b caller token now (find_grant token b.grants) ≡ ok g)
      × (r
          ≡ open_session caller (
              purge_led
                (record b { grants = remove_grant token b.grants })
                (find_led caller b.sessions)))
unfolding begin_session
begin_session-inv b caller token now r e =
    let (g, checked, done) =
      >>=-eq-ok (login_grant b caller token now (find_grant token b.grants)) _ e in
    (g, checked, cc)

pub spent-IsBook :
    (b : GrantBook) (token : ℕ)
    → IsBook b
    → IsBook (record b { grants = remove_grant token b.grants })
spent-IsBook b token v = rw (remove_grant-retain token 1 b.grants v.tokens) (retain-IsBook b _ v)

pub begin_session-IsBook :
    (b : GrantBook) (caller : ProcessId) (token now : ℕ) (r : (ℕ × Option ℕ) × GrantBook)
    → begin_session b caller token now ≡ ok r
    → b.next_session + 1 < 2 ^ 64
    → IsBook b
    → IsBook r.1
begin_session-IsBook b caller token now r e h v =
    let (g, checked, shape) = begin_session-inv b caller token now r e in
    let (found, mine, login, fresh, room) = login_grant-inv b caller token now _ g checked in
    let spent : GrantBook = record b { grants = remove_grant token b.grants } in
    let freed = purge_led-Freed caller spent (spent-IsBook b token v) in
    let left = purge_led spent (find_led caller b.sessions) in
    rw shape (
      opened-IsBook caller left.0 left.1 freed.book freed.leaderless (freed.free room)
        (omega (arith, (purge_led-next (find_led caller b.sessions) spent).0, h)))

pub gone-Freed :
    (b : GrantBook) (pid : ProcessId) → IsBook b → Freed pid b.sessions (on_process_gone b pid).1
unfolding on_process_gone
gone-Freed b pid v =
    purge_led-Freed pid (record b { grants = retain (λ g. not (g.pid == pid)) b.grants })
      (retain-IsBook b _ v)

-- The calls that change the book.
pub data Call : Type 0 where
  issues : (target : ProcessId) (caps ttl session now : ℕ) → Call
  revokes : (token : ℕ) → Call
  begins : (caller : ProcessId) (token now : ℕ) → Call
  process_gone : (pid : ProcessId) → Call

-- A login that fails leaves the book as it was.
abbrev pub after : GrantBook → Result SessionError ((ℕ × Option ℕ) × GrantBook) → GrantBook
after b (ok r) = r.1
after b (err e) = b

unfoldable pub step : GrantBook → Call → GrantBook
step b (issues target caps ttl session now) = (issue b target caps ttl session now).1
step b (revokes token) = (revoke b token).1
step b (begins caller token now) = after b (begin_session b caller token now)
step b (process_gone pid) = (on_process_gone b pid).1

unfoldable pub run : GrantBook → List Call → GrantBook
run b [] = b
run b (c ∷ cs) = run (step b c) cs

-- A call draws one token and one session id at most.
pub record Draws (b c : GrantBook) : Type 0 where
  pub token_drawn : c.next_token ≤ b.next_token + 1
  pub session_drawn : c.next_session ≤ b.next_session + 1

issue-Draws :
    (b : GrantBook) (target : ProcessId) (caps ttl session now : ℕ)
    → Draws b (issue b target caps ttl session now).1
unfolding issue sweep
issue-Draws b target caps ttl session now = record {
  token_drawn = ground arith;
  session_drawn = ground arith;
}

begin_session-Draws :
    (b : GrantBook) (caller : ProcessId) (token now : ℕ) (r : (ℕ × Option ℕ) × GrantBook)
    → begin_session b caller token now ≡ ok r
    → Draws b r.1
unfolding open_session
begin_session-Draws b caller token now r e =
    let (g, checked, shape) = begin_session-inv b caller token now r e in
    let spent : GrantBook = record b { grants = remove_grant token b.grants } in
    let (session, tokens) = purge_led-next (find_led caller b.sessions) spent in
    rw shape
      (record { token_drawn = omega (arith, tokens); session_drawn = omega (arith, session) })

pub step-Draws : (b : GrantBook) (c : Call) → Draws b (step b c)
unfolding step revoke on_process_gone
step-Draws b (issues target caps ttl session now) = issue-Draws b target caps ttl session now
step-Draws b (revokes token) = record { token_drawn = omega arith; session_drawn = omega arith }
step-Draws b (begins caller token now) = elim (Result-cases (begin_session b caller token now)) [
  | inl (r, done) ↦ rw done (begin_session-Draws b caller token now r done)
  | inr (x, failed) ↦ rw failed (record { token_drawn = omega arith; session_drawn = omega arith })
]
step-Draws b (process_gone pid) =
    let kept : GrantBook = record b { grants = retain (λ g. not (g.pid == pid)) b.grants } in
    let (session, tokens) = purge_led-next (find_led pid b.sessions) kept in
    record { token_drawn = omega (arith, tokens); session_drawn = omega (arith, session) }

-- Neither counter wraps during so many calls.
pub record HasRoom (b : GrantBook) (calls : ℕ) : Type 0 where
  pub token_left : b.next_token + calls < 2 ^ 64
  pub session_left : b.next_session + calls < 2 ^ 64

pub step-HasRoom :
    (b : GrantBook) (c : Call) (calls : ℕ) → HasRoom b (suc calls) → HasRoom (step b c) calls
step-HasRoom b c calls h =
    let d = step-Draws b c in
    record {
      token_left = omega (arith, h.token_left, d.token_drawn);
      session_left = omega (arith, h.session_left, d.session_drawn);
    }

pub begun-HasRoom :
    (b : GrantBook) (caller : ProcessId) (token now : ℕ) (r : (ℕ × Option ℕ) × GrantBook)
    (calls : ℕ)
    → HasRoom b (suc calls)
    → begin_session b caller token now ≡ ok r
    → HasRoom r.1 calls
begun-HasRoom b caller token now r calls h e =
    let d = begin_session-Draws b caller token now r e in
    record {
      token_left = omega (arith, h.token_left, d.token_drawn);
      session_left = omega (arith, h.session_left, d.session_drawn);
    }

pub step-IsBook :
    (b : GrantBook) (c : Call) (calls : ℕ) → HasRoom b (suc calls) → IsBook b → IsBook (step b c)
unfolding step
step-IsBook b (issues target caps ttl session now) calls h v =
    issue-IsBook b target caps ttl session now v (omega (arith, h.token_left))
step-IsBook b (revokes token) calls h v = revoke-IsBook b token v
step-IsBook b (begins caller token now) calls h v =
    elim (Result-cases (begin_session b caller token now)) [
      | inl (r, done) ↦
          rw done (begin_session-IsBook b caller token now r done (omega (arith, h.session_left)) v)
      | inr (x, failed) ↦ rw failed v
    ]
step-IsBook b (process_gone pid) calls h v = (gone-Freed b pid v).book

-- Whatever calls are made, in any order, as long as neither counter runs out of 64 bits: tokens and
-- session ids stay distinct and below their counters, each process leads one session at most, both
-- tables keep to their capacity, and every row has a scope without the right to issue and is a login
-- token exactly with CAP_SESSION.
pub run-IsBook :
    (b : GrantBook) (cs : List Call) → HasRoom b (length cs) → IsBook b → IsBook (run b cs)
unfolding run
run-IsBook b [] h v = v
run-IsBook b (c ∷ cs) h v =
    run-IsBook (step b c) cs (step-HasRoom b c (length cs) h) (step-IsBook b c (length cs) h v)
