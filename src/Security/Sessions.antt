-- ===== src/Security/Sessions.antt =====
-- Sessions: what a login (also over an old session) and the end of a process leave behind.
use zero_os.Common.{
  ℕ, suc, ◌≡◌, refl, ap, ◌∙◌, ◌≢◌, inl, inr, false, not, List, [], ◌∷◌, ◌++◌, Option, none, some,
  ◌==◌, All, Bool, if◌then◌else◌, Bool-cases, Option-cases, arith,
}
use zero_os.Common.Result.{ok}
use zero_os.Common.Retain.{retain, retain-All}
use zero_os.Common.Ascending.{Ascending, retain_below}
use zero_os.Ipc.Queue.{ProcessId}
use zero_os.Security.{
  Grant, SessionRecord, GrantBook, find_led, purge_session_book, purge_led, open_session,
  begin_session, on_process_gone, remove_grant,
}
use zero_os.Security.Invariant.{IsBook, retain-IsBook}
use zero_os.Security.Histories.{
  purge_led-Freed, led-id, begin_session-inv, spent-IsBook, purge_led-next,
}

-- Purging the session of one leader leaves the other leaders' sessions.
find_led-kept :
    (p leader : ProcessId) (lo : ℕ) (ss : List SessionRecord) (s : SessionRecord)
    → p ≢ leader
    → Ascending (λ (x : SessionRecord). x.id) lo ss
    → find_led leader ss ≡ some s
    → find_led p (retain (λ x. not (x.id == s.id)) ss) ≡ find_led p ss
unfolding find_led retain
find_led-kept p leader lo [] s n a e = refl
find_led-kept p leader lo (x ∷ xs) s n a e = elim (Bool-cases (x.leader == leader)) [
  | inl hit ↦ ground (arith, retain_below (λ (y : SessionRecord). y.id) s.id (suc x.id) xs)
  | inr miss ↦
      ground
        (arith, led-id leader (suc x.id) xs s a.1, find_led-kept p leader (suc x.id) xs s n a.1)
]

-- A row that is bound to the session found, if any.
abbrev pub bound_to : Option SessionRecord → Grant → Bool
bound_to none g = false
bound_to (some s) g = g.session == s.id

-- The session that a process leads is gone with everything bound to it, the other sessions stay.
pub record Dissolved (p : ProcessId) (before : List SessionRecord) (c : GrantBook) : Type 0 where
  pub leads : (q : ProcessId) → find_led q c.sessions ≡ (if q == p then none else find_led q before)
  pub unbound : All (λ g. bound_to (find_led p before) g ≡ false) c.grants

unbound-All : (gs : List Grant) → All (λ g. bound_to none g ≡ false) gs
unbound-All [] = tt
unbound-All (g ∷ gs) = (refl, unbound-All gs)

elsewhere :
    (p q : ProcessId) (o o' : Option SessionRecord)
    → (q ≡ p → o ≡ none)
    → (q ≢ p → o ≡ o')
    → o ≡ (if q == p then none else o')
elsewhere p q o o' same other = ground (arith, same, other)

dropped :
    (sid : ℕ) (gs : List Grant)
    → All (λ (g : Grant). (g.session == sid) ≡ false) (retain (λ g. not (g.session == sid)) gs)
unfolding retain
dropped sid [] = tt
dropped sid (g ∷ gs) = ground (arith, dropped sid gs)

purge_led-Dissolved :
    (p : ProcessId) (b : GrantBook)
    → IsBook b
    → Dissolved p b.sessions (purge_led b (find_led p b.sessions)).1
unfolding purge_led
purge_led-Dissolved p b v = elim (Option-cases (find_led p b.sessions)) [
  | inl none' ↦
      rw (none', purge_led)
        (record {
          leads = λ q. elsewhere p q _ _ (λ e. rw e none') (λ n. refl);
          unbound = rw none' (unbound-All b.grants);
        })
  | inr (s, led) ↦
      let real : (s.id == 0) ≡ false = ground (arith, led-id p 1 b.sessions s v.sids led) in
      let free = (purge_led-Freed p b v).leaderless in
      rw (led, purge_led)
        (record {
          leads = λ q.
              elsewhere p q _ _ (λ e. rw e (rw (led, purge_led) at free))
                (λ n.
                  unfold purge_session_book in
                  rw real (find_led-kept q p 1 b.sessions s n v.sids led));
          unbound = rw led (unfold purge_session_book in rw real (dropped s.id b.grants));
        })
]

find_led-snoc_self :
    (p : ProcessId) (ss : List SessionRecord) (i : ℕ)
    → find_led p ss ≡ none
    → find_led p (ss ++ record { id = i; leader = p } ∷ []) ≡ some (record { id = i; leader = p })
unfolding find_led
find_led-snoc_self p [] i e = ground arith
find_led-snoc_self p (x ∷ xs) i e = ground (arith, find_led-snoc_self p xs i)

find_led-snoc_ne :
    (q p : ProcessId) (ss : List SessionRecord) (i : ℕ)
    → q ≢ p
    → find_led q (ss ++ record { id = i; leader = p } ∷ []) ≡ find_led q ss
unfolding find_led
find_led-snoc_ne q p [] i n = ground arith
find_led-snoc_ne q p (x ∷ xs) i n = ground (arith, find_led-snoc_ne q p xs i)

purge_led-dead :
    (o : Option SessionRecord) (b : GrantBook)
    → (purge_led b o).0 ≡ elim o [ none ↦ none | some s ↦ some s.id ]
unfolding purge_led
purge_led-dead none b = refl
purge_led-dead (some s) b = refl

-- A login gives the caller a session of its own under a new id, and reports the session that it led
-- before, if any; no row bound to that old session is left, and every other session stays.
pub begin_session_lem :
    (b : GrantBook) (caller p : ProcessId) (token now : ℕ) (r : (ℕ × Option ℕ) × GrantBook)
    → IsBook b
    → p ≢ caller
    → begin_session b caller token now ≡ ok r
    → (r.0.0 ≡ b.next_session)
      × (r.0.1 ≡ elim (find_led caller b.sessions) [ none ↦ none | some s ↦ some s.id ])
      × (find_led caller r.1.sessions ≡ some (record { id = b.next_session; leader = caller }))
      × All (λ g. bound_to (find_led caller b.sessions) g ≡ false) r.1.grants
      × (find_led p r.1.sessions ≡ find_led p b.sessions)
begin_session_lem b caller p token now r v n e =
    let (g, checked, shape) = begin_session-inv b caller token now r e in
    let spent : GrantBook = record b { grants = remove_grant token b.grants } in
    let d = purge_led-Dissolved caller spent (spent-IsBook b token v) in
    let next = (purge_led-next (find_led caller b.sessions) spent).0 in
    let left = (purge_led spent (find_led caller b.sessions)).1 in
    rw shape (
      unfold open_session in
      (
        next,
        purge_led-dead (find_led caller b.sessions) spent,
        find_led-snoc_self caller left.sessions left.next_session (ground (arith, d.leads caller))
            ∙ ap (λ i. some (record { id = i; leader = caller })) next,
        d.unbound,
        find_led-snoc_ne p caller left.sessions left.next_session n ∙ ground (arith, d.leads p),
      ))

pub purge_led-All :
    (P : Grant → Type 0) (o : Option SessionRecord) (b : GrantBook)
    → All P b.grants
    → All P (purge_led b o).1.grants
unfolding purge_led purge_session_book
purge_led-All P none b a = a
purge_led-All P (some s) b a = elim (Bool-cases (s.id == 0)) [
  | inl z ↦ rw z a
  | inr nz ↦ rw nz (retain-All P (λ (g : Grant). not (g.session == s.id)) b.grants a)
]

without_pid :
    (pid : ProcessId) (gs : List Grant)
    → All (λ (g : Grant). (g.pid == pid) ≡ false) (retain (λ g. not (g.pid == pid)) gs)
unfolding retain
without_pid pid [] = tt
without_pid pid (g ∷ gs) = ground (arith, without_pid pid gs)

-- When a process is gone, no row names it, it leads no session, no row is bound to the session that
-- it led, and the sessions of the other leaders stay.
pub on_process_gone_lem :
    (b : GrantBook) (pid : ProcessId)
    → IsBook b
    → All (λ (g : Grant). (g.pid == pid) ≡ false) (on_process_gone b pid).1.grants
      × Dissolved pid b.sessions (on_process_gone b pid).1
unfolding on_process_gone
on_process_gone_lem b pid v =
    let kept : GrantBook = record b { grants = retain (λ g. not (g.pid == pid)) b.grants } in
    (
      purge_led-All _ (find_led pid b.sessions) kept (without_pid pid b.grants),
      purge_led-Dissolved pid kept (retain-IsBook b _ v),
    )
