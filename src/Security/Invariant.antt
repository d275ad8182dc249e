-- ===== src/Security/Invariant.antt =====
-- The invariant of the grant book, kept by every operation.
use zero_os.Common.{
  ℕ, suc, ◌+◌, ◌%◌, ◌^◌, ◌≤◌, ◌<◌, ◌≡◌, refl, sym, ap, ◌≢◌, inl, inr, Bool, false, not, ◌||◌, List,
  [], ◌∷◌, ◌++◌, none, some, ◌==◌, ltb, leb, length, length-append, All, All-append, All-imp,
  Bool-cases, arith,
}
use zero_os.Common.Retain.{retain, length-retain-le, retain-All}
use zero_os.Common.Ascending.{Ascending, Ascending-retain, Ascending-snoc, retain_below}
use zero_os.Ipc.Queue.{ProcessId}
use zero_os.Security.{
  Grant, SessionRecord, GrantBook, new, meets, cap_issuer, cap_session, sweep, granted, issue,
  revoke, remove_grant, find_led, purge_session_book,
}

-- A row was issued, carries some capability but never the right to issue, and is a login token
-- exactly when it carries the session capability.
pub record RowOk (next : ℕ) (g : Grant) : Type 0 where
  pub below : g.token < next
  pub scoped : g.caps ≢ 0
  pub no_issuer : meets g.caps cap_issuer ≡ false
  pub login : g.login_once ≡ meets g.caps cap_session

-- Each process leads one session at most.
abbrev pub LeadersDistinct : List SessionRecord → Type 0
LeadersDistinct [] = Unit
LeadersDistinct (s ∷ ss) = (find_led s.leader ss ≡ none) × LeadersDistinct ss

pub record IsBook (b : GrantBook) : Type 0 where
  pub tokens : Ascending (λ (g : Grant). g.token) 1 b.grants
  pub rows : All (RowOk b.next_token) b.grants
  pub counter : 1 ≤ b.next_token
  pub room : length b.grants ≤ 16
  pub sids : Ascending (λ (s : SessionRecord). s.id) 1 b.sessions
  pub below : All (λ (s : SessionRecord). s.id < b.next_session) b.sessions
  pub session_counter : 1 ≤ b.next_session
  pub leaders : LeadersDistinct b.sessions
  pub session_room : length b.sessions ≤ 8

pub new-IsBook : IsBook new
unfolding new
new-IsBook = record {
  tokens = tt;
  rows = tt;
  counter = omega arith;
  room = omega arith;
  sids = tt;
  below = tt;
  session_counter = omega arith;
  leaders = tt;
  session_room = omega arith;
}

-- Taking rows out of the book.
pub retain-IsBook :
    (b : GrantBook) (keep : Grant → Bool)
    → IsBook b
    → IsBook (record b { grants = retain keep b.grants })
retain-IsBook b keep v = record {
  tokens = Ascending-retain _ keep 1 b.grants v.tokens;
  rows = retain-All _ keep b.grants v.rows;
  counter = v.counter;
  room = omega (arith, length-retain-le keep b.grants, v.room);
  sids = v.sids;
  below = v.below;
  session_counter = v.session_counter;
  leaders = v.leaders;
  session_room = v.session_room;
}

-- In a book with ascending tokens, taking out the first row with a token takes out all such rows.
pub remove_grant-retain :
    (token lo : ℕ) (gs : List Grant)
    → Ascending (λ (g : Grant). g.token) lo gs
    → remove_grant token gs ≡ retain (λ g. not (g.token == token)) gs
unfolding remove_grant retain
remove_grant-retain token lo [] a = refl
remove_grant-retain token lo (g ∷ gs) a = elim (Bool-cases (g.token == token)) [
  | inl hit ↦
      rw hit (sym (retain_below (λ (x : Grant). x.token) token (suc g.token) gs (ground arith) a.1))
  | inr miss ↦ rw miss (ap (◌∷◌ g) (remove_grant-retain token (suc g.token) gs a.1))
]

find_led-retain :
    (p : ProcessId) (keep : SessionRecord → Bool) (ss : List SessionRecord)
    → find_led p ss ≡ none
    → find_led p (retain keep ss) ≡ none
unfolding find_led retain
find_led-retain p keep [] e = refl
find_led-retain p keep (s ∷ ss) e = ground (arith, find_led-retain p keep ss)

retain-LeadersDistinct :
    (keep : SessionRecord → Bool) (ss : List SessionRecord)
    → LeadersDistinct ss
    → LeadersDistinct (retain keep ss)
unfolding retain
retain-LeadersDistinct keep [] d = tt
retain-LeadersDistinct keep (s ∷ ss) d =
    ground (arith, retain-LeadersDistinct keep ss d.1, find_led-retain s.leader keep ss d.0)

find_led-snoc :
    (p : ProcessId) (ss : List SessionRecord) (s : SessionRecord)
    → find_led p ss ≡ none
    → (s.leader == p) ≡ false
    → find_led p (ss ++ s ∷ []) ≡ none
unfolding find_led
find_led-snoc p [] s e h = ground arith
find_led-snoc p (x ∷ xs) s e h = ground (arith, find_led-snoc p xs s)

pub snoc-LeadersDistinct :
    (ss : List SessionRecord) (s : SessionRecord)
    → LeadersDistinct ss
    → find_led s.leader ss ≡ none
    → LeadersDistinct (ss ++ s ∷ [])
unfolding find_led
snoc-LeadersDistinct [] s d e = (refl, tt)
snoc-LeadersDistinct (x ∷ xs) s d e =
    (find_led-snoc x.leader xs s d.0 (ground arith), snoc-LeadersDistinct xs s d.1 (ground arith))

-- Without the session that it leads, a process leads none.
pub find_led-purged :
    (p : ProcessId) (s : SessionRecord) (ss : List SessionRecord)
    → LeadersDistinct ss
    → find_led p ss ≡ some s
    → find_led p (retain (λ x. not (x.id == s.id)) ss) ≡ none
unfolding find_led retain
find_led-purged p s [] d e = cc
find_led-purged p s (x ∷ xs) d e = ground (
  arith,
  d.0,
  find_led-retain p (λ (y : SessionRecord). not (y.id == s.id)) xs,
  find_led-purged p s xs d.1,
)

pub purged-length :
    (p : ProcessId) (s : SessionRecord) (ss : List SessionRecord)
    → find_led p ss ≡ some s
    → length (retain (λ x. not (x.id == s.id)) ss) < length ss
unfolding find_led retain
purged-length p s [] e = cc
purged-length p s (x ∷ xs) e =
    ground (arith, length-retain-le (λ x. not (x.id == s.id)) xs, purged-length p s xs)

-- Revoking keeps the invariant.
pub revoke-IsBook : (b : GrantBook) (token : ℕ) → IsBook b → IsBook (revoke b token).1
unfolding revoke
revoke-IsBook b token v = retain-IsBook b _ v

RowOk-later : (next : ℕ) (gs : List Grant) → All (RowOk next) gs → All (RowOk (next + 1)) gs
RowOk-later next gs =
    All-imp
      (λ g r. record {
        below = omega (arith, r.below);
        scoped = r.scoped;
        no_issuer = r.no_issuer;
        login = r.login;
      })
      gs

issued-IsBook :
    (b : GrantBook) (g : Grant)
    → IsBook b
    → b.next_token + 1 < 2 ^ 64
    → length b.grants < 16
    → g.token ≡ b.next_token
    → RowOk (b.next_token + 1) g
    → IsBook (record b { next_token = (b.next_token + 1) % 2 ^ 64; grants = b.grants ++ g ∷ [] })
issued-IsBook b g v h room fresh ok' =
    let plain : (b.next_token + 1) % 2 ^ 64 ≡ b.next_token + 1 = omega arith in
    rw plain (record {
      tokens =
          Ascending-snoc _ 1 b.grants g (omega (arith, fresh, v.counter))
            (All-imp (λ x r. omega (arith, r.below, fresh)) b.grants v.rows) v.tokens;
      rows = All-append _ b.grants (g ∷ []) (RowOk-later b.next_token b.grants v.rows) (ok', tt);
      counter = omega arith;
      room = omega (arith, length-append b.grants (g ∷ []));
      sids = v.sids;
      below = v.below;
      session_counter = v.session_counter;
      leaders = v.leaders;
      session_room = v.session_room;
    })

pub issue-IsBook :
    (b : GrantBook) (target : ProcessId) (caps ttl session now : ℕ)
    → IsBook b
    → b.next_token + 1 < 2 ^ 64
    → IsBook (issue b target caps ttl session now).1
unfolding issue sweep
issue-IsBook b target caps ttl session now v h =
    elim (Bool-cases (caps == 0 || meets caps cap_issuer)) [
      | inl refused ↦ rw refused v
      | inr scoped ↦
          let swept = retain-IsBook b (λ g. ltb now g.expires_at) v in
          rw scoped
            (elim (Bool-cases
              (leb 16 (length (retain (λ (g : Grant). ltb now g.expires_at) b.grants)))) [
                | inl full ↦ rw full swept
                | inr room ↦ rw room (
                    issued-IsBook _ _ swept h (ground arith) (unfold granted in refl) (
                      unfold granted in
                      record {
                        below = omega arith;
                        scoped = ground arith;
                        no_issuer = ground arith;
                        login = refl;
                      }))
              ])
    ]

pub purge-IsBook : (b : GrantBook) (sid : ℕ) → IsBook b → IsBook (purge_session_book b sid)
unfolding purge_session_book
purge-IsBook b sid v = elim (Bool-cases (sid == 0)) [
  | inl none' ↦ rw none' v
  | inr some' ↦ rw some' (record {
    tokens = Ascending-retain _ _ 1 b.grants v.tokens;
    rows = retain-All _ _ b.grants v.rows;
    counter = v.counter;
    room = omega (arith, length-retain-le (λ (g : Grant). not (g.session == sid)) b.grants, v.room);
    sids = Ascending-retain _ _ 1 b.sessions v.sids;
    below = retain-All _ _ b.sessions v.below;
    session_counter = v.session_counter;
    leaders = retain-LeadersDistinct _ b.sessions v.leaders;
    session_room = omega (
      arith,
      length-retain-le (λ (s : SessionRecord). not (s.id == sid)) b.sessions,
      v.session_room,
    );
  })
]
