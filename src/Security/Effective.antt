-- ===== src/Security/Effective.antt =====
-- The effective capabilities: the static ones and those of the rows that are in force.
use Prim.Native.Nat.{bit_or}
use zero_os.Common.{
  ℕ, ◌<◌, ◌≡◌, ◌↔◌, ◌⊎◌, refl, inl, inr, Bool, true, false, ◌&&◌, ◌||◌, not, List, [], ◌∷◌, ◌==◌,
  ltb, leb, length, All, All-append, Bool-cases, arith,
}
use zero_os.Common.Result.{Result-cases}
use zero_os.Common.Bits.{bit, bit-bit_or, bit_and-pow}
use zero_os.Common.Retain.{any, retain, retain-All}
use zero_os.Ipc.Queue.{ProcessId}
use zero_os.Security.{
  Grant, GrantBook, covers, effective, effective_from, revoke, new, meets, cap_issuer, issue, sweep,
  granted, remove_grant, find_led, begin_session, open_session, on_process_gone,
}
use zero_os.Security.Histories.{
  Call, issues, revokes, begins, process_gone, step, run, begin_session-inv,
}
use zero_os.Security.Sessions.{purge_led-All}

-- Some row in force carries capability k.
abbrev pub grants_bit : ℕ → ProcessId → ℕ → ℕ → List Grant → Bool
grants_bit k pid session now = any (λ g. covers g pid session now && bit k g.caps)

effective_from-bit :
    (k : ℕ) (gs : List Grant) (pid : ProcessId) (caps session now : ℕ)
    → bit k (effective_from gs pid caps session now)
      ≡ (bit k caps || grants_bit k pid session now gs)
unfolding effective_from any
effective_from-bit k [] pid caps session now = ground arith
effective_from-bit k (g ∷ gs) pid caps session now = elim (Bool-cases (covers g pid session now)) [
  | inl on ↦ rw on (
      ground (
        arith,
        effective_from-bit k gs pid (bit_or caps g.caps) session now,
        bit-bit_or k caps g.caps,
      ))
  | inr off ↦ rw off (ground (arith, effective_from-bit k gs pid caps session now))
]

effective-grants_bit :
    (k : ℕ) (b : GrantBook) (pid : ProcessId) (base session now : ℕ)
    → bit k (effective b pid base session now)
      ≡ (bit k base || grants_bit k pid session now b.grants)
unfolding effective
effective-grants_bit k b pid base session now = effective_from-bit k b.grants pid base session now

-- The row gives the capability to the process in that session at that time.
pub record Gives (k : ℕ) (pid : ProcessId) (session now : ℕ) (g : Grant) : Type 0 where
  pub names : g.pid ≡ pid
  pub in_time : now < g.expires_at
  pub for_session : (g.session ≡ 0) ⊎ (g.session ≡ session)
  pub carries : bit k g.caps ≡ true

covers-Gives :
    (k : ℕ) (pid : ProcessId) (session now : ℕ) (g : Grant)
    → ((covers g pid session now && bit k g.caps) ≡ true) ↔ Gives k pid session now g
unfolding covers
covers-Gives k pid session now g = (
  λ e. record {
    names = ground (arith, e);
    in_time = ground (arith, e);
    for_session = elim (Bool-cases (g.session == 0)) [
      | inl unbound ↦ inl (ground (arith, unbound))
      | inr bound ↦ inr (ground (arith, e, bound))
    ];
    carries = ground (arith, e);
  },
  λ h. ground (arith, h.names, h.in_time, h.for_session, h.carries),
)

-- Some row of the book has the property.
abbrev pub SomeRow : (Grant → Type 0) → List Grant → Type 0
SomeRow P [] = ⊥
SomeRow P (g ∷ gs) = P g ⊎ SomeRow P gs

grants_bit-SomeRow :
    (k : ℕ) (pid : ProcessId) (session now : ℕ) (gs : List Grant)
    → (grants_bit k pid session now gs ≡ true) ↔ SomeRow (Gives k pid session now) gs
unfolding any
grants_bit-SomeRow k pid session now [] = (λ e. cc, λ h. absurd h)
grants_bit-SomeRow k pid session now (x ∷ xs) =
    let (gives, given) = covers-Gives k pid session now x in
    let (later, earlier) = grants_bit-SomeRow k pid session now xs in
    (
      λ e. elim (Bool-cases (covers x pid session now && bit k x.caps)) [
        | inl here ↦ inl (gives here)
        | inr lacks ↦ inr (later (ground (arith, e, lacks)))
      ],
      λ h. elim h [
        | inl here ↦ let on = given here in ground (arith, on)
        | inr rest ↦ let on = earlier rest in ground (arith, on)
      ],
    )

-- A process has a capability exactly when its static bitmap has it, or some row of the book carries
-- it, names the process, has not expired, and is unbound or bound to the session of the process.
pub effective-bit :
    (k : ℕ) (b : GrantBook) (pid : ProcessId) (base session now : ℕ)
    → (bit k (effective b pid base session now) ≡ true)
      ↔ ((bit k base ≡ true) ⊎ SomeRow (Gives k pid session now) b.grants)
effective-bit k b pid base session now =
    let both = effective-grants_bit k b pid base session now in
    let rows = grants_bit-SomeRow k pid session now b.grants in
    (
      λ e. elim (Bool-cases (bit k base)) [
        | inl own ↦ inl own
        | inr lacks ↦ inr (rows.0 (ground (arith, e, both, lacks)))
      ],
      λ h. elim h [
        | inl own ↦ ground (arith, both, own)
        | inr row ↦ let granted = rows.1 row in ground (arith, both, granted)
      ],
    )

-- No row carries the right to issue.
abbrev NoIssuer : List Grant → Type 0
NoIssuer gs = All (λ g. meets g.caps cap_issuer ≡ false) gs

issue-NoIssuer :
    (b : GrantBook) (target : ProcessId) (caps ttl session now : ℕ)
    → NoIssuer b.grants
    → NoIssuer (issue b target caps ttl session now).1.grants
unfolding issue sweep granted
issue-NoIssuer b target caps ttl session now a =
    let kept =
      retain-All (λ g. meets g.caps cap_issuer ≡ false) (λ (g : Grant). ltb now g.expires_at)
        b.grants a in
    elim (Bool-cases (caps == 0 || meets caps cap_issuer)) [
      | inl refused ↦ rw refused a
      | inr scoped ↦
          rw scoped
            (elim (Bool-cases
              (leb 16 (length (retain (λ (g : Grant). ltb now g.expires_at) b.grants)))) [
                | inl full ↦ rw full kept
                | inr room ↦ rw room (All-append _ _ _ kept (ground (arith, scoped), tt))
              ])
    ]

remove_grant-NoIssuer :
    (token : ℕ) (gs : List Grant) → NoIssuer gs → NoIssuer (remove_grant token gs)
unfolding remove_grant
remove_grant-NoIssuer token [] a = tt
remove_grant-NoIssuer token (g ∷ gs) a = elim (Bool-cases (g.token == token)) [
  | inl hit ↦ rw hit (a.1)
  | inr miss ↦ rw miss (a.0, remove_grant-NoIssuer token gs a.1)
]

step-NoIssuer : (b : GrantBook) (c : Call) → NoIssuer b.grants → NoIssuer (step b c).grants
unfolding step revoke on_process_gone open_session
step-NoIssuer b (issues target caps ttl session now) a =
    issue-NoIssuer b target caps ttl session now a
step-NoIssuer b (revokes token) a = retain-All _ _ b.grants a
step-NoIssuer b (begins caller token now) a =
    elim (Result-cases (begin_session b caller token now)) [
      | inl (r, done) ↦
          let (g, checked, shape) = begin_session-inv b caller token now r done in
          rw (done, shape)
            (purge_led-All _ (find_led caller b.sessions)
              (record b { grants = remove_grant token b.grants })
              (remove_grant-NoIssuer token b.grants a))
      | inr (x, failed) ↦ rw failed a
    ]
step-NoIssuer b (process_gone pid) a =
    purge_led-All _ (find_led pid b.sessions)
      (record b { grants = retain (λ g. not (g.pid == pid)) b.grants }) (retain-All _ _ b.grants a)

run-NoIssuer : (b : GrantBook) (cs : List Call) → NoIssuer b.grants → NoIssuer (run b cs).grants
unfolding run
run-NoIssuer b [] a = a
run-NoIssuer b (c ∷ cs) a = run-NoIssuer (step b c) cs (step-NoIssuer b c a)

without_issuer :
    (gs : List Grant) (pid : ProcessId) (session now : ℕ)
    → NoIssuer gs
    → grants_bit 5 pid session now gs ≡ false
unfolding any
without_issuer [] pid session now a = refl
without_issuer (g ∷ gs) pid session now a =
    ground (arith, without_issuer gs pid session now a.1, bit_and-pow g.caps 5, a.0)

-- The right to issue cannot be passed on: whatever calls were made on a fresh book, a process has
-- CAP_ISSUER effectively exactly when its static bitmap has it.
pub issuer_not_delegated :
    (cs : List Call) (pid : ProcessId) (base session now : ℕ)
    → bit 5 (effective (run new cs) pid base session now) ≡ bit 5 base
issuer_not_delegated cs pid base session now =
    let b = run new cs in
    ground (
      arith,
      effective-grants_bit 5 b pid base session now,
      without_issuer b.grants pid session now (run-NoIssuer new cs (unfold new in tt)),
    )

any-retain :
    (test keep : Grant → Bool) (gs : List Grant)
    → any test (retain keep gs) ≡ any (λ g. test g && keep g) gs
unfolding any retain
any-retain test keep [] = refl
any-retain test keep (g ∷ gs) = ground (arith, any-retain test keep gs)

-- A revocation takes effect at once: the capabilities are those of the other rows in force.
pub effective-revoke :
    (k : ℕ) (b : GrantBook) (token : ℕ) (pid : ProcessId) (base session now : ℕ)
    → bit k (effective (revoke b token).1 pid base session now) ≡ (
        bit k base
        || any (λ g. (covers g pid session now && bit k g.caps) && not (g.token == token)) b.grants)
unfolding revoke
effective-revoke k b token pid base session now = rw (
  effective-grants_bit k (revoke b token).1 pid base session now,
  any-retain (λ g. covers g pid session now && bit k g.caps) (λ g. not (g.token == token)) b.grants,
)
