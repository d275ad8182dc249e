-- ===== src/Ipc/Channel/Access.antt =====
-- Who may send and receive on a channel.
use zero_os.Common.{ℕ, ◌≡◌, ◌↔◌, ◌⊎◌, inl, inr, true, Option, none, some, ◌==◌, Bool-cases, arith}
use zero_os.Common.Bits.{bit, meet_iff}
use zero_os.Common.Result.{Result, ok, ◌>>◌, >>=-eq-ok, guard-eq-ok}
use zero_os.Ipc.Queue.{ProcessId, Message, IpcError, access_denied, policy_denied}
use zero_os.Ipc.Channel.{
  Channel, group_allows, ensure_access, ensure_groups, send, receive, receive_or_register_waiter,
  register_waiter,
}

-- The mask is empty, or shares a capability bit with the caller's capabilities.
abbrev pub Allows : ℕ → ℕ → Type 0
Allows mask caps = (mask ≡ 0) ⊎ ((k : ℕ) × (bit k caps ≡ true) × (bit k mask ≡ true))

pub group_allows_iff : (mask caps : ℕ) → (group_allows mask caps ≡ true) ↔ Allows mask caps
unfolding group_allows
group_allows_iff mask caps = (reads, allowed)
  where
    reads : group_allows mask caps ≡ true → Allows mask caps
    reads h = elim (Bool-cases (mask == 0)) [
      | inl open' ↦ inl (ground arith)
      | inr closed ↦ inr ((meet_iff caps mask).0 (ground arith))
    ]

    allowed : Allows mask caps → group_allows mask caps ≡ true
    allowed (inl e) = ground arith
    allowed (inr shared) = ground (arith, (meet_iff caps mask).1 shared)

-- The channel has no owner, or the caller is the owner.
abbrev pub Owns : Option ProcessId → ProcessId → Type 0
Owns none caller = Unit
Owns (some owner) caller = owner ≡ caller

ensure_access-Owns :
    (o : Option ProcessId) (caller : ProcessId) {u : Unit {0}}
    → ensure_access o caller ≡ ok u
    → Owns o caller
unfolding ensure_access
ensure_access-Owns none caller e = tt
ensure_access-Owns (some owner) caller e =
    let passed = guard-eq-ok (owner == caller) access_denied e in ground arith

-- The two checks that each call starts with.
authorised :
    {B : Type 0} (caps : ProcessId → ℕ) (caller : ProcessId) (o : Option ProcessId) (mask : ℕ)
    (rest : Result IpcError B) {b : B}
    → (ensure_access o caller >> (ensure_groups caps mask caller >> rest)) ≡ ok b
    → Owns o caller × Allows mask (caps caller)
unfolding ensure_groups
authorised caps caller o mask rest e =
    let (u, owned, e₁) = >>=-eq-ok (ensure_access o caller) _ e in
    let (v, grouped, e₂) = >>=-eq-ok (ensure_groups caps mask caller) _ e₁ in
    (
      ensure_access-Owns o caller owned,
      (group_allows_iff mask (caps caller)).0 (guard-eq-ok _ policy_denied grouped),
    )

-- The successful calls of one process on a channel, each with the mask that its caller is held to.
pub data Uses (caps : ProcessId → ℕ) (caller : ProcessId) (c : Channel) : ℕ → Type 0 where
  sends :
      (target : Option ProcessId) (msg : Message) (r : Option ProcessId × Channel)
      → send caps caller target msg c ≡ ok r
      → Uses caps caller c c.tx_groups
  receives :
      (r : (ProcessId × Message) × Channel)
      → receive caps caller c ≡ ok r
      → Uses caps caller c c.rx_groups
  blocks :
      (r : Option (ProcessId × Message) × Channel)
      → receive_or_register_waiter caps caller c ≡ ok r
      → Uses caps caller c c.rx_groups
  registers :
      (r : Unit {0} × Channel)
      → register_waiter caps caller c ≡ ok r
      → Uses caps caller c c.rx_groups

-- A call that succeeds comes from a caller that may use the channel: the owner where there is one,
-- with a capability of the send mask (for `send`) or the receive mask (for the three others).
pub calls_authorised :
    (caps : ProcessId → ℕ) (caller : ProcessId) (c : Channel) (mask : ℕ)
    → Uses caps caller c mask
    → Owns c.owner caller × Allows mask (caps caller)
unfolding send receive receive_or_register_waiter register_waiter ensure_groups
calls_authorised caps caller c mask (sends target msg r e) =
    authorised caps caller c.owner c.tx_groups _ e
calls_authorised caps caller c mask (receives r e) = authorised caps caller c.owner c.rx_groups _ e
calls_authorised caps caller c mask (blocks r e) = authorised caps caller c.owner c.rx_groups _ e
calls_authorised caps caller c mask (registers r e) = authorised caps caller c.owner c.rx_groups _ e
