-- ===== src/Ipc/Channel/Wakeups.antt =====
-- No lost wakeups: whoever is blocked on a channel has no envelope of its own queued there.
use zero_os.Common.{
  ℕ, ◌≤◌, ◌≡◌, refl, ◌≢◌, true, false, inl, inr, List, Option, none, some, ◌==◌, Bool-cases,
  Option-cases, arith,
}
use zero_os.Common.Result.{Result, ok, err, >>=-eq-ok}
use zero_os.Ipc.Queue.{ProcessId, Message, Envelope, MessageQueue, IpcError, channel_busy, empty}
use zero_os.Ipc.Queue
use zero_os.Ipc.Queue.Ring.{contents, IsQueue, pushed-IsQueue, pushed-contents}
use zero_os.Ipc.Queue.Pending.{
  pending, pending-snoc, push-inv, take_first-none, take_first-some, pop_for-ok, pop_for-empty,
  pop_for-len,
}
use zero_os.Ipc.Channel.{
  Channel, is_waiting, pop_waiter_for, add_waiter, enlist, ensure_access, ensure_groups, send,
  receive, receive_or_enlist, receive_or_register_waiter, unregister_waiter, raw_target,
}
use zero_os.Ipc.Channel.Waiters.{
  Distinct, pop_waiter_for-Within, pop_waiter_for-Distinct, take_waiter-gone, add_waiter-waiting,
  add_waiter-Distinct, remove_waiter-Within, remove_waiter-Distinct,
}

pub record IsAwake (c : Channel) : Type 0 where
  pub ring : IsQueue c.queue
  pub bounded : c.queue.len ≤ c.capacity
  pub capped : c.capacity ≤ 16
  pub distinct : Distinct c.waiters
  pub quiet :
      (p : ProcessId) → p ≢ 0 → is_waiting p c.waiters ≡ true → pending p (contents c.queue) ≡ false

target_gone :
    (ws : List (Option ProcessId)) (target : Option ProcessId) (p : ProcessId)
    → Distinct ws
    → p ≢ 0
    → is_waiting p (pop_waiter_for ws target).1 ≡ true
    → (raw_target target == p) ≡ false
unfolding pop_waiter_for
target_gone ws none p d n h = ground arith
target_gone ws (some t) p d n h = elim (Bool-cases (t == p)) [
  | inl same ↦
      let e : t ≡ p = ground arith in absurd (ground (arith, rw e at (take_waiter-gone t ws d)))
  | inr other ↦ other
]

sent-IsAwake :
    (c : Channel) (target : Option ProcessId) (env : Envelope) (r : MessageQueue)
    → env.target ≡ raw_target target
    → Queue.push c.queue env c.capacity ≡ ok r
    → IsAwake c
    → IsAwake (record c { queue = r; waiters = (pop_waiter_for c.waiters target).1 })
sent-IsAwake c target env r at_target sent a =
    let (room, shape) = push-inv c.queue env c.capacity r a.bounded sent in
    let capped : c.capacity ≤ 16 = a.capped in
    record {
      ring = rw shape (pushed-IsQueue c.queue env a.ring (omega arith));
      bounded = rw shape (omega arith);
      capped = capped;
      distinct = pop_waiter_for-Distinct c.waiters target a.distinct;
      quiet = λ p n h. rw (
        shape,
        pushed-contents c.queue env a.ring (omega arith),
        pending-snoc p (contents c.queue) env,
        a.quiet p n (pop_waiter_for-Within c.waiters target p h),
        at_target,
        target_gone c.waiters target p a.distinct n h,
      );
    }

popped-IsAwake :
    (c : Channel) (caller : ProcessId) (env : Envelope) (r : MessageQueue)
    → Queue.pop_for c.queue caller ≡ ok (env, r)
    → IsAwake c
    → IsAwake (record c { queue = r })
popped-IsAwake c caller env r taken a =
    let (ring, rest) = pop_for-ok c.queue caller env r a.ring taken in
    record {
      ring = ring;
      bounded = omega (arith, pop_for-len c.queue caller env r taken, a.bounded);
      capped = a.capped;
      distinct = a.distinct;
      quiet = λ p n h.
          take_first-some caller (contents c.queue) (contents r) env p rest (a.quiet p n h);
    }

-- A caller that found nothing may take a place.
enlist-IsAwake :
    (c : Channel) (caller : ProcessId) (d : Channel)
    → pending caller (contents c.queue) ≡ false
    → enlist c caller ≡ ok d
    → IsAwake c
    → IsAwake d
unfolding enlist
enlist-IsAwake c caller d nothing e a = elim (Bool-cases (is_waiting caller c.waiters)) [
  | inl already ↦ let same : c ≡ d = ground arith in rw (← same) a
  | inr new ↦ elim (Option-cases (add_waiter caller c.waiters)) [
    | inl full ↦ absurd (ground arith)
    | inr (ws, placed) ↦
        let shape : d ≡ record c { waiters = ws } = ground arith in
        rw shape (record {
          ring = a.ring;
          bounded = a.bounded;
          capped = a.capped;
          distinct = add_waiter-Distinct caller c.waiters ws placed new a.distinct;
          quiet =
              λ p n h. ground (arith, add_waiter-waiting caller c.waiters ws p placed, a.quiet p n);
        })
  ]
]

-- What a successful send does to the channel.
pub send-inv :
    (caps : ProcessId → ℕ) (caller : ProcessId) (target : Option ProcessId) (msg : Message)
    (c : Channel) (w : Option ProcessId) (d : Channel)
    → send caps caller target msg c ≡ ok (w, d)
    → (r : MessageQueue) × (Queue.push c.queue
          (record { sender = caller; target = raw_target target; message = msg })
          c.capacity
        ≡ ok r)
      × (w ≡ (pop_waiter_for c.waiters target).0)
      × (d ≡ record c { queue = r; waiters = (pop_waiter_for c.waiters target).1 })
unfolding send
send-inv caps caller target msg c w d e =
    let (u, access, e₁) = >>=-eq-ok (ensure_access c.owner caller) _ e in
    let (v, groups, e₂) = >>=-eq-ok (ensure_groups caps c.tx_groups caller) _ e₁ in
    let (r, pushed', e₃) =
      >>=-eq-ok
        (Queue.push c.queue (record { sender = caller; target = raw_target target; message = msg })
          c.capacity)
        _ e₂ in
    (r, pushed', cc, cc)

pub receive-inv :
    (caps : ProcessId → ℕ) (caller : ProcessId) (c : Channel) (m : ProcessId × Message)
    (d : Channel)
    → receive caps caller c ≡ ok (m, d)
    → (env : Envelope) × (r : MessageQueue) × (Queue.pop_for c.queue caller ≡ ok (env, r))
      × (m ≡ (env.sender, env.message))
      × (d ≡ record c { queue = r })
unfolding receive
receive-inv caps caller c m d e =
    let (u, access, e₁) = >>=-eq-ok (ensure_access c.owner caller) _ e in
    let (v, groups, e₂) = >>=-eq-ok (ensure_groups caps c.rx_groups caller) _ e₁ in
    let (t, taken, e₃) = >>=-eq-ok (Queue.pop_for c.queue caller) _ e₂ in (t.0, t.1, taken, cc, cc)

receive_or_enlist-IsAwake :
    (caller : ProcessId) (c : Channel) (popped : Result IpcError (Envelope × MessageQueue))
    (m : Option (ProcessId × Message)) (d : Channel)
    → caller ≢ 0
    → Queue.pop_for c.queue caller ≡ popped
    → receive_or_enlist caller c popped ≡ ok (m, d)
    → IsAwake c
    → IsAwake d
unfolding receive_or_enlist
receive_or_enlist-IsAwake caller c (ok (env, r)) m d n p e a =
    let shape : record c { queue = r } ≡ d = cc in rw (← shape) (popped-IsAwake c caller env r p a)
receive_or_enlist-IsAwake caller c (err empty) m d n p e a =
    let (d', listed, e₁) = >>=-eq-ok (enlist c caller) _ e in
    let same : d' ≡ d = cc in
    rw (← same) (
      enlist-IsAwake c caller d'
        (take_first-none caller (contents c.queue) n (pop_for-empty c.queue caller a.ring p)) listed
        a)
receive_or_enlist-IsAwake caller c (err other) m d n p e a = absurd (cc)

-- The calls that the blocking receive is made of. `register_waiter` alone is not one of them.
pub data Step (caps : ProcessId → ℕ) (c d : Channel) : Type 0 where
  sends :
      (caller : ProcessId) (target : Option ProcessId) (msg : Message) (w : Option ProcessId)
      → send caps caller target msg c ≡ ok (w, d)
      → Step caps c d
  receives :
      (caller : ProcessId) (m : ProcessId × Message)
      → receive caps caller c ≡ ok (m, d)
      → Step caps c d
  receives_or_blocks :
      (caller : ProcessId) (m : Option (ProcessId × Message))
      → caller ≢ 0
      → receive_or_register_waiter caps caller c ≡ ok (m, d)
      → Step caps c d
  unregisters : (caller : ProcessId) → d ≡ unregister_waiter caller c → Step caps c d

pub data Reach (caps : ProcessId → ℕ) (c : Channel) : Channel → Type 0 where
  here : Reach caps c c
  next : {d e : Channel} → Reach caps c d → Step caps d e → Reach caps c e

Step-IsAwake : (caps : ProcessId → ℕ) (c d : Channel) → Step caps c d → IsAwake c → IsAwake d
unfolding receive_or_register_waiter unregister_waiter
Step-IsAwake caps c d (sends caller target msg w e) a =
    let (r, sent, woken, shape) = send-inv caps caller target msg c w d e in
    rw shape (sent-IsAwake c target _ r refl sent a)
Step-IsAwake caps c d (receives caller m e) a =
    let (env, r, taken, got, shape) = receive-inv caps caller c m d e in
    rw shape (popped-IsAwake c caller env r taken a)
Step-IsAwake caps c d (receives_or_blocks caller m n e) a =
    let (u, access, e₁) = >>=-eq-ok (ensure_access c.owner caller) _ e in
    let (v, groups, e₂) = >>=-eq-ok (ensure_groups caps c.rx_groups caller) _ e₁ in
    receive_or_enlist-IsAwake caller c _ m d n refl e₂ a
Step-IsAwake caps c d (unregisters caller e) a = rw e (record {
  ring = a.ring;
  bounded = a.bounded;
  capped = a.capped;
  distinct = remove_waiter-Distinct caller c.waiters a.distinct;
  quiet = λ p n h. a.quiet p n (remove_waiter-Within caller c.waiters p h);
})

-- From a well-formed channel on, whatever is sent, received, waited for by processes other than 0 and
-- given up, in any order: nobody stays blocked while an envelope of its own is queued.
pub Reach-IsAwake : (caps : ProcessId → ℕ) (c d : Channel) → IsAwake c → Reach caps c d → IsAwake d
Reach-IsAwake caps c d a here = a
Reach-IsAwake caps c e a (next {d = d} r s) = Step-IsAwake caps d e s (Reach-IsAwake caps c d a r)
