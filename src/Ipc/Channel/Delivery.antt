-- ===== src/Ipc/Channel/Delivery.antt =====
-- What is sent to a process is what that process receives, and nobody else takes it.
use zero_os.Common.{
  ℕ, ◌<◌, ◌≤◌, ◌≡◌, refl, ◌∙◌, ◌≢◌, inl, inr, true, List, [], ◌∷◌, ◌++◌, Option, none, some, ◌==◌,
  if◌then◌else◌, Option-cases, arith,
}
use zero_os.Common.Result.{ok}
use zero_os.Ipc.Queue.{ProcessId, Message, Envelope, MessageQueue, eligible}
use zero_os.Ipc.Queue
use zero_os.Ipc.Queue.Ring.{contents, IsQueue, pushed-IsQueue, take_first, pushed, pushed-contents}
use zero_os.Ipc.Queue.Refines.{pop_for-Pops}
use zero_os.Ipc.Queue.Pending.{push-inv, pop_for-ok}
use zero_os.Ipc.Channel.{
  Channel, is_waiting, pop_waiter_for, ensure_access, group_allows, ensure_groups, send, receive,
}
use zero_os.Ipc.Channel.Waiters.{take_waiter-woken}
use zero_os.Ipc.Channel.Wakeups.{IsAwake, send-inv, receive-inv}

-- The envelopes for process t, oldest first.
pub addressed : ProcessId → List Envelope → List Envelope
addressed t [] = []
addressed t (e ∷ es) = if e.target == t then e ∷ addressed t es else addressed t es

take_first-addressed :
    (caller t : ProcessId) (es rest : List Envelope) (e : Envelope)
    → t ≢ 0
    → t ≢ caller
    → take_first caller es ≡ some (e, rest)
    → addressed t rest ≡ addressed t es
unfolding take_first addressed eligible
take_first-addressed caller t [] rest e n m h = cc
take_first-addressed caller t (x ∷ es) rest e n m h = elim (Option-cases (take_first caller es)) [
  | inl none' ↦ ground arith
  | inr ((f, fs), later) ↦ ground (arith, take_first-addressed caller t es fs f n m later)
]

-- A receive by one process never takes, loses or reorders the envelopes for another.
pub receive-keeps_others :
    (caps : ProcessId → ℕ) (caller t : ProcessId) (c d : Channel) (m : ProcessId × Message)
    → IsAwake c
    → t ≢ 0
    → t ≢ caller
    → receive caps caller c ≡ ok (m, d)
    → addressed t (contents d.queue) ≡ addressed t (contents c.queue)
receive-keeps_others caps caller t c d m a n o e =
    let (env, r, taken, got, shape) = receive-inv caps caller c m d e in
    let (ring, rest) = pop_for-ok c.queue caller env r a.ring taken in
    rw shape (take_first-addressed caller t (contents c.queue) (contents r) env n o rest)

take_first-snoc :
    (caller : ProcessId) (es : List Envelope) (e : Envelope)
    → take_first caller es ≡ none
    → eligible caller e ≡ true
    → take_first caller (es ++ e ∷ []) ≡ some (e, es)
unfolding take_first
take_first-snoc caller [] e h k = ground arith
take_first-snoc caller (x ∷ es) e h k = ground (arith, take_first-snoc caller es e)

pop_for-pushed :
    (q : MessageQueue) (env : Envelope) (t : ProcessId)
    → IsQueue q
    → q.len < 16
    → take_first t (contents q) ≡ none
    → eligible t env ≡ true
    → (s : MessageQueue) × (Queue.pop_for (pushed q env) t ≡ ok (env, s))
      × (contents s ≡ contents q)
pop_for-pushed q env t v room nothing k =
    let e : take_first t (contents (pushed q env)) ≡ some (env, contents q) =
      rw (pushed-contents q env v room) (take_first-snoc t (contents q) env nothing k) in
    let (s, popped, ring, rest) =
      rw e at (pop_for-Pops (pushed q env) t (pushed-IsQueue q env v room)) in
    (s, popped, rest)

-- A message sent to a process that may receive on the channel, and for which nothing is queued,
-- wakes that process if it waits, and is what its next receive returns, with the true sender; the
-- queue is then as before the send.
pub receive-send :
    (caps : ProcessId → ℕ) (caller t : ProcessId) (msg : Message) (c d : Channel)
    (w : Option ProcessId)
    → IsAwake c
    → t ≢ 0
    → send caps caller (some t) msg c ≡ ok (w, d)
    → take_first t (contents c.queue) ≡ none
    → ensure_access c.owner t ≡ ok tt
    → group_allows c.rx_groups (caps t) ≡ true
    → (w ≡ (if is_waiting t c.waiters then some t else none))
      × ((f : Channel) × (receive caps t d ≡ ok ((caller, msg), f))
          × (contents f.queue ≡ contents c.queue))
unfolding receive ensure_groups eligible pop_waiter_for
receive-send caps caller t msg c d w a n sent nothing access groups =
    let env : Envelope = record { sender = caller; target = t; message = msg } in
    let (r, queued, woken, shape) = send-inv caps caller (some t) msg c w d sent in
    let (room, pushed') = push-inv c.queue env c.capacity r a.bounded queued in
    let capped : c.capacity ≤ 16 = a.capped in
    let (s, popped, rest) =
      pop_for-pushed c.queue env t a.ring (omega arith) nothing (ground arith) in
    (
      woken ∙ take_waiter-woken t c.waiters,
      (
        record c { queue = s; waiters = (pop_waiter_for c.waiters (some t)).1 },
        rw (shape, pushed', access, groups, popped) refl,
        rest,
      ),
    )
