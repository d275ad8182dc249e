-- ===== src/Ipc/Channel.antt =====
-- One channel (`Channel` of microkernel/src/ipc.rs): its access rules, its blocked receivers and
-- what `ChannelTable` does with the channel once it has found it.
-- `effective_caps` stands for `security::effective_caps`, which the kernel asks at each call.
pub mod Waiters
pub mod Wakeups
pub mod Access
pub mod Delivery
use Prim.Native.Nat.{bit_and}
use zero_os.Common.{
  ℕ, Bool, true, false, ◌&&◌, ◌||◌, not, List, [], ◌∷◌, Option, none, some, ◌==◌, if◌then◌else◌,
  replicate, min, max,
}
use zero_os.Common.Result.{Result, ok, err, ◌>>=◌, ◌>>◌, guard}
use zero_os.Ipc.Queue.{
  ProcessId, Message, IpcError, channel_busy, invalid, empty, access_denied, policy_denied,
  not_ready, Envelope, MessageQueue, max_queue,
}
use zero_os.Ipc.Queue

abbrev pub waiters_per_channel : ℕ
waiters_per_channel = 4

-- `zero_abi::ipc::ChannelDesc`
pub record ChannelDesc : Type 0 where
  pub id : ℕ
  pub capacity : ℕ
  pub tx_groups : ℕ
  pub rx_groups : ℕ

pub record Channel : Type 0 where
  pub in_use : Bool
  pub id : ℕ
  pub capacity : ℕ
  pub owner : Option ProcessId
  pub tx_groups : ℕ
  pub rx_groups : ℕ
  pub queue : MessageQueue
  pub waiters : List (Option ProcessId)

abbrev pub no_waiters : List (Option ProcessId)
no_waiters = replicate waiters_per_channel none

pub new : Channel
new = record {
  in_use = false;
  id = 0;
  capacity = 0;
  owner = none;
  tx_groups = 0;
  rx_groups = 0;
  queue = Queue.new;
  waiters = no_waiters;
}

pub reset : Channel → Channel
reset c = record {
  in_use = false;
  id = 0;
  capacity = 0;
  owner = none;
  tx_groups = 0;
  rx_groups = 0;
  queue = Queue.reset c.queue;
  waiters = no_waiters;
}

unfoldable pub configure : Channel → ChannelDesc → Option ProcessId → Channel
configure c desc owner = record {
  in_use = true;
  id = desc.id;
  capacity = max (min desc.capacity max_queue) 1;
  owner = owner;
  tx_groups = desc.tx_groups;
  rx_groups = desc.rx_groups;
  queue = Queue.reset c.queue;
  waiters = no_waiters;
}

-- `*w == Some(pid)`
abbrev pub waits : ProcessId → Option ProcessId → Bool
waits pid none = false
waits pid (some w) = w == pid

-- `waiters.iter().any(|w| *w == Some(pid))`
unfoldable pub is_waiting : ProcessId → List (Option ProcessId) → Bool
is_waiting pid [] = false
is_waiting pid (w ∷ ws) = waits pid w || is_waiting pid ws

-- The first slot that holds `pid` is taken.
unfoldable pub take_waiter :
    ProcessId → List (Option ProcessId) → Option ProcessId × List (Option ProcessId)
take_waiter pid [] = (none, [])
take_waiter pid (w ∷ ws) =
    let (taken, rest) = take_waiter pid ws in
    if waits pid w then (w, none ∷ ws) else (taken, w ∷ rest)

-- The first slot that holds anybody is taken.
pub take_any_waiter : List (Option ProcessId) → Option ProcessId × List (Option ProcessId)
take_any_waiter [] = (none, [])
take_any_waiter (some w ∷ ws) = (some w, none ∷ ws)
take_any_waiter (none ∷ ws) = let (taken, rest) = take_any_waiter ws in (taken, none ∷ rest)

unfoldable pub pop_waiter_for :
    List (Option ProcessId) → Option ProcessId → Option ProcessId × List (Option ProcessId)
pop_waiter_for ws (some target) = take_waiter target ws
pop_waiter_for ws none = take_any_waiter ws

-- The first empty slot is filled; `none` if there is none.
pub add_waiter : ProcessId → List (Option ProcessId) → Option (List (Option ProcessId))
add_waiter pid [] = none
add_waiter pid (none ∷ ws) = some (some pid ∷ ws)
add_waiter pid (some w ∷ ws) = elim (add_waiter pid ws) [
  | none ↦ none
  | some rest ↦ some (some w ∷ rest)
]

pub remove_waiter : ProcessId → List (Option ProcessId) → List (Option ProcessId)
remove_waiter pid [] = []
remove_waiter pid (w ∷ ws) = (if waits pid w then none else w) ∷ remove_waiter pid ws

unfoldable pub group_allows : ℕ → ℕ → Bool
group_allows mask caller_caps = mask == 0 || not (bit_and caller_caps mask == 0)

unfoldable pub ensure_access : Option ProcessId → ProcessId → Result IpcError (Unit {0})
ensure_access none caller = ok tt
ensure_access (some owner) caller = guard (owner == caller) access_denied

-- The tail of the blocking receive and of `register_waiter`: register once, while there is room.
unfoldable pub enlist : Channel → ProcessId → Result IpcError Channel
enlist c caller = if is_waiting caller c.waiters then ok c else elim (add_waiter caller c.waiters) [
  | none ↦ err channel_busy
  | some ws ↦ ok (record c { waiters = ws })
]

-- `target.unwrap_or(ProcessId::new(0))`
abbrev pub raw_target : Option ProcessId → ProcessId
raw_target none = 0
raw_target (some t) = t

-- The `match` on the pop: a message now, or a place among the waiters.
unfoldable pub receive_or_enlist :
    ProcessId
    → Channel
    → Result IpcError (Envelope × MessageQueue)
    → Result IpcError (Option (ProcessId × Message) × Channel)
receive_or_enlist caller c (ok (env, queue)) =
    ok (some (env.sender, env.message), record c { queue = queue })
receive_or_enlist caller c (err empty) = do c' ← enlist c caller; ok (none, c')
receive_or_enlist caller c (err e) = err e

module _ (effective_caps : ProcessId → ℕ) where
  unfoldable pub ensure_groups : ℕ → ProcessId → Result IpcError (Unit {0})
  ensure_groups mask caller = guard (group_allows mask (effective_caps caller)) policy_denied

  unfoldable pub send :
      ProcessId
      → Option ProcessId
      → Message
      → Channel
      → Result IpcError (Option ProcessId × Channel)
  unfolding ensure_groups
  send caller target msg c = do
    ensure_access c.owner caller
    ensure_groups c.tx_groups caller
    queue ←
        Queue.push c.queue (record { sender = caller; target = raw_target target; message = msg })
          c.capacity
    let woken = pop_waiter_for c.waiters target
    ok (woken.0, record c { queue = queue; waiters = woken.1 })

  unfoldable pub receive : ProcessId → Channel → Result IpcError ((ProcessId × Message) × Channel)
  unfolding ensure_groups
  receive caller c = do
    ensure_access c.owner caller
    ensure_groups c.rx_groups caller
    popped ← Queue.pop_for c.queue caller
    ok ((popped.0.sender, popped.0.message), record c { queue = popped.1 })

  unfoldable pub receive_or_register_waiter :
      ProcessId → Channel → Result IpcError (Option (ProcessId × Message) × Channel)
  unfolding ensure_groups
  receive_or_register_waiter caller c = do
    ensure_access c.owner caller
    ensure_groups c.rx_groups caller
    receive_or_enlist caller c (Queue.pop_for c.queue caller)

  unfoldable pub register_waiter : ProcessId → Channel → Result IpcError (Unit {0} × Channel)
  unfolding ensure_groups
  register_waiter caller c = do
    ensure_access c.owner caller
    ensure_groups c.rx_groups caller
    c' ← enlist c caller
    ok (tt, c')

pub unregister_waiter : ProcessId → Channel → Channel
unregister_waiter caller c = record c { waiters = remove_waiter caller c.waiters }
