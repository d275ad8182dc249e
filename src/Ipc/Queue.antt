-- ===== src/Ipc/Queue.antt =====
-- The ring of envelopes of a channel (`MessageQueue` of microkernel/src/ipc.rs).
pub mod Ring
pub mod Refines
pub mod Pending
use zero_os.Common.{
  ℕ, zero, suc, ◌+◌, ◌-◌, ◌%◌, Bool, true, false, ◌&&◌, ◌||◌, not, List, [], ◌∷◌, Option, none,
  some, ◌==◌, if◌then◌else◌, get_or, set, replicate,
}
use zero_os.Common.Result.{Result, ok, err}

abbrev pub max_queue : ℕ
max_queue = 16

-- `zero_abi::ProcessId`, a u64.
abbrev pub ProcessId : Type 0
ProcessId = ℕ

pub record Message : Type 0 where
  pub code : ℕ
  pub payload : List ℕ

abbrev pub empty_message : Message
empty_message = record { code = 0; payload = replicate 128 0 }

pub data IpcError : Type 0 where
  not_ready channel_busy invalid empty access_denied policy_denied : IpcError

-- Target 0 stands for every reader.
pub record Envelope : Type 0 where
  pub sender : ProcessId
  pub target : ProcessId
  pub message : Message

abbrev pub empty_envelope : Envelope
empty_envelope = record { sender = 0; target = 0; message = empty_message }

pub record MessageQueue : Type 0 where
  pub buf : List Envelope
  pub head : ℕ
  pub tail : ℕ
  pub len : ℕ

pub new : MessageQueue
new = record { buf = replicate max_queue empty_envelope; head = 0; tail = 0; len = 0 }

pub reset : MessageQueue → MessageQueue
reset q = record q { head = 0; tail = 0; len = 0 }

unfoldable pub push : MessageQueue → Envelope → ℕ → Result IpcError MessageQueue
push q msg capacity =
    if q.len == capacity
    then err channel_busy
    else ok
        (record q { buf = set q.buf q.tail msg; tail = (q.tail + 1) % max_queue; len = q.len + 1 })

-- `self.buf[(self.head + off) % MAX_QUEUE]`
abbrev pub slot : List Envelope → ℕ → ℕ → Envelope
slot buf head off = get_or buf ((head + off) % max_queue) empty_envelope

-- The test of `pop_for`: a broadcast, or an envelope for this caller.
unfoldable pub eligible : ProcessId → Envelope → Bool
eligible caller e = e.target == 0 || (not (caller == 0) && e.target == caller)

-- The search loop: `rounds` offsets are left, from `off` on.
unfoldable pub find_for : List Envelope → ℕ → ProcessId → ℕ → ℕ → Option ℕ
find_for buf head caller off zero = none
find_for buf head caller off (suc rounds) =
    let rest = find_for buf head caller (suc off) rounds in
    if eligible caller (slot buf head off) then some off else rest

-- The compaction loop: each of `rounds` entries from offset `j` on moves one place forward.
unfoldable pub compact : ℕ → ℕ → ℕ → List Envelope → List Envelope
compact head j zero buf = buf
compact head j (suc rounds) buf =
    compact head (suc j) rounds (set buf ((head + j) % max_queue) (slot buf head (suc j)))

-- What follows the search: take the envelope at `off` out and close the gap.
unfoldable pub take_at : MessageQueue → Option ℕ → Result IpcError (Envelope × MessageQueue)
take_at q none = err empty
take_at q (some off) = ok (
  slot q.buf q.head off,
  record q {
    buf = compact q.head off (q.len - 1 - off) q.buf;
    tail = (q.tail + max_queue - 1) % max_queue;
    len = q.len - 1;
  },
)

unfoldable pub pop_for : MessageQueue → ProcessId → Result IpcError (Envelope × MessageQueue)
pop_for q caller =
    if q.len == 0 then err empty else take_at q (find_for q.buf q.head caller 0 q.len)

pub pop : MessageQueue → Result IpcError (Envelope × MessageQueue)
pop q = pop_for q 0
