-- ===== src/Ipc/Queue/Ring.antt =====
-- The ring of `MessageQueue` as a list of envelopes, and the push.
use zero_os.Common.{
  ℕ, zero, suc, ◌+◌, ◌%◌, ◌≤◌, ◌<◌, ◌≡◌, refl, sym, ap, ◌∙◌, ◌≢◌, List, [], ◌∷◌, ◌++◌, Option, none,
  some, if◌then◌else◌, set, length, length-set, get_or-set_self, get_or-set_ne, arith,
}
use mathlib.Core.Path.{ap₂}
use native.Mathlib.Nat.{add-zero, zero-add}
use native.Mathlib.Numerals.{add-one}
use zero_os.Common.Result.{ok}
use zero_os.Ipc.Queue.{Envelope, MessageQueue, ProcessId, empty_envelope, slot, push, eligible}

-- `n` entries from offset `off` on.
abbrev pub entries : List Envelope → ℕ → ℕ → ℕ → List Envelope
entries buf head off zero = []
entries buf head off (suc n) = slot buf head off ∷ entries buf head (suc off) n

abbrev pub contents : MessageQueue → List Envelope
contents q = entries q.buf q.head 0 q.len

pub record IsQueue (q : MessageQueue) : Type 0 where
  pub sized : length q.buf ≡ 16
  pub in_ring : q.head < 16
  pub tail_at : q.tail ≡ (q.head + q.len) % 16
  pub fits : q.len ≤ 16

-- The abstract operation: take the first envelope that the caller may read.
unfoldable pub take_first : ProcessId → List Envelope → Option (Envelope × List Envelope)
take_first caller [] = none
take_first caller (e ∷ es) =
    if eligible caller e
    then some (e, es)
    else elim (take_first caller es) [ none ↦ none | some (f, fs) ↦ some (f, e ∷ fs) ]

-- Two offsets less than a turn apart are different places of the ring.
place_ne : (head i j : ℕ) → i < j → j < i + 16 → (head + i) % 16 ≢ (head + j) % 16
place_ne head i j h k = omega arith

slot-set_ne :
    (buf : List Envelope) (head i j : ℕ) (e : Envelope)
    → i < j
    → j < i + 16
    → slot (set buf ((head + i) % 16) e) head j ≡ slot buf head j
slot-set_ne buf head i j e h k =
    get_or-set_ne buf ((head + i) % 16) ((head + j) % 16) e empty_envelope (place_ne head i j h k)

pub slot-set_ne' :
    (buf : List Envelope) (head i j : ℕ) (e : Envelope)
    → i < j
    → j < i + 16
    → slot (set buf ((head + j) % 16) e) head i ≡ slot buf head i
slot-set_ne' buf head i j e h k =
    get_or-set_ne buf ((head + j) % 16) ((head + i) % 16) e empty_envelope
      (λ p. place_ne head i j h k (sym p))

-- Writing behind the entries leaves them alone.
pub entries-set_before :
    (buf : List Envelope) (head i off n : ℕ) (e : Envelope)
    → i < off
    → off + n ≤ i + 16
    → entries (set buf ((head + i) % 16) e) head off n ≡ entries buf head off n
entries-set_before buf head i off zero e h k = refl
entries-set_before buf head i off (suc n) e h k = rw (
  slot-set_ne buf head i off e h (omega arith),
  entries-set_before buf head i (suc off) n e (omega arith) (omega arith),
)

entries-set_after :
    (buf : List Envelope) (head i off n : ℕ) (e : Envelope)
    → off + n ≤ i
    → i < off + 16
    → entries (set buf ((head + i) % 16) e) head off n ≡ entries buf head off n
entries-set_after buf head i off zero e h k = refl
entries-set_after buf head i off (suc n) e h k = rw (
  slot-set_ne' buf head off i e (omega arith) k,
  entries-set_after buf head i (suc off) n e (omega arith) (omega arith),
)

pub add-suc-suc : (off n : ℕ) → off + suc n ≡ suc off + n
add-suc-suc off n = omega arith

entries-snoc :
    (buf : List Envelope) (head off n : ℕ)
    → entries buf head off (suc n) ≡ entries buf head off n ++ slot buf head (off + n) ∷ []
entries-snoc buf head off zero = rw add-zero
entries-snoc buf head off (suc n) =
    ap (◌∷◌ (slot buf head off)) (rw (add-suc-suc off n) (entries-snoc buf head (suc off) n))

abbrev pub pushed : MessageQueue → Envelope → MessageQueue
pushed q msg = record q { buf = set q.buf q.tail msg; tail = (q.tail + 1) % 16; len = q.len + 1 }

pub pushed-IsQueue :
    (q : MessageQueue) (msg : Envelope) → IsQueue q → q.len < 16 → IsQueue (pushed q msg)
pushed-IsQueue q msg v h = record {
  sized = length-set q.buf q.tail msg ∙ v.sized;
  in_ring = v.in_ring;
  tail_at = omega arith;
  fits = omega arith;
}

pub pushed-contents :
    (q : MessageQueue) (msg : Envelope)
    → IsQueue q
    → q.len < 16
    → contents (pushed q msg) ≡ contents q ++ msg ∷ []
pushed-contents q msg v h =
    rw (v.tail_at, add-one q.len, entries-snoc, zero-add)
      (ap₂ (λ a b. a ++ b ∷ [])
        (entries-set_after q.buf q.head q.len 0 q.len msg (omega arith) (omega arith))
        (get_or-set_self q.buf ((q.head + q.len) % 16) msg empty_envelope (omega arith)))

-- A push onto a queue with room appends, and the ring stays well formed.
pub push-contents :
    (q : MessageQueue) (msg : Envelope) (capacity : ℕ)
    → IsQueue q
    → q.len < capacity
    → capacity ≤ 16
    → (push q msg capacity ≡ ok (pushed q msg))
      × IsQueue (pushed q msg)
      × (contents (pushed q msg) ≡ contents q ++ msg ∷ [])
unfolding push
push-contents q msg capacity v h k =
    (ground arith, pushed-IsQueue q msg v (omega arith), pushed-contents q msg v (omega arith))
