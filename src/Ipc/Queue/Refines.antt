-- ===== src/Ipc/Queue/Refines.antt =====
-- A pop takes an envelope out of the ring and closes the gap, read as an operation on the list of its
-- envelopes.
use zero_os.Common.{
  ℕ, zero, suc, ◌+◌, ◌-◌, ◌%◌, ◌≤◌, ◌<◌, ◌≡◌, refl, ap, ◌∙◌, inl, inr, List, ◌∷◌, ◌++◌, Option,
  none, some, ◌==◌, set, length, length-set, get_or-set_self, Bool-cases, ==_iff, Option-cases,
  arith,
}
use mathlib.Core.Path.{ap₂}
use native.Mathlib.Nat.{add-zero, zero-add, suc-add, sub-zero}
use zero_os.Common.Result.{Result, ok, err}
use zero_os.Ipc.Queue.{
  Envelope, MessageQueue, IpcError, empty, ProcessId, empty_envelope, slot, eligible, find_for,
  compact, take_at, pop_for, max_queue,
}
use zero_os.Ipc.Queue.Ring.{
  entries, contents, IsQueue, take_first, slot-set_ne', entries-set_before, add-suc-suc,
}

-- Closing the gap at `j` leaves the entries before it, and moves those after it up by one.
compact-slot_before :
    (head j rounds i : ℕ) (buf : List Envelope)
    → i < j
    → j + rounds < i + 16
    → slot (compact head j rounds buf) head i ≡ slot buf head i
unfolding compact
compact-slot_before head j zero i buf h k = refl
compact-slot_before head j (suc rounds) i buf h k =
    compact-slot_before head (suc j) rounds i _ (omega arith) (omega arith)
    ∙ slot-set_ne' buf head i j (slot buf head (suc j)) h (omega arith)

compact-before :
    (head j rounds off n : ℕ) (buf : List Envelope)
    → off + n ≤ j
    → j + rounds < off + 16
    → entries (compact head j rounds buf) head off n ≡ entries buf head off n
compact-before head j rounds off zero buf h k = refl
compact-before head j rounds off (suc n) buf h k = rw (
  compact-slot_before head j rounds off buf (omega arith) k,
  compact-before head j rounds (suc off) n buf (omega arith) (omega arith),
)

compact-sized :
    (head j rounds : ℕ) (buf : List Envelope) → length (compact head j rounds buf) ≡ length buf
unfolding compact
compact-sized head j zero buf = refl
compact-sized head j (suc rounds) buf = compact-sized head (suc j) rounds _ ∙ length-set buf _ _

compact-moved :
    (head j rounds : ℕ) (buf : List Envelope)
    → length buf ≡ 16
    → rounds < 16
    → entries (compact head j rounds buf) head j rounds ≡ entries buf head (suc j) rounds
unfolding compact
compact-moved head j zero buf z h = refl
compact-moved head j (suc rounds) buf z h =
    let moved = set buf ((head + j) % 16) (slot buf head (suc j)) in
    ap₂ ◌∷◌
      (compact-slot_before head (suc j) rounds j moved (omega arith) (omega arith)
        ∙ get_or-set_self buf ((head + j) % 16) (slot buf head (suc j)) empty_envelope
            (omega arith))
      (compact-moved head (suc j) rounds moved (length-set buf _ _ ∙ z) (omega arith)
        ∙ entries-set_before buf head j (suc (suc j)) rounds _ (omega arith) (omega arith))

entries-split :
    (buf : List Envelope) (head off n m : ℕ)
    → entries buf head off (n + m) ≡ entries buf head off n ++ entries buf head (off + n) m
entries-split buf head off zero m = rw (zero-add, add-zero)
entries-split buf head off (suc n) m =
    rw (suc-add, add-suc-suc off n)
      (ap (◌∷◌ (slot buf head off)) (entries-split buf head (suc off) n m))

-- The search returns an offset within its range.
find_for-range :
    (buf : List Envelope) (head : ℕ) (caller : ProcessId) (off n i : ℕ)
    → find_for buf head caller off n ≡ some i
    → (off ≤ i) × (i < off + n)
unfolding find_for
find_for-range buf head caller off zero i e = cc
find_for-range buf head caller off (suc n) i e =
    ground (arith, find_for-range buf head caller (suc off) n i)

-- The search finds what `take_first` takes.
find_for-take_first-none :
    (buf : List Envelope) (head : ℕ) (caller : ProcessId) (off n : ℕ)
    → find_for buf head caller off n ≡ none
    → take_first caller (entries buf head off n) ≡ none
unfolding find_for take_first
find_for-take_first-none buf head caller off zero e = refl
find_for-take_first-none buf head caller off (suc n) e =
    ground (arith, find_for-take_first-none buf head caller (suc off) n)

find_for-take_first-some :
    (buf : List Envelope) (head : ℕ) (caller : ProcessId) (off n i : ℕ)
    → find_for buf head caller off n ≡ some i
    → take_first caller (entries buf head off n)
      ≡ some (
        slot buf head i,
        entries buf head off (i - off) ++ entries buf head (suc i) (off + n - suc i),
      )
unfolding find_for take_first
find_for-take_first-some buf head caller off zero i e = cc
find_for-take_first-some buf head caller off (suc n) i e =
    elim (Bool-cases (eligible caller (slot buf head off))) [
      | inl hit ↦
          let here : off ≡ i = ground arith in
          let z : i - off ≡ 0 = omega arith in
          let w : off + suc n - suc i ≡ n = omega arith in rw (hit, z, w, ← here)
      | inr miss ↦
          let later : find_for buf head caller (suc off) n ≡ some i = ground arith in
          let above = (find_for-range buf head caller (suc off) n i later).0 in
          let z : i - off ≡ suc (i - suc off) = omega arith in
          let w : suc off + n ≡ off + suc n = omega arith in
          rw (miss, find_for-take_first-some buf head caller (suc off) n i later, z, w)
    ]

abbrev pub popped : MessageQueue → ℕ → MessageQueue
popped q off = record q {
  buf = compact q.head off (q.len - 1 - off) q.buf;
  tail = (q.tail + max_queue - 1) % max_queue;
  len = q.len - 1;
}

popped-IsQueue : (q : MessageQueue) (off : ℕ) → IsQueue q → off < q.len → IsQueue (popped q off)
popped-IsQueue q off v h = record {
  sized = compact-sized q.head off (q.len - 1 - off) q.buf ∙ v.sized;
  in_ring = v.in_ring;
  tail_at = omega (arith, v.tail_at, v.fits);
  fits = omega (arith, v.fits);
}

popped-contents :
    (q : MessageQueue) (off : ℕ)
    → IsQueue q
    → off < q.len
    → contents (popped q off)
      ≡ entries q.buf q.head 0 off ++ entries q.buf q.head (suc off) (q.len - suc off)
popped-contents q off v h =
    let e : q.len - 1 ≡ off + (q.len - 1 - off) = omega arith in
    let f : q.len - suc off ≡ q.len - 1 - off = omega arith in
    let fits : q.len ≤ 16 = v.fits in
    let buf = compact q.head off (q.len - 1 - off) q.buf in
    ap (entries buf q.head 0) e
    ∙ entries-split buf q.head 0 off (q.len - 1 - off)
    ∙ ap₂ ◌++◌ (compact-before q.head off (q.len - 1 - off) 0 off q.buf (omega arith) (omega arith))
        (rw (zero-add, f) (compact-moved q.head off (q.len - 1 - off) q.buf v.sized (omega arith)))

-- What a pop gives, against what `take_first` gives on the contents.
abbrev pub Pops :
    Option (Envelope × List Envelope) → Result IpcError (Envelope × MessageQueue) → Type 0
Pops none r = r ≡ err empty
Pops (some (e, rest)) r = (q : MessageQueue) × (r ≡ ok (e, q)) × IsQueue q × (contents q ≡ rest)

take_at-Pops :
    (q : MessageQueue) (caller : ProcessId)
    → IsQueue q
    → Pops (take_first caller (contents q)) (take_at q (find_for q.buf q.head caller 0 q.len))
unfolding take_at
take_at-Pops q caller v = elim (Option-cases (find_for q.buf q.head caller 0 q.len)) [
  | inl none' ↦ rw (none', find_for-take_first-none q.buf q.head caller 0 q.len none') refl
  | inr (off, found) ↦
      let below : off < q.len =
        omega (arith, (find_for-range q.buf q.head caller 0 q.len off found).1) in
      rw (found, find_for-take_first-some q.buf q.head caller 0 q.len off found, zero-add, sub-zero)
        (popped q off, refl, popped-IsQueue q off v below, popped-contents q off v below)
]

take_first_of_no_entries :
    (q : MessageQueue) (caller : ProcessId) → q.len ≡ 0 → take_first caller (contents q) ≡ none
unfolding take_first
take_first_of_no_entries q caller e = rw e

pub pop_for-Pops :
    (q : MessageQueue) (caller : ProcessId)
    → IsQueue q
    → Pops (take_first caller (contents q)) (pop_for q caller)
unfolding pop_for
pop_for-Pops q caller v = elim (Bool-cases (q.len == 0)) [
  | inl nil ↦ rw (nil, take_first_of_no_entries q caller ((==_iff q.len 0).0 nil)) refl
  | inr some' ↦ rw some' (take_at-Pops q caller v)
]
