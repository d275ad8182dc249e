-- ===== src/Ipc/Queue/Pending.antt =====
-- Whether an envelope for a given process is queued, and how the queue's operations change that.
use zero_os.Common.{
  ℕ, ◌≤◌, ◌<◌, ◌≡◌, refl, sym, ap, ◌∙◌, ◌≢◌, Bool, true, false, ◌||◌, inl, inr, List, [], ◌∷◌, ◌++◌,
  Option, none, some, ◌==◌, Option-cases, arith,
}
use zero_os.Common.Result.{ok, err}
use zero_os.Ipc.Queue.{
  ProcessId, Envelope, MessageQueue, IpcError, empty, eligible, push, take_at, pop_for,
}
use zero_os.Ipc.Queue.Ring.{contents, IsQueue, take_first, pushed}
use zero_os.Ipc.Queue.Refines.{Pops, pop_for-Pops}

abbrev pub pending : ProcessId → List Envelope → Bool
pending p [] = false
pending p (e ∷ es) = e.target == p || pending p es

pub pending-snoc :
    (p : ProcessId) (es : List Envelope) (e : Envelope)
    → pending p (es ++ e ∷ []) ≡ (pending p es || e.target == p)
pending-snoc p [] e = ground arith
pending-snoc p (x ∷ es) e = ground (arith, pending-snoc p es e)

-- A successful push had room, and wrote one slot.
pub push-inv :
    (q : MessageQueue) (e : Envelope) (capacity : ℕ) (r : MessageQueue)
    → q.len ≤ capacity
    → push q e capacity ≡ ok r
    → (q.len < capacity) × (r ≡ pushed q e)
unfolding push
push-inv q e capacity r h ok' = ground arith

-- Where the caller finds nothing, nothing is queued for the caller.
pub take_first-none :
    (caller : ProcessId) (es : List Envelope)
    → caller ≢ 0
    → take_first caller es ≡ none
    → pending caller es ≡ false
unfolding take_first eligible
take_first-none caller [] h e = refl
take_first-none caller (x ∷ es) h e = ground (arith, take_first-none caller es h)

pub take_first-some :
    (caller : ProcessId) (es rest : List Envelope) (e : Envelope) (p : ProcessId)
    → take_first caller es ≡ some (e, rest)
    → pending p es ≡ false
    → pending p rest ≡ false
unfolding take_first
take_first-some caller [] rest e p h n = cc
take_first-some caller (x ∷ es) rest e p h n = elim (Option-cases (take_first caller es)) [
  | inl none' ↦ ground arith
  | inr ((f, fs), later) ↦ ground (arith, take_first-some caller es fs f p later)
]

-- What is taken was eligible.
pub take_first-eligible :
    (caller : ProcessId) (es rest : List Envelope) (e : Envelope)
    → take_first caller es ≡ some (e, rest)
    → eligible caller e ≡ true
unfolding take_first
take_first-eligible caller [] rest e h = cc
take_first-eligible caller (x ∷ es) rest e h = elim (Option-cases (take_first caller es)) [
  | inl none' ↦ ground arith
  | inr ((f, fs), later) ↦ ground (arith, take_first-eligible caller es fs f later)
]

pub pop_for-ok :
    (q : MessageQueue) (caller : ProcessId) (e : Envelope) (r : MessageQueue)
    → IsQueue q
    → pop_for q caller ≡ ok (e, r)
    → IsQueue r × (take_first caller (contents q) ≡ some (e, contents r))
pop_for-ok q caller e r v h = go (take_first caller (contents q)) refl (pop_for-Pops q caller v)
  where
    go :
        (o : Option (Envelope × List Envelope))
        → take_first caller (contents q) ≡ o
        → Pops o (pop_for q caller)
        → IsQueue r × (take_first caller (contents q) ≡ some (e, contents r))
    go none t p = absurd (cc)
    go (some (f, rest)) t (s, s_ok, s_ring, s_rest) =
        let same : f ≡ e = cc in
        let left : s ≡ r = cc in
        (rw (← left) s_ring, rw (← left, ← same) (t ∙ ap (λ x. some (f, x)) (sym s_rest)))

pub pop_for-empty :
    (q : MessageQueue) (caller : ProcessId)
    → IsQueue q
    → pop_for q caller ≡ err empty
    → take_first caller (contents q) ≡ none
pop_for-empty q caller v h = go (take_first caller (contents q)) refl (pop_for-Pops q caller v)
  where
    go :
        (o : Option (Envelope × List Envelope))
        → take_first caller (contents q) ≡ o
        → Pops o (pop_for q caller)
        → take_first caller (contents q) ≡ none
    go none t p = t
    go (some (f, rest)) t (s, s_ok, s_ring, s_rest) = absurd (cc)

pub pop_for-len :
    (q : MessageQueue) (caller : ProcessId) (e : Envelope) (r : MessageQueue)
    → pop_for q caller ≡ ok (e, r)
    → r.len ≤ q.len
unfolding pop_for take_at
pop_for-len q caller e r h = ground arith

pub pop_for-error :
    (q : MessageQueue) (caller : ProcessId) (e : IpcError) → pop_for q caller ≡ err e → e ≡ empty
unfolding pop_for take_at
pop_for-error q caller e h = ground arith
