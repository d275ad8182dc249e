-- ===== src/Ipc/Channel/Waiters.antt =====
-- The places of the blocked receivers of a channel.
use zero_os.Common.{
  ◌≡◌, refl, true, false, ◌||◌, inl, inr, List, [], ◌∷◌, Option, none, some, ◌==◌, if◌then◌else◌,
  Option-cases, arith,
}
use zero_os.Ipc.Queue.{ProcessId}
use zero_os.Ipc.Channel.{
  is_waiting, take_waiter, take_any_waiter, pop_waiter_for, add_waiter, remove_waiter,
}

-- Nobody holds two places.
abbrev pub Distinct : List (Option ProcessId) → Type 0
Distinct [] = Unit
Distinct (none ∷ ws) = Distinct ws
Distinct (some w ∷ ws) = (is_waiting w ws ≡ false) × Distinct ws

-- Everybody who waits in `vs` waits in `ws`.
abbrev pub Within : List (Option ProcessId) → List (Option ProcessId) → Type 0
Within vs ws = (p : ProcessId) → is_waiting p vs ≡ true → is_waiting p ws ≡ true

not_waiting-Within :
    (p : ProcessId) (vs ws : List (Option ProcessId))
    → Within vs ws
    → is_waiting p ws ≡ false
    → is_waiting p vs ≡ false
not_waiting-Within p vs ws h e = ground (arith, h p)

take_waiter-Within : (t : ProcessId) (ws : List (Option ProcessId)) → Within (take_waiter t ws).1 ws
unfolding take_waiter is_waiting
take_waiter-Within t [] p h = h
take_waiter-Within t (none ∷ ws) p h = ground (arith, take_waiter-Within t ws p)
take_waiter-Within t (some w ∷ ws) p h = ground (arith, take_waiter-Within t ws p)

take_waiter-Distinct :
    (t : ProcessId) (ws : List (Option ProcessId)) → Distinct ws → Distinct (take_waiter t ws).1
unfolding take_waiter
take_waiter-Distinct t [] d = tt
take_waiter-Distinct t (none ∷ ws) d = take_waiter-Distinct t ws d
take_waiter-Distinct t (some w ∷ ws) d = ground (
  arith,
  take_waiter-Distinct t ws d.1,
  not_waiting-Within w (take_waiter t ws).1 ws (take_waiter-Within t ws) d.0,
)

pub take_waiter-gone :
    (t : ProcessId) (ws : List (Option ProcessId))
    → Distinct ws
    → is_waiting t (take_waiter t ws).1 ≡ false
unfolding take_waiter is_waiting
take_waiter-gone t [] d = refl
take_waiter-gone t (none ∷ ws) d = take_waiter-gone t ws d
take_waiter-gone t (some w ∷ ws) d = ground (arith, take_waiter-gone t ws d.1)

pub take_waiter-woken :
    (t : ProcessId) (ws : List (Option ProcessId))
    → (take_waiter t ws).0 ≡ (if is_waiting t ws then some t else none)
unfolding take_waiter is_waiting
take_waiter-woken t [] = refl
take_waiter-woken t (none ∷ ws) = take_waiter-woken t ws
take_waiter-woken t (some w ∷ ws) = ground (arith, take_waiter-woken t ws)

take_any_waiter-Within : (ws : List (Option ProcessId)) → Within (take_any_waiter ws).1 ws
unfolding take_any_waiter is_waiting
take_any_waiter-Within [] p h = h
take_any_waiter-Within (none ∷ ws) p h = take_any_waiter-Within ws p h
take_any_waiter-Within (some w ∷ ws) p h = ground arith

take_any_waiter-Distinct :
    (ws : List (Option ProcessId)) → Distinct ws → Distinct (take_any_waiter ws).1
unfolding take_any_waiter
take_any_waiter-Distinct [] d = tt
take_any_waiter-Distinct (none ∷ ws) d = take_any_waiter-Distinct ws d
take_any_waiter-Distinct (some w ∷ ws) d = d.1

pub pop_waiter_for-Within :
    (ws : List (Option ProcessId)) (target : Option ProcessId)
    → Within (pop_waiter_for ws target).1 ws
unfolding pop_waiter_for
pop_waiter_for-Within ws none = take_any_waiter-Within ws
pop_waiter_for-Within ws (some t) = take_waiter-Within t ws

pub pop_waiter_for-Distinct :
    (ws : List (Option ProcessId)) (target : Option ProcessId)
    → Distinct ws
    → Distinct (pop_waiter_for ws target).1
unfolding pop_waiter_for
pop_waiter_for-Distinct ws none = take_any_waiter-Distinct ws
pop_waiter_for-Distinct ws (some t) = take_waiter-Distinct t ws

add_waiter-cons :
    (q w : ProcessId) (ws vs : List (Option ProcessId))
    → add_waiter q (some w ∷ ws) ≡ some vs
    → (rest : List (Option ProcessId)) × (add_waiter q ws ≡ some rest) × (vs ≡ some w ∷ rest)
unfolding add_waiter
add_waiter-cons q w ws vs e = elim (Option-cases (add_waiter q ws)) [
  | inl full ↦ absurd (ground arith)
  | inr (rest, placed) ↦ (rest, placed, ground arith)
]

-- After `add_waiter` the old waiters and the new one wait.
pub add_waiter-waiting :
    (q : ProcessId) (ws vs : List (Option ProcessId)) (p : ProcessId)
    → add_waiter q ws ≡ some vs
    → is_waiting p vs ≡ (q == p || is_waiting p ws)
unfolding add_waiter is_waiting
add_waiter-waiting q [] vs p e = cc
add_waiter-waiting q (none ∷ ws) vs p e = ground arith
add_waiter-waiting q (some w ∷ ws) vs p e =
    let (rest, placed, shape) = add_waiter-cons q w ws vs e in
    rw shape (ground (arith, add_waiter-waiting q ws rest p placed))

pub remove_waiter-Within :
    (q : ProcessId) (ws : List (Option ProcessId)) → Within (remove_waiter q ws) ws
unfolding remove_waiter is_waiting
remove_waiter-Within q [] p h = h
remove_waiter-Within q (none ∷ ws) p h = remove_waiter-Within q ws p h
remove_waiter-Within q (some w ∷ ws) p h = ground (arith, remove_waiter-Within q ws p)

pub remove_waiter-Distinct :
    (q : ProcessId) (ws : List (Option ProcessId)) → Distinct ws → Distinct (remove_waiter q ws)
unfolding remove_waiter
remove_waiter-Distinct q [] d = tt
remove_waiter-Distinct q (none ∷ ws) d = remove_waiter-Distinct q ws d
remove_waiter-Distinct q (some w ∷ ws) d = ground (
  arith,
  remove_waiter-Distinct q ws d.1,
  not_waiting-Within w (remove_waiter q ws) ws (remove_waiter-Within q ws) d.0,
)

pub add_waiter-Distinct :
    (q : ProcessId) (ws vs : List (Option ProcessId))
    → add_waiter q ws ≡ some vs
    → is_waiting q ws ≡ false
    → Distinct ws
    → Distinct vs
unfolding add_waiter is_waiting
add_waiter-Distinct q [] vs e n d = cc
add_waiter-Distinct q (none ∷ ws) vs e n d =
    let shape : vs ≡ some q ∷ ws = ground arith in rw shape (n, d)
add_waiter-Distinct q (some w ∷ ws) vs e n d =
    let (rest, placed, shape) = add_waiter-cons q w ws vs e in
    rw shape
      (ground (arith, add_waiter-waiting q ws rest w placed, add_waiter-Distinct q ws rest placed))
