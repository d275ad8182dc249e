-- ===== src/Shm/Window.antt =====
-- The search for a virtual address: the loop of `find_va` ends, and finds the first fit.
use zero_os.Common.{
  ℕ, zero, suc, ◌+◌, ◌*◌, ◌-◌, ◌^◌, ◌≤◌, ◌<◌, ◌≡◌, refl, ◌⊎◌, inl, inr, ◌&&◌, List, [], ◌∷◌, Option,
  none, some, ◌==◌, ltb, leb, if◌then◌else◌, length, All, Bool-cases, Option-cases, arith,
}
use zero_os.Common.Bits.Align.{bit_and-align}
use zero_os.Common.Result.{Result, ok, err}
use zero_os.Ipc.Queue.{ProcessId}
use zero_os.Shm.{
  page, shm_base, shm_end, ShmError, capacity, Mapping, align_up, collision, round, search_va,
  find_va, settled, retry,
}

-- `align_up` gives the next page boundary, and fails when that is not below 2 ^ 64.
pub align_up_lem :
    (v : ℕ)
    → ((q : ℕ) × (align_up v ≡ some (page * q)) × (v ≤ page * q) × (page * q < v + page))
      ⊎ ((align_up v ≡ none) × (2 ^ 64 ≤ v + (page - 1)))
unfolding align_up
align_up_lem v = elim (Bool-cases (ltb (v + (page - 1)) (2 ^ 64))) [
  | inl fits ↦
      let (q, low, below, above) = bit_and-align 12 52 (v + (page - 1)) (ground arith) in
      inl (q, rw (fits, low) refl, omega arith, omega arith)
  | inr over ↦ inr (rw over refl, ground arith)
]

module _ (pid : ProcessId) (len : ℕ) where
  -- `va .. va + len` meets no mapping of the process.
  abbrev pub IsFree : List Mapping → ℕ → Type 0
  IsFree ms va = All (λ m. m.pid ≡ pid → (va + len ≤ m.va) ⊎ (m.va + m.len ≤ va)) ms

  -- The mappings of the process that end above an address.
  ahead : List Mapping → ℕ → ℕ
  ahead [] va = 0
  ahead (m ∷ ms) va =
      if (m.pid == pid) && ltb va (m.va + m.len) then suc (ahead ms va) else ahead ms va

  ahead-le : (ms : List Mapping) (a b : ℕ) → a ≤ b → ahead ms b ≤ ahead ms a
  unfolding ahead
  ahead-le [] a b h = omega arith
  ahead-le (m ∷ ms) a b h = ground (arith, ahead-le ms a b h)

  ahead-length : (ms : List Mapping) (a : ℕ) → ahead ms a ≤ length ms
  unfolding ahead
  ahead-length [] a = omega arith
  ahead-length (m ∷ ms) a = ground (arith, ahead-length ms a)

  no_collision-IsFree : (ms : List Mapping) (va : ℕ) → collision pid va len ms ≡ none → IsFree ms va
  unfolding collision
  no_collision-IsFree [] va e = tt
  no_collision-IsFree (m ∷ ms) va e = ground (arith, no_collision-IsFree ms va)

  record Met (ms : List Mapping) (va next : ℕ) : Type 0 where
    above : va < next
    taken : (v : ℕ) → va ≤ v → v < next → ¬ IsFree ms v
    fewer : (after : ℕ) → next ≤ after → ahead ms after < ahead ms va

  collision-Met :
      (ms : List Mapping) (va next : ℕ) → collision pid va len ms ≡ some next → Met ms va next
  unfolding collision ahead
  collision-Met [] va next e = cc
  collision-Met (m ∷ ms) va next e =
      elim (Bool-cases ((m.pid == pid) && (ltb va (m.va + m.len) && ltb m.va (va + len)))) [
        | inl here ↦
            let ends : m.va + m.len ≡ next = ground (arith, here) in
            record {
              above = ground arith;
              taken = λ v from below free. ground (arith, free.0);
              fewer = λ after h. ground (arith, ahead-le ms va after);
            }
        | inr other ↦
            let rest : Met ms va next = collision-Met ms va next (ground (arith, other)) in
            record {
              above = rest.above;
              taken = λ v from below free. rest.taken v from below free.1;
              fewer = λ after h. ground (arith, rest.fewer after h, rest.above);
            }
      ]

  -- Every page boundary of the window below `va` is taken.
  abbrev pub TakenBelow : List Mapping → ℕ → Type 0
  TakenBelow ms va = (q : ℕ) → shm_base ≤ page * q → page * q < va → ¬ IsFree ms (page * q)

  -- The answers of a first-fit search of the window.
  pub data FirstFit (ms : List Mapping) : Option (Result ShmError ℕ) → Type 0 where
    fits :
        (q : ℕ)
        → shm_base ≤ page * q
        → page * q + len ≤ shm_end
        → IsFree ms (page * q)
        → TakenBelow ms (page * q)
        → FirstFit ms (some (ok (page * q)))
    full :
        ((q : ℕ) → shm_base ≤ page * q → page * q + len ≤ shm_end → ¬ IsFree ms (page * q))
        → FirstFit ms (some (err capacity))

  taken-full :
      (ms : List Mapping) (va : ℕ)
      → TakenBelow ms va
      → shm_end < va + len
      → FirstFit ms (some (err capacity))
  taken-full ms va taken over = full (λ q from inside free. taken q from (omega arith) free)

  -- What a round at a page boundary decides, and why.
  data Decides (ms : List Mapping) (q : ℕ) : Type 0 where
    no_room :
        round pid len ms (page * q) ≡ settled (err capacity)
        → shm_end < page * q + len
        → Decides ms q
    free :
        round pid len ms (page * q) ≡ settled (ok (page * q))
        → page * q + len ≤ shm_end
        → IsFree ms (page * q)
        → Decides ms q
    again :
        (next p : ℕ)
        → round pid len ms (page * q) ≡ retry (page * p)
        → Met ms (page * q) next
        → next ≤ page * p
        → page * p < next + page
        → Decides ms q
    beyond :
        (next : ℕ)
        → round pid len ms (page * q) ≡ settled (err capacity)
        → Met ms (page * q) next
        → 2 ^ 64 ≤ next + (page - 1)
        → Decides ms q

  round-Decides : (ms : List Mapping) (q : ℕ) → Decides ms q
  unfolding round
  round-Decides ms q = elim (Bool-cases (leb (2 ^ 64) (page * q + len))) [
    | inl wraps ↦ no_room (rw wraps refl) (ground arith)
    | inr word ↦ elim (Bool-cases (ltb shm_end (page * q + len))) [
      | inl over ↦ no_room (rw (word, over) refl) (ground arith)
      | inr inside ↦ elim (Option-cases (collision pid (page * q) len ms)) [
        | inl clear ↦
            free (rw (word, inside, clear) refl) (ground arith)
              (no_collision-IsFree ms (page * q) clear)
        | inr (next, met) ↦ elim (align_up_lem next) [
          | inl (p, up, from, near) ↦
              again next p (rw (word, inside, met, up) refl) (collision-Met ms (page * q) next met)
                from near
          | inr (up, over) ↦
              beyond next (rw (word, inside, met, up) refl) (collision-Met ms (page * q) next met)
                over
        ]
      ]
    ]
  ]

  -- What was taken below, and what a collision takes.
  taken_on :
      (ms : List Mapping) (q next p : ℕ)
      → TakenBelow ms (page * q)
      → Met ms (page * q) next
      → page * p < next + page
      → TakenBelow ms (page * p)
  taken_on ms q next p taken c near r from below clear =
      elim (Bool-cases (ltb (page * r) (page * q))) [
        | inl before ↦ taken r from (ground arith) clear
        | inr after ↦ c.taken (page * r) (ground arith) (omega arith) clear
      ]

  search_va-FirstFit :
      (fuel : ℕ) (ms : List Mapping) (q : ℕ)
      → ahead ms (page * q) < fuel
      → shm_base ≤ page * q
      → TakenBelow ms (page * q)
      → FirstFit ms (search_va fuel pid len ms (page * q))
  unfolding search_va
  search_va-FirstFit zero ms q enough from taken = absurd (omega arith)
  search_va-FirstFit (suc fuel) ms q enough from taken = elim (round-Decides ms q) [
    | no_room e over ↦ rw (search_va, e) (taken-full ms (page * q) taken over)
    | free e inside clear ↦ rw (search_va, e) (fits q from inside clear taken)
    | again next p e c up near ↦
        rw (search_va, e)
          (search_va-FirstFit fuel ms p (omega (arith, c.fewer (page * p) up))
            (omega (arith, c.above)) (taken_on ms q next p taken c near))
    | beyond next e c over ↦
        rw (search_va, e)
          (full (λ r low inside clear.
            taken_on ms q next (suc r) taken c (omega arith) r low (omega arith) clear))
  ]

  -- Whatever mappings there are, the loop of `find_va` ends after at most one round for each mapping
  -- and one more: with the first page boundary of the window at which `len` bytes meet no mapping of
  -- the process and end inside the window, or with Capacity when there is no such boundary.
  pub find_va_lem : (ms : List Mapping) → FirstFit ms (find_va pid len ms)
  unfolding find_va
  find_va_lem ms =
      search_va-FirstFit (suc (length ms)) ms 131072 (omega (arith, ahead-length ms shm_base))
        (omega arith) (λ q from below. absurd (omega arith))
