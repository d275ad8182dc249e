-- ===== src/ZfsCore/Journal/Recent.antt =====
-- The journal holds exactly the most recent entries.
use zero_os.Common.{
  ℕ, zero, suc, ◌+◌, ◌-◌, ◌%◌, ◌^◌, ◌≤◌, ◌<◌, ◌≡◌, ◌∙◌, refl, ap, inl, inr, List, [], ◌∷◌, ◌++◌,
  ◌==◌, length, length-append, Bool-cases, arith,
}
use zero_os.Common.Result.{Result, ok, ◌>>=◌}
use zero_os.ZfsCore.Journal.{Journal, JournalEntry, Panic, new, remove_first, record_entry}

abbrev pub skip : ℕ → List JournalEntry → List JournalEntry
skip zero es = es
skip (suc n) [] = []
skip (suc n) (e ∷ es) = skip n es

-- The last `n` entries of a history.
abbrev pub last_entries : ℕ → List JournalEntry → List JournalEntry
last_entries n es = skip (length es - n) es

length-skip : (n : ℕ) (es : List JournalEntry) → length (skip n es) ≡ length es - n
length-skip zero es = omega arith
length-skip (suc n) [] = omega arith
length-skip (suc n) (e ∷ es) = omega (arith, length-skip n es)

skip-append :
    (n : ℕ) (es fs : List JournalEntry) → n ≤ length es → skip n (es ++ fs) ≡ skip n es ++ fs
skip-append zero es fs h = refl
skip-append (suc n) [] fs h = absurd (omega arith)
skip-append (suc n) (e ∷ es) fs h = skip-append n es fs (omega arith)

-- Dropping the first of the entries that are left drops one more.
remove_first-skip :
    (n : ℕ) (es : List JournalEntry)
    → n < length es
    → remove_first (skip n es) ≡ ok (skip (suc n) es)
unfolding remove_first
remove_first-skip n [] h = absurd (omega arith)
remove_first-skip zero (e ∷ es) h = refl
remove_first-skip (suc n) (e ∷ es) h = remove_first-skip n es (omega arith)

-- The journal after a history.
abbrev pub holding : ℕ → List JournalEntry → Journal
holding capacity es = record {
  entries = last_entries capacity es;
  capacity = capacity;
  sequence = length es % 2 ^ 64;
}

record_entry-holding :
    (capacity : ℕ) (es : List JournalEntry) (e : JournalEntry)
    → 0 < capacity
    → record_entry (holding capacity es) e ≡ ok (holding capacity (es ++ e ∷ []))
unfolding record_entry
record_entry-holding capacity es e h =
    let size = length-append es (e ∷ []) in
    let more : length (es ++ e ∷ []) ≡ suc (length es) = omega arith in
    let count : (length es % 2 ^ 64 + 1) % 2 ^ 64 ≡ suc (length es) % 2 ^ 64 = omega arith in
    elim (Bool-cases (length (skip (length es - capacity) es) == capacity)) [
      | inl full ↦
          let left = length-skip (length es - capacity) es in
          let one : suc (length es) - capacity ≡ suc (length es - capacity) = ground arith in
          let fits : suc (length es - capacity) ≤ length es = ground arith in
          rw
            (
              full,
              remove_first-skip (length es - capacity) es (omega arith),
              more,
              count,
              one,
              skip-append (suc (length es - capacity)) es (e ∷ []) fits,
            )
            refl
      | inr room ↦
          let left = length-skip (length es - capacity) es in
          let none' : length es - capacity ≡ 0 = ground arith in
          let none'' : suc (length es) - capacity ≡ 0 = ground arith in
          rw (room, more, count, none', none'') refl
    ]

unfoldable pub record_all : Journal → List JournalEntry → Result Panic Journal
record_all j [] = ok j
record_all j (e ∷ es) = do k ← record_entry j e; record_all k es

append-cons : (es fs : List JournalEntry) (e : JournalEntry) → (es ++ e ∷ []) ++ fs ≡ es ++ e ∷ fs
append-cons [] fs e = refl
append-cons (x ∷ es) fs e = ap (λ ys. x ∷ ys) (append-cons es fs e)

record_all-holding :
    (capacity : ℕ) (es fs : List JournalEntry)
    → 0 < capacity
    → record_all (holding capacity es) fs ≡ ok (holding capacity (es ++ fs))
unfolding record_all
record_all-holding capacity es [] h = rw (append-nil es) refl
  where
    append-nil : (es : List JournalEntry) → es ++ [] ≡ es
    append-nil [] = refl
    append-nil (e ∷ es) = ap (λ ys. e ∷ ys) (append-nil es)
record_all-holding capacity es (f ∷ fs) h =
    rw (record_entry-holding capacity es f h)
      (record_all-holding capacity (es ++ f ∷ []) fs h ∙ rw (append-cons es fs f) refl)

-- A journal with room for at least one entry never panics. After any history it holds exactly the
-- last entries of it, as many as it has room for, in their order, and counts them all (modulo 2 ^ 64).
pub record_all_lem :
    (capacity : ℕ) (es : List JournalEntry)
    → 0 < capacity
    → record_all (new capacity) es ≡ ok (holding capacity es)
unfolding new
record_all_lem capacity es h =
    let nothing : 0 - capacity ≡ 0 = omega arith in
    rw nothing at (record_all-holding capacity [] es h)
