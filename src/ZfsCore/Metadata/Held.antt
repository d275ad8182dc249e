-- ===== src/ZfsCore/Metadata/Held.antt =====
-- The blocks of a bank hold a payload, from its writing to its reading.
use zero_os.Common.{
  ℕ, zero, suc, ◌-◌, ◌*◌, ◌≤◌, ◌≡◌, refl, ap, ◌∙◌, inl, inr, min, false, List, [], ◌∷◌, ◌==◌,
  length, length-append, length-replicate, length-take, length-drop, take-append, take-drop,
  replicate, take, drop, arith,
}
use zero_os.Common.Result.{Result, ok, err, Result-cases}
use zero_os.ZfsCore.Bytes.{ZfsError, device}
use zero_os.ZfsCore.Metadata.Banks.{BlockDevice, pad, size, write_payload, read_payload}
use zero_os.ZfsCore.Metadata.Commit.{IsDevice, write_payload-other}

pad-take-length : (s : ℕ) (xs : List ℕ) → length (pad s (take s xs)) ≡ s
pad-take-length s xs = omega (
  arith,
  length-append (take s xs) (replicate (s - length (take s xs)) 0),
  length-replicate (s - length (take s xs)) (zero),
  length-take s xs,
)

-- The bytes of a chunk, read back from its block.
take-pad : (s : ℕ) (xs : List ℕ) → take (min s (length xs)) (pad s (take s xs)) ≡ take s xs
take-pad s xs = rw (← length-take s xs) (take-append (take s xs) _)

module _ {D : Type 0} (dev : BlockDevice D) (v : IsDevice dev) where
  -- The blocks from `lba` on hold the bytes.
  abbrev pub Holds : D → ℕ → ℕ → List ℕ → Type 0
  Holds d lba zero rest = Unit
  Holds d lba (suc n) rest =
      (dev.read_block d lba ≡ ok (pad (size dev) (take (size dev) rest)))
      × Holds d (suc lba) n (drop (size dev) rest)

  pub Holds-same :
      (d d' : D) (lba n : ℕ) (rest : List ℕ)
      → ((l : ℕ) → lba ≤ l → dev.read_block d' l ≡ dev.read_block d l)
      → Holds d lba n rest
      → Holds d' lba n rest
  Holds-same d d' lba zero rest same h = tt
  Holds-same d d' lba (suc n) rest same h = (
    same lba (omega arith) ∙ h.0,
    Holds-same d d' (suc lba) n (drop (size dev) rest) (λ l lo. same l (omega arith)) h.1,
  )

  pub write-Holds :
      (n lba : ℕ) (rest : List ℕ) (d : D) (u : Unit {0})
      → (write_payload dev n lba rest d).0 ≡ ok u
      → Holds (write_payload dev n lba rest d).1 lba n rest
  unfolding write_payload
  write-Holds zero lba rest d u e = tt
  write-Holds (suc n) lba rest d u e =
      let block : List ℕ = pad (size dev) (take (size dev) rest) in
      let d' : D = (dev.write_block d lba block).1 in
      elim (Result-cases (dev.write_block d lba block).0) [
        | inr (f, failed) ↦
            let e' : ◌≡◌ {A = Result ZfsError (Unit {0})} (err (device f)) (ok u) =
              rw (write_payload, failed) at (e) in
            cc
        | inl (w, wrote) ↦
            let rest-done : (write_payload dev n (suc lba) (drop (size dev) rest) d').0 ≡ ok u =
              rw (write_payload, wrote) at (e) in
            let final : D = (write_payload dev n (suc lba) (drop (size dev) rest) d').1 in
            let same : (write_payload dev (suc n) lba rest d).1 ≡ final =
              rw (write_payload, wrote) refl in
            (
              ap (λ z. dev.read_block z lba) same
                  ∙ write_payload-other dev v n (suc lba) lba (drop (size dev) rest) d'
                      (inl (omega arith))
                  ∙ v.written d lba block w (pad-take-length (size dev) rest) wrote,
              Holds-same final (write_payload dev (suc n) lba rest d).1 (suc lba) n
                  (drop (size dev) rest) (λ l lo. ap (λ z. dev.read_block z l) same)
                  (write-Holds n (suc lba) (drop (size dev) rest) d' u rest-done),
            )
      ]

  pub read-Holds :
      (n lba rounds : ℕ) (rest : List ℕ) (d : D)
      → Holds d lba n rest
      → length rest ≤ n * size dev
      → n ≤ rounds
      → read_payload dev d lba rounds (length rest) ≡ ok rest
  unfolding read_payload
  read-Holds zero lba rounds (x ∷ xs) d h few more = absurd (omega arith)
  read-Holds zero lba zero [] d h few more = refl
  read-Holds zero lba (suc rounds) [] d h few more = refl
  read-Holds (suc n) lba zero rest d h few more = absurd (omega arith)
  read-Holds (suc n) lba (suc rounds) [] d h few more = refl
  read-Holds (suc n) lba (suc rounds) (x ∷ xs) d h few more =
      let all : List ℕ = x ∷ xs in
      let left : length all - min (size dev) (length all) ≡ length (drop (size dev) all) =
        omega (arith, length-drop (size dev) all) in
      let later : read_payload dev d (suc lba) rounds (length (drop (size dev) all))
          ≡ ok (drop (size dev) all) =
        read-Holds n (suc lba) rounds (drop (size dev) all) d h.1
          (omega (arith, length-drop (size dev) all)) (omega arith) in
      let some' : (suc (length xs) == 0) ≡ false = ground arith in
      rw (some', h.0, left, later, take-pad (size dev) all, take-drop (size dev) all) refl
