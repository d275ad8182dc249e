-- ===== src/ZfsCore/Metadata/Commit.antt =====
-- A commit of the checkpoint writes one bank and leaves the other alone.
use native.Mathlib.Nat.{div-add-mod, mod-lt, mul_comm, lt_of_mul-lt-mul_left}
use zero_os.Common.{
  ℕ, zero, suc, ◌+◌, ◌-◌, ◌*◌, ◌/◌, ◌%◌, ◌≤◌, ◌<◌, ◌≡◌, ◌≢◌, refl, ◌∙◌, ◌⊎◌, inl, inr, min, List,
  Option, none, some, ◌==◌, ltb, if◌then◌else◌, length, take, drop, Bool-cases, arith,
}
use zero_os.Common.Result.{Result, ok, err, Result-cases}
use zero_os.ZfsCore.Bytes.{ZfsError, DeviceError, out_of_bounds, io, unsupported}
use zero_os.ZfsCore.Directory.{Index}
use zero_os.ZfsCore.Metadata.{Entry, encode}
use zero_os.ZfsCore.Metadata.Banks.{
  BlockDevice, bank_blocks, bank_a, bank_b, pad, header, next_generation_of, target_of, read_header,
  size, write_payload, after_payload, finished, store, read_payload, from_header, from_block,
  load_bank,
}

-- A device of a fixed size whose blocks hold a header, where a write reaches its own block and no other: a block
-- that was written is read back, whatever became of a write that failed.
pub record IsDevice {D : Type 0} (dev : BlockDevice D) : Type 0 where
  pub room : 28 ≤ dev.block_size
  pub other :
      (d : D) (lba l : ℕ) (block : List ℕ)
      → l ≢ lba
      → dev.read_block (dev.write_block d lba block).1 l ≡ dev.read_block d l
  pub written :
      (d : D) (lba : ℕ) (block : List ℕ) (u : Unit {0})
      → length block ≡ dev.block_size
      → (dev.write_block d lba block).0 ≡ ok u
      → dev.read_block (dev.write_block d lba block).1 lba ≡ ok block

-- The number of blocks for so many bytes.
pub blocks_for :
    (len s : ℕ) → 1 ≤ s → (len ≤ (len + s - 1) / s * s) × ((len + s - 1) / s * s < len + s)
blocks_for len s h =
    let whole : s * ((len + s - 1) / s) + (len + s - 1) % s ≡ len + s - 1 =
      div-add-mod (len + s - 1) s in
    let less : (len + s - 1) % s < s = mod-lt (len + s - 1) h in
    let flip : (len + s - 1) / s * s ≡ s * ((len + s - 1) / s) = mul_comm ((len + s - 1) / s) s in
    (omega arith, omega arith)

-- A payload within the limit takes at most 31 blocks.
pub blocks_few :
    {D : Type 0} (dev : BlockDevice D)
    → 28 ≤ dev.block_size
    → (payload : List ℕ) → length payload ≤ 31 * dev.block_size
    → (length payload + dev.block_size - 1) / dev.block_size ≤ 31
blocks_few dev room payload fits =
    let s : ℕ = dev.block_size in
    let (enough, tight) = blocks_for (length payload) s (omega (arith, room)) in
    let few : (length payload + s - 1) / s < 32 =
      lt_of_mul-lt-mul_left s (omega (arith, mul_comm ((length payload + s - 1) / s) s)) in
    omega arith

-- The bank that is not written.
abbrev pub other_bank : ℕ → ℕ
other_bank generation = if next_generation_of generation % 2 == 1 then bank_b else bank_a

module _ {D : Type 0} (dev : BlockDevice D) (v : IsDevice dev) where
  -- Blocks outside the range are read as before.
  pub write_payload-other :
      (n lba l : ℕ) (rest : List ℕ) (d : D)
      → (l < lba) ⊎ (lba + n ≤ l)
      → dev.read_block (write_payload dev n lba rest d).1 l ≡ dev.read_block d l
  unfolding write_payload
  write_payload-other zero lba l rest d h = refl
  write_payload-other (suc n) lba l rest d h =
      let block : List ℕ = pad (size dev) (take (size dev) rest) in
      let apart : l ≢ lba = λ e. ground (arith, h, e) in
      elim (Result-cases (dev.write_block d lba block).0) [
        | inr (e, failed) ↦ rw (write_payload, failed) (v.other d lba l block apart)
        | inl (u, wrote) ↦
            rw (write_payload, wrote)
              (write_payload-other n (suc lba) l (drop (size dev) rest)
                  (dev.write_block d lba block).1 (ground (arith, h))
                ∙ v.other d lba l block apart)
      ]

  read_payload-same :
      (d d' : D) (lba rounds left : ℕ)
      → ((l : ℕ) → lba ≤ l → l < lba + rounds → dev.read_block d' l ≡ dev.read_block d l)
      → read_payload dev d' lba rounds left ≡ read_payload dev d lba rounds left
  unfolding read_payload
  read_payload-same d d' lba zero left same = refl
  read_payload-same d d' lba (suc rounds) left same =
      rw
        (
          same lba (omega arith) (omega arith),
          read_payload-same d d' (suc lba) rounds (left - min (size dev) left)
              (λ l lo hi. same l (omega arith) (omega arith)),
        )
        refl

  -- A bank is loaded from its own blocks.
  pub load_bank-same :
      (d d' : D) (start : ℕ)
      → ((l : ℕ) → start ≤ l → l < start + bank_blocks → dev.read_block d' l ≡ dev.read_block d l)
      → load_bank dev d' start ≡ load_bank dev d start
  unfolding load_bank
  load_bank-same d d' start same =
      rw (same start (omega arith) (omega arith)) (block (dev.read_block d start))
    where
      fields : (f : Option (ℕ × ℕ × ℕ)) → from_header dev d' start f ≡ from_header dev d start f
      fields none = refl
      fields (some (generation, len, expected)) =
          rw
            (read_payload-same d d' (start + 1) (bank_blocks - 1) len
              (λ l lo hi. same l (omega arith) (omega arith)))
            refl

      block :
          (r : Result DeviceError (List ℕ)) → from_block dev d' start r ≡ from_block dev d start r
      block (ok b) = fields (read_header b)
      block (err out_of_bounds) = refl
      block (err io) = refl
      block (err unsupported) = refl

  -- Outside the bank it writes, `store` leaves every block as it was, whether it succeeds or stops at
  -- any of its writes.
  store-outside :
      (d : D) (generation : ℕ) (m : Index Entry) (next time l : ℕ)
      → (l < target_of (next_generation_of generation))
        ⊎ (target_of (next_generation_of generation) + bank_blocks ≤ l)
      → dev.read_block (store dev d generation m next time).1 l ≡ dev.read_block d l
  unfolding store
  store-outside d generation m next time l outside = elim (Result-cases (encode m next time)) [
    | inr (e, failed) ↦ rw failed refl
    | inl (payload, encoded) ↦
        elim (Bool-cases (ltb ((bank_blocks - 1) * size dev) (length payload))) [
          | inl large ↦ rw (encoded, large) refl
          | inr fits ↦
              let g : ℕ = next_generation_of generation in
              let n : ℕ = (length payload + size dev - 1) / size dev in
              let few : n ≤ 31 = blocks_few dev v.room payload (ground (arith, fits)) in
              let kept : dev.read_block (write_payload dev n (target_of g + 1) payload d).1 l
                  ≡ dev.read_block d l =
                write_payload-other n (target_of g + 1) l payload d
                  (ground (arith, outside, few)) in
              rw (encoded, fits)
                (end g payload (length m) l (write_payload dev n (target_of g + 1) payload d)
                    (λ e. ground (arith, outside, e))
                  ∙ kept)
        ]
  ]
    where
      end :
          (g : ℕ) (payload : List ℕ) (count l : ℕ) (out : Result ZfsError (Unit {0}) × D)
          → l ≢ target_of g
          → dev.read_block (after_payload dev g payload count out).1 l ≡ dev.read_block out.1 l
      end g payload count l (err e, d) apart = refl
      end g payload count l (ok u, d) apart =
          finish (dev.write_block d (target_of g) (header (size dev) g payload count))
          ∙ v.other d (target_of g) l (header (size dev) g payload count) apart
        where
          finish :
              (out : Result DeviceError (Unit {0}) × D)
              → dev.read_block (finished dev g out).1 l ≡ dev.read_block out.1 l
          finish (ok u, d) = refl
          finish (err e, d) = refl

  -- Loading the other bank gives what it gave before.
  pub load_bank-other :
      (d : D) (generation : ℕ) (m : Index Entry) (next time : ℕ)
      → load_bank dev (store dev d generation m next time).1 (other_bank generation)
        ≡ load_bank dev d (other_bank generation)
  load_bank-other d generation m next time =
      load_bank-same d (store dev d generation m next time).1 (other_bank generation)
        (λ l lo hi. store-outside d generation m next time l (ground (arith, lo, hi)))
