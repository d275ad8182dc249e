-- ===== src/ZfsCore/Metadata/Kept.antt =====
-- A commit of the checkpoint keeps the checkpoint of the other bank, on every device that keeps what
-- could be read.
use zero_os.Common.{
  ℕ, zero, suc, ◌+◌, ◌-◌, ◌*◌, ◌/◌, ◌≤◌, ◌<◌, ◌≡◌, ◌≢◌, refl, ◌⊎◌, inl, inr, min, List, Option,
  none, some, ◌==◌, ltb, length, take, drop, Bool-cases, arith,
}
use zero_os.Common.Result.{Result, ok, err, Result-cases}
use zero_os.ZfsCore.Bytes.{ZfsError, DeviceError, out_of_bounds, io, unsupported}
use zero_os.ZfsCore.Directory.{Index}
use zero_os.ZfsCore.Metadata.{Entry, encode}
use zero_os.ZfsCore.Metadata.Banks.{
  BlockDevice, MetadataState, bank_blocks, bank_b, pad, header, next_generation_of, target_of,
  read_header, size, write_payload, after_payload, finished, store, read_payload, gathered,
  verified, from_header, from_block, load_bank,
}
use zero_os.ZfsCore.Metadata.Commit.{blocks_few, other_bank}

-- The blocks of the superblock and the two banks.
abbrev pub metadata_end : ℕ
metadata_end = bank_b + bank_blocks

-- What a block answered before is kept when another one is written, be it that the write fails. A block
-- that could not be read may become readable.
pub record KeepsBlocks {D : Type 0} (dev : BlockDevice D) : Type 0 where
  pub room : 28 ≤ dev.block_size
  pub kept :
      (d : D) (lba l : ℕ) (block b : List ℕ)
      → lba < metadata_end
      → l < metadata_end
      → l ≢ lba
      → dev.read_block d l ≡ ok b
      → dev.read_block (dev.write_block d lba block).1 l ≡ ok b

module _ {D : Type 0} (dev : BlockDevice D) (v : KeepsBlocks dev) where
  write_payload-kept :
      (n lba l : ℕ) (rest b : List ℕ) (d : D)
      → lba + n ≤ metadata_end
      → l < metadata_end
      → (l < lba) ⊎ (lba + n ≤ l)
      → dev.read_block d l ≡ ok b
      → dev.read_block (write_payload dev n lba rest d).1 l ≡ ok b
  unfolding write_payload
  write_payload-kept zero lba l rest b d fits low h e = e
  write_payload-kept (suc n) lba l rest b d fits low h e =
      let block : List ℕ = pad (size dev) (take (size dev) rest) in
      let apart : l ≢ lba = λ e. ground (arith, h, e) in
      let still = v.kept d lba l block b (omega (arith, fits)) low apart e in
      elim (Result-cases (dev.write_block d lba block).0) [
        | inr (e, failed) ↦ rw (write_payload, failed) still
        | inl (u, wrote) ↦
            rw (write_payload, wrote)
              (write_payload-kept n (suc lba) l (drop (size dev) rest) b
                (dev.write_block d lba block).1 (omega (arith, fits)) low (ground (arith, h)) still)
      ]

  store-kept :
      (d : D) (generation : ℕ) (m : Index Entry) (next time l : ℕ) (b : List ℕ)
      → l < metadata_end
      → (l < target_of (next_generation_of generation))
        ⊎ (target_of (next_generation_of generation) + bank_blocks ≤ l)
      → dev.read_block d l ≡ ok b
      → dev.read_block (store dev d generation m next time).1 l ≡ ok b
  unfolding store
  store-kept d generation m next time l b low outside e = elim (Result-cases (encode m next time)) [
    | inr (x, failed) ↦ rw failed e
    | inl (payload, encoded) ↦
        elim (Bool-cases (ltb ((bank_blocks - 1) * size dev) (length payload))) [
          | inl large ↦ rw (encoded, large) e
          | inr fits ↦
              let g : ℕ = next_generation_of generation in
              let n : ℕ = (length payload + size dev - 1) / size dev in
              let few : n ≤ 31 = blocks_few dev v.room payload (ground (arith, fits)) in
              let start : target_of g ≤ bank_b = ground arith in
              rw (encoded, fits)
                (end g payload (length m) (write_payload dev n (target_of g + 1) payload d) start
                  (λ e. ground (arith, outside, e))
                  (write_payload-kept n (target_of g + 1) l payload b d (omega (arith, few, start))
                    low (ground (arith, outside, few)) e))
        ]
  ]
    where
      end :
          (g : ℕ) (payload : List ℕ) (count : ℕ) (out : Result ZfsError (Unit {0}) × D)
          → target_of g ≤ bank_b
          → l ≢ target_of g
          → dev.read_block out.1 l ≡ ok b
          → dev.read_block (after_payload dev g payload count out).1 l ≡ ok b
      end g payload count (err e, d) start apart h = h
      end g payload count (ok u, d) start apart h =
          finish (dev.write_block d (target_of g) (header (size dev) g payload count)) (
            v.kept d (target_of g) l (header (size dev) g payload count) b (omega (arith, start))
              low apart h)
        where
          finish :
              (out : Result DeviceError (Unit {0}) × D)
              → dev.read_block out.1 l ≡ ok b
              → dev.read_block (finished dev g out).1 l ≡ ok b
          finish (ok u, d) h = h
          finish (err e, d) h = h

  -- A payload that was read is read again.
  read_payload-kept :
      (d d' : D) (lba rounds left : ℕ) (p : List ℕ)
      → ((l : ℕ) (b : List ℕ)
          → lba ≤ l
          → l < lba + rounds
          → dev.read_block d l ≡ ok b
          → dev.read_block d' l ≡ ok b)
      → read_payload dev d lba rounds left ≡ ok p
      → read_payload dev d' lba rounds left ≡ ok p
  unfolding read_payload
  read_payload-kept d d' lba zero left p same e = e
  read_payload-kept d d' lba (suc rounds) left p same e = elim (Bool-cases (left == 0)) [
    | inl done ↦ rw done (rw done at (e))
    | inr more ↦ rw more (
        round (dev.read_block d lba)
          (read_payload dev d (suc lba) rounds (left - min (size dev) left))
          (λ b h. same lba b (omega arith) (omega arith) h)
          (λ q h.
            read_payload-kept d d' (suc lba) rounds (left - min (size dev) left) q
              (λ l b lo hi. same l b (omega arith) (omega arith)) h)
          (rw more at (e)))
  ]
    where
      round :
          (now : Result DeviceError (List ℕ)) (rest : Result ZfsError (List ℕ))
          → ((b : List ℕ) → now ≡ ok b → dev.read_block d' lba ≡ ok b)
          → ((q : List ℕ)
              → rest ≡ ok q
              → read_payload dev d' (suc lba) rounds (left - min (size dev) left) ≡ ok q)
          → gathered dev left now rest ≡ ok p
          → gathered dev left
              (dev.read_block d' lba)
              (read_payload dev d' (suc lba) rounds (left - min (size dev) left))
            ≡ ok p
      round (err x) rest first later e = absurd (cc)
      round (ok b) (err x) first later e = absurd (cc)
      round (ok b) (ok q) first later e = rw (first b refl, later q refl) e

  -- A commit, even one that the device interrupts at any of its writes, does not harm the checkpoint of
  -- the other bank: what could be loaded from it before can be loaded after. The device keeps what could
  -- be read, as the one in memory does, which grows with the blocks that are written.
  pub store_keeps_other :
      (d : D) (generation : ℕ) (m : Index Entry) (next time : ℕ) (s : MetadataState)
      → load_bank dev d (other_bank generation) ≡ ok (some s)
      → load_bank dev (store dev d generation m next time).1 (other_bank generation) ≡ ok (some s)
  unfolding load_bank
  store_keeps_other d generation m next time s e =
      block (dev.read_block d (other_bank generation)) refl e
    where
      same :
          (l : ℕ) (b : List ℕ)
          → (other_bank generation) ≤ l
          → l < (other_bank generation) + bank_blocks
          → dev.read_block d l ≡ ok b
          → dev.read_block (store dev d generation m next time).1 l ≡ ok b
      same l b lo hi h =
          store-kept d generation m next time l b (ground (arith, lo, hi)) (ground (arith, lo, hi))
            h

      payload :
          (gen expected : ℕ) (r : Result ZfsError (List ℕ)) (r' : Result ZfsError (List ℕ))
          → ((p : List ℕ) → r ≡ ok p → r' ≡ ok p)
          → verified dev gen expected r ≡ ok (some s)
          → verified dev gen expected r' ≡ ok (some s)
      payload gen expected (err x) r' kept e = absurd (cc)
      payload gen expected (ok p) r' kept e = rw (kept p refl) e

      fields :
          (f : Option (ℕ × ℕ × ℕ))
          → from_header dev d (other_bank generation) f ≡ ok (some s)
          → from_header dev (store dev d generation m next time).1 (other_bank generation) f
            ≡ ok (some s)
      fields none e = absurd (cc)
      fields (some (gen, len, expected)) e =
          elim (Bool-cases (ltb ((bank_blocks - 1) * size dev) len)) [
            | inl large ↦
                let bad : ◌≡◌ {A = Result ZfsError (Option MetadataState)} (ok none) (ok (some s)) =
                  rw large at (e) in
                cc
            | inr fits ↦ rw fits (
                payload gen expected
                  (read_payload dev d ((other_bank generation) + 1) (bank_blocks - 1) len) _
                  (λ p h.
                    read_payload-kept d (store dev d generation m next time).1
                      ((other_bank generation) + 1) (bank_blocks - 1) len p
                      (λ l b lo hi. same l b (omega arith) (omega arith)) h)
                  (rw fits at (e)))
          ]

      block :
          (r : Result DeviceError (List ℕ))
          → dev.read_block d (other_bank generation) ≡ r
          → from_block dev d (other_bank generation) r ≡ ok (some s)
          → from_block dev
              (store dev d generation m next time).1
              (other_bank generation)
              (dev.read_block (store dev d generation m next time).1 (other_bank generation))
            ≡ ok (some s)
      block (ok b) h e =
          rw (same (other_bank generation) b (omega arith) (omega arith) h)
            (fields (read_header b) e)
      block (err out_of_bounds) h e = absurd (cc)
      block (err io) h e = absurd (cc)
      block (err unsupported) h e = absurd (cc)
