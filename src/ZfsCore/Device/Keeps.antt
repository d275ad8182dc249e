-- ===== src/ZfsCore/Device/Keeps.antt =====
-- The device in memory keeps what could be read.
use zero_os.Common.{
  ℕ, ◌+◌, ◌*◌, ◌-◌, ◌≤◌, ◌<◌, ◌≡◌, ◌≢◌, refl, sym, ap, ◌∙◌, inl, inr, false, List, ◌++◌, ◌==◌, ltb,
  length, length-append, replicate, length-replicate, length-take, length-drop, take, drop,
  Bool-cases, arith,
}
use zero_os.Common.Result.{Result, ok, err}
use zero_os.ZfsCore.Bytes.{DeviceError, out_of_bounds}
use zero_os.ZfsCore.Device.{
  offset_of, end_of, ensure_capacity, read_block, write_block, memory_device,
}
use zero_os.ZfsCore.Device.Windows.{window, window-append, window-before, window-behind}
use zero_os.ZfsCore.Metadata.Kept.{KeepsBlocks}

-- The offsets of the metadata do not wrap.
plain_offset : (lba : ℕ) → lba < 65 → offset_of lba ≡ lba * 4096
plain_offset lba h = omega arith

plain_end : (lba : ℕ) → lba < 65 → end_of lba 4096 ≡ lba * 4096 + 4096
plain_end lba h = omega arith

-- What a read answers is the range of its block.
read_block-window :
    (s : List ℕ) (l : ℕ) (b : List ℕ)
    → l < 65
    → read_block s l ≡ ok b
    → (l * 4096 + 4096 ≤ length s) × (window (l * 4096) 4096 s ≡ b)
unfolding read_block
read_block-window s l b h e = elim (Bool-cases (ltb (length s) (l * 4096 + 4096))) [
  | inl short ↦
      let bad : ◌≡◌ {A = Result DeviceError (List ℕ)} (err out_of_bounds) (ok b) =
        rw (plain_end l h, short) at (e) in
      cc
  | inr long ↦
      let e' : ◌≡◌ {A = Result DeviceError (List ℕ)} (ok (window (l * 4096) 4096 s)) (ok b) =
        rw (plain_end l h, plain_offset l h, long) at (e) in
      (ground (arith, long), cc)
]

window-read_block :
    (s : List ℕ) (l : ℕ) (b : List ℕ)
    → l < 65
    → l * 4096 + 4096 ≤ length s
    → window (l * 4096) 4096 s ≡ b
    → read_block s l ≡ ok b
unfolding read_block
window-read_block s l b h fits e =
    let long : ltb (length s) (l * 4096 + 4096) ≡ false = ground arith in
    rw (plain_end l h, plain_offset l h, long, e) refl

-- What a growing storage keeps, and that it has room for the block.
record Grown (lba : ℕ) (s t : List ℕ) : Type 0 where
  longer : length s ≤ length t
  room : lba * 4096 + 4096 ≤ length t
  same : (p : ℕ) → p + 4096 ≤ length s → window p 4096 t ≡ window p 4096 s

ensure_capacity-Grown : (lba : ℕ) (s : List ℕ) → lba < 65 → Grown lba s (ensure_capacity lba 4096 s)
unfolding ensure_capacity
ensure_capacity-Grown lba s h = elim (Bool-cases (ltb (length s) (lba * 4096 + 4096))) [
  | inl short ↦
      let zeros : List ℕ = replicate (lba * 4096 + 4096 - length s) 0 in
      let count : length (s ++ zeros) ≡ length s + (lba * 4096 + 4096 - length s) =
        length-append s zeros
        ∙ ap (λ n. length s + n) (length-replicate (lba * 4096 + 4096 - length s) 0) in
      rw (plain_end lba h, short)
        (record {
          longer = omega (arith, count);
          room = omega (arith, count);
          same = λ p fits. window-append p 4096 s zeros fits;
        })
  | inr long ↦
      rw (plain_end lba h, long)
        (record { longer = omega arith; room = ground (arith, long); same = λ p fits. refl })
]

-- The storage with the block overwritten.
abbrev overwritten : ℕ → List ℕ → List ℕ → List ℕ
overwritten lba t block = take (lba * 4096) t ++ (block ++ drop (lba * 4096 + 4096) t)

length-overwritten :
    (lba : ℕ) (t block : List ℕ)
    → lba * 4096 + 4096 ≤ length t
    → length block ≡ 4096
    → length (overwritten lba t block) ≡ length t
length-overwritten lba t block room full = omega (
  arith,
  length-append (take (lba * 4096) t) (block ++ drop (lba * 4096 + 4096) t),
  length-append block (drop (lba * 4096 + 4096) t),
  length-take (lba * 4096) t,
  length-drop (lba * 4096 + 4096) t,
)

window-overwritten :
    (lba l : ℕ) (t block : List ℕ)
    → l ≢ lba
    → lba * 4096 + 4096 ≤ length t
    → length block ≡ 4096
    → window (l * 4096) 4096 (overwritten lba t block) ≡ window (l * 4096) 4096 t
window-overwritten lba l t block apart room full = elim (Bool-cases (ltb l lba)) [
  | inl before ↦
      window-before (l * 4096) 4096 (lba * 4096) t _ (ground (arith, before)) (omega arith)
  | inr behind ↦
      let after : lba < l = ground (arith, behind, apart) in
      ap (λ n. window (l * 4096) 4096 (take (lba * 4096) t ++ (block ++ drop (lba * 4096 + n) t)))
        (sym full)
      ∙ window-behind (l * 4096) 4096 (lba * 4096) t block (omega (arith, after, full))
          (omega arith)
]

write_block-keeps :
    (s : List ℕ) (lba l : ℕ) (block b : List ℕ)
    → lba < 65
    → l < 65
    → l ≢ lba
    → read_block s l ≡ ok b
    → read_block (write_block s lba block).1 l ≡ ok b
unfolding write_block
write_block-keeps s lba l block b low lower apart e = elim (Bool-cases (length block == 4096)) [
  | inr wrong ↦ rw wrong e
  | inl full ↦
      let t : List ℕ = ensure_capacity lba 4096 s in
      let g : Grown lba s t = ensure_capacity-Grown lba s low in
      let (inside, found) = read_block-window s l b lower e in
      let size : length block ≡ 4096 = ground (arith, full) in
      let room : ltb (length t) (lba * 4096 + 4096) ≡ false = ground (arith, g.room) in
      rw (full, plain_end lba low, plain_offset lba low, room)
        (window-read_block (overwritten lba t block) l b lower
          (omega (arith, length-overwritten lba t block g.room size, g.longer, inside))
          (window-overwritten lba l t block apart g.room size ∙ g.same (l * 4096) inside ∙ found))
]

pub memory_device-KeepsBlocks : KeepsBlocks memory_device
memory_device-KeepsBlocks = record { room = omega arith; kept = write_block-keeps }
