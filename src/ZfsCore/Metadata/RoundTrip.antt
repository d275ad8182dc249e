-- ===== src/ZfsCore/Metadata/RoundTrip.antt =====
-- `decode` reads back what `encode` wrote.
use zero_os.Common.{
  ℕ, ◌%◌, ◌^◌, ◌≤◌, ◌<◌, ◌≡◌, refl, ap, inl, inr, max, Bool, true, false, not, ◌&&◌, ◌||◌, List, [],
  ◌∷◌, ◌++◌, Option, none, some, ◌==◌, ltb, if◌then◌else◌, length, All, All-imp, All-append,
  Bool-cases, arith,
}
use mathlib.Core.List.{append_assoc, append-nil}
use zero_os.Common.Result.{ok, err}
use zero_os.ZfsCore.Bytes.{
  path_invalid, to_le_bytes, Reads, u8, u16, u32, u64, integer-Reads, bytes-Reads,
}
use zero_os.ZfsCore.Utf8.{is_utf8}
use zero_os.ZfsCore.Directory.{Text, Index, put, text_lt, text_eq}
use zero_os.ZfsCore.Directory.Order.{text_lt-ne, text_lt_asym, text_eq-flip}
use zero_os.ZfsCore.Directory.Index.{IsSorted}
use zero_os.ZfsCore.Metadata.{
  InodeKind, Inode, Entry, file, directory, symlink, app_bundle, kind_byte, kind_of, flag,
  signature_bytes, encode_blocks, encode_entry, encode_entries, encode, path_allowed, read_blocks,
  read_signature, inline_pointers, decode_entry, decode_entries, read_checkpoint, decode,
}

-- An inode with fields of its widths, and with what `decode` rebuilds: the pointers are the first
-- blocks, and there is no extent tree.
pub record IsInode (i : Inode) (blocks : List ℕ) : Type 0 where
  pub mode : i.mode < 2 ^ 32
  pub id : i.id < 2 ^ 64
  pub size : i.size < 2 ^ 64
  pub uid : i.uid < 2 ^ 32
  pub gid : i.gid < 2 ^ 32
  pub links : i.links < 2 ^ 32
  pub ctime : i.ctime < 2 ^ 64
  pub mtime : i.mtime < 2 ^ 64
  pub pointers : i.direct ≡ inline_pointers 12 blocks
  pub extents : i.extent_root ≡ 0

abbrev pub IsSignature : Option (List ℕ) → Type 0
IsSignature none = Unit
IsSignature (some sig) = (length sig ≡ 32) × All (λ b. b < 256) sig

-- An entry whose parts fit their fields.
pub record IsStored (path : Text) (e : Entry) : Type 0 where
  pub text : is_utf8 path ≡ true
  pub path_bytes : All (λ b. b < 256) path
  pub path_room : length path ≤ 65535
  pub inode : IsInode e.inode e.blocks
  pub block_room : length e.blocks ≤ 65535
  pub blocks : All (λ b. b < 2 ^ 64) e.blocks
  pub signature : IsSignature e.signature

kind_of-kind_byte : (k : InodeKind) → (kind_of (kind_byte k) ≡ some k) × (kind_byte k < 256)
kind_of-kind_byte file = (refl, omega arith)
kind_of-kind_byte directory = (refl, omega arith)
kind_of-kind_byte symlink = (refl, omega arith)
kind_of-kind_byte app_bundle = (refl, omega arith)

read_blocks-Reads :
    (bs : List ℕ) → All (λ b. b < 2 ^ 64) bs → Reads (read_blocks (length bs)) bs (encode_blocks bs)
unfolding read_blocks encode_blocks u64
read_blocks-Reads [] a rest = refl
read_blocks-Reads (b ∷ bs) a rest =
    rw
      (
        append_assoc (to_le_bytes 8 b) (encode_blocks bs) rest,
        integer-Reads 8 b (omega (arith, a.0)) (encode_blocks bs ++ rest),
      )
      (rw (read_blocks-Reads bs a.1 rest) refl)

read_signature-Reads :
    (s : Option (List ℕ))
    → IsSignature s
    → Reads (read_signature (not (flag s == 0))) s (signature_bytes s)
read_signature-Reads none h rest = refl
read_signature-Reads (some sig) h rest = rw (← h.0, bytes-Reads sig rest) refl

-- The bytes of an entry with whatever follows, flat.
flat_entry :
    (path : Text) (e : Entry) (rest : List ℕ)
    → encode_entry path e ++ rest
      ≡ to_le_bytes 2 (length path)
        ++ (to_le_bytes 2 (length e.blocks)
            ++ (to_le_bytes 1 (kind_byte e.inode.kind)
                ++ (to_le_bytes 1 (flag e.signature)
                    ++ (to_le_bytes 4 e.inode.mode
                        ++ (to_le_bytes 8 e.inode.id
                            ++ (to_le_bytes 8 e.inode.size
                                ++ (to_le_bytes 4 e.inode.uid
                                    ++ (to_le_bytes 4 e.inode.gid
                                        ++ (to_le_bytes 4 e.inode.links
                                            ++ (to_le_bytes 8 e.inode.ctime
                                                ++ (to_le_bytes 8 e.inode.mtime
                                                    ++ (path
                                                        ++ (encode_blocks e.blocks
                                                            ++ (signature_bytes e.signature
                                                            ++ rest))))))))))))))
unfolding encode_entry
flat_entry path e rest = simp (append_assoc)

flag-small : (s : Option (List ℕ)) → flag s < 256
flag-small none = omega arith
flag-small (some sig) = omega arith

rebuilt :
    (i : Inode) (d : List ℕ) (x : ℕ)
    → i.direct ≡ d
    → i.extent_root ≡ x
    → record i { direct = d; extent_root = x } ≡ i
rebuilt i d x e f = rw (← e, ← f) refl

-- An entry is read back as it was, when its path is one that `decode` accepts.
entry_read :
    (path : Text) (e : Entry) (rest : List ℕ)
    → IsStored path e
    → decode_entry (encode_entry path e ++ rest)
      ≡ (if path_allowed path then ok ((path, e), rest) else err path_invalid)
unfolding decode_entry u8 u16 u32 u64
entry_read path e rest v =
    let t14 : List ℕ = signature_bytes e.signature ++ rest in
    let t13 : List ℕ = encode_blocks e.blocks ++ t14 in
    let t12 : List ℕ = path ++ t13 in
    let t11 : List ℕ = to_le_bytes 8 e.inode.mtime ++ t12 in
    let t10 : List ℕ = to_le_bytes 8 e.inode.ctime ++ t11 in
    let t9 : List ℕ = to_le_bytes 4 e.inode.links ++ t10 in
    let t8 : List ℕ = to_le_bytes 4 e.inode.gid ++ t9 in
    let t7 : List ℕ = to_le_bytes 4 e.inode.uid ++ t8 in
    let t6 : List ℕ = to_le_bytes 8 e.inode.size ++ t7 in
    let t5 : List ℕ = to_le_bytes 8 e.inode.id ++ t6 in
    let t4 : List ℕ = to_le_bytes 4 e.inode.mode ++ t5 in
    let t3 : List ℕ = to_le_bytes 1 (flag e.signature) ++ t4 in
    let t2 : List ℕ = to_le_bytes 1 (kind_byte e.inode.kind) ++ t3 in
    let t1 : List ℕ = to_le_bytes 2 (length e.blocks) ++ t2 in
    let (kind, small) = kind_of-kind_byte e.inode.kind in
    rw
      (
        flat_entry path e rest,
        integer-Reads 2 (length path) (omega (arith, v.path_room)) t1,
        integer-Reads 2 (length e.blocks) (omega (arith, v.block_room)) t2,
        integer-Reads 1 (kind_byte e.inode.kind) (omega (arith, small)) t3,
        kind,
        integer-Reads 1 (flag e.signature) (flag-small e.signature) t4,
        integer-Reads 4 e.inode.mode v.inode.mode t5,
        integer-Reads 8 e.inode.id v.inode.id t6,
        integer-Reads 8 e.inode.size v.inode.size t7,
        integer-Reads 4 e.inode.uid v.inode.uid t8,
        integer-Reads 4 e.inode.gid v.inode.gid t9,
        integer-Reads 4 e.inode.links v.inode.links t10,
        integer-Reads 8 e.inode.ctime v.inode.ctime t11,
        integer-Reads 8 e.inode.mtime v.inode.mtime t12,
        bytes-Reads path t13,
        v.text,
      )
      (elim (Bool-cases (path_allowed path)) [
        | inr refused ↦ rw refused refl
        | inl allowed ↦
            rw
              (
                allowed,
                read_blocks-Reads e.blocks v.blocks t14,
                read_signature-Reads e.signature v.signature rest,
                rebuilt e.inode _ _ v.inode.pointers v.inode.extents,
              )
              refl
      ])

-- Whether `decode` accepts every path.
abbrev pub all_allowed : Index Entry → Bool
all_allowed [] = true
all_allowed (x ∷ xs) = path_allowed x.0 && all_allowed xs

abbrev pub flat : Index Entry → List ℕ
flat [] = []
flat (x ∷ xs) = encode_entry x.0 x.1 ++ flat xs

pub encode_entries-flat :
    (m : Index Entry) → All (λ x. IsStored x.0 x.1) m → encode_entries m ≡ ok (flat m)
unfolding encode_entries
encode_entries-flat [] a = refl
encode_entries-flat (x ∷ xs) a =
    let fits : (ltb 65535 (length x.0) || ltb 65535 (length (x.1).blocks)) ≡ false =
      ground (arith, (a.0).path_room, (a.0).block_room) in
    rw (fits, encode_entries-flat xs a.1) refl

put-last :
    (key : Text) (e : Entry) (acc : Index Entry)
    → All (λ y. text_lt y.0 key ≡ true) acc
    → put key e acc ≡ acc ++ ((key, e) ∷ [])
unfolding put
put-last key e [] a = refl
put-last key e (y ∷ ys) a =
    let later : text_lt key y.0 ≡ false = text_lt_asym y.0 key a.0 in
    let other : text_eq key y.0 ≡ false = text_eq-flip y.0 key (text_lt-ne y.0 key a.0) in
    rw (other, later) (ap (λ zs. y ∷ zs) (put-last key e ys a.1))

-- Every key read so far comes before the keys to come.
abbrev Before : Index Entry → Index Entry → Type 0
Before acc xs = All (λ y. All (λ x. text_lt y.0 x.0 ≡ true) xs) acc

entries_read :
    (xs acc : Index Entry) (rest : List ℕ)
    → All (λ x. IsStored x.0 x.1) xs
    → IsSorted xs
    → Before acc xs
    → decode_entries (length xs) acc (flat xs ++ rest)
      ≡ (if all_allowed xs then ok (acc ++ xs, rest) else err path_invalid)
unfolding decode_entries
entries_read [] acc rest a s b = rw (append-nil acc) refl
entries_read (x ∷ xs) acc rest a s b =
    rw
      (append_assoc (encode_entry x.0 x.1) (flat xs) rest, entry_read x.0 x.1 (flat xs ++ rest) a.0)
      (elim (Bool-cases (path_allowed x.0)) [
        | inr refused ↦ rw refused refl
        | inl allowed ↦
            let last : put x.0 x.1 acc ≡ acc ++ (x ∷ []) =
              put-last x.0 x.1 acc (All-imp (λ y h. h.0) acc b) in
            let next : Before (acc ++ (x ∷ [])) xs =
              All-append _ acc (x ∷ []) (All-imp (λ y h. h.1) acc b) (s.0, tt) in
            rw
              (
                allowed,
                last,
                entries_read xs (acc ++ (x ∷ [])) rest a.1 s.1 next,
                append_assoc acc (x ∷ []) xs,
              )
              refl
      ])

module _ (m : Index Entry) (next_inode logical_time : ℕ) where
  -- What `encode` makes of them.
  abbrev pub encoded : List ℕ
  encoded =
      (to_le_bytes 8 next_inode
        ++ (to_le_bytes 8 logical_time ++ to_le_bytes 4 (length m % 2 ^ 32)))
      ++ flat m

  pub encode-encoded : All (λ x. IsStored x.0 x.1) m → encode m next_inode logical_time ≡ ok encoded
  unfolding encode
  encode-encoded stored = rw (encode_entries-flat m stored) refl

  pub decode-encoded :
      All (λ x. IsStored x.0 x.1) m
      → IsSorted m
      → length m < 2 ^ 32
      → next_inode < 2 ^ 64
      → logical_time < 2 ^ 64
      → decode encoded
        ≡ (if all_allowed m then ok (m, max next_inode 2, max logical_time 1) else err path_invalid)
  unfolding decode read_checkpoint u32 u64
  decode-encoded stored sorted few id time =
      let a : List ℕ = to_le_bytes 8 next_inode in
      let b : List ℕ = to_le_bytes 8 logical_time in
      let c : List ℕ = to_le_bytes 4 (length m % 2 ^ 32) in
      let count : length m % 2 ^ 32 ≡ length m = omega arith in
      let read : decode_entries (length m) [] (flat m ++ [])
          ≡ (if all_allowed m then ok (m, []) else err path_invalid) =
        entries_read m [] [] stored sorted tt in
      rw
        (
          append_assoc a (b ++ c) (flat m),
          append_assoc b c (flat m),
          integer-Reads 8 next_inode id (b ++ (c ++ flat m)),
          integer-Reads 8 logical_time time (c ++ flat m),
          integer-Reads 4 (length m % 2 ^ 32) (omega arith) (flat m),
          count,
          rw (append-nil (flat m)) at (read),
        )
        (elim (Bool-cases (all_allowed m)) [
          | inl allowed ↦ rw allowed refl
          | inr refused ↦ rw refused refl
        ])
