-- ===== src/ZfsCore/Metadata.antt =====
-- libs/zfs-core/src/metadata.rs: the checkpoint of the directory index. `encode` writes it as bytes and
-- `decode` reads it back; the two banks on the device are in Banks. An inode is that of on_disk.rs.
pub mod Banks
pub mod Commit
pub mod Held
pub mod Kept
pub mod Loaded
pub mod RoundTrip
pub mod Written
mod Tests
mod BankTests
use zero_os.Common.{
  ℕ, zero, suc, ◌+◌, ◌%◌, ◌^◌, max, Bool, true, false, not, ◌&&◌, ◌||◌, List, [], ◌∷◌, ◌++◌, Option,
  none, some, ◌==◌, ltb, leb, if◌then◌else◌, length,
}
use zero_os.Common.Result.{Result, ok, err}
use zero_os.ZfsCore.Snapshot.{DirectoryEntry}
use zero_os.ZfsCore.Bytes.{
  ZfsError, journal_corrupt, checkpoint_too_large, path_invalid, corrupt_entry, to_le_bytes, Read,
  ◌>>=◌, ◌>>◌, give, check, bytes, u8, u16, u32, u64,
}
use zero_os.ZfsCore.Utf8.{is_utf8}
use zero_os.ZfsCore.Directory.{Text, Index, put, slash}

pub data InodeKind : Type 0 where
  file directory symlink app_bundle : InodeKind

pub record Inode : Type 0 where
  pub id : ℕ
  pub kind : InodeKind
  pub size : ℕ
  pub mode : ℕ
  pub uid : ℕ
  pub gid : ℕ
  pub links : ℕ
  pub direct : List ℕ
  pub extent_root : ℕ
  pub ctime : ℕ
  pub mtime : ℕ

abbrev pub Entry : Type 0
Entry = DirectoryEntry Inode

-- `kind as u8`
abbrev pub kind_byte : InodeKind → ℕ
kind_byte file = 1
kind_byte directory = 2
kind_byte symlink = 3
kind_byte app_bundle = 4

abbrev pub flag : Option (List ℕ) → ℕ
flag none = 0
flag (some sig) = 1

abbrev pub signature_bytes : Option (List ℕ) → List ℕ
signature_bytes none = []
signature_bytes (some sig) = sig

unfoldable pub encode_blocks : List ℕ → List ℕ
encode_blocks [] = []
encode_blocks (b ∷ bs) = to_le_bytes 8 b ++ encode_blocks bs

unfoldable pub encode_entry : Text → Entry → List ℕ
encode_entry path e =
    to_le_bytes 2 (length path)
    ++ (to_le_bytes 2 (length e.blocks)
        ++ (to_le_bytes 1 (kind_byte e.inode.kind)
            ++ (to_le_bytes 1 (flag e.signature)
                ++ (to_le_bytes 4 e.inode.mode
                    ++ (to_le_bytes 8 e.inode.id
                        ++ (to_le_bytes 8 e.inode.size
                            ++ (to_le_bytes 4 e.inode.uid
                                ++ (to_le_bytes 4 e.inode.gid
                                    ++ (to_le_bytes 4 e.inode.links
                                        ++ (to_le_bytes 8 e.inode.ctime
                                            ++ (to_le_bytes 8 e.inode.mtime
                                                ++ (path
                                                    ++ (encode_blocks e.blocks
                                                        ++ signature_bytes e.signature)))))))))))))

abbrev followed : List ℕ → Result ZfsError (List ℕ) → Result ZfsError (List ℕ)
followed first (ok rest) = ok (first ++ rest)
followed first (err e) = err e

unfoldable pub encode_entries : Index Entry → Result ZfsError (List ℕ)
encode_entries [] = ok []
encode_entries (x ∷ xs) =
    if ltb 65535 (length x.0) || ltb 65535 (length (x.1).blocks)
    then err checkpoint_too_large
    else followed (encode_entry x.0 x.1) (encode_entries xs)

-- `entries.len() as u32` keeps the low 32 bits.
unfoldable pub encode : Index Entry → ℕ → ℕ → Result ZfsError (List ℕ)
encode entries next_inode logical_time =
    followed
      (to_le_bytes 8 next_inode
        ++ (to_le_bytes 8 logical_time ++ to_le_bytes 4 (length entries % 2 ^ 32)))
      (encode_entries entries)

abbrev pub kind_of : ℕ → Option InodeKind
kind_of b =
    if b == 1
    then some file
    else if b == 2
    then some directory
    else if b == 3
    then some symlink
    else if b == 4
    then some app_bundle
    else none

abbrev pub known : Option InodeKind → Read InodeKind
known none input = err corrupt_entry
known (some kind) input = ok (kind, input)

-- `path.contains("..")`
unfoldable pub has_dots : Text → Bool
has_dots [] = false
has_dots (x ∷ []) = false
has_dots (x ∷ y ∷ ys) = ((x == 46) && (y == 46)) || has_dots (y ∷ ys)

abbrev pub is_absolute : Text → Bool
is_absolute [] = false
is_absolute (c ∷ cs) = c == slash

-- Not empty, absolute, and without two dots in a row.
abbrev pub path_allowed : Text → Bool
path_allowed path = is_absolute path && not (has_dots path)

unfoldable pub read_blocks : ℕ → Read (List ℕ)
read_blocks zero = give []
read_blocks (suc n) = u64 >>= λ b. read_blocks n >>= λ bs. give (b ∷ bs)

abbrev pub read_signature : Bool → Read (Option (List ℕ))
read_signature true = bytes 32 >>= λ sig. give (some sig)
read_signature false = give none

-- The first 12 blocks, filled up with zeros.
unfoldable pub inline_pointers : ℕ → List ℕ → List ℕ
inline_pointers zero bs = []
inline_pointers (suc n) [] = 0 ∷ inline_pointers n []
inline_pointers (suc n) (b ∷ bs) = b ∷ inline_pointers n bs

unfoldable pub decode_entry : Read (Text × Entry)
decode_entry = u16 >>= λ path_len. u16 >>= λ blocks_len. u8 >>= λ raw_kind.
    known (kind_of raw_kind) >>= λ kind. u8 >>= λ has_sig. u32 >>= λ mode. u64 >>= λ id.
    u64 >>= λ size. u32 >>= λ uid. u32 >>= λ gid. u32 >>= λ links. u64 >>= λ ctime. u64 >>= λ mtime.
    bytes path_len >>= λ path.
    check (is_utf8 path) corrupt_entry
    >> (check (path_allowed path) path_invalid
        >> (read_blocks blocks_len >>= λ blocks.
            read_signature (not (has_sig == 0)) >>= λ signature. give (
              path,
              record {
                inode = record {
                  id = id;
                  kind = kind;
                  size = size;
                  mode = mode;
                  uid = uid;
                  gid = gid;
                  links = links;
                  direct = inline_pointers 12 blocks;
                  extent_root = 0;
                  ctime = ctime;
                  mtime = mtime;
                };
                blocks = blocks;
                signature = signature;
              },
            )))

unfoldable pub decode_entries : ℕ → Index Entry → Read (Index Entry)
decode_entries zero entries = give entries
decode_entries (suc n) entries = decode_entry >>= λ x. decode_entries n (put x.0 x.1 entries)

-- The entries, the next inode and the logical time.
abbrev pub Checkpoint : Type 0
Checkpoint = Index Entry × ℕ × ℕ

unfoldable pub read_checkpoint : Read Checkpoint
read_checkpoint = u64 >>= λ next_inode. u64 >>= λ logical_time. u32 >>= λ count.
    decode_entries count [] >>= λ entries. give (entries, max next_inode 2, max logical_time 1)

-- Nothing may be left over.
abbrev pub at_end : Result ZfsError (Checkpoint × List ℕ) → Result ZfsError Checkpoint
at_end (ok (c, [])) = ok c
at_end (ok (c, b ∷ bs)) = err journal_corrupt
at_end (err e) = err e

unfoldable pub decode : List ℕ → Result ZfsError Checkpoint
decode input = at_end (read_checkpoint input)
