-- ===== src/ZfsCore/Metadata/Tests.antt =====
-- Runs of the checkpoint codec of libs/zfs-core/src/metadata.rs at concrete inputs.
use zero_os.Common.{
  ℕ, ◌<◌, refl, List, [], ◌∷◌, Option, none, some, replicate, All, All-replicate, arith,
}
use zero_os.ZfsCore.Utf8.{is_utf8, scan_utf8, next_byte, lead}
use zero_os.ZfsCore.Directory.{Text, Index}
use zero_os.ZfsCore.Directory.Index.{IsSorted}
use zero_os.ZfsCore.Metadata.{Inode, Entry, file, inline_pointers}
use zero_os.ZfsCore.Metadata.RoundTrip.{IsInode, IsStored}

abbrev an_inode : List ℕ → Inode
an_inode blocks = record {
  id = 7;
  kind = file;
  size = 3;
  mode = 420;
  uid = 1;
  gid = 2;
  links = 1;
  direct = inline_pointers 12 blocks;
  extent_root = 0;
  ctime = 9;
  mtime = 10;
}

abbrev entry_of : List ℕ → Option (List ℕ) → Entry
entry_of blocks sig = record { inode = an_inode blocks; blocks = blocks; signature = sig }

-- "/a" and "/a..b"
abbrev good : Text
good = 47 ∷ 97 ∷ []

abbrev dotted : Text
dotted = 47 ∷ 97 ∷ 46 ∷ 46 ∷ 98 ∷ []

abbrev entries : Index Entry
entries = (good, entry_of (100 ∷ []) (some (replicate 32 3))) ∷ (dotted, entry_of [] none) ∷ []

an_inode-IsInode : (blocks : List ℕ) → IsInode (an_inode blocks) blocks
an_inode-IsInode blocks = record {
  mode = omega arith;
  id = omega arith;
  size = omega arith;
  uid = omega arith;
  gid = omega arith;
  links = omega arith;
  ctime = omega arith;
  mtime = omega arith;
  pointers = refl;
  extents = refl;
}

good-IsStored : IsStored good (entry_of (100 ∷ []) (some (replicate 32 3)))
unfolding is_utf8 scan_utf8 next_byte lead
good-IsStored = record {
  text = refl;
  path_bytes = (omega arith, (omega arith, tt));
  path_room = omega arith;
  inode = an_inode-IsInode (100 ∷ []);
  block_room = omega arith;
  blocks = (omega arith, tt);
  signature = (refl, All-replicate (λ b. b < 256) 32 3 (omega arith));
}

abbrev pub good_entries : Index Entry
good_entries = (good, entry_of (100 ∷ []) (some (replicate 32 3))) ∷ []

pub good_entries-IsStored : All (λ x. IsStored x.0 x.1) good_entries
good_entries-IsStored = (good-IsStored, tt)

pub good_entries-IsSorted : IsSorted good_entries
good_entries-IsSorted = (tt, tt)
