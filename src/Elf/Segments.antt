-- ===== src/Elf/Segments.antt =====
-- The segments of an accepted image lie in it.
use zero_os.Common.{ℕ, ◌+◌, ◌*◌, ◌≤◌, ◌≡◌, ◌⊎◌, true, false, List, Option, none, some, length, All}
use zero_os.Common.Retain.{any}
use zero_os.Elf.{
  ElfHeader, ElfProgramHeader, UserElfSegment, Found, runs_at, no_segments, max_segments,
  program_header_size,
}

-- The bytes of the segment are bytes of the file, and fit the segment in memory.
abbrev pub InFile : ℕ → UserElfSegment → Type 0
InFile len s = (s.offset + s.filesz ≤ len) × (s.filesz ≤ s.memsz)

abbrev pub DynamicInFile : ℕ → Option ElfProgramHeader → Type 0
DynamicInFile len none = Unit
DynamicInFile len (some ph) = (ph.p_offset + ph.p_filesz ≤ len) × (ph.p_filesz ≤ ph.p_memsz)

record IsFound (len : ℕ) (f : Found) : Type 0 where
  segments : All (InFile len) f.segments
  few : length f.segments ≤ max_segments
  dynamic : DynamicInFile len f.dynamic

record IsScanned (image : List ℕ) (h : ElfHeader) (index n : ℕ) (f g : Found) : Type 0 where
  found : IsFound (length image) g
  table : ((n ≡ 0) × (g ≡ f)) ⊎ (h.phoff + (index + n) * program_header_size ≤ length image)

-- What the loader may rely on.
pub record IsLoadable (image : List ℕ) (h : ElfHeader) (f : Found) : Type 0 where
  pub segments : All (InFile (length image)) f.segments
  pub few : length f.segments ≤ max_segments
  pub some_segment : no_segments f.segments ≡ false
  pub dynamic : DynamicInFile (length image) f.dynamic
  pub entry : (h.entry ≡ 0) ⊎ (any (runs_at h.entry) f.segments ≡ true)
  pub table : h.phoff + h.phnum * program_header_size ≤ length image
