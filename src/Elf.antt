-- ===== src/Elf.antt =====
-- microkernel/src/elf.rs and user_elf.rs: the headers of an ELF image and the segments that
-- `parse_user_elf` takes from it, up to the dynamic section. An image is the list of its bytes; a
-- field is read where the length was tested before.
pub mod Segments
mod Tests
use Prim.Native.Nat.{bit_and}
use zero_os.Common.{
  ℕ, zero, suc, ◌+◌, ◌*◌, ◌-◌, ◌^◌, min, Bool, true, false, not, ◌&&◌, ◌||◌, List, [], ◌∷◌, ◌++◌,
  Option, none, some, ◌==◌, ltb, leb, if◌then◌else◌, get_or, take, drop, length,
}
use zero_os.Common.Result.{Result, ok, err, ◌>>=◌, ◌>>◌, guard}
use zero_os.Common.Retain.{any}
use zero_os.ZfsCore.Bytes.{from_le_bytes}

pub data ElfError : Type 0 where
  too_short bad_magic unsupported_class unsupported_endian unsupported_type invalid_header :
      ElfError
  program_header_out_of_bounds unsupported_program_header_size : ElfError
  invalid_program_header_count too_many_segments malformed_dynamic : ElfError

pub record ElfHeader : Type 0 where
  pub e_type : ℕ
  pub entry : ℕ
  pub phoff : ℕ
  pub phnum : ℕ
  pub phentsize : ℕ

pub record ElfProgramHeader : Type 0 where
  pub p_type : ℕ
  pub p_flags : ℕ
  pub p_offset : ℕ
  pub p_vaddr : ℕ
  pub p_paddr : ℕ
  pub p_filesz : ℕ
  pub p_memsz : ℕ
  pub p_align : ℕ

pub record UserElfSegment : Type 0 where
  pub vaddr : ℕ
  pub offset : ℕ
  pub filesz : ℕ
  pub memsz : ℕ
  pub flags : ℕ

abbrev pub et_exec : ℕ
et_exec = 2

abbrev pub et_dyn : ℕ
et_dyn = 3

abbrev pub pt_load : ℕ
pt_load = 1

abbrev pub pt_dynamic : ℕ
pt_dynamic = 2

abbrev pub pf_x : ℕ
pf_x = 1

abbrev pub max_segments : ℕ
max_segments = 12

-- size_of::<ElfProgramHeader>()
abbrev pub program_header_size : ℕ
program_header_size = 56

-- The little-endian integer of k bytes at an offset.
unfoldable pub field : List ℕ → ℕ → ℕ → ℕ
field image offset k = from_le_bytes (take k (drop offset image))

abbrev pub has_magic : List ℕ → Bool
has_magic image =
    ((get_or image 0 0 == 0x7f) && (get_or image 1 0 == 0x45))
    && ((get_or image 2 0 == 0x4c) && (get_or image 3 0 == 0x46))

unfoldable pub parse_elf_header : List ℕ → Result ElfError ElfHeader
parse_elf_header image = do
  guard (leb 64 (length image)) too_short
  guard (has_magic image) bad_magic
  guard (get_or image 4 0 == 2) unsupported_class
  guard (get_or image 5 0 == 1) unsupported_endian
  guard ((field image 16 2 == et_exec) || (field image 16 2 == et_dyn)) unsupported_type
  guard (field image 52 2 == 64) invalid_header
  guard (not (field image 54 2 == 0)) invalid_header
  ok (record {
    e_type = field image 16 2;
    entry = field image 24 8;
    phoff = field image 32 8;
    phnum = field image 56 2;
    phentsize = field image 54 2;
  })

abbrev pub program_header_at : List ℕ → ℕ → ElfProgramHeader
program_header_at image off = record {
  p_type = field image off 4;
  p_flags = field image (off + 4) 4;
  p_offset = field image (off + 8) 8;
  p_vaddr = field image (off + 16) 8;
  p_paddr = field image (off + 24) 8;
  p_filesz = field image (off + 32) 8;
  p_memsz = field image (off + 40) 8;
  p_align = field image (off + 48) 8;
}

-- The sums are `checked_add` on 64 bits.
unfoldable pub parse_program_header : List ℕ → ElfHeader → ℕ → Result ElfError ElfProgramHeader
parse_program_header image h index = do
  guard (h.phentsize == program_header_size) unsupported_program_header_size
  guard (ltb index h.phnum) invalid_program_header_count
  guard (ltb (h.phoff + index * h.phentsize) (2 ^ 64)) program_header_out_of_bounds
  guard (ltb (h.phoff + index * h.phentsize + h.phentsize) (2 ^ 64)) program_header_out_of_bounds
  guard (leb (h.phoff + index * h.phentsize + h.phentsize) (length image))
      program_header_out_of_bounds
  ok (program_header_at image (h.phoff + index * h.phentsize))

unfoldable pub validate_segment_bounds : ElfProgramHeader → ℕ → Result ElfError (Unit {0})
validate_segment_bounds ph len = do
  guard (leb ph.p_filesz ph.p_memsz) invalid_header
  guard (ltb (ph.p_offset + ph.p_filesz) (2 ^ 64)) program_header_out_of_bounds
  guard (leb (ph.p_offset + ph.p_filesz) len) program_header_out_of_bounds

-- The segments so far, and the dynamic section.
pub record Found : Type 0 where
  pub segments : List UserElfSegment
  pub dynamic : Option ElfProgramHeader

abbrev pub is_absent : Option ElfProgramHeader → Bool
is_absent none = true
is_absent (some ph) = false

abbrev pub segment_of : ElfProgramHeader → UserElfSegment
segment_of ph = record {
  vaddr = ph.p_vaddr;
  offset = ph.p_offset;
  filesz = ph.p_filesz;
  memsz = ph.p_memsz;
  flags = ph.p_flags;
}

unfoldable pub take_load : ℕ → ElfProgramHeader → Found → Result ElfError Found
take_load len ph f = do
  validate_segment_bounds ph len
  guard (ltb (length f.segments) max_segments) too_many_segments
  ok (record f { segments = f.segments ++ (segment_of ph ∷ []) })

unfoldable pub take_dynamic : ℕ → ElfProgramHeader → Found → Result ElfError Found
take_dynamic len ph f = do
  validate_segment_bounds ph len
  guard (is_absent f.dynamic) malformed_dynamic
  ok (record f { dynamic = some ph })

-- The `match` of the loop.
abbrev pub take_header : ℕ → Found → ElfProgramHeader → Result ElfError Found
take_header len f ph =
    if ph.p_type == pt_load
    then take_load len ph f
    else if ph.p_type == pt_dynamic
    then take_dynamic len ph f
    else ok f

-- `for index in 0..phnum`, from an index on.
unfoldable pub take_headers : List ℕ → ElfHeader → ℕ → ℕ → Found → Result ElfError Found
take_headers image h index zero f = ok f
take_headers image h index (suc n) f = parse_program_header image h index >>= λ ph.
    take_header (length image) f ph >>= λ g. take_headers image h (suc index) n g

-- `saturating_add` on 64 bits
abbrev pub runs_at : ℕ → UserElfSegment → Bool
runs_at entry seg =
    not (bit_and seg.flags pf_x == 0)
    && (leb seg.vaddr entry && ltb entry (min (seg.vaddr + seg.memsz) (2 ^ 64 - 1)))

abbrev pub no_segments : List UserElfSegment → Bool
no_segments [] = true
no_segments (s ∷ ss) = false

abbrev pub nothing_yet : Found
nothing_yet = record { segments = []; dynamic = none }

-- `parse_user_elf` before `parse_dynamic`
unfoldable pub parse_segments : List ℕ → Result ElfError (ElfHeader × Found)
parse_segments image = parse_elf_header image >>= λ h.
    take_headers image h 0 h.phnum nothing_yet >>= λ f.
    guard (not (no_segments f.segments)) invalid_header
    >> (guard ((h.entry == 0) || any (runs_at h.entry) f.segments) invalid_header >> ok (h, f))
