-- ===== src/Elf/Tests.antt =====
-- Runs of microkernel/src/elf.rs and user_elf.rs on a small image.
use zero_os.Common.{ℕ, ◌≡◌, refl, List, [], ◌∷◌, ◌++◌, none, take}
use zero_os.Common.Result.{err}
use zero_os.ZfsCore.Bytes.{to_le_bytes}
use zero_os.Elf.{
  ElfHeader, Found, parse_elf_header, parse_segments, too_short, program_header_out_of_bounds,
  segment_of,
}

-- A header of 64 bytes and one program header: 120 bytes loaded at 0x1000, executable.
image : List ℕ
unfolding to_le_bytes
image =
    127
    ∷ 69
    ∷ 76
    ∷ 70
    ∷ 2
    ∷ 1
    ∷ 1
    ∷ 0
    ∷ (to_le_bytes 8 0
        ++ (to_le_bytes 2 2
            ++ (to_le_bytes 2 183
                ++ (to_le_bytes 4 1
                    ++ (to_le_bytes 8 0x1000
                        ++ (to_le_bytes 8 64
                            ++ (to_le_bytes 8 0
                                ++ (to_le_bytes 4 0
                                    ++ (to_le_bytes 2 64
                                        ++ (to_le_bytes 2 56
                                            ++ (to_le_bytes 2 1
                                                ++ (to_le_bytes 6 0
                                                    ++ (to_le_bytes 4 1
                                                        ++ (to_le_bytes 4 5
                                                            ++ (to_le_bytes 8 0
                                                            ++ (to_le_bytes 8 0x1000
                                                            ++ (to_le_bytes 8 0x1000
                                                            ++ (to_le_bytes 8 120
                                                            ++ (to_le_bytes 8 120
                                                            ++ to_le_bytes 8
                                                            0x1000)))))))))))))))))))

abbrev image_header : ElfHeader
image_header = record { e_type = 2; entry = 0x1000; phoff = 64; phnum = 1; phentsize = 56 }

abbrev image_found : Found
image_found = record {
  segments = record { vaddr = 0x1000; offset = 0; filesz = 120; memsz = 120; flags = 5 } ∷ [];
  dynamic = none;
}

truncated_test :
    (parse_segments (take 119 image) ≡ err program_header_out_of_bounds)
    × (parse_segments (take 63 image) ≡ err too_short)
unfolding image parse_segments parse_elf_header zero_os.Elf.field
    zero_os.ZfsCore.Bytes.from_le_bytes zero_os.Elf.take_headers zero_os.Elf.parse_program_header
truncated_test = (refl, refl)
