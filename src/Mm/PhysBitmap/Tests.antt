-- ===== src/Mm/PhysBitmap/Tests.antt =====
-- Runs of microkernel/src/mm/phys_bitmap.rs at concrete inputs.
use zero_os.Common.{◌≡◌, refl, ◌-◌, ◌^◌, ◌*◌, set, true, List, [], ◌∷◌, some, replicate, arith}
use zero_os.Common.Result.{ok}
use zero_os.Bitmap.{busy, set_bit, clear_bit}
use zero_os.Mm.PhysBitmap.{
  PhysBitmap, empty, init, reserve_first, zero_first, find_bit, take_bit, try_alloc_in_word,
  or_else, scan_words, alloc_page, assert_ready, retain_page, free_page, locate_page, drop_ref,
  mark_busy,
}
use zero_os.Mm.PhysBitmap.Init.{init-IsPhys}
use zero_os.Mm.PhysBitmap.Invariant.{IsPhys, returned, counting}
use zero_os.Mm.PhysBitmap.AllocPage.{Allocates, alloc_page_lem}
use zero_os.Mm.PhysBitmap.Contiguous
use zero_os.Mm.PhysBitmap.Contiguous.{alloc_contiguous_lem}
use zero_os.Mm.PhysBitmap.Sharing.{Owned, retain_times, free_times, last_owner_frees}
use zero_os.Mm.PhysBitmap.Histories.{
  Call, allocs, allocs_run, frees, retains, marks, step, run, run-IsPhys,
}

-- 5 pages from address 0x1000 on, of which pages 0 and 1 are reserved.
abbrev fresh : PhysBitmap
fresh = record {
  words = 3 ∷ [];
  refs = 0 ∷ 0 ∷ 0 ∷ 0 ∷ 0 ∷ [];
  base = 0x1000;
  total = 5;
  reserved = 2;
  free = 3;
  cursor = 0;
}

initialised : init empty (99 ∷ []) (7 ∷ 7 ∷ 7 ∷ 7 ∷ 7 ∷ []) 0x1000 5 2 ≡ ok fresh
unfolding init empty reserve_first zero_first set_bit
initialised = refl

fresh-IsPhys : IsPhys fresh
fresh-IsPhys =
    init-IsPhys empty fresh (99 ∷ []) (7 ∷ 7 ∷ 7 ∷ 7 ∷ 7 ∷ []) 0x1000 5 2 (omega arith) initialised

alloc_page_lem_example : Allocates fresh
alloc_page_lem_example = alloc_page_lem fresh fresh-IsPhys

alloc_contiguous_lem_example : Contiguous.Allocates fresh 2
alloc_contiguous_lem_example = alloc_contiguous_lem fresh 2 fresh-IsPhys (omega arith) (omega arith)

-- Page 2 is handed out.
abbrev used : PhysBitmap
used = record fresh { words = 7 ∷ []; refs = 0 ∷ 0 ∷ 1 ∷ 0 ∷ 0 ∷ []; free = 2 }

handed_out : alloc_page fresh ≡ ok (some (0x3000, used))
unfolding alloc_page assert_ready or_else try_alloc_in_word find_bit take_bit scan_words
handed_out = refl

used-IsPhys : IsPhys used
unfolding run step alloc_page assert_ready or_else try_alloc_in_word take_bit find_bit
used-IsPhys =
    run-IsPhys empty fresh (99 ∷ []) (7 ∷ 7 ∷ 7 ∷ 7 ∷ 7 ∷ []) 0x1000 5 2 (allocs ∷ []) (omega arith)
      initialised

used-Owned : Owned used 2 1
unfolding busy
used-Owned = record {
  phys = used-IsPhys;
  above = omega arith;
  below = omega arith;
  used = refl;
  references = refl;
}

abbrev shared : PhysBitmap
shared = record used { refs = 0 ∷ 0 ∷ 3 ∷ 0 ∷ 0 ∷ [] }

retained : retain_times 2 used 0x3000 ≡ ok shared
unfolding retain_times retain_page assert_ready locate_page busy
retained = refl

last_owner_frees_example :
    (free_times 1 shared 0x3000 ≡ ok (counting used 2 2))
    × (free_times 3 shared 0x3000 ≡ ok (returned used 2))
last_owner_frees_example =
    last_owner_frees used shared 2 2 1 used-Owned (omega arith) (omega arith) retained

abbrev history : List Call
history = allocs_run 2 ∷ retains 0x3000 ∷ frees 0x3000 ∷ frees 0x3000 ∷ marks 4 ∷ allocs ∷ []

run-IsPhys_example : IsPhys (run fresh history)
run-IsPhys_example =
    run-IsPhys empty fresh (99 ∷ []) (7 ∷ 7 ∷ 7 ∷ 7 ∷ 7 ∷ []) 0x1000 5 2 history (omega arith)
      initialised

-- A page marked as busy by the firmware map can be retained, and a release then makes it free.
abbrev marked : PhysBitmap
marked = record fresh { words = 19 ∷ []; free = 2 }

marked_is_not_shielded :
    (mark_busy fresh 4 ≡ ok (true, marked))
    × (retain_page marked 0x5000 ≡ ok (record marked { refs = 0 ∷ 0 ∷ 0 ∷ 0 ∷ 1 ∷ [] }))
    × (free_page (record marked { refs = 0 ∷ 0 ∷ 0 ∷ 0 ∷ 1 ∷ [] }) 0x5000 ≡ ok fresh)
unfolding mark_busy retain_page free_page assert_ready locate_page drop_ref busy set_bit clear_bit
marked_is_not_shielded = (refl, refl, refl)

-- With the cursor on word 1, page 64 is handed out although page 5 is free.
abbrev word_1 : PhysBitmap
word_1 = record {
  words = (2 ^ 64 - 1 - 2 ^ 5) ∷ 0 ∷ [];
  refs = replicate 70 0;
  base = 0;
  total = 70;
  reserved = 1;
  free = 7;
  cursor = 1;
}

abbrev word_1_after : PhysBitmap
word_1_after = record word_1 {
  words = (2 ^ 64 - 1 - 2 ^ 5) ∷ 1 ∷ [];
  refs = set (replicate 70 0) 64 1;
  free = 6;
}

not_the_lowest_page : alloc_page word_1 ≡ ok (some (64 * 4096, word_1_after))
unfolding alloc_page assert_ready or_else try_alloc_in_word take_bit find_bit scan_words
not_the_lowest_page = refl
