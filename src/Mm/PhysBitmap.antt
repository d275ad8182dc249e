-- ===== src/Mm/PhysBitmap.antt =====
-- microkernel/src/mm/phys_bitmap.rs: the allocator of physical pages (`PhysBitmap`), a bitmap with a
-- count of references per page. The two raw arrays are lists; a panic is an error value. A null
-- array occurs only in `empty`, whose total is 0.
pub mod Invariant
pub mod AllocPage
pub mod Sharing
pub mod Contiguous
pub mod Init
pub mod Histories
mod Tests
use Prim.Native.Nat.{bit_and, bit_or}
use zero_os.Common.{
  ℕ, zero, suc, ◌+◌, ◌*◌, ◌-◌, ◌/◌, ◌%◌, ◌^◌, Bool, true, false, not, ◌&&◌, ◌||◌, min, max, List,
  [], ◌∷◌, Option, none, some, ◌==◌, ltb, leb, if◌then◌else◌, get_or, set, replicate, length,
}
use zero_os.Common.Result.{Result, ok, err, ◌>>=◌, ◌>>◌, guard}
use zero_os.Bitmap.{word_max, busy, set_bit, clear_bit}

abbrev pub page_size : ℕ
page_size = 4096

-- The failed assertions.
pub data Panic : Type 0 where
  not_initialised bitmap_too_small refs_too_small below_base unaligned out_of_range is_reserved :
      Panic
  double_free refcount_underflow not_allocated refcount_overflow : Panic

pub record PhysBitmap : Type 0 where
  pub words : List ℕ
  pub refs : List ℕ
  pub base : ℕ
  pub total : ℕ
  pub reserved : ℕ
  pub free : ℕ
  pub cursor : ℕ

pub empty : PhysBitmap
empty = record { words = []; refs = []; base = 0; total = 0; reserved = 0; free = 0; cursor = 0 }

-- `for page in 0..n { set_bit(page) }`
unfoldable pub reserve_first : ℕ → List ℕ → List ℕ
reserve_first zero words = words
reserve_first (suc n) words = set_bit (reserve_first n words) n

-- `for i in 0..n { refs[i] = 0 }`
unfoldable pub zero_first : ℕ → List ℕ → List ℕ
zero_first zero refs = refs
zero_first (suc n) refs = set (zero_first n refs) n 0

-- The storage that the caller hands over may hold anything.
unfoldable pub init : PhysBitmap → List ℕ → List ℕ → ℕ → ℕ → ℕ → Result Panic PhysBitmap
init b words refs base total reserved = do
  guard (leb total (length words * 64)) bitmap_too_small
  guard (leb total (length refs)) refs_too_small
  let reserve = min total (max reserved 1)
  ok (record b {
    words = reserve_first reserve (replicate (length words) 0);
    refs = zero_first total refs;
    base = base;
    total = total;
    reserved = reserve;
    free = total - reserve;
  })

unfoldable pub assert_ready : PhysBitmap → Result Panic (Unit {0})
assert_ready b = guard (not (b.total == 0)) not_initialised

-- The loop over the bits of one word, from `bit` on.
unfoldable pub find_bit : ℕ → ℕ → ℕ → ℕ → ℕ → ℕ → Option ℕ
find_bit slot index reserved total bit zero = none
find_bit slot index reserved total bit (suc rounds) =
    let rest = find_bit slot index reserved total (suc bit) rounds in
    if ltb (index * 64 + bit) reserved || leb total (index * 64 + bit)
    then rest
    else if bit_and slot (2 ^ bit) == 0
    then some bit
    else rest

-- What follows when the loop found a bit.
unfoldable pub take_bit : PhysBitmap → ℕ → Option ℕ → Option (ℕ × PhysBitmap)
take_bit b index none = none
take_bit b index (some bit) = some (
  b.base + (index * 64 + bit) * page_size,
  record b {
    words = set b.words index (bit_or (get_or b.words index 0) (2 ^ bit));
    refs = set b.refs (index * 64 + bit) 1;
    free = b.free - 1;
    cursor = index;
  },
)

unfoldable pub try_alloc_in_word : PhysBitmap → ℕ → Option (ℕ × PhysBitmap)
try_alloc_in_word b index =
    if get_or b.words index 0 == word_max
    then none
    else take_bit b index (find_bit (get_or b.words index 0) index b.reserved b.total 0 64)

-- An early `return Some(..)`.
unfoldable pub or_else : Option (ℕ × PhysBitmap) → Option (ℕ × PhysBitmap) → Option (ℕ × PhysBitmap)
or_else none later = later
or_else (some r) later = some r

-- The slow path: each word in turn.
unfoldable pub scan_words : PhysBitmap → ℕ → ℕ → Option (ℕ × PhysBitmap)
scan_words b index zero = none
scan_words b index (suc rounds) =
    let rest = scan_words b (suc index) rounds in or_else (try_alloc_in_word b index) rest

-- A call that gives `none` leaves the bitmap as it was.
unfoldable pub alloc_page : PhysBitmap → Result Panic (Option (ℕ × PhysBitmap))
alloc_page b = do
  assert_ready b
  ok (
      or_else (if ltb b.cursor (length b.words) then try_alloc_in_word b b.cursor else none)
        (scan_words b 0 (length b.words)))

-- The loop of `alloc_contiguous`: the first page of the first run of `count` free pages.
unfoldable pub find_run : List ℕ → ℕ → ℕ → ℕ → ℕ → ℕ → Option ℕ
find_run words count page zero run run_start = none
find_run words count page (suc rounds) run run_start =
    let start = if run == 0 then page else run_start in
    let restart = find_run words count (suc page) rounds 0 run_start in
    let longer = find_run words count (suc page) rounds (suc run) start in
    if busy words page then restart else if suc run == count then some start else longer

-- `for p in start..=page { set_bit(p); set_refs(p, 1) }`, which are `count` pages.
unfoldable pub take_run : PhysBitmap → ℕ → ℕ → PhysBitmap
take_run b start zero = b
take_run b start (suc count) =
    take_run (record b { words = set_bit b.words start; refs = set b.refs start 1 }) (suc start)
      count

unfoldable pub take_found : PhysBitmap → ℕ → Option ℕ → Option (ℕ × PhysBitmap)
take_found b count none = none
take_found b count (some start) =
    some (b.base + start * page_size, record (take_run b start count) { free = b.free - count })

unfoldable pub alloc_contiguous : PhysBitmap → ℕ → Result Panic (Option (ℕ × PhysBitmap))
alloc_contiguous b count = do
  assert_ready b
  ok (if count == 0 then none else take_found b count (find_run b.words count 1 (b.total - 1) 0 0))

unfoldable pub locate_page : PhysBitmap → ℕ → Result Panic ℕ
locate_page b addr = do
  guard (leb b.base addr) below_base
  guard ((addr - b.base) % page_size == 0) unaligned
  let page = (addr - b.base) / page_size
  guard (ltb page b.total) out_of_range
  guard (leb b.reserved page) is_reserved
  ok page

-- The last reference gives the page back; otherwise the count goes down.
unfoldable pub drop_ref : PhysBitmap → ℕ → ℕ → PhysBitmap
drop_ref b page old =
    if old == 1
    then record b { words = clear_bit b.words page; refs = set b.refs page 0; free = b.free + 1 }
    else record b { refs = set b.refs page (old - 1) }

unfoldable pub free_page : PhysBitmap → ℕ → Result Panic PhysBitmap
free_page b addr = do
  assert_ready b
  page ← locate_page b addr
  guard (busy b.words page) double_free
  guard (leb 1 (get_or b.refs page 0)) refcount_underflow
  ok (drop_ref b page (get_or b.refs page 0))

-- The counts are u16.
unfoldable pub retain_page : PhysBitmap → ℕ → Result Panic PhysBitmap
retain_page b addr = do
  assert_ready b
  page ← locate_page b addr
  guard (busy b.words page) not_allocated
  guard (ltb (get_or b.refs page 0) 65535) refcount_overflow
  ok (record b { refs = set b.refs page (get_or b.refs page 0 + 1) })

unfoldable pub ref_count : PhysBitmap → ℕ → ℕ
ref_count b addr =
    if b.total == 0 || ltb addr b.base
    then 0
    else if not ((addr - b.base) % page_size == 0)
    then 0
    else if leb b.total ((addr - b.base) / page_size)
    then 0
    else get_or b.refs ((addr - b.base) / page_size) 0

unfoldable pub page_is_free : PhysBitmap → ℕ → Bool
page_is_free b addr =
    if ltb addr b.base
    then false
    else if not ((addr - b.base) % page_size == 0)
    then false
    else ltb ((addr - b.base) / page_size) b.total
      && not (busy b.words ((addr - b.base) / page_size))

unfoldable pub mark_busy : PhysBitmap → ℕ → Result Panic (Bool × PhysBitmap)
mark_busy b page = do
  assert_ready b
  ok (
      if leb b.total page || busy b.words page then (false, b) else (
        true,
        record b { words = set_bit b.words page; refs = set b.refs page 0; free = b.free - 1 },
      ))
