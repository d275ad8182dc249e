-- ===== src/ZfsCore/Utf8.antt =====
-- `core::str::from_utf8(..).is_ok()`: the byte strings that are UTF-8 (RFC 3629), as
-- libs/zfs-core/src/metadata.rs uses it.
use zero_os.Common.{ℕ, ◌-◌, Bool, true, false, ◌&&◌, List, [], ◌∷◌, leb, ltb, ◌==◌, if◌then◌else◌}

abbrev pub between : ℕ → ℕ → ℕ → Bool
between lo hi b = leb lo b && leb b hi

-- How many bytes follow a first byte, and the range of the one after it; `bad` for no first byte.
pub data Lead : Type 0 where
  ascii bad : Lead
  more : (lo hi rest : ℕ) → Lead

unfoldable pub lead : ℕ → Lead
lead b =
    if ltb b 0x80
    then ascii
    else if between 0xC2 0xDF b
    then more 0x80 0xBF 0
    else if b == 0xE0
    then more 0xA0 0xBF 1
    else if b == 0xED
    then more 0x80 0x9F 1
    else if between 0xE1 0xEF b
    then more 0x80 0xBF 1
    else if b == 0xF0
    then more 0x90 0xBF 2
    else if between 0xF1 0xF3 b
    then more 0x80 0xBF 2
    else if b == 0xF4
    then more 0x80 0x8F 2
    else bad

-- Where the check stands: at a first byte, or before a byte of that range and `rest` more.
pub data Utf8 : Type 0 where
  at_start failed : Utf8
  within : (lo hi rest : ℕ) → Utf8

abbrev pub begin : Lead → Utf8
begin ascii = at_start
begin bad = failed
begin (more lo hi rest) = within lo hi rest

unfoldable pub next_byte : Utf8 → ℕ → Utf8
next_byte at_start b = begin (lead b)
next_byte failed b = failed
next_byte (within lo hi rest) b =
    if between lo hi b
    then (if rest == 0 then at_start else within 0x80 0xBF (rest - 1))
    else failed

abbrev pub at_end : Utf8 → Bool
at_end at_start = true
at_end failed = false
at_end (within lo hi rest) = false

unfoldable pub scan_utf8 : Utf8 → List ℕ → Bool
scan_utf8 state [] = at_end state
scan_utf8 state (b ∷ bs) = scan_utf8 (next_byte state b) bs

unfoldable pub is_utf8 : List ℕ → Bool
is_utf8 bs = scan_utf8 at_start bs
