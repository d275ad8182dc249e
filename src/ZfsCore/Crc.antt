-- ===== src/ZfsCore/Crc.antt =====
-- libs/zfs-core/src/crc.rs: the checksum of a byte string (`crc32`).
use Prim.Native.Nat.{bit_and, bit_xor}
use zero_os.Common.{
  ℕ, zero, suc, ◌/◌, ◌^◌, ◌<◌, inl, inr, List, [], ◌∷◌, All, ◌==◌, if◌then◌else◌, Bool-cases, arith,
}
use zero_os.Common.Bits.Xor.{bit_xor-lt}

-- `(crc & 1).wrapping_neg()`: all ones when the lowest bit is set.
abbrev pub mask : ℕ → ℕ
mask crc = if bit_and crc 1 == 0 then 0 else 0xFFFF_FFFF

-- `for _ in 0..8`
unfoldable pub shift_byte : ℕ → ℕ → ℕ
shift_byte zero crc = crc
shift_byte (suc n) crc = shift_byte n (bit_xor (crc / 2) (bit_and 0xEDB8_8320 (mask crc)))

unfoldable pub crc_bytes : ℕ → List ℕ → ℕ
crc_bytes crc [] = crc
crc_bytes crc (b ∷ bs) = crc_bytes (shift_byte 8 (bit_xor crc b)) bs

unfoldable pub crc32 : List ℕ → ℕ
crc32 bytes = bit_xor (crc_bytes 0xFFFF_FFFF bytes) 0xFFFF_FFFF

shift_byte-lt : (n crc : ℕ) → crc < 2 ^ 32 → shift_byte n crc < 2 ^ 32
unfolding shift_byte
shift_byte-lt zero crc h = h
shift_byte-lt (suc n) crc h = elim (Bool-cases (bit_and crc 1 == 0)) [
  | inl even ↦ rw even (shift_byte-lt n _ (bit_xor-lt 32 (crc / 2) 0 (omega arith) (omega arith)))
  | inr odd ↦
      rw odd (shift_byte-lt n _ (bit_xor-lt 32 (crc / 2) 0xEDB8_8320 (omega arith) (omega arith)))
]

crc_bytes-lt :
    (crc : ℕ) (bs : List ℕ) → crc < 2 ^ 32 → All (λ b. b < 2 ^ 32) bs → crc_bytes crc bs < 2 ^ 32
unfolding crc_bytes
crc_bytes-lt crc [] h a = h
crc_bytes-lt crc (b ∷ bs) h a =
    crc_bytes-lt (shift_byte 8 (bit_xor crc b)) bs
      (shift_byte-lt 8 (bit_xor crc b) (bit_xor-lt 32 crc b h a.0)) a.1

-- The checksum fits 32 bits.
pub crc32-lt : (bs : List ℕ) → All (λ b. b < 2 ^ 32) bs → crc32 bs < 2 ^ 32
unfolding crc32
crc32-lt bs a =
    bit_xor-lt 32 (crc_bytes 0xFFFF_FFFF bs) 0xFFFF_FFFF
      (crc_bytes-lt 0xFFFF_FFFF bs (omega arith) a) (omega arith)
