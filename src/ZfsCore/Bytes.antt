-- ===== src/ZfsCore/Bytes.antt =====
-- Little-endian integers in byte strings, and the cursor of libs/zfs-core/src/metadata.rs (`Cursor`):
-- the data from its offset on. A byte string is the list of its bytes.
use zero_os.Common.{
  ℕ, zero, suc, ◌+◌, ◌*◌, ◌/◌, ◌%◌, ◌^◌, ◌<◌, ◌≡◌, refl, ap, Bool, true, false, List, [], ◌∷◌, ◌++◌,
  length, arith,
}
use zero_os.Common.Result.{Result, ok, err}
use native.Mathlib.Nat.{pow-suc}
use mathlib.Core.List.{append_assoc}

-- error.rs and device.rs
pub data DeviceError : Type 0 where
  out_of_bounds io unsupported : DeviceError

pub data ZfsError : Type 0 where
  device : DeviceError → ZfsError
  journal_corrupt checkpoint_too_large path_invalid corrupt_entry : ZfsError

-- `to_le_bytes` of an integer of k bytes
unfoldable pub to_le_bytes : ℕ → ℕ → List ℕ
to_le_bytes zero v = []
to_le_bytes (suc k) v = (v % 256) ∷ to_le_bytes k (v / 256)

unfoldable pub from_le_bytes : List ℕ → ℕ
from_le_bytes [] = 0
from_le_bytes (b ∷ bs) = b + 256 * from_le_bytes bs

-- What a cursor reads, and where it stands then.
abbrev pub Read {ℓ} : Type ℓ → Type ℓ
Read A = List ℕ → Result ZfsError (A × List ℕ)

abbrev pub continue {ℓ κ} :
    {A : Type ℓ} {B : Type κ}
    → (A → Read B)
    → Result ZfsError (A × List ℕ)
    → Result ZfsError (B × List ℕ)
continue next (ok (a, rest)) = next a rest
continue next (err e) = err e

infixl 5 ◌>>=◌ ◌>>◌
abbrev pub ◌>>=◌ {ℓ κ} : {A : Type ℓ} {B : Type κ} → Read A → (A → Read B) → Read B
(r >>= next) input = continue next (r input)

abbrev pub ◌>>◌ {ℓ} : {B : Type ℓ} → Read (Unit {0}) → Read B → Read B
test >> rest = test >>= λ passed. rest

abbrev pub give {ℓ} : {A : Type ℓ} → A → Read A
give a input = ok (a, input)

abbrev pub check : Bool → ZfsError → Read (Unit {0})
check true failure input = ok (tt, input)
check false failure input = err failure

abbrev pub before : ℕ → Result ZfsError (List ℕ × List ℕ) → Result ZfsError (List ℕ × List ℕ)
before b (ok (bs, rest)) = ok (b ∷ bs, rest)
before b (err e) = err e

-- `Cursor::bytes`, and the integers of 1, 2, 4 and 8 bytes
unfoldable pub bytes : ℕ → Read (List ℕ)
bytes zero input = ok ([], input)
bytes (suc n) [] = err journal_corrupt
bytes (suc n) (b ∷ input) = before b (bytes n input)

abbrev pub integer : ℕ → Read ℕ
integer k = bytes k >>= λ bs. give (from_le_bytes bs)

unfoldable pub u8 : Read ℕ
u8 = integer 1

unfoldable pub u16 : Read ℕ
u16 = integer 2

unfoldable pub u32 : Read ℕ
u32 = integer 4

unfoldable pub u64 : Read ℕ
u64 = integer 8

-- The cursor reads the value off those bytes, and stands behind them.
abbrev pub Reads {ℓ} : {A : Type ℓ} → Read A → A → List ℕ → Type ℓ
Reads r v bs = (rest : List ℕ) → r (bs ++ rest) ≡ ok (v, rest)

pub give-Reads {ℓ} : {A : Type ℓ} (v : A) → Reads (give v) v []
give-Reads v rest = refl

pub bind-Reads {ℓ κ} :
    {A : Type ℓ} {B : Type κ} (r : Read A) (next : A → Read B) (v : A) (w : B) (bs cs : List ℕ)
    → Reads r v bs
    → Reads (next v) w cs
    → Reads (r >>= next) w (bs ++ cs)
bind-Reads r next v w bs cs first second rest =
    rw (append_assoc bs cs rest, first (cs ++ rest)) (second rest)

pub check-Reads {ℓ} :
    {B : Type ℓ} (test : Bool) (failure : ZfsError) (next : Read B) (w : B) (cs : List ℕ)
    → test ≡ true
    → Reads next w cs
    → Reads (check test failure >> next) w cs
check-Reads test failure next w cs passes rest more = rw passes (rest more)

pub bytes-Reads : (bs : List ℕ) → Reads (bytes (length bs)) bs bs
unfolding bytes
bytes-Reads [] rest = refl
bytes-Reads (b ∷ bs) rest = rw (bytes-Reads bs rest) refl

length-to_le_bytes : (k v : ℕ) → length (to_le_bytes k v) ≡ k
unfolding to_le_bytes
length-to_le_bytes zero v = refl
length-to_le_bytes (suc k) v = ap suc (length-to_le_bytes k (v / 256))

pub from_le_bytes-to_le_bytes : (k v : ℕ) → v < 256 ^ k → from_le_bytes (to_le_bytes k v) ≡ v
unfolding to_le_bytes from_le_bytes
from_le_bytes-to_le_bytes zero v h = omega arith
from_le_bytes-to_le_bytes (suc k) v h =
    omega (arith, from_le_bytes-to_le_bytes k (v / 256) (omega (arith, pow-suc 256 k)))

-- An integer that fits k bytes is read back from its k bytes.
pub integer-Reads : (k v : ℕ) → v < 256 ^ k → Reads (integer k) v (to_le_bytes k v)
integer-Reads k v h rest =
    let read : bytes k (to_le_bytes k v ++ rest) ≡ ok (to_le_bytes k v, rest) =
      rw (length-to_le_bytes k v) at (bytes-Reads (to_le_bytes k v) rest) in
    rw (read, from_le_bytes-to_le_bytes k v h) refl
