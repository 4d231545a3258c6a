-- ===== src/Common/Bytes.antt =====
-- Byte slices: little-endian words, and their laws.
use csyn.Common.{
  ℕ, zero, suc, ◌+◌, ◌*◌, ◌/◌, ◌%◌, ◌^◌, ◌<◌, ◌≡◌, refl, arith, List, [], ◌∷◌, length, ap,
}

abbrev pub Bytes : Type 0
Bytes = List ℕ

-- `x.to_le_bytes()` of a word of `w` bytes.
abbrev pub le_bytes : ℕ → ℕ → Bytes
le_bytes zero x = []
le_bytes (suc w) x = (x % 256) ∷ le_bytes w (x / 256)

-- `from_le_bytes`
abbrev pub from_le_bytes : Bytes → ℕ
from_le_bytes [] = 0
from_le_bytes (b ∷ bs) = b + 256 * from_le_bytes bs

pub length-le_bytes : (w x : ℕ) → length (le_bytes w x) ≡ w
length-le_bytes zero x = refl
length-le_bytes (suc w) x = ap suc (length-le_bytes w (x / 256))

-- The words of the formats at hand have 2, 4 and 8 bytes.
pub from_le_bytes-u16 : (x : ℕ) → x < 2 ^ 16 → from_le_bytes (le_bytes 2 x) ≡ x
from_le_bytes-u16 x h = omega arith

pub from_le_bytes-u32 : (x : ℕ) → x < 2 ^ 32 → from_le_bytes (le_bytes 4 x) ≡ x
from_le_bytes-u32 x h = omega arith

pub from_le_bytes-u64 : (x : ℕ) → x < 2 ^ 64 → from_le_bytes (le_bytes 8 x) ≡ x
from_le_bytes-u64 x h = omega arith
