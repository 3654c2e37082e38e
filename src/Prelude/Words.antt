-- ===== src/Prelude/Words.antt =====
-- Machine words. A value of an unsigned type is a number below 2 ^ w; a `long`, a register or a
-- pointer is its 64-bit pattern. `ℤ` serves for the results that the code tests for `< 0`.
use Prim.Native.Nat.{ℕ, zero, suc, ◌+◌, ◌-◌, ◌*◌, ◌/◌, ◌%◌, ◌^◌}
use mathlib.Core.List.{List, [], ◌∷◌}
use mathlib.Core.Bool.{Bool, true, false}
use pinktrace.Prelude.Tests.{ltb, if◌then◌else◌}

-- `negsuc n` is -(n + 1).
pub data ℤ : Type 0 where
  pos : ℕ → ℤ
  negsuc : ℕ → ℤ

abbrev pub neg : ℕ → ℤ
neg zero = pos 0
neg (suc n) = negsuc n

-- r == 0
abbrev pub is_zero : ℤ → Bool
is_zero (pos zero) = true
is_zero (pos (suc n)) = false
is_zero (negsuc n) = false

-- r < 0
abbrev pub is_neg : ℤ → Bool
is_neg (pos n) = false
is_neg (negsuc n) = true

-- r of an r >= 0.
abbrev pub pos_part : ℤ → ℕ
pos_part (pos n) = n
pos_part (negsuc n) = 0

-- -r of a negative r, and 0 of another: the errno in a negated errno.
abbrev pub abs_neg : ℤ → ℕ
abs_neg (pos n) = 0
abs_neg (negsuc n) = suc n

abbrev pub u32 : ℕ → ℕ
u32 x = x % 2 ^ 32

abbrev pub u64 : ℕ → ℕ
u64 x = x % 2 ^ 64

-- -x of a 64-bit pattern.
abbrev pub neg64 : ℕ → ℕ
neg64 x = u64 (2 ^ 64 - u64 x)

-- (long)(int)x: the sign extension of the low 32 bits.
abbrev pub sext32 : ℕ → ℕ
sext32 x = if ltb (u32 x) (2 ^ 31) then u32 x else u32 x + (2 ^ 64 - 2 ^ 32)

-- The integer that a 64-bit or a 32-bit pattern stands for.
abbrev pub signed64 : ℕ → ℤ
signed64 x = if ltb x (2 ^ 63) then pos x else negsuc (2 ^ 64 - 1 - x)

abbrev pub signed32 : ℕ → ℤ
signed32 x = if ltb x (2 ^ 31) then pos x else negsuc (2 ^ 32 - 1 - x)

-- The bytes of a word, the lowest first, and the word of such bytes.
abbrev pub le_bytes : ℕ → ℕ → List ℕ
le_bytes zero v = []
le_bytes (suc n) v = (v % 256) ∷ le_bytes n (v / 256)

abbrev pub from_le : List ℕ → ℕ
from_le [] = 0
from_le (b ∷ bs) = b + 256 * from_le bs

-- The `n` bytes of a memory from an address on.
abbrev pub window : (ℕ → ℕ) → (a n : ℕ) → List ℕ
window f a zero = []
window f a (suc n) = f a ∷ window f (suc a) n
