-- ===== src/Prelude/Int64.antt =====
-- Go's `int` and `int64`: an integer of 64 bits, whose sums wrap around.
use Prim.Native.Nat.{ℕ, ◌+◌, ◌-◌, ◌%◌, ◌≤◌, ◌<◌}
use mathlib.Core.Path.{◌≡◌}
use native.Mathlib.Omega.{arith}
use gicel.Prelude.Tests.{if◌then◌else◌}
use gicel.Prelude.Int.{ℤ, pos, negsuc, ◌+ℤ◌, ◌-ℤ◌, ltb_ℤ}

abbrev pub two_63 : ℕ
two_63 = 0x8000_0000_0000_0000

abbrev pub max_int64 : ℤ
max_int64 = pos 0x7fff_ffff_ffff_ffff

abbrev pub min_int64 : ℤ
min_int64 = negsuc 0x7fff_ffff_ffff_ffff

-- The value of a sum or difference of two 64-bit integers, brought back into the range.
abbrev pub wrap64 : ℤ → ℤ
wrap64 s =
    if ltb_ℤ max_int64 s
    then s -ℤ pos 0x1_0000_0000_0000_0000
    else if ltb_ℤ s min_int64
    then s +ℤ pos 0x1_0000_0000_0000_0000
    else s

unfoldable pub add64 : ℤ → ℤ → ℤ
unfolding ◌+ℤ◌ ◌-ℤ◌
add64 a b = wrap64 (a +ℤ b)

unfoldable pub sub64 : ℤ → ℤ → ℤ
unfolding ◌+ℤ◌ ◌-ℤ◌
sub64 a b = wrap64 (a -ℤ b)

-- `x & 63`, of the two's complement.
abbrev pub low_six : ℤ → ℕ
low_six (pos n) = n % 64
low_six (negsuc n) = 63 - n % 64

-- A number that an `int64` counter reaches without wrapping.
pub add64-pos : (a b : ℕ) → a + b < two_63 → add64 (pos a) (pos b) ≡ pos (a + b)
unfolding add64
add64-pos a b h = ground arith

-- A sum of two non-negative counts past the range comes out negative.
pub add64_overflow :
    (a b : ℕ)
    → a < two_63
    → b < two_63
    → two_63 ≤ a + b
    → add64 (pos a) (pos b) ≡ negsuc (0xffff_ffff_ffff_ffff - (a + b))
unfolding add64
add64_overflow a b ha hb h = ground arith

pub sub64-pos : (a : ℕ) → a < two_63 → 0 < a → sub64 (pos a) (pos 1) ≡ pos (a - 1)
unfolding sub64
sub64-pos a h p = ground arith
