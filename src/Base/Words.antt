-- ===== src/Base/Words.antt =====
-- Unsigned machine words as native numbers: wrap-around is written out, bytes are little endian.
use Prim.Native.Nat.{ℕ, zero, suc, ◌+◌, ◌-◌, ◌*◌, ◌/◌, ◌%◌}
use Prim.Native.Nat.{◌<◌}
use mathlib.Core.Path.{◌≡◌}
use native.Mathlib.Omega.{arith}
use mathlib.Core.List.{List, [], ◌∷◌}

abbrev pub u8 : ℕ → ℕ
u8 n = n % 256

abbrev pub u16 : ℕ → ℕ
u16 n = n % 65536

abbrev pub u32 : ℕ → ℕ
u32 n = n % 4294967296

abbrev pub u64 : ℕ → ℕ
u64 n = n % 18446744073709551616

-- `x - y` on 32 and on 64 bits; `-` on ℕ stops at 0, so the modulus is added first.
abbrev pub sub32 : ℕ → ℕ → ℕ
sub32 a b = (a + 4294967296 - b) % 4294967296

abbrev pub sub64 : ℕ → ℕ → ℕ
sub64 a b = (a + 18446744073709551616 - b) % 18446744073709551616

-- the n low bytes of x, the lowest first, and the number that such bytes stand for
abbrev pub to_le : ℕ → ℕ → List ℕ
to_le zero x = []
to_le (suc n) x = (x % 256) ∷ to_le n (x / 256)

abbrev pub from_le : List ℕ → ℕ
from_le [] = 0
from_le (b ∷ bs) = b + 256 * from_le bs

-- 256 ^ n, by recursion
abbrev pub bound : ℕ → ℕ
bound zero = 1
bound (suc n) = 256 * bound n

pub from_le-to_le : (n x : ℕ) → x < bound n → from_le (to_le n x) ≡ x
from_le-to_le zero x h = omega arith
from_le-to_le (suc n) x h = omega (arith, from_le-to_le n (x / 256) (omega arith))
