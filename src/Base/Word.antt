-- ===== src/Base/Word.antt =====
-- Machine words as native numbers below a power of two.
use Prim.Native.Nat.{ℕ, zero, suc, ◌+◌, ◌-◌, ◌*◌, ◌/◌, ◌%◌, ◌^◌, ◌<◌}
use dc34_baonix.Base.Lists.{length}
use mathlib.Core.Path.{◌≡◌, refl}
use native.Mathlib.Omega.{arith}
use mathlib.Core.List.{List, [], ◌∷◌}
use dc34_baonix.Base.Tests.{ltb, if◌then◌else◌}

abbrev pub u8 : ℕ → ℕ
u8 n = n % 2 ^ 8

abbrev pub u16 : ℕ → ℕ
u16 n = n % 2 ^ 16

-- A `usize` on the badge, whose words have 32 bits.
abbrev pub usize : ℕ → ℕ
usize n = n % 2 ^ 32

-- `a += b` of such a word; to add nothing leaves it as it is.
abbrev pub add_usize : ℕ → ℕ → ℕ
add_usize a zero = a
add_usize a (suc b) = usize (a + suc b)

pub add_usize-fits : (a b : ℕ) → a + b < 2 ^ 32 → add_usize a b ≡ a + b
add_usize-fits a zero h = omega arith
add_usize-fits a (suc b) h = omega arith

abbrev pub u32 : ℕ → ℕ
u32 n = n % 2 ^ 32

abbrev pub u64 : ℕ → ℕ
u64 n = n % 2 ^ 64

-- `x >> k` of an unsigned word.
abbrev pub shr : ℕ → ℕ → ℕ
shr x k = x / 2 ^ k

-- `x & (2 ^ k - 1)`, the low `k` bits.
abbrev pub low_bits : ℕ → ℕ → ℕ
low_bits x k = x % 2 ^ k

-- `!x` of a u64.
abbrev pub not64 : ℕ → ℕ
not64 x = 2 ^ 64 - 1 - x

-- `saturating_add` on u64.
abbrev pub sat_add64 : ℕ → ℕ → ℕ
sat_add64 a b = if ltb (a + b) (2 ^ 64) then a + b else 2 ^ 64 - 1

-- `n` little-endian bytes of `x`.
unfoldable pub to_le : ℕ → ℕ → List ℕ
to_le zero x = []
to_le (suc n) x = (x % 256) ∷ to_le n (x / 256)

pub length-to_le : (n x : ℕ) → length (to_le n x) ≡ n
unfolding to_le
length-to_le zero x = refl
length-to_le (suc n) x = omega (arith, length-to_le n (x / 256))

unfoldable pub from_le : List ℕ → ℕ
from_le [] = 0
from_le (b ∷ bs) = b + 256 * from_le bs
