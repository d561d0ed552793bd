-- ===== src/Insn/Rvc/Full.antt =====
-- crates/rv64/src/insn/rvc.rs: what a compressed instruction expands to.
use dc34_baonix.Base.{
  ℕ, ◌%◌, ◌≡◌, Bool, true, false, Option, none, some, if◌then◌else◌, bit_or, bit_at-or, arith,
  bit_at-lt, low_bits,
}
use mathlib.Core.Path.{subst}
use dc34_baonix.Insn.Rvc.{
  expand, quadrant0, quadrant1, quadrant2, upper, arithmetic, registers, moves, i_type, s_type,
  r_type, b_type, j_type,
}

-- The low two bits are set, which marks a 32-bit instruction.
Full : Option ℕ → Type 0
Full none = Unit {0}
Full (some i) = low_bits i 2 ≡ 3

or-Full : (a b : ℕ) → b % 4 ≡ 3 → bit_or a b % 4 ≡ 3
or-Full a b h = omega (arith, bit_at-or 0 a b, bit_at-or 1 a b, bit_at-lt 0 a, bit_at-lt 1 a)

if-Full : (c : Bool) (x y : Option ℕ) → Full x → Full y → Full (if c then x else y)
if-Full true x y p q = p
if-Full false x y p q = q

ruleset full = (if-Full, or-Full)

registers-Full : (h : ℕ) → Full (registers h)
unfolding registers Full r_type
registers-Full h = search (full) depth 12

arithmetic-Full : (h : ℕ) → Full (arithmetic h)
unfolding arithmetic Full i_type
arithmetic-Full h = search (full, registers-Full h) depth 12

upper-Full : (h : ℕ) → Full (upper h)
unfolding upper Full i_type
upper-Full h = search (full) depth 12

moves-Full : (h : ℕ) → Full (moves h)
unfolding moves Full i_type
moves-Full h = search (full) depth 12

quadrant0-Full : (h f : ℕ) → Full (quadrant0 h f)
unfolding quadrant0 Full i_type s_type
quadrant0-Full h f = search full depth 12

quadrant1-Full : (h f : ℕ) → Full (quadrant1 h f)
unfolding quadrant1 Full i_type j_type b_type
quadrant1-Full h f = search (full, upper-Full h, arithmetic-Full h) depth 12

quadrant2-Full : (h f : ℕ) → Full (quadrant2 h f)
unfolding quadrant2 Full i_type s_type
quadrant2-Full h f = search (full, moves-Full h) depth 12

expand-Full : (h : ℕ) → Full (expand h)
unfolding expand Full
expand-Full h = search (full, quadrant0-Full, quadrant1-Full, quadrant2-Full) depth 12

-- Whatever a compressed instruction expands to is a 32-bit instruction: its low two bits are set.
pub expand-low_bits : (h i : ℕ) → expand h ≡ some i → low_bits i 2 ≡ 3
unfolding Full
expand-low_bits h i e = subst Full e (expand-Full h)
