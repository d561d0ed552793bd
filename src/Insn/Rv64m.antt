-- ===== src/Insn/Rv64m.antt =====
-- crates/rv64/src/insn/rv64m.rs: multiplication and division. Signed operands are integers, since
-- the source computes on i64, i32 and i128, and no product or quotient leaves the type it has there.
use dc34_baonix.Base.{
  ℕ, ◌+◌, ◌-◌, ◌*◌, ◌/◌, ◌%◌, ◌^◌, Bool, false, not, ◌&&◌, Option, none, some, if◌then◌else◌, ◌==◌,
  ltb, ok, M, u32, u64, shr,
}
use dc34_baonix.Base.Int.{ℤ, pos, negsuc, ◌*ℤ◌}
use dc34_baonix.Exception.{Exception}
use dc34_baonix.Cpu.{Machine, reg}
use dc34_baonix.Insn.Fields.{opcode, rs1, rs2, funct3, funct7, sext}
use dc34_baonix.Insn.Rv64i.{finish}

-- The two's complement value of a `w`-bit word: `a as i64` at w = 64, `a as i32` at w = 32.
unfoldable pub signed : ℕ → ℕ → ℤ
signed w a = let x = a % 2 ^ w in if ltb x (2 ^ (w - 1)) then pos x else negsuc (2 ^ w - x - 1)

-- The `w`-bit word of an integer: `as u64`.
unfoldable pub wrap : ℕ → ℤ → ℕ
wrap w (pos n) = n % 2 ^ w
wrap w (negsuc n) = 2 ^ w - 1 - n % 2 ^ w

-- Is `a` the integer `-(n + 1)`?
unfoldable pub is_negsuc : ℕ → ℤ → Bool
is_negsuc n (pos a) = false
is_negsuc n (negsuc a) = a == n

unfoldable pub is_zero : ℤ → Bool
is_zero (pos a) = a == 0
is_zero (negsuc a) = false

-- `-n` of a natural number, and Rust's `/` and `%`, which round to zero.
unfoldable pub minus : ℕ → ℤ
minus n = if n == 0 then pos 0 else negsuc (n - 1)

unfoldable pub quot : ℤ → ℤ → ℤ
quot (pos a) (pos b) = pos (a / b)
quot (pos a) (negsuc b) = minus (a / (b + 1))
quot (negsuc a) (pos b) = minus ((a + 1) / b)
quot (negsuc a) (negsuc b) = pos ((a + 1) / (b + 1))

unfoldable pub rem : ℤ → ℤ → ℤ
rem (pos a) (pos b) = pos (a % b)
rem (pos a) (negsuc b) = pos (a % (b + 1))
rem (negsuc a) (pos b) = minus ((a + 1) % b)
rem (negsuc a) (negsuc b) = minus ((a + 1) % (b + 1))

-- `i64::MIN` at w = 64, `i32::MIN` at w = 32.
unfoldable pub is_min : ℕ → ℤ → Bool
is_min w a = is_negsuc (2 ^ (w - 1) - 1) a

-- `div_signed` at w = 64, `div_signed_w` at w = 32.
unfoldable pub div_signed : ℕ → ℤ → ℤ → ℤ
div_signed w a b =
    if is_zero b
    then negsuc 0
    else if is_min w a && is_negsuc 0 b
    then negsuc (2 ^ (w - 1) - 1)
    else quot a b

unfoldable pub rem_signed : ℕ → ℤ → ℤ → ℤ
rem_signed w a b = if is_zero b then a else if is_min w a && is_negsuc 0 b then pos 0 else rem a b

-- The upper half of a product of 128 bits.
unfoldable pub high : ℤ → ℕ
high p = shr (wrap 128 p) 64

unfoldable pub mul_op : ℕ → ℕ → ℕ → ℕ
mul_op f a b =
    if f == 0
    then u64 (a * b)
    else if f == 1
    then high (signed 64 a *ℤ signed 64 b)
    else if f == 2
    then high (signed 64 a *ℤ pos b)
    else if f == 3
    then shr (a * b) 64
    else if f == 4
    then wrap 64 (div_signed 64 (signed 64 a) (signed 64 b))
    else if f == 5
    then (if b == 0 then 2 ^ 64 - 1 else a / b)
    else if f == 6
    then wrap 64 (rem_signed 64 (signed 64 a) (signed 64 b))
    else (if b == 0 then a else a % b)

unfoldable pub mul_op_32 : ℕ → ℕ → ℕ → Option ℕ
mul_op_32 f a b =
    let x = u32 a in
    let y = u32 b in
    if f == 0
    then some (sext 32 (x * y))
    else if f == 4
    then some (wrap 64 (div_signed 32 (signed 32 x) (signed 32 y)))
    else if f == 5
    then some (if y == 0 then 2 ^ 64 - 1 else sext 32 (x / y))
    else if f == 6
    then some (wrap 64 (rem_signed 32 (signed 32 x) (signed 32 y)))
    else if f == 7
    then some (sext 32 (if y == 0 then x else x % y))
    else none

module _ {T K : Type 0} where
  unfoldable pub execute : ℕ → M (Machine T K) Exception Bool
  execute insn s =
      let a = reg s.cpu (rs1 insn) in
      let b = reg s.cpu (rs2 insn) in
      if not (funct7 insn == 0x01)
      then (ok false, s)
      else if opcode insn == 0x33
      then finish insn (some (mul_op (funct3 insn) a b)) s
      else if opcode insn == 0x3B
      then finish insn (mul_op_32 (funct3 insn) a b) s
      else (ok false, s)
