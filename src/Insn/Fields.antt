-- ===== src/Insn/Fields.antt =====
-- crates/rv64/src/insn/mod.rs: the fields of an instruction, a u32, and its immediates.
use dc34_baonix.Base.{ℕ, ◌+◌, ◌-◌, ◌*◌, ◌^◌, if◌then◌else◌, ◌==◌, low_bits, shr, bit_or, not64}

unfoldable pub opcode : ℕ → ℕ
opcode i = low_bits i 7

unfoldable pub rd : ℕ → ℕ
rd i = low_bits (shr i 7) 5

unfoldable pub rs1 : ℕ → ℕ
rs1 i = low_bits (shr i 15) 5

unfoldable pub rs2 : ℕ → ℕ
rs2 i = low_bits (shr i 20) 5

unfoldable pub funct3 : ℕ → ℕ
funct3 i = low_bits (shr i 12) 3

unfoldable pub funct7 : ℕ → ℕ
funct7 i = low_bits (shr i 25) 7

-- The `w`-bit value `v`, a `w`-bit two's complement number, as a u64: `v as i32 as i64 as u64`
-- at w = 32.
unfoldable pub sext : ℕ → ℕ → ℕ
sext w v = let x = low_bits v w in if shr x (w - 1) == 0 then x else 2 ^ 64 - 2 ^ w + x

-- `(x as i64) >> k`: the sign fills the upper bits.
unfoldable pub sra : ℕ → ℕ → ℕ
sra x k = if shr x 63 == 0 then shr x k else not64 (shr (not64 x) k)

-- An arithmetic shift of the whole word keeps its upper bits, read as a signed number.
unfoldable pub imm_i : ℕ → ℕ
imm_i i = sra (sext 32 i) 20

-- `i & 0xFFFF_F000`
unfoldable pub imm_u : ℕ → ℕ
imm_u i = sext 32 (shr i 12 * 2 ^ 12)

-- `((i & 0xFE00_0000) as i32 >> 20) | ((i >> 7) & 0x1F)`, sign-extended
unfoldable pub imm_s : ℕ → ℕ
imm_s i = bit_or (sra (sext 32 (shr i 25 * 2 ^ 25)) 20) (low_bits (shr i 7) 5)

-- The shifts by 19 and back extend bit 12.
unfoldable pub imm_b : ℕ → ℕ
imm_b i = sext 13 (
    bit_or
      (bit_or (bit_or (low_bits (shr i 31) 1 * 2 ^ 12) (low_bits (shr i 7) 1 * 2 ^ 11))
        (low_bits (shr i 25) 6 * 2 ^ 5))
      (low_bits (shr i 8) 4 * 2 ^ 1))

-- The shifts by 11 and back extend bit 20.
unfoldable pub imm_j : ℕ → ℕ
imm_j i = sext 21 (
    bit_or
      (bit_or (bit_or (low_bits (shr i 31) 1 * 2 ^ 20) (low_bits (shr i 12) 8 * 2 ^ 12))
        (low_bits (shr i 20) 1 * 2 ^ 11))
      (low_bits (shr i 21) 10 * 2 ^ 1))
