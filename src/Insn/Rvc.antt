-- ===== src/Insn/Rvc.antt =====
-- crates/rv64/src/insn/rvc.rs: a compressed instruction as the 32-bit one it stands for. One function
-- for each of the three quadrants, the low two bits.
mod Tests
pub mod Full
use dc34_baonix.Base.{
  ℕ, ◌+◌, ◌-◌, ◌*◌, ◌^◌, Option, none, some, if◌then◌else◌, ◌==◌, low_bits, shr, bit_or, u32,
}

-- `(h >> k) & (2 ^ n - 1)`
abbrev pub field : ℕ → ℕ → ℕ → ℕ
field h k n = low_bits (shr h k) n

-- `a | b`
infixl 60 ◌∣∣◌
abbrev pub ◌∣∣◌ : ℕ → ℕ → ℕ
a ∣∣ b = bit_or a b

-- The shift of an i32 to the left and back, which extends bit `w - 1`.
unfoldable pub sext_u32 : ℕ → ℕ → ℕ
sext_u32 w v = let x = low_bits v w in if shr x (w - 1) == 0 then x else 2 ^ 32 - 2 ^ w + x

abbrev pub sext6 : ℕ → ℕ
sext6 v = sext_u32 6 v

abbrev pub sext9 : ℕ → ℕ
sext9 v = sext_u32 9 v

abbrev pub sext10 : ℕ → ℕ
sext10 v = sext_u32 10 v

abbrev pub sext12 : ℕ → ℕ
sext12 v = sext_u32 12 v

unfoldable pub i_type : ℕ → ℕ → ℕ → ℕ → ℕ → ℕ
i_type imm rs1 f3 rd opc =
    low_bits imm 12 * 2 ^ 20 ∣∣ rs1 * 2 ^ 15 ∣∣ f3 * 2 ^ 12 ∣∣ rd * 2 ^ 7 ∣∣ opc

unfoldable pub s_type : ℕ → ℕ → ℕ → ℕ → ℕ → ℕ
s_type imm rs2 rs1 f3 opc =
    u32 (shr imm 5 * 2 ^ 25)
    ∣∣ rs2 * 2 ^ 20
    ∣∣ rs1 * 2 ^ 15
    ∣∣ f3 * 2 ^ 12
    ∣∣ low_bits imm 5 * 2 ^ 7
    ∣∣ opc

unfoldable pub r_type : ℕ → ℕ → ℕ → ℕ → ℕ → ℕ → ℕ
r_type funct7 rs2 rs1 f3 rd opc =
    funct7 * 2 ^ 25 ∣∣ rs2 * 2 ^ 20 ∣∣ rs1 * 2 ^ 15 ∣∣ f3 * 2 ^ 12 ∣∣ rd * 2 ^ 7 ∣∣ opc

unfoldable pub b_type : ℕ → ℕ → ℕ → ℕ → ℕ → ℕ
b_type imm rs2 rs1 f3 opc =
    field imm 12 1 * 2 ^ 31
    ∣∣ field imm 5 6 * 2 ^ 25
    ∣∣ rs2 * 2 ^ 20
    ∣∣ rs1 * 2 ^ 15
    ∣∣ f3 * 2 ^ 12
    ∣∣ field imm 1 4 * 2 ^ 8
    ∣∣ field imm 11 1 * 2 ^ 7
    ∣∣ opc

unfoldable pub j_type : ℕ → ℕ → ℕ → ℕ
j_type imm rd opc =
    field imm 20 1 * 2 ^ 31
    ∣∣ field imm 1 10 * 2 ^ 21
    ∣∣ field imm 11 1 * 2 ^ 20
    ∣∣ field imm 12 8 * 2 ^ 12
    ∣∣ rd * 2 ^ 7
    ∣∣ opc

abbrev pub rd_of : ℕ → ℕ
rd_of h = field h 7 5

abbrev pub rs2_of : ℕ → ℕ
rs2_of h = field h 2 5

-- The 3-bit register fields address x8 to x15; `rd'` and `rs2'` are the same field.
abbrev pub low_reg : ℕ → ℕ
low_reg h = 8 + field h 2 3

abbrev pub high_reg : ℕ → ℕ
high_reg h = 8 + field h 7 3

-- The offsets of C.LW and C.SW, and of C.LD and C.SD.
unfoldable pub word_offset : ℕ → ℕ
word_offset h = field h 5 1 * 2 ^ 6 ∣∣ field h 10 3 * 2 ^ 3 ∣∣ field h 6 1 * 2 ^ 2

unfoldable pub double_offset : ℕ → ℕ
double_offset h = field h 5 2 * 2 ^ 6 ∣∣ field h 10 3 * 2 ^ 3

-- The unsigned 6-bit field of the shifts and of the small immediates.
unfoldable pub six : ℕ → ℕ
six h = field h 12 1 * 2 ^ 5 ∣∣ field h 2 5

unfoldable pub branch_offset : ℕ → ℕ
branch_offset h = sext9 (
    field h 12 1 * 2 ^ 8
    ∣∣ field h 10 2 * 2 ^ 3
    ∣∣ field h 5 2 * 2 ^ 6
    ∣∣ field h 3 2 * 2 ^ 1
    ∣∣ field h 2 1 * 2 ^ 5)

unfoldable pub jump_offset : ℕ → ℕ
jump_offset h = sext12 (
    field h 12 1 * 2 ^ 11
    ∣∣ field h 11 1 * 2 ^ 4
    ∣∣ field h 9 2 * 2 ^ 8
    ∣∣ field h 8 1 * 2 ^ 10
    ∣∣ field h 7 1 * 2 ^ 6
    ∣∣ field h 6 1 * 2 ^ 7
    ∣∣ field h 3 3 * 2 ^ 1
    ∣∣ field h 2 1 * 2 ^ 5)

unfoldable pub stack_offset : ℕ → ℕ
stack_offset h = sext10 (
    field h 12 1 * 2 ^ 9
    ∣∣ field h 3 2 * 2 ^ 7
    ∣∣ field h 5 1 * 2 ^ 6
    ∣∣ field h 2 1 * 2 ^ 5
    ∣∣ field h 6 1 * 2 ^ 4)

-- `if x == 0 { return None; }`
abbrev pub nonzero : ℕ → Option ℕ → Option ℕ
nonzero x rest = if x == 0 then none else rest

unfoldable pub quadrant0 : ℕ → ℕ → Option ℕ
quadrant0 h f =
    let nzuimm =
      field h 7 4 * 2 ^ 6 ∣∣ field h 11 2 * 2 ^ 4 ∣∣ field h 5 1 * 2 ^ 3 ∣∣ field h 6 1 * 2 ^ 2 in
    if f == 0
    then nonzero nzuimm (some (i_type nzuimm 2 0x0 (low_reg h) 0x13))
    else if f == 2
    then some (i_type (word_offset h) (high_reg h) 0x2 (low_reg h) 0x03)
    else if f == 3
    then some (i_type (double_offset h) (high_reg h) 0x3 (low_reg h) 0x03)
    else if f == 6
    then some (s_type (word_offset h) (low_reg h) (high_reg h) 0x2 0x23)
    else if f == 7
    then some (s_type (double_offset h) (low_reg h) (high_reg h) 0x3 0x23)
    else none

-- C.ADDI16SP and C.LUI
unfoldable pub upper : ℕ → Option ℕ
upper h =
    if rd_of h == 2
    then (let imm = stack_offset h in nonzero imm (some (i_type imm 2 0x0 2 0x13)))
    else nonzero (six h) (some (low_bits (sext6 (six h)) 20 * 2 ^ 12 ∣∣ rd_of h * 2 ^ 7 ∣∣ 0x37))

-- The two-register group of C.SUB to C.ADDW
unfoldable pub registers : ℕ → Option ℕ
registers h =
    let r = high_reg h in
    let s = low_reg h in
    let sel = field h 5 2 in
    if field h 12 1 == 0
    then (if sel == 0
        then some (r_type 0x20 s r 0x0 r 0x33)
        else if sel == 1
        then some (r_type 0x00 s r 0x4 r 0x33)
        else if sel == 2
        then some (r_type 0x00 s r 0x6 r 0x33)
        else some (r_type 0x00 s r 0x7 r 0x33))
    else (if sel == 0
        then some (r_type 0x20 s r 0x0 r 0x3B)
        else if sel == 1
        then some (r_type 0x00 s r 0x0 r 0x3B)
        else none)

unfoldable pub arithmetic : ℕ → Option ℕ
arithmetic h =
    let r = high_reg h in
    let funct2 = field h 10 2 in
    if funct2 == 0
    then some (i_type (six h) r 0x5 r 0x13)
    else if funct2 == 1
    then some (i_type (six h ∣∣ 0x400) r 0x5 r 0x13)
    else if funct2 == 2
    then some (i_type (sext6 (six h)) r 0x7 r 0x13)
    else registers h

unfoldable pub quadrant1 : ℕ → ℕ → Option ℕ
quadrant1 h f =
    let rd = rd_of h in
    if f == 0
    then some (i_type (sext6 (six h)) rd 0x0 rd 0x13)
    else if f == 1
    then nonzero rd (some (i_type (sext6 (six h)) rd 0x0 rd 0x1B))
    else if f == 2
    then some (i_type (sext6 (six h)) 0 0x0 rd 0x13)
    else if f == 3
    then upper h
    else if f == 4
    then arithmetic h
    else if f == 5
    then some (j_type (jump_offset h) 0 0x6F)
    else if f == 6
    then some (b_type (branch_offset h) 0 (high_reg h) 0x0 0x63)
    else some (b_type (branch_offset h) 0 (high_reg h) 0x1 0x63)

-- C.MV, C.ADD, C.JR, C.JALR and C.EBREAK
unfoldable pub moves : ℕ → Option ℕ
moves h =
    let rd = rd_of h in
    let rs2 = rs2_of h in
    if field h 12 1 == 0
    then (if rs2 == 0
        then nonzero rd (some (i_type 0 rd 0x0 0 0x67))
        else some (rs2 * 2 ^ 20 ∣∣ rd * 2 ^ 7 ∣∣ 0x33))
    else (if rs2 == 0
        then (if rd == 0 then some 0x0010_0073 else some (i_type 0 rd 0x0 1 0x67))
        else some (rs2 * 2 ^ 20 ∣∣ rd * 2 ^ 15 ∣∣ rd * 2 ^ 7 ∣∣ 0x33))

unfoldable pub quadrant2 : ℕ → ℕ → Option ℕ
quadrant2 h f =
    let rd = rd_of h in
    let lwsp = field h 12 1 * 2 ^ 5 ∣∣ field h 4 3 * 2 ^ 2 ∣∣ field h 2 2 * 2 ^ 6 in
    let ldsp = field h 12 1 * 2 ^ 5 ∣∣ field h 5 2 * 2 ^ 3 ∣∣ field h 2 3 * 2 ^ 6 in
    let swsp = field h 9 4 * 2 ^ 2 ∣∣ field h 7 2 * 2 ^ 6 in
    let sdsp = field h 10 3 * 2 ^ 3 ∣∣ field h 7 3 * 2 ^ 6 in
    if f == 0
    then some (i_type (six h) rd 0x1 rd 0x13)
    else if f == 2
    then nonzero rd (some (i_type lwsp 2 0x2 rd 0x03))
    else if f == 3
    then nonzero rd (some (i_type ldsp 2 0x3 rd 0x03))
    else if f == 4
    then moves h
    else if f == 6
    then some (s_type swsp (rs2_of h) 2 0x2 0x23)
    else if f == 7
    then some (s_type sdsp (rs2_of h) 2 0x3 0x23)
    else none

unfoldable pub expand : ℕ → Option ℕ
expand h =
    let op = low_bits h 2 in
    let f = field h 13 3 in
    if op == 3
    then none
    else if op == 0
    then quadrant0 h f
    else if op == 1
    then quadrant1 h f
    else quadrant2 h f
