-- ===== src/Insn/Rv64i.antt =====
-- crates/rv64/src/insn/rv64i.rs: the base instruction set, one function for each opcode's arm.
use dc34_baonix.Base.{
  ℕ, ◌+◌, ◌-◌, ◌*◌, ◌^◌, Bool, true, false, not, ◌&&◌, ◌||◌, Option, none, some, if◌then◌else◌,
  ◌==◌, ltb, leb, ok, err, M, bind, pure, u32, u64, shr, low_bits, bit_at, bit_and, bit_or, bit_xor,
  not64,
}
use dc34_baonix.Backing.{MemBacking}
use dc34_baonix.Csr
use dc34_baonix.Csr.{Priv, user, supervisor, machine, satp}
use dc34_baonix.Mmu
use dc34_baonix.Mmu.{is_user, is_machine}
use dc34_baonix.Uart.{ConsoleSink}
use dc34_baonix.Exception.{
  Exception, illegal_instruction, breakpoint, environment_call_from_u_mode,
  environment_call_from_s_mode, environment_call_from_m_mode,
}
use dc34_baonix.Cpu.{Cpu, Machine, reg, set_reg, jump, set_csr, vload, vstore}
use dc34_baonix.Cpu.Trap.{mret, sret}
use dc34_baonix.Insn.Fields.{
  opcode, rd, rs1, rs2, funct3, funct7, sext, sra, imm_i, imm_u, imm_s, imm_b, imm_j,
}

-- A Boolean as a u64.
abbrev pub flag : Bool → ℕ
flag b = if b then 1 else 0

-- `(a as i64) < (b as i64)`: moving the sign bit's half up turns signed order into unsigned order.
unfoldable pub slt : ℕ → ℕ → Bool
slt a b = ltb (u64 (a + 2 ^ 63)) (u64 (b + 2 ^ 63))

-- `a << k` of a u64 and `wrapping_sub`.
abbrev pub shl : ℕ → ℕ → ℕ
shl a k = u64 (a * 2 ^ k)

abbrev pub sub64 : ℕ → ℕ → ℕ
sub64 a b = u64 (a + 2 ^ 64 - b)

-- `v << k` of a u32, and its subtraction.
abbrev pub shl32 : ℕ → ℕ → ℕ
shl32 a k = u32 (a * 2 ^ k)

abbrev pub sub32 : ℕ → ℕ → ℕ
sub32 a b = u32 (a + 2 ^ 32 - b)

-- The immediate arithmetic; each funct3 has a meaning.
unfoldable pub op_imm : ℕ → ℕ → ℕ
op_imm insn a =
    let imm = imm_i insn in
    let shamt = low_bits (shr insn 20) 6 in
    let f = funct3 insn in
    if f == 0
    then u64 (a + imm)
    else if f == 1
    then shl a shamt
    else if f == 2
    then flag (slt a imm)
    else if f == 3
    then flag (ltb a imm)
    else if f == 4
    then bit_xor a imm
    else if f == 5
    then (if bit_at (funct7 insn) 5 == 0 then shr a shamt else sra a shamt)
    else if f == 6
    then bit_or a imm
    else bit_and a imm

unfoldable pub op_imm_32 : ℕ → ℕ → Option ℕ
op_imm_32 insn a =
    let x = u32 a in
    let shamt = low_bits (shr insn 20) 5 in
    let f = funct3 insn in
    if f == 0
    then some (sext 32 (x + u32 (imm_i insn)))
    else if f == 1
    then some (sext 32 (shl32 x shamt))
    else if f == 5
    then some (if bit_at (funct7 insn) 5 == 0 then sext 32 (shr x shamt) else sra (sext 32 x) shamt)
    else none

-- `match (funct3, funct7)`
unfoldable pub op : ℕ → ℕ → ℕ → Option ℕ
op insn a b =
    let shamt = low_bits b 6 in
    let f = funct3 insn in
    let g = funct7 insn in
    if f == 0
    then (if g == 0x00 then some (u64 (a + b)) else if g == 0x20 then some (sub64 a b) else none)
    else if f == 1
    then some (shl a shamt)
    else if f == 2
    then some (flag (slt a b))
    else if f == 3
    then some (flag (ltb a b))
    else if f == 4
    then some (bit_xor a b)
    else if f == 5
    then (if g == 0x00 then some (shr a shamt) else if g == 0x20 then some (sra a shamt) else none)
    else if f == 6
    then some (bit_or a b)
    else some (bit_and a b)

unfoldable pub op_32 : ℕ → ℕ → ℕ → Option ℕ
op_32 insn x y =
    let a = u32 x in
    let b = u32 y in
    let shamt = low_bits b 5 in
    let f = funct3 insn in
    let g = funct7 insn in
    if f == 0
    then (if g == 0x00
        then some (sext 32 (a + b))
        else if g == 0x20
        then some (sext 32 (sub32 a b))
        else none)
    else if f == 1
    then some (sext 32 (shl32 a shamt))
    else if f == 5
    then (if g == 0x00
        then some (sext 32 (shr a shamt))
        else if g == 0x20
        then some (sra (sext 32 a) shamt)
        else none)
    else none

unfoldable pub taken : ℕ → ℕ → ℕ → Option Bool
taken f a b =
    if f == 0
    then some (a == b)
    else if f == 1
    then some (not (a == b))
    else if f == 4
    then some (slt a b)
    else if f == 5
    then some (not (slt a b))
    else if f == 6
    then some (ltb a b)
    else if f == 7
    then some (leb b a)
    else none

-- The width of a load, and what it makes of the value read.
unfoldable pub load_size : ℕ → Option ℕ
load_size f =
    if (f == 0) || (f == 4)
    then some 1
    else if (f == 1) || (f == 5)
    then some 2
    else if (f == 2) || (f == 6)
    then some 4
    else if f == 3
    then some 8
    else none

unfoldable pub extend : ℕ → ℕ → ℕ
extend f v =
    if f == 0 then sext 8 v else if f == 1 then sext 16 v else if f == 2 then sext 32 v else v

unfoldable pub store_size : ℕ → Option ℕ
store_size f =
    if f == 0
    then some 1
    else if f == 1
    then some 2
    else if f == 2
    then some 4
    else if f == 3
    then some 8
    else none

-- The call of the environment from each mode.
unfoldable pub ecall : Priv → Exception
ecall user = environment_call_from_u_mode
ecall supervisor = environment_call_from_s_mode
ecall machine = environment_call_from_m_mode

unfoldable pub csr_new : ℕ → ℕ → ℕ → Option ℕ
csr_new f old src =
    let k = low_bits f 2 in
    if k == 1
    then some src
    else if k == 2
    then some (bit_or old src)
    else if k == 3
    then some (bit_and old (not64 src))
    else none

unfoldable pub csr_writes : ℕ → ℕ → Bool
csr_writes f source = not (not (low_bits f 2 == 1) && (source == 0))

-- A write of satp drops the cached translations.
unfoldable pub csr_write : ℕ → ℕ → Cpu → Cpu
csr_write addr v c =
    let c' = set_csr addr v c in if addr == satp then record c' { mmu = Mmu.flush c'.mmu } else c'

module _ {T K : Type 0} where
  -- `set_reg` of a result, or the instruction is illegal.
  abbrev pub finish : ℕ → Option ℕ → M (Machine T K) Exception Bool
  finish insn none s = (err (illegal_instruction insn), s)
  finish insn (some v) s = (ok true, record s { cpu = set_reg (rd insn) v s.cpu })

  abbrev pub done : (Cpu → Cpu) → M (Machine T K) Exception Bool
  done f s = (ok true, record s { cpu = f s.cpu })

  unfoldable pub branch : ℕ → M (Machine T K) Exception Bool
  branch insn s = elim (taken (funct3 insn) (reg s.cpu (rs1 insn)) (reg s.cpu (rs2 insn))) [
    | none ↦ (err (illegal_instruction insn), s)
    | some t ↦ if t then done (jump (u64 (s.cpu.pc + imm_b insn))) s else (ok true, s)
  ]

  -- JAL and JALR: the target is read before the link register is written.
  unfoldable pub link : ℕ → ℕ → M (Machine T K) Exception Bool
  link insn target s = done (λ c. set_reg (rd insn) (u64 (c.pc + c.insn_len)) (jump target c)) s

  unfoldable pub system_call : ℕ → M (Machine T K) Exception Bool
  system_call insn s =
      let f = shr insn 20 in
      if f == 0x000
      then (err (ecall s.cpu.priv), s)
      else if f == 0x001
      then (err breakpoint, s)
      else if (f == 0x302) && is_machine s.cpu.priv
      then done mret s
      else if (f == 0x102) && not (is_user s.cpu.priv)
      then done sret s
      else if f == 0x105
      then (ok true, s)
      else if (shr insn 25 == 0x09) && not (is_user s.cpu.priv)
      then done (λ c. record c { mmu = Mmu.flush c.mmu }) s
      else (err (illegal_instruction insn), s)

  -- The counters are read outside of the register file.
  unfoldable pub csr_value : ℕ → Machine T K → ℕ
  csr_value addr s =
      if addr == Csr.time
      then s.bus.clint.mtime
      else if (addr == Csr.cycle) || (addr == Csr.instret)
      then s.cpu.instret
      else Csr.read s.cpu.csrs addr

  unfoldable pub csr_op : ℕ → ℕ → M (Machine T K) Exception Bool
  csr_op insn f s =
      let addr = low_bits (shr insn 20) 12 in
      let writes = csr_writes f (rs1 insn) in
      if ltb (Csr.level s.cpu.priv) (low_bits (shr addr 8) 2)
      then (err (illegal_instruction insn), s)
      else if (shr addr 10 == 3) && writes
      then (err (illegal_instruction insn), s)
      else let old = csr_value addr s in
        elim (csr_new f old (if bit_at f 2 == 0 then reg s.cpu (rs1 insn) else rs1 insn)) [
          | none ↦ (err (illegal_instruction insn), s)
          | some v ↦ done (λ c. set_reg (rd insn) old (if writes then csr_write addr v c else c)) s
        ]

module _ {T K : Type 0} ⦃m : MemBacking T⦄ ⦃k : ConsoleSink K⦄ where
  unfoldable pub load_op : ℕ → M (Machine T K) Exception Bool
  load_op insn s = elim (load_size (funct3 insn)) [
    | none ↦ (err (illegal_instruction insn), s)
    | some n ↦
        bind (vload (u64 (reg s.cpu (rs1 insn) + imm_i insn)) n s)
          (λ v. finish insn (some (extend (funct3 insn) v)))
  ]

  unfoldable pub store_op : ℕ → M (Machine T K) Exception Bool
  store_op insn s = elim (store_size (funct3 insn)) [
    | none ↦ (err (illegal_instruction insn), s)
    | some n ↦
        bind (vstore (u64 (reg s.cpu (rs1 insn) + imm_s insn)) n (reg s.cpu (rs2 insn)) s)
          (λ _. pure true)
  ]

  unfoldable pub execute : ℕ → M (Machine T K) Exception Bool
  execute insn s =
      let o = opcode insn in
      let a = reg s.cpu (rs1 insn) in
      let b = reg s.cpu (rs2 insn) in
      if o == 0x37
      then finish insn (some (imm_u insn)) s
      else if o == 0x17
      then finish insn (some (u64 (s.cpu.pc + imm_u insn))) s
      else if o == 0x13
      then finish insn (some (op_imm insn a)) s
      else if o == 0x1B
      then finish insn (op_imm_32 insn a) s
      else if o == 0x33
      then finish insn (op insn a b) s
      else if o == 0x3B
      then finish insn (op_32 insn a b) s
      else if o == 0x03
      then load_op insn s
      else if o == 0x23
      then store_op insn s
      else if o == 0x63
      then branch insn s
      else if o == 0x6F
      then link insn (u64 (s.cpu.pc + imm_j insn)) s
      else if o == 0x67
      then (let t = u64 (a + imm_i insn) in link insn (t - low_bits t 1) s)
      else if o == 0x0F
      then (if (funct3 insn == 0) || (funct3 insn == 1)
          then (ok true, s)
          else (err (illegal_instruction insn), s))
      else if o == 0x73
      then (if funct3 insn == 0 then system_call insn s else csr_op insn (funct3 insn) s)
      else (ok false, s)
