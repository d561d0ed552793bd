-- ===== src/Insn/Rv64a.antt =====
-- crates/rv64/src/insn/rv64a.rs: the atomic instructions.
use dc34_baonix.Base.{
  ℕ, ◌+◌, Bool, true, false, not, Option, none, some, if◌then◌else◌, ◌==◌, ltb, ok, err, M, bind,
  u32, u64, shr, bit_and, bit_or, bit_xor,
}
use dc34_baonix.Backing.{MemBacking}
use dc34_baonix.Bus
use dc34_baonix.Mmu.{Access}
use dc34_baonix.Uart.{ConsoleSink}
use dc34_baonix.Exception.{Exception, illegal_instruction}
use dc34_baonix.Cpu.{Cpu, Machine, reg, set_reg, on_bus, translate, store_at}
use dc34_baonix.Insn.Fields.{opcode, rd, rs1, rs2, funct3, funct7, sext}
use dc34_baonix.Insn.Rv64i.{slt}

-- The result of the access as a register value.
unfoldable pub ext : ℕ → ℕ → ℕ
ext size v = if size == 4 then sext 32 v else v

-- The operand as the unsigned comparisons read it.
unfoldable pub narrow : ℕ → ℕ → ℕ
narrow size v = if size == 4 then u32 v else v

-- The value that an AMO stores.
unfoldable pub amo_new : ℕ → ℕ → ℕ → ℕ → Option ℕ
amo_new size f old src =
    if f == 0x00
    then some (u64 (old + src))
    else if f == 0x01
    then some src
    else if f == 0x04
    then some (bit_xor old src)
    else if f == 0x08
    then some (bit_or old src)
    else if f == 0x0C
    then some (bit_and old src)
    else if f == 0x10
    then some (if slt (ext size old) (ext size src) then old else src)
    else if f == 0x14
    then some (if slt (ext size src) (ext size old) then old else src)
    else if f == 0x18
    then some (if ltb (narrow size old) (narrow size src) then old else src)
    else if f == 0x1C
    then some (if ltb (narrow size src) (narrow size old) then old else src)
    else none

-- `self.reservation == Some(addr)`
unfoldable pub reserved : ℕ → Cpu → Bool
reserved addr c = elim c.reservation [ none ↦ false | some r ↦ r == addr ]

unfoldable pub access_size : ℕ → Option ℕ
access_size insn = if funct3 insn == 2 then some 4 else if funct3 insn == 3 then some 8 else none

module _ {T K : Type 0} where
  abbrev pub write_rd : ℕ → ℕ → M (Machine T K) Exception Bool
  write_rd insn v s = (ok true, record s { cpu = set_reg (rd insn) v s.cpu })

module _ {T K : Type 0} ⦃m : MemBacking T⦄ ⦃k : ConsoleSink K⦄ where
  unfoldable pub load_reserved : ℕ → ℕ → ℕ → M (Machine T K) Exception Bool
  load_reserved insn size addr s = bind (on_bus (Bus.load addr size) s) (λ v s'.
      write_rd insn (ext size v) (record s' { cpu = record s'.cpu { reservation = some addr } }))

  unfoldable pub store_conditional : ℕ → ℕ → ℕ → ℕ → M (Machine T K) Exception Bool
  store_conditional insn size src addr s =
      let success = reserved addr s.cpu in
      let s' : Machine T K = record s { cpu = record s.cpu { reservation = none } } in
      if success
      then bind (on_bus (Bus.store addr size src) s') (λ _. write_rd insn 0)
      else write_rd insn 1 s'

  unfoldable pub amo : ℕ → ℕ → ℕ → ℕ → M (Machine T K) Exception Bool
  amo insn size src addr s = bind (on_bus (Bus.load addr size) s) (λ old s1.
      elim (amo_new size (shr (funct7 insn) 2) old src) [
        | none ↦ (err (illegal_instruction insn), s1)
        | some v ↦ bind (store_at addr size v s1) (λ _. write_rd insn (ext size old))
      ])

  unfoldable pub execute : ℕ → M (Machine T K) Exception Bool
  execute insn s = if not (opcode insn == 0x2F) then (ok false, s) else elim (access_size insn) [
    | none ↦ (err (illegal_instruction insn), s)
    | some size ↦
        let src = reg s.cpu (rs2 insn) in
        let f = shr (funct7 insn) 2 in
        bind (translate (reg s.cpu (rs1 insn)) Access.store s) (λ addr s'.
          if f == 0x02
          then load_reserved insn size addr s'
          else if f == 0x03
          then store_conditional insn size src addr s'
          else amo insn size src addr s')
  ]
