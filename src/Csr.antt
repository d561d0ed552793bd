-- ===== src/Csr.antt =====
-- crates/rv64/src/csr.rs: the control and status registers.
mod Tests
pub mod Legal
use dc34_baonix.Base.{
  ℕ, ◌+◌, ◌*◌, ◌^◌, ◌&&◌, ◌||◌, if◌then◌else◌, ◌==◌, leb, update, bit_and, bit_or, not64, shr,
}

abbrev pub sstatus : ℕ
sstatus = 0x100

abbrev pub sie : ℕ
sie = 0x104

abbrev pub stvec : ℕ
stvec = 0x105

abbrev pub sepc : ℕ
sepc = 0x141

abbrev pub scause : ℕ
scause = 0x142

abbrev pub stval : ℕ
stval = 0x143

abbrev pub sip : ℕ
sip = 0x144

abbrev pub satp : ℕ
satp = 0x180

abbrev pub mstatus : ℕ
mstatus = 0x300

abbrev pub misa : ℕ
misa = 0x301

abbrev pub medeleg : ℕ
medeleg = 0x302

abbrev pub mideleg : ℕ
mideleg = 0x303

abbrev pub mie : ℕ
mie = 0x304

abbrev pub mtvec : ℕ
mtvec = 0x305

abbrev pub mepc : ℕ
mepc = 0x341

abbrev pub mcause : ℕ
mcause = 0x342

abbrev pub mtval : ℕ
mtval = 0x343

abbrev pub mip : ℕ
mip = 0x344

abbrev pub cycle : ℕ
cycle = 0xC00

abbrev pub time : ℕ
time = 0xC01

abbrev pub instret : ℕ
instret = 0xC02

abbrev pub tselect : ℕ
tselect = 0x7A0

abbrev pub tcontrol : ℕ
tcontrol = 0x7A5

abbrev pub mstatus_xlen_fields : ℕ
mstatus_xlen_fields = 0xF_0000_0000

-- `(2 << 32) | (2 << 34)`
abbrev pub mstatus_xlen_rv64 : ℕ
mstatus_xlen_rv64 = 0xA_0000_0000

abbrev pub sstatus_mask : ℕ
sstatus_mask = 0x8000_0003_000D_E162

-- The writable bits of sstatus, `SSTATUS_MASK & !MSTATUS_XLEN_FIELDS`.
abbrev pub sstatus_writable : ℕ
sstatus_writable = bit_and sstatus_mask (not64 mstatus_xlen_fields)

pub data Priv : Type 0 where
  user supervisor machine : Priv

-- `priv_ as u64`
abbrev pub level : Priv → ℕ
level user = 0
level supervisor = 1
level machine = 3

-- The 4096 registers by address.
pub record Csrs : Type 0 where
  pub regs : ℕ → ℕ

-- The extensions I, M, A, C, S, U at XLEN 64.
abbrev pub misa_reset : ℕ
misa_reset = 2 * 2 ^ 62 + (2 ^ 0 + 2 ^ 2 + 2 ^ 8 + 2 ^ 12 + 2 ^ 18 + 2 ^ 20)

abbrev pub mideleg_reset : ℕ
mideleg_reset = 2 ^ 1 + 2 ^ 5 + 2 ^ 9

-- One bit for each delegated cause.
abbrev pub medeleg_reset : ℕ
medeleg_reset =
    2 ^ 0 + 2 ^ 1 + 2 ^ 3 + 2 ^ 4 + 2 ^ 5 + 2 ^ 6 + 2 ^ 7 + 2 ^ 8 + 2 ^ 12 + 2 ^ 13 + 2 ^ 15

unfoldable pub reset : Csrs
reset = record {
  regs =
      update
        (update (update (update (λ _. 0) misa misa_reset) mideleg mideleg_reset) mstatus
          mstatus_xlen_rv64)
        medeleg medeleg_reset;
}

unfoldable pub read : Csrs → ℕ → ℕ
read c addr =
    if addr == sstatus
    then bit_and (c.regs mstatus) sstatus_mask
    else if addr == sie
    then bit_and (c.regs mie) (c.regs mideleg)
    else if addr == sip
    then bit_and (c.regs mip) (c.regs mideleg)
    else c.regs addr

-- `(m & !w) | (v & w)`: the bits of `w` come from `v`, the others from `m`.
abbrev pub merge : ℕ → ℕ → ℕ → ℕ
merge m w v = bit_or (bit_and m (not64 w)) (bit_and v w)

abbrev pub put : Csrs → ℕ → ℕ → Csrs
put c addr v = record c { regs = update c.regs addr v }

unfoldable pub write : Csrs → ℕ → ℕ → Csrs
write c addr v =
    if addr == sstatus
    then put c mstatus (merge (c.regs mstatus) sstatus_writable v)
    else if addr == mstatus
    then put c mstatus (bit_or (bit_and v (not64 mstatus_xlen_fields)) mstatus_xlen_rv64)
    else if (addr == mtvec) || (addr == stvec)
    then put c addr (bit_and v (not64 3))
    else if addr == satp
    then (if (shr v 60 == 0) || (shr v 60 == 8)
        then put c satp (bit_and v (not64 (0xFFFF * 2 ^ 44)))
        else c)
    else if leb tselect addr && leb addr tcontrol
    then c
    else if addr == sie
    then put c mie (merge (c.regs mie) (c.regs mideleg) v)
    else if addr == sip
    then put c mip (merge (c.regs mip) (c.regs mideleg) v)
    else if addr == misa
    then c
    else put c addr v
