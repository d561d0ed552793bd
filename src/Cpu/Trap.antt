-- ===== src/Cpu/Trap.antt =====
-- crates/rv64/src/cpu.rs: trap entry, interrupt injection and the two return instructions.
pub mod Timer
pub mod Return
pub mod SupervisorReturn
mod Tests
use dc34_baonix.Base.{
  ℕ, ◌+◌, ◌-◌, ◌*◌, ◌^◌, Bool, true, false, not, ◌&&◌, ◌||◌, if◌then◌else◌, ◌==◌, bit_and, bit_or,
  bit_at, not64,
}
use dc34_baonix.Csr
use dc34_baonix.Csr.{
  Priv, user, supervisor, machine, sepc, scause, stval, stvec, mstatus, mepc, mcause, mtval, mtvec,
  medeleg, mie, mip,
}
use dc34_baonix.Mmu.{is_machine}
use dc34_baonix.Exception.{Exception, cause, tval, machine_timer, supervisor_timer, interrupt_cause}
use dc34_baonix.Clint.{Clint, pending}
use dc34_baonix.Cpu.{Cpu, set_csr, jump}

-- SIE, SPIE and SPP; MIE, MPIE and MPP.
abbrev pub s_fields : ℕ
s_fields = 2 ^ 1 + 2 ^ 5 + 2 ^ 8

abbrev pub m_fields : ℕ
m_fields = 2 ^ 3 + 2 ^ 7 + 3 * 2 ^ 11

abbrev pub mprv : ℕ
mprv = 2 ^ 17

abbrev pub set_priv : Priv → Cpu → Cpu
set_priv p c = record c { priv = p }

abbrev pub set_pc : ℕ → Cpu → Cpu
set_pc pc c = record c { pc = pc }

-- `mstatus` after the entry into S-mode and into M-mode.
unfoldable pub s_entry : Priv → ℕ → ℕ
s_entry p status =
    bit_or (bit_or (bit_and status (not64 s_fields)) (bit_at status 1 * 2 ^ 5))
      (bit_at (Csr.level p) 0 * 2 ^ 8)

unfoldable pub m_entry : Priv → ℕ → ℕ
m_entry p status =
    bit_or (bit_or (bit_and status (not64 m_fields)) (bit_at status 3 * 2 ^ 7))
      (Csr.level p * 2 ^ 11)

unfoldable pub enter_supervisor : ℕ → ℕ → Cpu → Cpu
enter_supervisor cause tval c =
    let saved = set_csr stval tval (set_csr scause cause (set_csr sepc c.pc c)) in
    let status = Csr.read saved.csrs mstatus in
    let entered = set_priv supervisor (set_csr mstatus (s_entry c.priv status) saved) in
    set_pc (Csr.read entered.csrs stvec) entered

unfoldable pub enter_machine : ℕ → ℕ → Cpu → Cpu
enter_machine cause tval c =
    let saved = set_csr mtval tval (set_csr mcause cause (set_csr mepc c.pc c)) in
    let status = Csr.read saved.csrs mstatus in
    let entered = set_priv machine (set_csr mstatus (m_entry c.priv status) saved) in
    set_pc (Csr.read entered.csrs mtvec) entered

unfoldable pub enter_trap : ℕ → ℕ → Bool → Cpu → Cpu
enter_trap cause tval true c = enter_supervisor cause tval c
enter_trap cause tval false c = enter_machine cause tval c

-- `(deleg >> cause) & 1 == 1` of a trap from below M-mode.
unfoldable pub delegated : ℕ → Cpu → Bool
delegated cause c = not (is_machine c.priv) && (bit_at (Csr.read c.csrs medeleg) cause == 1)

unfoldable pub trap : Exception → Cpu → Cpu
trap e c = enter_trap (cause e) (tval e) (delegated (cause e) c) c

unfoldable pub interrupt_enabled : Bool → Cpu → Bool
interrupt_enabled true c = elim c.priv [
  | machine ↦ false
  | supervisor ↦ bit_at (Csr.read c.csrs mstatus) 1 == 1
  | user ↦ true
]
interrupt_enabled false c = not (is_machine c.priv) || (bit_at (Csr.read c.csrs mstatus) 3 == 1)

abbrev pub mtip : ℕ
mtip = 2 ^ 7

abbrev pub stip : ℕ
stip = 2 ^ 5

-- The pending bits after the comparator has been read.
unfoldable pub poll : Clint → ℕ → ℕ
poll clint old = if pending clint then bit_or old (bit_or mtip stip) else bit_and old (not64 mtip)

-- The function changes the hart only; the timer is the bus's.
unfoldable pub check_interrupts : Clint → Cpu → Cpu
check_interrupts clint c =
    let now = poll clint (Csr.read c.csrs mip) in
    let c' = set_csr mip now c in
    if not (bit_and now mtip == 0)
      && not (bit_and (Csr.read c'.csrs mie) mtip == 0)
      && interrupt_enabled false c'
    then enter_trap (interrupt_cause machine_timer) 0 false c'
    else if not (bit_and now stip == 0)
        && not (bit_and (Csr.read c'.csrs mie) stip == 0)
        && interrupt_enabled true c'
    then enter_trap (interrupt_cause supervisor_timer) 0 true c'
    else c'

-- `(status >> 11) & 0b11`
abbrev pub mpp_of : ℕ → ℕ
mpp_of status = bit_at status 11 + 2 * bit_at status 12

unfoldable pub m_return : ℕ → ℕ
m_return status =
    let new = bit_or (bit_or (bit_and status (not64 m_fields)) (bit_at status 7 * 2 ^ 3)) (2 ^ 7) in
    if not (mpp_of status == 3) then bit_and new (not64 mprv) else new

unfoldable pub s_return : ℕ → ℕ
s_return status =
    bit_or (bit_or (bit_and status (not64 s_fields)) (bit_at status 5 * 2 ^ 1)) (2 ^ 5)

abbrev pub priv_of : ℕ → Priv
priv_of mpp = if mpp == 0 then user else if mpp == 1 then supervisor else machine

unfoldable pub mret : Cpu → Cpu
mret c =
    let status = Csr.read c.csrs mstatus in
    let c' = set_priv (priv_of (mpp_of status)) (set_csr mstatus (m_return status) c) in
    jump (Csr.read c'.csrs mepc) c'

unfoldable pub sret : Cpu → Cpu
sret c =
    let status = Csr.read c.csrs mstatus in
    let c' =
      set_priv (if bit_at status 8 == 1 then supervisor else user)
        (set_csr mstatus (s_return status) c) in
    jump (Csr.read c'.csrs sepc) c'
