-- ===== src/Cpu/Trap/Timer.antt =====
-- crates/rv64/src/cpu.rs: the pending bits that `check_interrupts` drives.
use dc34_baonix.Base.{
  ℕ, ◌≡◌, refl, ◌∙◌, ap, true, false, if◌then◌else◌, arith, bit_or, bit_at, bit_at-and, bit_at-or,
  bit_at-lt, not64, Bool-cases, inl, inr, Bool,
}
use dc34_baonix.Clint.{Clint, pending}
use dc34_baonix.Csr
use dc34_baonix.Exception.{machine_timer, supervisor_timer, interrupt_cause}
use dc34_baonix.Csr.{mip}
use dc34_baonix.Cpu.{Cpu, set_csr}
use dc34_baonix.Cpu.Trap.{
  check_interrupts, poll, mtip, stip, enter_trap, enter_machine, enter_supervisor,
}

poll-mtip : (t : Clint) (old : ℕ) → bit_at (poll t old) 7 ≡ (if pending t then 1 else 0)
unfolding poll
poll-mtip t old = elim (Bool-cases (pending t)) [
  | inl on ↦ rw on (omega (arith, bit_at-or 7 old (bit_or mtip stip), bit_at-lt 7 old))
  | inr off ↦ rw off (omega (arith, bit_at-and 7 old (not64 mtip), bit_at-lt 7 old))
]

poll-stip : (t : Clint) (old : ℕ) → bit_at (poll t old) 5 ≡ (if pending t then 1 else bit_at old 5)
unfolding poll
poll-stip t old = elim (Bool-cases (pending t)) [
  | inl on ↦ rw on (omega (arith, bit_at-or 5 old (bit_or mtip stip), bit_at-lt 5 old))
  | inr off ↦ rw off (omega (arith, bit_at-and 5 old (not64 mtip), bit_at-lt 5 old))
]

enter_trap-mip :
    (to_s : Bool) (cause : ℕ) (c : Cpu)
    → (enter_trap cause 0 to_s c).csrs.regs mip ≡ c.csrs.regs mip
unfolding enter_trap enter_machine enter_supervisor Csr.write
enter_trap-mip true cause c = refl
enter_trap-mip false cause c = refl

set_mip : (c : Cpu) (v : ℕ) → (set_csr mip v c).csrs.regs mip ≡ v
unfolding Csr.write
set_mip c v = refl

check_interrupts-regs :
    (t : Clint) (c : Cpu) → (check_interrupts t c).csrs.regs mip ≡ poll t (Csr.read c.csrs mip)
unfolding check_interrupts
check_interrupts-regs t c =
    let now = poll t (Csr.read c.csrs mip) in
    let c' = set_csr mip now c in
    ground (
      arith,
      set_mip c now,
      enter_trap-mip false (interrupt_cause machine_timer) c',
      enter_trap-mip true (interrupt_cause supervisor_timer) c',
    )

-- After `check_interrupts` the machine timer bit of `mip` says whether the timer is due, whether or
-- not a trap is taken; the supervisor timer bit is raised when it is, and is otherwise as before.
pub check_interrupts-mip :
    (t : Clint) (c : Cpu)
    → (bit_at ((check_interrupts t c).csrs.regs mip) 7 ≡ (if pending t then 1 else 0))
      × (bit_at ((check_interrupts t c).csrs.regs mip) 5
          ≡ (if pending t then 1 else bit_at (Csr.read c.csrs mip) 5))
check_interrupts-mip t c =
    let old = Csr.read c.csrs mip in
    (
      ap (λ x. bit_at x 7) (check_interrupts-regs t c) ∙ poll-mtip t old,
      ap (λ x. bit_at x 5) (check_interrupts-regs t c) ∙ poll-stip t old,
    )
