-- ===== src/Cpu/Trap/Tests.antt =====
-- A trap from user mode.
use dc34_baonix.Base.{arith}
use dc34_baonix.Cpu.Trap.{sret, enter_supervisor}
use dc34_baonix.Cpu.Trap.SupervisorReturn.{sret-enter_supervisor}
use dc34_baonix.Clint.{Clint, pending}
use dc34_baonix.Base.{◌≡◌, some, bit_at}
use dc34_baonix.Csr
use dc34_baonix.Csr.{Priv, user, mstatus, mip}
use dc34_baonix.Cpu.{Cpu, new}
use dc34_baonix.Cpu.Trap.{enter_machine, mret, check_interrupts}
use dc34_baonix.Cpu.Trap.Timer.{check_interrupts-mip}
use dc34_baonix.Cpu.Trap.Return.{mret-enter_machine}

abbrev in_user : Cpu
in_user = record (new 0x8000_0004) { priv = user }

mret-enter_machine_example :
    ((mret (enter_machine 8 0 in_user)).priv ≡ user)
    × ((mret (enter_machine 8 0 in_user)).next_pc ≡ some 0x8000_0004)
    × (bit_at (Csr.read (mret (enter_machine 8 0 in_user)).csrs mstatus) 3
        ≡ bit_at (Csr.read in_user.csrs mstatus) 3)
unfolding new
mret-enter_machine_example = mret-enter_machine 8 0 in_user

abbrev due : Clint
due = record { mtime = 10; mtimecmp = 10; msip = 0 }

check_interrupts-mip_checked :
    (bit_at ((check_interrupts due in_user).csrs.regs mip) 7 ≡ 1)
    × (bit_at ((check_interrupts due in_user).csrs.regs mip) 5 ≡ 1)
unfolding pending
check_interrupts-mip_checked = check_interrupts-mip due in_user

sret-enter_supervisor_example :
    ((sret (enter_supervisor 8 0 in_user)).priv ≡ user)
    × ((sret (enter_supervisor 8 0 in_user)).next_pc ≡ some 0x8000_0004)
    × (bit_at (Csr.read (sret (enter_supervisor 8 0 in_user)).csrs mstatus) 1
        ≡ bit_at (Csr.read in_user.csrs mstatus) 1)
unfolding new
sret-enter_supervisor_example = sret-enter_supervisor 8 0 in_user (λ e. ground arith)
