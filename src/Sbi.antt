-- ===== src/Sbi.antt =====
-- crates/rv64/src/sbi.rs: the firmware calls that the emulator serves itself.
mod Tests
pub mod Convention
use dc34_baonix.Base.{ℕ, ◌-◌, ◌^◌, ◌&&◌, ◌||◌, if◌then◌else◌, ◌==◌, bit_and, not64, u8}
use dc34_baonix.Uart.{ConsoleSink}
use dc34_baonix.Csr
use dc34_baonix.Csr.{mip}
use dc34_baonix.Cpu.{Cpu, Machine, reg, set_reg, set_csr}
use dc34_baonix.Cpu.Trap.{stip}

abbrev pub ext_base : ℕ
ext_base = 0x10

abbrev pub ext_timer_v02 : ℕ
ext_timer_v02 = 0x54494D45

abbrev pub ext_srst : ℕ
ext_srst = 0x53525354

-- `-2` as a u64.
abbrev pub err_not_supported : ℕ
err_not_supported = 2 ^ 64 - 2

pub data SbiOutcome : Type 0 where
  handled shutdown : SbiOutcome

unfoldable pub supported : ℕ → ℕ
supported ext =
    if (ext == 0)
      || (ext == 1)
      || (ext == 2)
      || (ext == 8)
      || (ext == ext_base)
      || (ext == ext_timer_v02)
      || (ext == ext_srst)
    then 1
    else 0

-- The error and the value of the base extension's functions.
unfoldable pub base : ℕ → ℕ → ℕ × ℕ
base func a0 =
    if func == 0
    then (0, 2)
    else if func == 1
    then (0, 1)
    else if func == 2
    then (0, 1)
    else if func == 3
    then (0, supported a0)
    else if (func == 4) || (func == 5) || (func == 6)
    then (0, 0)
    else (err_not_supported, 0)

module _ {T K : Type 0} where
  abbrev pub on_cpu : (Cpu → Cpu) → Machine T K → Machine T K
  on_cpu f s = record s { cpu = f s.cpu }

  abbrev pub reply : ℕ × ℕ → Machine T K → Machine T K
  reply r s = on_cpu (λ c. set_reg 11 r.1 (set_reg 10 r.0 c)) s

  unfoldable pub set_timer : ℕ → Machine T K → Machine T K
  set_timer deadline s = record s {
    bus = record s.bus { clint = record s.bus.clint { mtimecmp = deadline } };
    cpu = set_csr mip (bit_and (Csr.read s.cpu.csrs mip) (not64 stip)) s.cpu;
  }

module _ {T K : Type 0} ⦃k : ConsoleSink K⦄ where
  unfoldable pub put_char : ℕ → Machine T K → Machine T K
  put_char v s = record s {
    bus = record s.bus { uart = record s.bus.uart { sink = k.put (u8 v) s.bus.uart.sink } };
  }

  unfoldable pub handle : Machine T K → SbiOutcome × Machine T K
  handle s =
      let ext = reg s.cpu 17 in
      let func = reg s.cpu 16 in
      let a0 = reg s.cpu 10 in
      if ext == 0
      then (handled, on_cpu (set_reg 10 0) (set_timer a0 s))
      else if ext == 1
      then (handled, on_cpu (set_reg 10 0) (put_char a0 s))
      else if ext == 2
      then (handled, on_cpu (set_reg 10 (2 ^ 64 - 1)) s)
      else if ext == 8
      then (shutdown, s)
      else if (ext == ext_timer_v02) && (func == 0)
      then (handled, reply (0, 0) (set_timer a0 s))
      else if (ext == ext_srst) && (func == 0)
      then (shutdown, s)
      else if ext == ext_base
      then (handled, reply (base func a0) s)
      else (handled, reply (err_not_supported, 0) s)
