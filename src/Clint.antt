-- ===== src/Clint.antt =====
-- crates/rv64/src/clint.rs: the machine timer.
use dc34_baonix.Base.{ℕ, ◌+◌, ◌-◌, ◌^◌, Bool, if◌then◌else◌, ◌==◌, leb, u32, u64}

abbrev pub msip_off : ℕ
msip_off = 0

abbrev pub mtimecmp_off : ℕ
mtimecmp_off = 0x4000

abbrev pub mtime_off : ℕ
mtime_off = 0xBFF8

pub record Clint : Type 0 where
  pub mtime : ℕ
  pub mtimecmp : ℕ
  pub msip : ℕ

abbrev pub reset : Clint
reset = record { mtime = 0; mtimecmp = 2 ^ 64 - 1; msip = 0 }

unfoldable pub tick : ℕ → Clint → Clint
tick n c = record c { mtime = u64 (c.mtime + n) }

unfoldable pub pending : Clint → Bool
pending c = leb c.mtimecmp c.mtime

unfoldable pub load : Clint → ℕ → ℕ
load c off =
    if off == msip_off
    then c.msip
    else if off == mtimecmp_off
    then c.mtimecmp
    else if off == mtime_off
    then c.mtime
    else 0

unfoldable pub store : ℕ → ℕ → Clint → Clint
store off v c =
    if off == msip_off
    then record c { msip = u32 v }
    else if off == mtimecmp_off
    then record c { mtimecmp = v }
    else if off == mtime_off
    then record c { mtime = v }
    else c
