-- ===== src/Cpu/Trap/SupervisorReturn.antt =====
-- crates/rv64/src/cpu.rs: `sret` undoes the entry of a trap into S-mode.
use dc34_baonix.Base.{
  ℕ, ◌*◌, ◌^◌, ◌≡◌, ◌≢◌, refl, ◌∙◌, ap, some, if◌then◌else◌, ◌==◌, max, min, arith, bit_at,
  bit_at-lt, not64,
}
use dc34_baonix.Csr
use dc34_baonix.Csr.{Priv, user, supervisor, machine, mstatus, level}
use dc34_baonix.Cpu.{Cpu}
use dc34_baonix.Cpu.Trap.{s_entry, s_return, s_fields, enter_supervisor, sret}
use dc34_baonix.Cpu.Trap.Return.{replaced-bit_two, moved, written, written-bit}

-- SPP keeps the lowest bit of the mode.
mode-bits :
    (p : Priv)
    → (bit_at (bit_at (level p) 0 * 2 ^ 8) 5 ≡ 0)
      × (bit_at (bit_at (level p) 0 * 2 ^ 8) 8 ≡ bit_at (level p) 0)
mode-bits user = (refl, refl)
mode-bits supervisor = (refl, refl)
mode-bits machine = (refl, refl)

module _ (p : Priv) (status : ℕ) where
  entry-bit :
      (i : ℕ)
      → bit_at (s_entry p status) i
        ≡ max
            (max
              (min (bit_at status i) (bit_at (not64 s_fields) i))
              (bit_at (bit_at status 1 * 2 ^ 5) i))
            (bit_at (bit_at (level p) 0 * 2 ^ 8) i)
  unfolding s_entry
  entry-bit i =
      replaced-bit_two i status (not64 s_fields) (bit_at status 1 * 2 ^ 5)
        (bit_at (level p) 0 * 2 ^ 8)

  s_entry-spie : bit_at (s_entry p status) 5 ≡ bit_at status 1
  s_entry-spie =
      let sie = bit_at-lt 1 status in
      omega (arith, entry-bit 5, mode-bits p, moved (bit_at status 1) 5 5 sie refl, sie)

  s_entry-spp : bit_at (s_entry p status) 8 ≡ bit_at (level p) 0
  s_entry-spp =
      let sie = bit_at-lt 1 status in
      omega (arith, entry-bit 8, mode-bits p, moved (bit_at status 1) 5 8 sie refl)

s_return-sie : (status : ℕ) → bit_at (s_return status) 1 ≡ bit_at status 5
unfolding s_return
s_return-sie status =
    let spie = bit_at-lt 5 status in
    omega (
      arith,
      replaced-bit_two 1 status (not64 s_fields) (bit_at status 5 * 2 ^ 1) (2 ^ 5),
      moved (bit_at status 5) 1 1 spie refl,
      spie,
    )

from_level : (p : Priv) → p ≢ machine → (if bit_at (level p) 0 == 1 then supervisor else user) ≡ p
from_level user ne = refl
from_level supervisor ne = refl
from_level machine ne = absurd (ne refl)

-- The status as a trap leaves it.
left : Cpu → ℕ
left c = written (s_entry c.priv (c.csrs.regs mstatus))

left-spp : (c : Cpu) → bit_at (left c) 8 ≡ bit_at (level c.priv) 0
unfolding left
left-spp c =
    written-bit 8 (s_entry c.priv (c.csrs.regs mstatus)) refl refl
    ∙ s_entry-spp c.priv (c.csrs.regs mstatus)

-- Entering a trap into S-mode from a mode below M and returning with `sret` restores the mode and the
-- interrupt enable bit of S-mode, and makes the interrupted instruction the next one.
pub sret-enter_supervisor :
    (cause tval : ℕ) (c : Cpu)
    → c.priv ≢ machine
    → ((sret (enter_supervisor cause tval c)).priv ≡ c.priv)
      × ((sret (enter_supervisor cause tval c)).next_pc ≡ some c.pc)
      × (bit_at (Csr.read (sret (enter_supervisor cause tval c)).csrs mstatus) 1
          ≡ bit_at (Csr.read c.csrs mstatus) 1)
unfolding enter_supervisor sret Csr.read Csr.write left
sret-enter_supervisor cause tval c below = (
  ap (λ x. if x == 1 then supervisor else user) (left-spp c) ∙ from_level c.priv below,
  refl,
  written-bit 1 (s_return (left c)) refl refl
      ∙ s_return-sie (left c)
      ∙ written-bit 5 (s_entry c.priv (c.csrs.regs mstatus)) refl refl
      ∙ s_entry-spie c.priv (c.csrs.regs mstatus),
)
