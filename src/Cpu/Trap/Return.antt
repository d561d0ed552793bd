-- ===== src/Cpu/Trap/Return.antt =====
-- crates/rv64/src/cpu.rs: `mret` undoes the entry of a trap into M-mode.
use dc34_baonix.Base.{
  ℕ, zero, suc, ◌+◌, ◌*◌, ◌^◌, ◌<◌, ◌≡◌, refl, ◌∙◌, ap, some, ◌==◌, not, max, min, arith, bit_and,
  bit_or, bit_at, bit_at-and, bit_at-or, bit_at-lt, not64, Bool-cases, inl, inr,
}
use dc34_baonix.Csr
use dc34_baonix.Csr.{
  Csrs, Priv, user, supervisor, machine, mstatus, mepc, mstatus_xlen_fields, mstatus_xlen_rv64,
  level,
}
use dc34_baonix.Cpu.{Cpu}
use dc34_baonix.Cpu.Trap.{m_entry, m_return, m_fields, mpp_of, mprv, priv_of, enter_machine, mret}

-- Bit `i` of a word whose fields were replaced.
replaced-bit :
    (i v m x : ℕ)
    → bit_at (bit_or (bit_and v m) x) i ≡ max (min (bit_at v i) (bit_at m i)) (bit_at x i)
replaced-bit i v m x = omega (arith, bit_at-or i (bit_and v m) x, bit_at-and i v m)

pub replaced-bit_two :
    (i v m x y : ℕ)
    → bit_at (bit_or (bit_or (bit_and v m) x) y) i
      ≡ max (max (min (bit_at v i) (bit_at m i)) (bit_at x i)) (bit_at y i)
replaced-bit_two i v m x y =
    omega (arith, bit_at-or i (bit_or (bit_and v m) x) y, replaced-bit i v m x)

-- A bit moved to place `k`, at literals.
pub moved : (b k i : ℕ) → b < 2 → bit_at 0 i ≡ 0 → bit_at (b * 2 ^ k) i ≡ b * bit_at (2 ^ k) i
moved zero k i lt z = ap (λ x. bit_at x i) {y = 0} (omega arith) ∙ z ∙ omega arith
moved (suc zero) k i lt z = ap (λ x. bit_at x i) {y = 2 ^ k} (omega arith) ∙ omega arith
moved (suc (suc b)) k i lt z = absurd (omega arith)

-- What `Csr.write` keeps of a new `mstatus`.
abbrev pub written : ℕ → ℕ
written v = bit_or (bit_and v (not64 mstatus_xlen_fields)) mstatus_xlen_rv64

-- The fields of a trap lie outside of the fields of the register width.
pub written-bit :
    (i v : ℕ)
    → bit_at (not64 mstatus_xlen_fields) i ≡ 1
    → bit_at mstatus_xlen_rv64 i ≡ 0
    → bit_at (written v) i ≡ bit_at v i
written-bit i v p q =
    omega (arith, replaced-bit i v (not64 mstatus_xlen_fields) mstatus_xlen_rv64, bit_at-lt i v)

-- The mode's place.
mode-bits :
    (p : Priv)
    → (bit_at (level p * 2 ^ 11) 7 ≡ 0)
      × (bit_at (level p * 2 ^ 11) 11 + 2 * bit_at (level p * 2 ^ 11) 12 ≡ level p)
mode-bits user = (refl, refl)
mode-bits supervisor = (refl, refl)
mode-bits machine = (refl, refl)

module _ (p : Priv) (status : ℕ) where
  entry-bit :
      (i : ℕ)
      → bit_at (m_entry p status) i
        ≡ max
            (max
              (min (bit_at status i) (bit_at (not64 m_fields) i))
              (bit_at (bit_at status 3 * 2 ^ 7) i))
            (bit_at (level p * 2 ^ 11) i)
  unfolding m_entry
  entry-bit i =
      replaced-bit_two i status (not64 m_fields) (bit_at status 3 * 2 ^ 7) (level p * 2 ^ 11)

  m_entry-mpie : bit_at (m_entry p status) 7 ≡ bit_at status 3
  m_entry-mpie =
      let mie = bit_at-lt 3 status in
      omega (arith, entry-bit 7, mode-bits p, moved (bit_at status 3) 7 7 mie refl, mie)

  m_entry-mpp : mpp_of (m_entry p status) ≡ level p
  m_entry-mpp =
      let mie = bit_at-lt 3 status in
      omega (
        arith,
        entry-bit 11,
        entry-bit 12,
        mode-bits p,
        moved (bit_at status 3) 7 11 mie refl,
        moved (bit_at status 3) 7 12 mie refl,
      )

m_return-mie : (status : ℕ) → bit_at (m_return status) 3 ≡ bit_at status 7
unfolding m_return
m_return-mie status = elim (Bool-cases (not (mpp_of status == 3))) [
  | inl below ↦ rw below (bit_at-and 3 kept (not64 mprv) ∙ omega (arith, plain, bit_at-lt 7 status))
  | inr same ↦ rw same plain
]
  where
    kept : ℕ
    kept = bit_or (bit_or (bit_and status (not64 m_fields)) (bit_at status 7 * 2 ^ 3)) (2 ^ 7)

    plain : bit_at kept 3 ≡ bit_at status 7
    plain =
        let mpie = bit_at-lt 7 status in
        omega (
          arith,
          replaced-bit_two 3 status (not64 m_fields) (bit_at status 7 * 2 ^ 3) (2 ^ 7),
          moved (bit_at status 7) 3 3 mpie refl,
          mpie,
        )

priv_of-level : (p : Priv) → priv_of (level p) ≡ p
priv_of-level user = refl
priv_of-level supervisor = refl
priv_of-level machine = refl

-- The status as a trap leaves it.
left : Cpu → ℕ
left c = written (m_entry c.priv (c.csrs.regs mstatus))

left-mpp : (c : Cpu) → mpp_of (left c) ≡ level c.priv
unfolding left
left-mpp c = omega (
  arith,
  written-bit 11 (m_entry c.priv (c.csrs.regs mstatus)) refl refl,
  written-bit 12 (m_entry c.priv (c.csrs.regs mstatus)) refl refl,
  m_entry-mpp c.priv (c.csrs.regs mstatus),
)

-- Entering a trap into M-mode and returning with `mret` restores the mode and the global interrupt
-- enable bit, and makes the interrupted instruction the next one.
pub mret-enter_machine :
    (cause tval : ℕ) (c : Cpu)
    → ((mret (enter_machine cause tval c)).priv ≡ c.priv)
      × ((mret (enter_machine cause tval c)).next_pc ≡ some c.pc)
      × (bit_at (Csr.read (mret (enter_machine cause tval c)).csrs mstatus) 3
          ≡ bit_at (Csr.read c.csrs mstatus) 3)
unfolding enter_machine mret Csr.read Csr.write left
mret-enter_machine cause tval c = (
  ap priv_of (left-mpp c) ∙ priv_of-level c.priv,
  refl,
  written-bit 3 (m_return (left c)) refl refl
      ∙ m_return-mie (left c)
      ∙ written-bit 7 (m_entry c.priv (c.csrs.regs mstatus)) refl refl
      ∙ m_entry-mpie c.priv (c.csrs.regs mstatus),
)
