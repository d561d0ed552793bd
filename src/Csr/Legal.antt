-- ===== src/Csr/Legal.antt =====
-- crates/rv64/src/csr.rs: the registers that accept only some of the values written to them.
use dc34_baonix.Base.{
  ℕ, zero, suc, ◌*◌, ◌/◌, ◌^◌, ◌≡◌, ◌⊎◌, inl, refl, ◌∙◌, sym, ap, bit_and, bit_or, not64, shr,
  low_bits, and_step, or_step, bit_at, bit_at-and, bit_at-or, bit_at-lt, arith, max, min,
}
use native.Mathlib.Nat.{pow-suc, div-div-eq-div-mul, div-one}
use mathlib.Core.Path.{ap₂}
use dc34_baonix.Csr.{
  Csrs, reset, write, satp, stvec, mtvec, mstatus, mstatus_xlen_fields, mstatus_xlen_rv64,
  sstatus_writable, merge,
}

-- Translation is off or Sv39, traps are not vectored, and S-mode and U-mode are 64 bits wide.
pub record IsLegal (c : Csrs) : Type 0 where
  pub satp_mode : (shr (c.regs satp) 60 ≡ 0) ⊎ (shr (c.regs satp) 60 ≡ 8)
  pub stvec_direct : low_bits (c.regs stvec) 2 ≡ 0
  pub mtvec_direct : low_bits (c.regs mtvec) 2 ≡ 0
  pub xlen : low_bits (shr (c.regs mstatus) 32) 4 ≡ 10

-- A shift by `k` of a word operation, one place at a time.
half-shr : (x k : ℕ) → shr x (suc k) ≡ shr (x / 2) k
half-shr x k = ap (λ n. x / n) (double k) ∙ sym (div-div-eq-div-mul x 2 (2 ^ k))
  where
    double : (n : ℕ) → 2 ^ suc n ≡ 2 * 2 ^ n
    double n = omega (arith, pow-suc 2 n)

half-and : (a b : ℕ) → bit_and a b / 2 ≡ bit_and (a / 2) (b / 2)
half-and a b = omega (arith, and_step a b)

half-or : (a b : ℕ) → bit_or a b / 2 ≡ bit_or (a / 2) (b / 2)
half-or a b = omega (arith, or_step a b)

shr-and : (k a b : ℕ) → shr (bit_and a b) k ≡ bit_and (shr a k) (shr b k)
shr-and zero a b = simp div-one refl
shr-and (suc k) a b =
    half-shr (bit_and a b) k
    ∙ ap (λ x. shr x k) (half-and a b)
    ∙ shr-and k (a / 2) (b / 2)
    ∙ ap₂ bit_and (sym (half-shr a k)) (sym (half-shr b k))

shr-or : (k a b : ℕ) → shr (bit_or a b) k ≡ bit_or (shr a k) (shr b k)
shr-or zero a b = simp div-one refl
shr-or (suc k) a b =
    half-shr (bit_or a b) k
    ∙ ap (λ x. shr x k) (half-or a b)
    ∙ shr-or k (a / 2) (b / 2)
    ∙ ap₂ bit_or (sym (half-shr a k)) (sym (half-shr b k))

pub reset-IsLegal : IsLegal reset
unfolding reset
reset-IsLegal = record {
  satp_mode = inl refl;
  stvec_direct = refl;
  mtvec_direct = refl;
  xlen = refl;
}

-- The address-space number is cleared, and the mode stays.
satp-mode : (v : ℕ) → shr (bit_and v (not64 (0xFFFF * 2 ^ 44))) 60 ≡ bit_and (shr v 60) 15
satp-mode v = shr-and 60 v (not64 (0xFFFF * 2 ^ 44))

satp-write :
    (c : Csrs) (addr v : ℕ)
    → (shr (c.regs satp) 60 ≡ 0) ⊎ (shr (c.regs satp) 60 ≡ 8)
    → (shr ((write c addr v).regs satp) 60 ≡ 0) ⊎ (shr ((write c addr v).regs satp) 60 ≡ 8)
unfolding write
satp-write c addr v h =
    let off : shr v 60 ≡ 0 → bit_and (shr v 60) 15 ≡ 0 = λ e. ap (λ x. bit_and x 15) e in
    let on : shr v 60 ≡ 8 → bit_and (shr v 60) 15 ≡ 8 = λ e. ap (λ x. bit_and x 15) e in
    ground (arith, h, satp-mode v, off, on)

masked-low : (v : ℕ) → low_bits (bit_and v (not64 3)) 2 ≡ 0
masked-low v = omega (arith, bit_at-and 0 v (not64 3), bit_at-and 1 v (not64 3))

stvec-write :
    (c : Csrs) (addr v : ℕ)
    → low_bits (c.regs stvec) 2 ≡ 0
    → low_bits ((write c addr v).regs stvec) 2 ≡ 0
unfolding write
stvec-write c addr v h = ground (arith, h, masked-low v)

mtvec-write :
    (c : Csrs) (addr v : ℕ)
    → low_bits (c.regs mtvec) 2 ≡ 0
    → low_bits ((write c addr v).regs mtvec) 2 ≡ 0
unfolding write
mtvec-write c addr v h = ground (arith, h, masked-low v)

low_bits-ext :
    (x y : ℕ)
    → bit_at x 0 ≡ bit_at y 0
    → bit_at x 1 ≡ bit_at y 1
    → bit_at x 2 ≡ bit_at y 2
    → bit_at x 3 ≡ bit_at y 3
    → low_bits x 4 ≡ low_bits y 4
low_bits-ext x y p q r s = omega arith

-- A bit where the first mask is set and the second is clear.
masked-bit :
    (i a m b n : ℕ)
    → bit_at m i ≡ 1
    → bit_at n i ≡ 0
    → bit_at (bit_or (bit_and a m) (bit_and b n)) i ≡ bit_at a i
masked-bit i a m b n set clear = omega (
  arith,
  bit_at-or i (bit_and a m) (bit_and b n),
  bit_at-and i a m,
  bit_at-and i b n,
  bit_at-lt i a,
)

-- The low four bits of a word made of two masked ones.
nibble :
    (a b : ℕ)
    → low_bits
        (bit_or (bit_and a (shr (not64 sstatus_writable) 32)) (bit_and b (shr sstatus_writable 32)))
        4
      ≡ low_bits a 4
nibble a b =
    low_bits-ext (bit_or (bit_and a m) (bit_and b n)) a (masked-bit 0 a m b n refl refl)
      (masked-bit 1 a m b n refl refl) (masked-bit 2 a m b n refl refl)
      (masked-bit 3 a m b n refl refl)
  where
    m : ℕ
    m = shr (not64 sstatus_writable) 32

    n : ℕ
    n = shr sstatus_writable 32

kept-xlen : (m v : ℕ) → low_bits (shr (merge m sstatus_writable v) 32) 4 ≡ low_bits (shr m 32) 4
kept-xlen m v =
    ap (λ x. low_bits x 4)
      (shr-or 32 (bit_and m (not64 sstatus_writable)) (bit_and v sstatus_writable)
        ∙ ap₂ bit_or (shr-and 32 m (not64 sstatus_writable)) (shr-and 32 v sstatus_writable))
    ∙ nibble (shr m 32) (shr v 32)

-- The width fields of any word written to `mstatus`.
width_bits : (a : ℕ) → low_bits (bit_or (bit_and a 0xFFFF_FFF0) 10) 4 ≡ 10
width_bits a = omega (arith, fixed 0, fixed 1, fixed 2, fixed 3)
  where
    fixed :
        (i : ℕ)
        → bit_at (bit_or (bit_and a 0xFFFF_FFF0) 10) i
          ≡ max (min (bit_at a i) (bit_at 0xFFFF_FFF0 i)) (bit_at 10 i)
    fixed i = omega (arith, bit_at-or i (bit_and a 0xFFFF_FFF0) 10, bit_at-and i a 0xFFFF_FFF0)

fixed-xlen :
    (v : ℕ)
    → low_bits (shr (bit_or (bit_and v (not64 mstatus_xlen_fields)) mstatus_xlen_rv64) 32) 4 ≡ 10
fixed-xlen v =
    ap (λ x. low_bits x 4)
      (shr-or 32 (bit_and v (not64 mstatus_xlen_fields)) mstatus_xlen_rv64
        ∙ ap (λ x. bit_or x 10) (shr-and 32 v (not64 mstatus_xlen_fields)))
    ∙ width_bits (shr v 32)

mstatus-write :
    (c : Csrs) (addr v : ℕ)
    → low_bits (shr (c.regs mstatus) 32) 4 ≡ 10
    → low_bits (shr ((write c addr v).regs mstatus) 32) 4 ≡ 10
unfolding write
mstatus-write c addr v h = ground (arith, h, fixed-xlen v, kept-xlen (c.regs mstatus) v)

-- A write of any value to any register keeps the registers legal: `satp` holds a mode that is
-- implemented, no trap vector asks for vectored traps, and the widths of S-mode and U-mode stay 64.
pub write-IsLegal : (c : Csrs) (addr v : ℕ) → IsLegal c → IsLegal (write c addr v)
write-IsLegal c addr v l = record {
  satp_mode = satp-write c addr v l.satp_mode;
  stvec_direct = stvec-write c addr v l.stvec_direct;
  mtvec_direct = mtvec-write c addr v l.mtvec_direct;
  xlen = mstatus-write c addr v l.xlen;
}
