-- ===== src/Mmu.antt =====
-- crates/rv64/src/mmu.rs: Sv39 translation through a direct-mapped TLB.
use dc34_baonix.Base.{
  ℕ, zero, suc, ◌+◌, ◌-◌, ◌*◌, ◌%◌, ◌^◌, Bool, true, false, not, ◌&&◌, ◌||◌, if◌then◌else◌, ◌==◌,
  update, Outcome, ok, err, panic, M, u64, shr, low_bits, bit_at, bit_or,
}
use dc34_baonix.Backing.{MemBacking}
use dc34_baonix.Bus
use dc34_baonix.Bus.{Bus}
use dc34_baonix.Csr
use dc34_baonix.Csr.{Csrs, Priv, user, supervisor, machine, satp}
use dc34_baonix.Uart.{ConsoleSink}
use dc34_baonix.Exception.{
  Exception, backing_failure, instruction_page_fault, load_page_fault, store_page_fault,
}

pub data Access : Type 0 where
  fetch load store : Access

abbrev pub tlb_entries : ℕ
tlb_entries = 32

pub record TlbEntry : Type 0 where
  pub valid : Bool
  pub vpn : ℕ
  pub ppn : ℕ
  pub perms : ℕ

abbrev pub no_entry : TlbEntry
no_entry = record { valid = false; vpn = 0; ppn = 0; perms = 0 }

-- The entries are given by their slot, below `tlb_entries`.
pub record Mmu : Type 0 where
  pub tlb : ℕ → TlbEntry
  pub walks : ℕ

abbrev pub reset : Mmu
reset = record { tlb = λ _. no_entry; walks = 0 }

unfoldable pub flush : Mmu → Mmu
flush m = record m { tlb = λ _. no_entry }

unfoldable pub fault : Access → ℕ → Exception
fault fetch vaddr = instruction_page_fault vaddr
fault load vaddr = load_page_fault vaddr
fault store vaddr = store_page_fault vaddr

abbrev pub is_user : Priv → Bool
is_user user = true
is_user supervisor = false
is_user machine = false

abbrev pub is_machine : Priv → Bool
is_machine user = false
is_machine supervisor = false
is_machine machine = true

abbrev pub is_store : Access → Bool
is_store fetch = false
is_store load = false
is_store store = true

-- The bit of a PTE that an access needs: X, R or W.
unfoldable pub allows : Access → ℕ → Bool
allows fetch pte = bit_at pte 3 == 1
allows load pte = bit_at pte 1 == 1
allows store pte = bit_at pte 2 == 1

unfoldable pub check_perms : ℕ → Priv → Access → ℕ → Outcome Exception (Unit {0})
check_perms pte priv access vaddr =
    if not (allows access pte)
    then err (fault access vaddr)
    else if is_user priv && not (bit_at pte 4 == 1)
    then err (fault access vaddr)
    else if (bit_at pte 6 == 0) || (is_store access && (bit_at pte 7 == 0))
    then err (fault access vaddr)
    else ok tt

-- `(ppn << 12) | (vaddr & 0xFFF)`
unfoldable pub join_page : ℕ → ℕ → ℕ
join_page ppn vaddr = bit_or (u64 (ppn * 2 ^ 12)) (low_bits vaddr 12)

-- `vaddr >> shift & 0x1FF` for the shift of each level.
unfoldable pub index : ℕ → ℕ → ℕ
index level vaddr =
    if level == 0
    then low_bits (shr vaddr 30) 9
    else if level == 1
    then low_bits (shr vaddr 21) 9
    else low_bits (shr vaddr 12) 9

-- How many low bits of a leaf's PPN come from the address: 18, 9 or none.
unfoldable pub superpage_bits : ℕ → ℕ
superpage_bits level = if level == 0 then 18 else if level == 1 then 9 else 0

-- `(ppn & !mask) | ((vaddr >> 12) & mask)`, with the superpage's mask.
unfoldable pub splice_ppn : ℕ → ℕ → ℕ → ℕ
splice_ppn level ppn vaddr =
    let k = superpage_bits level in bit_or (ppn - low_bits ppn k) (low_bits (shr vaddr 12) k)

-- `Ok` carries the page and the PTE of a leaf; `next` is the table of the following level.
pub data Pte : Type 0 where
  leaf : ℕ → Pte
  next : ℕ → Pte

-- What the walk makes of an entry at a level.
unfoldable pub visit : Priv → Access → ℕ → ℕ → ℕ → Outcome Exception Pte
visit priv access vaddr level pte =
    let ppn = low_bits (shr pte 10) 44 in
    if bit_at pte 0 == 0
    then err (fault access vaddr)
    else if not (low_bits (shr pte 1) 3 == 0)
    then elim (check_perms pte priv access vaddr) [
      | err e ↦ err e
      | panic ↦ panic
      | ok _ ↦
          if not (low_bits ppn (superpage_bits level) == 0)
          then err (fault access vaddr)
          else ok (leaf (splice_ppn level ppn vaddr))
    ]
    else ok (next (u64 (ppn * 2 ^ 12)))

-- A failed load of an entry is a page fault, unless the store failed.
unfoldable pub remap : Access → ℕ → Exception → Exception
remap access vaddr (backing_failure a) = backing_failure a
remap access vaddr _ = fault access vaddr

module _ {T K : Type 0} ⦃m : MemBacking T⦄ ⦃s : ConsoleSink K⦄ where
  -- The loop over the levels, with the levels left; it returns the leaf's page and its PTE.
  unfoldable pub walk : Priv → Access → ℕ → ℕ → ℕ → ℕ → M (Bus T K) Exception (ℕ × ℕ)
  walk priv access vaddr zero level table b = (err (fault access vaddr), b)
  walk priv access vaddr (suc left) level table b =
      let (r, b') = Bus.load (u64 (table + index level vaddr * 8)) 8 b in
      elim r [
        | err e ↦ (err (remap access vaddr e), b')
        | panic ↦ (panic, b')
        | ok pte ↦ elim (visit priv access vaddr level pte) [
          | err e ↦ (err e, b')
          | panic ↦ (panic, b')
          | ok p ↦ elim p [
            | leaf ppn ↦ (ok (ppn, pte), b')
            | next table' ↦ walk priv access vaddr left (level + 1) table' b'
          ]
        ]
      ]

  -- A translation that misses in the TLB.
  unfoldable pub translate_miss :
      Csrs → Priv → ℕ → Access → Mmu → Bus T K → Outcome Exception ℕ × (Mmu × Bus T K)
  translate_miss csrs priv vaddr access mmu b =
      let counted = record mmu { walks = u64 (mmu.walks + 1) } in
      let (r, b') =
        walk priv access vaddr 3 0 (u64 (low_bits (Csr.read csrs satp) 44 * 2 ^ 12)) b in
      elim r [
        | err e ↦ (err e, (counted, b'))
        | panic ↦ (panic, (counted, b'))
        | ok q ↦
            let entry : TlbEntry = record {
              valid = true;
              vpn = shr vaddr 12;
              ppn = q.0;
              perms = q.1;
            } in
            (
              ok (join_page q.0 vaddr),
              (record counted { tlb = update counted.tlb (shr vaddr 12 % tlb_entries) entry }, b'),
            )
      ]

  unfoldable pub translate :
      Csrs → Priv → ℕ → Access → Mmu → Bus T K → Outcome Exception ℕ × (Mmu × Bus T K)
  translate csrs priv vaddr access mmu b =
      let e = mmu.tlb (shr vaddr 12 % tlb_entries) in
      if not (shr (Csr.read csrs satp) 60 == 8) || is_machine priv
      then (ok vaddr, (mmu, b))
      else if e.valid && (e.vpn == shr vaddr 12)
      then elim (check_perms e.perms priv access vaddr) [
        | err x ↦ (err x, (mmu, b))
        | panic ↦ (panic, (mmu, b))
        | ok _ ↦ (ok (join_page e.ppn vaddr), (mmu, b))
      ]
      else translate_miss csrs priv vaddr access mmu b
