-- ===== src/Cpu.antt =====
-- crates/rv64/src/cpu.rs: the hart's state, its memory accesses and its traps. The state of all of
-- these functions is the hart together with the bus that they are given.
pub mod Trap
pub mod Reservation
mod Tests
use dc34_baonix.Base.{
  ℕ, zero, suc, ◌+◌, ◌-◌, ◌*◌, ◌%◌, ◌^◌, ◌≡◌, Bool, true, false, not, ◌&&◌, ◌||◌, Option, none,
  some, List, [], ◌∷◌, if◌then◌else◌, ◌==◌, ltb, leb, update, Outcome, ok, err, panic, M, bind,
  ◌>>=◌, ◌>>◌, u8, u64, shr, low_bits, sat_add64, to_le, from_le, get_or, bit_and, bit_or, bit_at,
  not64,
}
use dc34_baonix.Backing.{MemBacking, page_size}
use dc34_baonix.Bus
use dc34_baonix.Bus.{Bus}
use dc34_baonix.Clint
use dc34_baonix.Csr
use dc34_baonix.Csr.{
  Csrs, Priv, user, supervisor, machine, sepc, scause, stval, stvec, mstatus, mepc, mcause, mtval,
  mtvec, medeleg, mie, mip,
}
use dc34_baonix.Mmu
use dc34_baonix.Mmu.{Mmu, Access, is_machine}
use dc34_baonix.Uart.{ConsoleSink}
use dc34_baonix.Exception.{
  Exception, Interrupt, machine_timer, supervisor_timer, interrupt_cause, cause, tval,
  backing_failure, instruction_page_fault, instruction_access_fault,
}

-- The 32 registers by index.
pub record Cpu : Type 0 where
  pub regs : ℕ → ℕ
  pub pc : ℕ
  pub reservation : Option ℕ
  pub insn_len : ℕ
  pub instret : ℕ
  pub csrs : Csrs
  pub priv : Priv
  pub mmu : Mmu
  pub next_pc : Option ℕ

unfoldable pub new : ℕ → Cpu
new pc = record {
  regs = λ _. 0;
  pc = pc;
  reservation = none;
  insn_len = 4;
  instret = 0;
  csrs = Csr.reset;
  priv = machine;
  mmu = Mmu.reset;
  next_pc = none;
}

abbrev pub reg : Cpu → ℕ → ℕ
reg c i = c.regs i

-- Writes to x0 are discarded.
unfoldable pub set_reg : ℕ → ℕ → Cpu → Cpu
set_reg i v c = if not (i == 0) then record c { regs = update c.regs i v } else c

abbrev pub jump : ℕ → Cpu → Cpu
jump target c = record c { next_pc = some target }

abbrev pub set_csr : ℕ → ℕ → Cpu → Cpu
set_csr addr v c = record c { csrs = Csr.write c.csrs addr v }

unfoldable pub invalidate_reservation : ℕ → ℕ → Cpu → Cpu
invalidate_reservation addr size c = elim c.reservation [
  | none ↦ c
  | some r ↦
      if ltb addr (sat_add64 r 8) && ltb r (sat_add64 addr size)
      then record c { reservation = none }
      else c
]

-- Any error of a fetch but a page fault or a failed store is an access fault at the pc.
unfoldable pub remap_fetch : ℕ → Exception → Exception
remap_fetch pc (backing_failure a) = backing_failure a
remap_fetch pc (instruction_page_fault a) = instruction_page_fault a
remap_fetch pc _ = instruction_access_fault pc

-- The hart and its bus.
pub record Machine (T K : Type 0) : Type 0 where
  pub cpu : Cpu
  pub bus : Bus T K

module _ {T K : Type 0} where
  abbrev pub on_cpu : (Cpu → Cpu) → M (Machine T K) Exception (Unit {0})
  on_cpu f s = (ok tt, record s { cpu = f s.cpu })

  abbrev pub on_bus : {A : Type 0} → M (Bus T K) Exception A → M (Machine T K) Exception A
  on_bus m s = let r = m s.bus in (r.0, record s { bus = r.1 })

module _ {T K : Type 0} ⦃m : MemBacking T⦄ ⦃k : ConsoleSink K⦄ where
  unfoldable pub translate : ℕ → Access → M (Machine T K) Exception ℕ
  translate vaddr access s =
      let r = Mmu.translate s.cpu.csrs s.cpu.priv vaddr access s.cpu.mmu s.bus in
      (r.0, record s { cpu = record s.cpu { mmu = r.1.0 }; bus = r.1.1 })

  -- The straddling loop from byte `i`, with the bytes left.
  unfoldable pub read_each : ℕ → ℕ → ℕ → Access → M (Machine T K) Exception (List ℕ)
  read_each zero i vaddr access s = (ok [], s)
  read_each (suc left) i vaddr access s = bind (translate (u64 (vaddr + i)) access s) (λ pa s1.
      bind (on_bus (Bus.load pa 1) s1)
        (λ v s2. bind (read_each left (i + 1) vaddr access s2) (λ rest s3. (ok (u8 v ∷ rest), s3))))

  unfoldable pub read_translated : ℕ → ℕ → Access → M (Machine T K) Exception ℕ
  read_translated vaddr size access s =
      if leb (low_bits vaddr 12 + size) page_size
      then bind (translate vaddr access s) (λ pa. on_bus (Bus.load pa size))
      else bind (read_each size 0 vaddr access s) (λ buf s'. (ok (from_le buf), s'))

  unfoldable pub store_at : ℕ → ℕ → ℕ → M (Machine T K) Exception (Unit {0})
  store_at pa size v = do on_bus (Bus.store pa size v); on_cpu (invalidate_reservation pa size)

  -- The straddling loop; `bytes[i]` is in range since an access has at most 8 bytes.
  unfoldable pub write_each : ℕ → ℕ → ℕ → List ℕ → M (Machine T K) Exception (Unit {0})
  write_each zero i vaddr bytes s = (ok tt, s)
  write_each (suc left) i vaddr bytes s =
      bind (translate (u64 (vaddr + i)) Access.store s) (λ pa s1.
        bind (store_at pa 1 (get_or bytes i 0) s1) (λ _ s2. write_each left (i + 1) vaddr bytes s2))

  unfoldable pub write_translated : ℕ → ℕ → ℕ → M (Machine T K) Exception (Unit {0})
  write_translated vaddr size v s =
      if leb (low_bits vaddr 12 + size) page_size
      then bind (translate vaddr Access.store s) (λ pa. store_at pa size v)
      else write_each size 0 vaddr (to_le 8 v) s

  abbrev pub vload : ℕ → ℕ → M (Machine T K) Exception ℕ
  vload vaddr size = read_translated vaddr size Access.load

  abbrev pub vstore : ℕ → ℕ → ℕ → M (Machine T K) Exception (Unit {0})
  vstore vaddr size v = write_translated vaddr size v

  unfoldable pub fetch : ℕ → M (Machine T K) Exception ℕ
  fetch size s =
      let r = read_translated s.cpu.pc size Access.fetch s in
      elim r.0 [
        | ok w ↦ (ok w, r.1)
        | err e ↦ (err (remap_fetch s.cpu.pc e), r.1)
        | panic ↦ (panic, r.1)
      ]
