-- ===== src/Host/Loading/Images.antt =====
-- crates/rv64-host/src/lib.rs: the kernel and the boot images put into memory, and the guest run.
-- The texts of the errors are left out.
use dc34_baonix.Base.{
  ℕ, zero, suc, ◌+◌, ◌-◌, ◌^◌, Option, none, some, List, [], ◌∷◌, ◌++◌, length, Bool, true, false,
  ◌&&◌, if◌then◌else◌, ◌==◌, leb, M, Outcome, ok, err, panic,
}
use dc34_baonix.Backing.{MemBacking, ram_base}
use dc34_baonix.Exception.{Exception}
use dc34_baonix.Clint
use dc34_baonix.Uart.{ConsoleSink}
use dc34_baonix.Bus.{Bus}
use dc34_baonix.Csr
use dc34_baonix.Csr.{Priv, user, supervisor, machine}
use dc34_baonix.Cpu
use dc34_baonix.Cpu.{Cpu, Machine, set_reg}
use dc34_baonix.Cpu.Trap.{check_interrupts}
use dc34_baonix.Sbi.{SbiOutcome, handled, shutdown}
use dc34_baonix.Step.{step_trapping}
use dc34_baonix.Host.Loading.{
  is_prefix, write_blob, kernel_load_addr, riscv_image_text_offset, riscv_image_footprint,
  BootLayout, boot_layout,
}
use dc34_baonix.Host.Loading.Elf
use dc34_baonix.Host.Loading.Fdt

pub data KernelError : Type 0 where
  bad_elf : Elf.Error → KernelError
  wrong_offset : ℕ → KernelError
  does_not_fit : Exception → KernelError
  overflows : ℕ → KernelError

abbrev pub elf_magic : List ℕ
elf_magic = 0x7f ∷ 0x45 ∷ 0x4c ∷ 0x46 ∷ []

abbrev pub or_length : Option ℕ → List ℕ → ℕ
or_length none bytes = length bytes
or_length (some n) bytes = n

abbrev pub mismatches : Option ℕ → ℕ → Option ℕ
mismatches none ours = none
mismatches (some want) ours = if want == ours then none else some want

module _ {T K : Type 0} ⦃m : MemBacking T⦄ ⦃s : ConsoleSink K⦄ where
  -- `elf::load`, and then `elf::extent` whatever the entry point.
  abbrev pub loaded_elf : List ℕ → Outcome Elf.Error ℕ × Bus T K → Outcome KernelError ℕ × Bus T K
  loaded_elf bytes (err e, b) = (err (bad_elf e), b)
  loaded_elf bytes (panic, b) = (panic, b)
  loaded_elf bytes (ok entry, b) = elim (Elf.extent bytes) [
    | ok end ↦ (ok end, b)
    | err e ↦ (err (bad_elf e), b)
    | panic ↦ (panic, b)
  ]

  -- What follows the write of a raw image: `checked_add` of its span.
  abbrev pub loaded_raw :
      ℕ → Outcome Exception (Unit {0}) × Bus T K → Outcome KernelError ℕ × Bus T K
  loaded_raw span (err e, b) = (err (does_not_fit e), b)
  loaded_raw span (panic, b) = (panic, b)
  loaded_raw span (ok u, b) =
      if leb (2 ^ 64) (kernel_load_addr + span)
      then (err (overflows span), b)
      else (ok (kernel_load_addr + span), b)

  unfoldable pub load_kernel : List ℕ → M (Bus T K) KernelError ℕ
  load_kernel bytes b =
      if is_prefix elf_magic bytes
      then loaded_elf bytes (Elf.load bytes b)
      else elim (mismatches (riscv_image_text_offset bytes) (kernel_load_addr - ram_base)) [
        | some want ↦ (err (wrong_offset want), b)
        | none ↦
            loaded_raw (or_length (riscv_image_footprint bytes) bytes)
              (write_blob kernel_load_addr bytes b)
      ]

abbrev pub is_machine : Priv → Bool
is_machine machine = true
is_machine supervisor = false
is_machine user = false

-- `cpu.priv_ == Priv::M && cpu.pc == 0 && cpu.csrs.read(csr::MTVEC) == 0`
abbrev pub is_lost : Cpu → Bool
is_lost c = is_machine c.priv && (c.pc == 0) && (Csr.read c.csrs Csr.mtvec == 0)

pub data RunOutcome : Type 0 where
  shutdown_after capped : ℕ → RunOutcome
  backing_failed : ℕ → ℕ → RunOutcome
  machine_trap : ℕ → ℕ → ℕ → ℕ → RunOutcome

abbrev pub lost_at : ℕ → Cpu → RunOutcome
lost_at executed c =
    machine_trap executed (Csr.read c.csrs Csr.mcause) (Csr.read c.csrs Csr.mepc)
      (Csr.read c.csrs Csr.mtval)

module _ {T K : Type 0} ⦃m : MemBacking T⦄ ⦃s : ConsoleSink K⦄ where
  abbrev pub ticked : Machine T K → Machine T K
  ticked x = record x { bus = record x.bus { clint = Clint.tick 1 x.bus.clint } }

  -- One instruction: the interrupts are polled, and the hart steps.
  unfoldable pub run_step : Machine T K → Outcome ℕ SbiOutcome × Machine T K
  run_step x = step_trapping (record x { cpu = check_interrupts x.bus.clint x.cpu })

  -- The loop, with so many instructions left of `max_insns`; there is no result where the host
  -- panicked.
  unfoldable pub run_from : ℕ → ℕ → Machine T K → Option RunOutcome × Machine T K
  run_from zero executed x =
      if is_lost x.cpu then (some (lost_at executed x.cpu), x) else (some (capped executed), x)
  run_from (suc left) executed x =
      let r = run_step x in
      elim (is_lost x.cpu) [
        | true ↦ (some (lost_at executed x.cpu), x)
        | false ↦ elim r.0 [
          | panic ↦ (none, r.1)
          | err addr ↦ (some (backing_failed executed addr), r.1)
          | ok o ↦ elim o [
            | shutdown ↦ (some (shutdown_after (executed + 1)), r.1)
            | handled ↦ run_from left (executed + 1) (ticked r.1)
          ]
        ]
      ]

  unfoldable pub run_until : ℕ → Machine T K → Option RunOutcome × Machine T K
  run_until max_insns x = run_from max_insns 0 x

pub data BootError : Type 0 where
  kernel : KernelError → BootError
  layout : BootError
  dtb_unset : Fdt.SetError → BootError
  dtb_unplaced initrd_unplaced : Exception → BootError

-- "/chosen", "linux,initrd-start" and "linux,initrd-end"
abbrev pub chosen : List ℕ
chosen = 0x2f ∷ 0x63 ∷ 0x68 ∷ 0x6f ∷ 0x73 ∷ 0x65 ∷ 0x6e ∷ []

abbrev pub linux_initrd : List ℕ
linux_initrd =
    0x6c ∷ 0x69 ∷ 0x6e ∷ 0x75 ∷ 0x78 ∷ 0x2c ∷ 0x69 ∷ 0x6e ∷ 0x69 ∷ 0x74 ∷ 0x72 ∷ 0x64 ∷ 0x2d ∷ []

abbrev pub initrd_start : List ℕ
initrd_start = linux_initrd ++ 0x73 ∷ 0x74 ∷ 0x61 ∷ 0x72 ∷ 0x74 ∷ []

abbrev pub initrd_end : List ℕ
initrd_end = linux_initrd ++ 0x65 ∷ 0x6e ∷ 0x64 ∷ []

-- The device tree with the place of the initrd in it.
unfoldable pub recorded : (List ℕ → Bool) → List ℕ → Option (ℕ × ℕ) → Outcome Fdt.SetError (List ℕ)
recorded is_utf8 dtb none = ok dtb
recorded is_utf8 dtb (some r) = elim (Fdt.set_u64 is_utf8 dtb chosen initrd_start r.0) [
  | err e ↦ err e
  | panic ↦ panic
  | ok d ↦ Fdt.set_u64 is_utf8 d chosen initrd_end r.1
]

abbrev pub length_of : Option (List ℕ) → Option ℕ
length_of none = none
length_of (some l) = some (length l)

-- The hart as the kernel is entered.
unfoldable pub boot_cpu : BootLayout → Cpu
boot_cpu l =
    set_reg 11 l.dtb (set_reg 10 0 (record (Cpu.new kernel_load_addr) { priv = supervisor }))

module _ {T K : Type 0} ⦃m : MemBacking T⦄ ⦃s : ConsoleSink K⦄ where
  abbrev pub map_error :
      {E E' A B : Type 0}
      → (E → E')
      → Outcome E A × Bus T K
      → (A → M (Bus T K) E' B)
      → Outcome E' B × Bus T K
  map_error f (err e, b) k = (err (f e), b)
  map_error f (panic, b) k = (panic, b)
  map_error f (ok a, b) k = k a b

  abbrev pub place_initrd : Option (List ℕ) → BootLayout → M (Bus T K) BootError (Cpu × BootLayout)
  place_initrd none l b = (ok (boot_cpu l, l), b)
  place_initrd (some bytes) l b = elim l.initrd [
    | none ↦ (ok (boot_cpu l, l), b)
    | some r ↦ map_error initrd_unplaced (write_blob r.0 bytes b) (λ _ b'. (ok (boot_cpu l, l), b'))
  ]

  unfoldable pub load_boot_images :
      (List ℕ → Bool) → List ℕ → List ℕ → Option (List ℕ) → M (Bus T K) BootError (Cpu × BootLayout)
  load_boot_images is_utf8 image dtb initrd b =
      map_error kernel (load_kernel image b) (λ kernel_end b1.
        elim (boot_layout kernel_end (length dtb) (length_of initrd)) [
          | none ↦ (err layout, b1)
          | some l ↦
              map_error dtb_unset (recorded is_utf8 dtb l.initrd, b1)
                (λ d b2.
                  map_error dtb_unplaced (write_blob l.dtb d b2) (λ _. place_initrd initrd l))
        ])
