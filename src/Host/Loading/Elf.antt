-- ===== src/Host/Loading/Elf.antt =====
-- crates/rv64-host/src/elf.rs: the segments of an ELF file, and its symbols. Offsets wrap around as
-- in a release build.
use dc34_baonix.Base.{
  ℕ, zero, suc, ◌+◌, ◌-◌, ◌*◌, ◌%◌, ◌^◌, max, Option, none, some, List, [], ◌∷◌, length, Bool,
  false, not, ◌&&◌, if◌then◌else◌, ◌==◌, ltb, leb, get_or, from_le, sat_add64, M, Outcome, ok, err,
  panic,
}
use dc34_baonix.Backing.{MemBacking}
use dc34_baonix.Exception.{Exception}
use dc34_baonix.Uart.{ConsoleSink}
use dc34_baonix.Bus
use dc34_baonix.Bus.{Bus}
use dc34_baonix.Host.Loading.{get_range, is_prefix, wrap, then_store}

abbrev pub elfclass64 : ℕ
elfclass64 = 2

abbrev pub elfdata2lsb : ℕ
elfdata2lsb = 1

abbrev pub em_riscv : ℕ
em_riscv = 243

abbrev pub pt_load : ℕ
pt_load = 1

abbrev pub sht_symtab : ℕ
sht_symtab = 2

abbrev pub ehdr_len : ℕ
ehdr_len = 64

abbrev pub phdr_len : ℕ
phdr_len = 56

abbrev pub shdr_len : ℕ
shdr_len = 64

abbrev pub sym_len : ℕ
sym_len = 24

pub data Error : Type 0 where
  not_an_elf64_riscv truncated : Error
  unmapped : ℕ → Error

abbrev pub from_range : Option (List ℕ) → Option ℕ
from_range none = none
from_range (some l) = some (from_le l)

-- `u16_at`, `u32_at` and `u64_at` are this at 2, 4 and 8 bytes.
unfoldable pub uint_at : ℕ → List ℕ → ℕ → Option ℕ
uint_at n b off = from_range (get_range off (wrap (off + n)) b)

abbrev pub u16_at : List ℕ → ℕ → Option ℕ
u16_at = uint_at 2

abbrev pub u32_at : List ℕ → ℕ → Option ℕ
u32_at = uint_at 4

abbrev pub u64_at : List ℕ → ℕ → Option ℕ
u64_at = uint_at 8

pub record Header : Type 0 where
  pub entry : ℕ
  pub phoff : ℕ
  pub phentsize : ℕ
  pub phnum : ℕ
  pub shoff : ℕ
  pub shentsize : ℕ
  pub shnum : ℕ

abbrev pub is_number : Option ℕ → ℕ → Bool
is_number none n = false
is_number (some m) n = m == n

-- `ok_or(Error::Truncated)?`
abbrev pub or_truncated : {A : Type 0} → Option ℕ → (ℕ → Outcome Error A) → Outcome Error A
or_truncated none k = err truncated
or_truncated (some n) k = k n

unfoldable pub header : List ℕ → Outcome Error Header
header bytes =
    let magic = 0x7f ∷ 0x45 ∷ 0x4c ∷ 0x46 ∷ [] in
    let is_elf =
      not (ltb (length bytes) ehdr_len)
      && is_prefix magic bytes
      && (get_or bytes 4 0 == elfclass64)
      && (get_or bytes 5 0 == elfdata2lsb)
      && is_number (u16_at bytes 18) em_riscv in
    if not is_elf
    then err not_an_elf64_riscv
    else or_truncated (u64_at bytes 24) (λ entry. or_truncated (u64_at bytes 32) (λ phoff.
      or_truncated (u16_at bytes 54) (λ phentsize. or_truncated (u16_at bytes 56) (λ phnum.
        or_truncated (u64_at bytes 40) (λ shoff. or_truncated (u16_at bytes 58) (λ shentsize.
          or_truncated (u16_at bytes 60) (λ shnum. ok (record {
            entry = entry;
            phoff = phoff;
            phentsize = phentsize;
            phnum = phnum;
            shoff = shoff;
            shentsize = shentsize;
            shnum = shnum;
          }))))))))

-- Eight bytes of a segment: its data, and zeros past its end.
abbrev pub bytes_at : ℕ → ℕ → List ℕ → List ℕ
bytes_at zero off data' = []
bytes_at (suc n) off data' = get_or data' off 0 ∷ bytes_at n (suc off) data'

module _ {T K : Type 0} ⦃m : MemBacking T⦄ ⦃s : ConsoleSink K⦄ where
  -- `map_err(|_| Error::Unmapped(a))`
  abbrev pub or_unmapped :
      ℕ → Outcome Exception (Unit {0}) × Bus T K → Outcome Error (Unit {0}) × Bus T K
  or_unmapped a (ok u, b) = (ok u, b)
  or_unmapped a (err e, b) = (err (unmapped a), b)
  or_unmapped a (panic, b) = (panic, b)

  -- The loop of `write_segment`, with fuel; the size of the segment is enough.
  unfoldable pub segment_from : ℕ → ℕ → ℕ → List ℕ → ℕ → M (Bus T K) Error (Unit {0})
  segment_from zero addr off data' total b = (ok tt, b)
  segment_from (suc fuel) addr off data' total b =
      let a = wrap (addr + off) in
      let word = (a % 8 == 0) && leb 8 (total - off) in
      let size = if word then 8 else 1 in
      let value = from_le (bytes_at size off data') in
      if not (ltb off total)
      then (ok tt, b)
      else then_store (or_unmapped a (Bus.store a size value b))
          (segment_from fuel addr (off + size) data' total)

  unfoldable pub write_segment : ℕ → List ℕ → ℕ → M (Bus T K) Error (Unit {0})
  write_segment addr data' memsz b =
      let total = max memsz (length data') in segment_from total addr 0 data' total b

-- A program header that is loaded, or that is passed over.
pub record Segment : Type 0 where
  pub paddr : ℕ
  pub memsz : ℕ
  pub bytes_in_file : List ℕ

abbrev pub data_of : {A : Type 0} → Option (List ℕ) → (List ℕ → Outcome Error A) → Outcome Error A
data_of none k = err truncated
data_of (some l) k = k l

-- The body of the loop of `load`, up to the write.
unfoldable pub segment_at : List ℕ → ℕ → Outcome Error (Option Segment)
segment_at bytes base = or_truncated (u32_at bytes base) (λ ty.
    if not (ty == pt_load)
    then ok none
    else or_truncated (u64_at bytes (wrap (base + 8))) (λ offset.
      or_truncated (u64_at bytes (wrap (base + 24))) (λ paddr.
        or_truncated (u64_at bytes (wrap (base + 32))) (λ filesz.
          or_truncated (u64_at bytes (wrap (base + 40))) (λ memsz.
            if leb (2 ^ 64) (offset + filesz)
            then err truncated
            else data_of (get_range offset (offset + filesz) bytes)
                (λ l. ok (some (record { paddr = paddr; memsz = memsz; bytes_in_file = l }))))))))

abbrev pub header_at : Header → ℕ → ℕ
header_at h i = wrap (h.phoff + i * h.phentsize)

abbrev pub too_small : Header → Bool
too_small h = not (h.phnum == 0) && ltb h.phentsize phdr_len

module _ {T K : Type 0} ⦃m : MemBacking T⦄ ⦃s : ConsoleSink K⦄ where
  abbrev pub write_found : Outcome Error (Option Segment) → M (Bus T K) Error (Unit {0})
  write_found (err e) b = (err e, b)
  write_found panic b = (panic, b)
  write_found (ok none) b = (ok tt, b)
  write_found (ok (some g)) b = write_segment g.paddr g.bytes_in_file g.memsz b

  -- The loop of `load`, over so many headers from this one on.
  unfoldable pub load_from : List ℕ → Header → ℕ → ℕ → M (Bus T K) Error (Unit {0})
  load_from bytes h i zero b = (ok tt, b)
  load_from bytes h i (suc n) b =
      then_store (write_found (segment_at bytes (header_at h i)) b) (load_from bytes h (i + 1) n)

  abbrev pub entered : ℕ → Outcome Error (Unit {0}) × Bus T K → Outcome Error ℕ × Bus T K
  entered entry (ok u, b) = (ok entry, b)
  entered entry (err e, b) = (err e, b)
  entered entry (panic, b) = (panic, b)

  unfoldable pub load : List ℕ → M (Bus T K) Error ℕ
  load bytes b = elim (header bytes) [
    | err e ↦ (err e, b)
    | panic ↦ (panic, b)
    | ok h ↦
        if too_small h then (err truncated, b) else entered h.entry (load_from bytes h 0 h.phnum b)
  ]

-- The loop of `extent`.
unfoldable pub extent_from : List ℕ → Header → ℕ → ℕ → ℕ → Outcome Error ℕ
extent_from bytes h i zero end = ok end
extent_from bytes h i (suc n) end =
    let base = header_at h i in
    or_truncated (u32_at bytes base) (λ ty.
      if not (ty == pt_load)
      then extent_from bytes h (i + 1) n end
      else or_truncated (u64_at bytes (wrap (base + 24))) (λ paddr.
        or_truncated (u64_at bytes (wrap (base + 40)))
          (λ memsz. extent_from bytes h (i + 1) n (max end (sat_add64 paddr memsz)))))

unfoldable pub extent : List ℕ → Outcome Error ℕ
extent bytes = elim (header bytes) [
  | err e ↦ err e
  | panic ↦ panic
  | ok h ↦ if too_small h then err truncated else extent_from bytes h 0 h.phnum 0
]
