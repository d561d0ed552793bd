-- ===== src/Host/Loading.antt =====
-- crates/rv64-host/src/lib.rs: where the boot images go, and how they are put into guest memory. A
-- `usize` is 64 bits wide. Additions wrap around, as in a release build.
pub mod Layout
pub mod Fdt
pub mod Elf
pub mod Images
use dc34_baonix.Base.{
  ℕ, zero, suc, ◌+◌, ◌-◌, ◌*◌, ◌%◌, ◌^◌, ◌≤◌, ◌≡◌, Option, none, some, List, [], ◌∷◌, length, take,
  drop, Bool, true, false, not, ◌&&◌, ◌||◌, if◌then◌else◌, ◌==◌, ltb, leb, get_or, from_le, M,
  Outcome, ok, err, panic,
}
use dc34_baonix.Backing.{ram_base, ram_size, page_size, MemBacking}
use dc34_baonix.Exception.{Exception}
use dc34_baonix.Uart.{ConsoleSink}
use dc34_baonix.Bus.{Bus}
use dc34_baonix.Bus

abbrev pub wrap : ℕ → ℕ
wrap n = n % 2 ^ 64

-- `bytes.get(from..to)`
abbrev pub get_range : ℕ → ℕ → List ℕ → Option (List ℕ)
get_range from to bytes =
    if leb from to && leb to (length bytes) then some (take (to - from) (drop from bytes)) else none

-- A test of every byte of a prefix, as `starts_with` and the comparisons of slices make it.
abbrev pub is_prefix : List ℕ → List ℕ → Bool
is_prefix [] l = true
is_prefix (p ∷ ps) [] = false
is_prefix (p ∷ ps) (b ∷ bs) = (p == b) && is_prefix ps bs

-- `next_multiple_of` of a `u64`
abbrev pub next_multiple_of : ℕ → ℕ → ℕ
next_multiple_of n m = if n % m == 0 then n else wrap (n + (m - n % m))

module _ {T K : Type 0} ⦃m : MemBacking T⦄ ⦃s : ConsoleSink K⦄ where
  abbrev pub then_store :
      {E : Type 0}
      → Outcome E (Unit {0}) × Bus T K
      → M (Bus T K) E (Unit {0})
      → Outcome E (Unit {0}) × Bus T K
  then_store (ok u, b) k = k b
  then_store (err e, b) k = (err e, b)
  then_store (panic, b) k = (panic, b)

  -- The loop of `write_blob`, with fuel; the number of bytes is enough.
  unfoldable pub write_from : ℕ → ℕ → List ℕ → M (Bus T K) Exception (Unit {0})
  write_from zero a data' b = (ok tt, b)
  write_from (suc fuel) a [] b = (ok tt, b)
  write_from (suc fuel) a (x ∷ data') b =
      let word = a % 8 == 0 && leb 8 (length (x ∷ data')) in
      if word
      then then_store (Bus.store a 8 (from_le (take 8 (x ∷ data'))) b)
          (write_from fuel (wrap (a + 8)) (drop 8 (x ∷ data')))
      else then_store (Bus.store a 1 x b) (write_from fuel (wrap (a + 1)) data')

  unfoldable pub write_blob : ℕ → List ℕ → M (Bus T K) Exception (Unit {0})
  write_blob addr data' b = write_from (length data') addr data' b

abbrev pub kernel_load_addr : ℕ
kernel_load_addr = 0x8020_0000

abbrev pub riscv_image_header_len : ℕ
riscv_image_header_len = 64

-- "RSC\x05"
abbrev pub riscv_image_magic2 : List ℕ
riscv_image_magic2 = 0x52 ∷ 0x53 ∷ 0x43 ∷ 0x05 ∷ []

unfoldable pub has_riscv_image_header : List ℕ → Bool
has_riscv_image_header bytes =
    leb riscv_image_header_len (length bytes) && is_prefix riscv_image_magic2 (drop 56 bytes)

unfoldable pub riscv_image_footprint : List ℕ → Option ℕ
riscv_image_footprint bytes =
    let size = from_le (take 8 (drop 16 bytes)) in
    if not (has_riscv_image_header bytes)
    then none
    else if leb (length bytes) size
    then some size
    else none

unfoldable pub riscv_image_text_offset : List ℕ → Option ℕ
riscv_image_text_offset bytes =
    if has_riscv_image_header bytes then some (from_le (take 8 (drop 8 bytes))) else none

pub record BootLayout : Type 0 where
  pub dtb : ℕ
  pub initrd : Option (ℕ × ℕ)

abbrev pub ram_end : ℕ
ram_end = ram_base + ram_size

abbrev pub initrd_at : ℕ → Option ℕ → Option (ℕ × ℕ)
initrd_at dtb_end none = none
initrd_at dtb_end (some len) =
    let start = next_multiple_of dtb_end page_size in some (start, wrap (start + len))

abbrev pub top_of : ℕ → Option (ℕ × ℕ) → ℕ
top_of dtb_end none = dtb_end
top_of dtb_end (some r) = r.1

unfoldable pub boot_layout : ℕ → ℕ → Option ℕ → Option BootLayout
boot_layout kernel_end dtb_len initrd_len =
    let dtb = next_multiple_of kernel_end 8 in
    let dtb_end = wrap (dtb + dtb_len) in
    let initrd = initrd_at dtb_end initrd_len in
    if ltb ram_end (top_of dtb_end initrd)
    then none
    else some (record { dtb = dtb; initrd = initrd })

-- Whether the marker has arrived: the bytes from `scanned` on are searched.
abbrev pub occurs : List ℕ → List ℕ → Bool
occurs marker [] = is_prefix marker []
occurs marker (b ∷ bs) = is_prefix marker (b ∷ bs) || occurs marker bs

unfoldable pub console_reached : List ℕ → List ℕ → ℕ → Bool × ℕ
console_reached out [] scanned = (false, scanned)
console_reached out (c ∷ marker) scanned =
    (occurs (c ∷ marker) (drop scanned out), length out - (length (c ∷ marker) - 1))
