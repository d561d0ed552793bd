-- ===== src/Bus.antt =====
-- crates/rv64/src/bus.rs: guest physical accesses go to RAM, the CLINT or the UART.
mod Tests
pub mod Map
use dc34_baonix.Base.{
  ℕ, ◌+◌, ◌-◌, Bool, ◌&&◌, ◌||◌, not, if◌then◌else◌, ◌==◌, leb, Outcome, ok, err, panic, M,
  sat_add64,
}
use dc34_baonix.Backing.{MemBacking, Error, ram_base, ram_size}
use dc34_baonix.Cache.{PageCache}
use dc34_baonix.Cache.Bytes.{read_le, write_le}
use dc34_baonix.Clint
use dc34_baonix.Clint.{Clint}
use dc34_baonix.Uart
use dc34_baonix.Uart.{Uart, ConsoleSink}
use dc34_baonix.Exception.{Exception, load_access_fault, store_access_fault, backing_failure}

abbrev pub clint_base : ℕ
clint_base = 0x0200_0000

abbrev pub clint_size : ℕ
clint_size = 0x0001_0000

abbrev pub uart_base : ℕ
uart_base = 0x1000_0000

abbrev pub uart_size : ℕ
uart_size = 0x100

pub record Bus (T K : Type 0) : Type 0 where
  pub cache : PageCache T
  pub clint : Clint
  pub uart : Uart K

abbrev pub new : {T K : Type 0} → PageCache T → K → Bus T K
new cache sink = record { cache = cache; clint = Clint.reset; uart = Uart.new sink }

unfoldable pub in_ram : ℕ → ℕ → Bool
in_ram addr size = leb ram_base addr && leb (sat_add64 addr size) (ram_base + ram_size)

unfoldable pub is_clint : ℕ → ℕ → Bool
is_clint addr size = leb clint_base addr && leb (sat_add64 addr size) (clint_base + clint_size)

unfoldable pub is_uart : ℕ → ℕ → Bool
is_uart addr size = leb uart_base addr && leb (sat_add64 addr size) (uart_base + uart_size)

-- `matches!(size, 1 | 2 | 4 | 8)`
unfoldable pub legal_size : ℕ → Bool
legal_size size = (size == 1) || (size == 2) || (size == 4) || (size == 8)

module _ {T K : Type 0} where
  -- `map_err(|_| Exception::BackingFailure(addr))` of a call of the cache.
  abbrev pub from_cache :
      {A : Type 0} → ℕ → Bus T K → Outcome Error A × PageCache T → Outcome Exception A × Bus T K
  from_cache addr b (ok a, c) = (ok a, record b { cache = c })
  from_cache addr b (err e, c) = (err (backing_failure addr), record b { cache = c })
  from_cache addr b (panic, c) = (panic, record b { cache = c })

module _ {T K : Type 0} ⦃m : MemBacking T⦄ ⦃s : ConsoleSink K⦄ where
  unfoldable pub load : ℕ → ℕ → M (Bus T K) Exception ℕ
  load addr size b =
      if not (legal_size size)
      then (err (load_access_fault addr), b)
      else if in_ram addr size
      then from_cache addr b (read_le size addr b.cache)
      else if is_clint addr size
      then (ok (Clint.load b.clint (addr - clint_base)), b)
      else if is_uart addr size
      then (let (v, u) = Uart.load (addr - uart_base) b.uart in (ok v, record b { uart = u }))
      else (err (load_access_fault addr), b)

  unfoldable pub store : ℕ → ℕ → ℕ → M (Bus T K) Exception (Unit {0})
  store addr size value b =
      if not (legal_size size)
      then (err (store_access_fault addr), b)
      else if in_ram addr size
      then from_cache addr b (write_le size addr value b.cache)
      else if is_clint addr size
      then (ok tt, record b { clint = Clint.store (addr - clint_base) value b.clint })
      else if is_uart addr size
      then (ok tt, record b { uart = Uart.store (addr - uart_base) value b.uart })
      else (err (store_access_fault addr), b)
