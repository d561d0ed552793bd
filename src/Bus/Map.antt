-- ===== src/Bus/Map.antt =====
-- crates/rv64/src/bus.rs: the memory map.
use dc34_baonix.Base.{ℕ, ◌+◌, ◌≤◌, ◌≡◌, true, false, arith}
use dc34_baonix.Backing.{ram_base, ram_size}
use dc34_baonix.Bus.{in_ram, is_clint, is_uart}

-- An access that the bus sends to RAM lies in RAM as a whole, and none of the devices claims it.
pub in_ram-whole :
    (addr size : ℕ)
    → in_ram addr size ≡ true
    → (ram_base ≤ addr)
      × (addr + size ≤ ram_base + ram_size)
      × (is_clint addr size ≡ false)
      × (is_uart addr size ≡ false)
unfolding in_ram is_clint is_uart
in_ram-whole addr size h = ground arith
