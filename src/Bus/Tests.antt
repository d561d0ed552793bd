-- ===== src/Bus/Tests.antt =====
-- Accesses at the edges of the memory map.
use dc34_baonix.Base.{◌+◌, ◌-◌, ◌≤◌, ◌≡◌, refl, true, false}
use dc34_baonix.Backing.{ram_base, ram_size}
use dc34_baonix.Bus.{in_ram, is_clint, is_uart}
use dc34_baonix.Bus.Map.{in_ram-whole}

last_word : in_ram (ram_base + ram_size - 8) 8 ≡ true
unfolding in_ram
last_word = refl

in_ram-whole_example :
    (ram_base ≤ ram_base + ram_size - 8)
    × (ram_base + ram_size - 8 + 8 ≤ ram_base + ram_size)
    × (is_clint (ram_base + ram_size - 8) 8 ≡ false)
    × (is_uart (ram_base + ram_size - 8) 8 ≡ false)
in_ram-whole_example = in_ram-whole (ram_base + ram_size - 8) 8 last_word
