-- ===== src/Cpu/Reservation.antt =====
-- crates/rv64/src/cpu.rs: which stores drop the reservation of LR.
use dc34_baonix.Base.{ℕ, ◌+◌, ◌-◌, ◌^◌, ◌<◌, ◌≤◌, ◌≡◌, ◌⊎◌, none, some, arith}
use dc34_baonix.Cpu.{Cpu, invalidate_reservation}

-- A store of `size` bytes at `addr` that touches a byte `a` of the eight reserved ones, below the last
-- address, drops the reservation.
pub invalidate_reservation_touched :
    (addr size r a : ℕ) (c : Cpu)
    → c.reservation ≡ some r
    → addr ≤ a
    → a < addr + size
    → r ≤ a
    → a < r + 8
    → a < 2 ^ 64 - 1
    → (invalidate_reservation addr size c).reservation ≡ none
unfolding invalidate_reservation
invalidate_reservation_touched addr size r a c held low high from to last = ground (arith, held)

-- A store that ends before the eight reserved bytes or starts after them keeps the reservation, where
-- neither range passes the end of the address space.
pub invalidate_reservation_apart :
    (addr size r : ℕ) (c : Cpu)
    → c.reservation ≡ some r
    → (addr + size ≤ r) ⊎ (r + 8 ≤ addr)
    → addr + size < 2 ^ 64
    → r + 8 < 2 ^ 64
    → (invalidate_reservation addr size c).reservation ≡ some r
unfolding invalidate_reservation
invalidate_reservation_apart addr size r c held apart fits inside = ground (arith, held, apart)
