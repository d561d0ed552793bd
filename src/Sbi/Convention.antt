-- ===== src/Sbi/Convention.antt =====
-- crates/rv64/src/sbi.rs: what a firmware call leaves alone.
use dc34_baonix.Base.{ℕ, ◌≡◌, ◌≢◌, arith}
use dc34_baonix.Uart.{ConsoleSink}
use dc34_baonix.Cpu.{Machine, reg, set_reg}
use dc34_baonix.Sbi.{handle, set_timer, put_char}

module _ {T K : Type 0} ⦃k : ConsoleSink K⦄ where
  -- A firmware call changes no register but a0 and a1 (x10 and x11), nor the program counter, the
  -- mode or the reservation.
  pub handle-reg :
      (s : Machine T K) (i : ℕ)
      → i ≢ 10
      → i ≢ 11
      → (reg (handle s).1.cpu i ≡ reg s.cpu i)
        × ((handle s).1.cpu.pc ≡ s.cpu.pc)
        × ((handle s).1.cpu.priv ≡ s.cpu.priv)
        × ((handle s).1.cpu.reservation ≡ s.cpu.reservation)
  unfolding handle set_reg set_timer put_char
  handle-reg s i n m = ground arith
