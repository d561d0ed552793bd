-- ===== src/Uart/Console.antt =====
-- crates/rv64/src/uart.rs: the receive queue, and the divisor latch over it.
use dc34_baonix.Base.{
  ℕ, ◌≡◌, refl, true, false, List, [], ◌∷◌, ◌++◌, arith, bit_at, u8, Bool-cases, inl, inr,
  if◌then◌else◌,
}
use dc34_baonix.Uart.{
  Uart, ConsoleSink, dlab, load, store, pop_input, push_input, rbr, thr, lsr_off, lsr, thr_empty,
  is_empty,
}

module _ {K : Type 0} where
  -- With the divisor latch closed and a byte waiting, a read of RBR returns the oldest byte and takes
  -- it from the queue, and a byte pushed before the read stays at the end; nothing else changes.
  pub load-push_input :
      (u : Uart K) (b c : ℕ) (bs : List ℕ)
      → dlab u ≡ false
      → u.input ≡ b ∷ bs
      → load rbr (push_input c u) ≡ (b, record u { input = bs ++ (c ∷ []) })
  unfolding load push_input dlab pop_input
  load-push_input u b c bs off queue = ground (arith, queue)

  -- The data-ready bit of LSR says whether a byte waits in the queue, and reading LSR changes nothing.
  pub load-lsr :
      (u : Uart K)
      → (bit_at (load lsr_off u).0 0 ≡ (if is_empty u.input then 0 else 1))
        × ((load lsr_off u).1 ≡ u)
  unfolding load lsr thr_empty
  load-lsr u = elim (Bool-cases (is_empty u.input)) [
    | inl none_there ↦ (rw none_there refl, refl)
    | inr some_there ↦ (rw some_there refl, refl)
  ]

module _ {K : Type 0} ⦃s : ConsoleSink K⦄ where
  -- With the divisor latch open, a read and a write at offset 0 reach the divisor alone: no byte is
  -- taken from the queue and none is sent to the console, and what was written is read back.
  pub load-store_latched :
      (u : Uart K) (v : ℕ)
      → dlab u ≡ true
      → ((store thr v u).input ≡ u.input)
        × ((store thr v u).sink ≡ u.sink)
        × (load rbr (store thr v u) ≡ (u8 v, store thr v u))
  unfolding load store dlab
  load-store_latched u v on = ground arith
