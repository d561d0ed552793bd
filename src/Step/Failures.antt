-- ===== src/Step/Failures.antt =====
-- crates/rv64/src/cpu.rs: which results of a step reach the caller of `step_trapping`.
use dc34_baonix.Base.{ℕ, ◌≡◌, Outcome, err, arith}
use dc34_baonix.Backing.{MemBacking}
use dc34_baonix.Uart.{ConsoleSink}
use dc34_baonix.Exception.{Exception, backing_failure}
use dc34_baonix.Cpu.{Machine}
use dc34_baonix.Step.{step, deliver, step_trapping}

module _ {T K : Type 0} ⦃m : MemBacking T⦄ ⦃k : ConsoleSink K⦄ where
  deliver-err :
      (r : Outcome Exception (Unit {0}) × Machine T K) (a : ℕ)
      → (deliver r).0 ≡ err a
      → r.0 ≡ err (backing_failure a)
  unfolding deliver
  deliver-err r a h = ground arith

  -- Whenever `step_trapping` fails, the store failed in the step, at that address.
  pub step_trapping-err :
      (s : Machine T K) (a : ℕ) → (step_trapping s).0 ≡ err a → (step s).0 ≡ err (backing_failure a)
  unfolding step_trapping
  step_trapping-err s a h = deliver-err (step s) a h
