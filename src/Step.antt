-- ===== src/Step.antt =====
-- crates/rv64/src/cpu.rs: `step` and `step_trapping`.
pub mod Failures
mod Tests
use dc34_baonix.Base.{
  ℕ, ◌+◌, ◌^◌, Bool, true, false, Option, none, some, if◌then◌else◌, ◌==◌, Outcome, ok, err, panic,
  M, bind, u64, u16, u32, low_bits,
}
use dc34_baonix.Backing.{MemBacking}
use dc34_baonix.Uart.{ConsoleSink}
use dc34_baonix.Exception.{
  Exception, illegal_instruction, environment_call_from_s_mode, backing_failure,
}
use dc34_baonix.Cpu.{Cpu, Machine, fetch}
use dc34_baonix.Cpu.Trap.{trap}
use dc34_baonix.Insn
use dc34_baonix.Insn.Rvc.{expand}
use dc34_baonix.Sbi.{SbiOutcome, handled, handle}

-- `self.next_pc.take().unwrap_or(self.pc.wrapping_add(len))`, and the counter.
unfoldable pub retire : ℕ → Cpu → Cpu
retire len c =
    let target : ℕ = elim c.next_pc [ none ↦ u64 (c.pc + len) | some t ↦ t ] in
    record c { pc = target; next_pc = none; instret = u64 (c.instret + 1) }

abbrev pub begin : ℕ → Cpu → Cpu
begin len c = record c { insn_len = len; next_pc = none }

module _ {T K : Type 0} ⦃m : MemBacking T⦄ ⦃k : ConsoleSink K⦄ where
  -- The instruction at the pc, and its length.
  unfoldable pub fetch_insn : M (Machine T K) Exception (ℕ × ℕ)
  fetch_insn s = bind (fetch 2 s) (λ half s'.
      if low_bits half 2 == 3
      then bind (fetch 4 s') (λ w s''. (ok (u32 w, 4), s''))
      else elim (expand (u16 half)) [
        | none ↦ (err (illegal_instruction (u16 half)), s')
        | some i ↦ (ok (i, 2), s')
      ])

  -- `m(...)? || a(...)? || i(...)?`
  unfoldable pub dispatch : ℕ → M (Machine T K) Exception Bool
  dispatch insn s = bind (Insn.Rv64m.execute insn s) (λ done s1.
      if done
      then (ok true, s1)
      else bind (Insn.Rv64a.execute insn s1)
          (λ done' s2. if done' then (ok true, s2) else Insn.Rv64i.execute insn s2))

  unfoldable pub step : M (Machine T K) Exception (Unit {0})
  step s = bind (fetch_insn s) (λ f s1.
      bind (dispatch f.0 (record s1 { cpu = begin f.1 s1.cpu })) (λ done s2.
        if done
        then (ok tt, record s2 { cpu = retire f.1 s2.cpu })
        else (err (illegal_instruction f.0), s2)))

  -- What the run loop does with the result of a step.
  unfoldable pub deliver :
      Outcome Exception (Unit {0}) × Machine T K → Outcome ℕ SbiOutcome × Machine T K
  deliver (ok u, s) = (ok handled, s)
  deliver (panic, s) = (panic, s)
  deliver (err environment_call_from_s_mode, s) =
      let (o, s') = handle s in
      (ok o, record s' { cpu = record s'.cpu { pc = u64 (s'.cpu.pc + s'.cpu.insn_len) } })
  deliver (err (backing_failure a), s) = (err a, s)
  deliver (err e, s) = (ok handled, record s { cpu = trap e s.cpu })

  unfoldable pub step_trapping : M (Machine T K) ℕ SbiOutcome
  step_trapping s = deliver (step s)
