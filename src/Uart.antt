-- ===== src/Uart.antt =====
-- crates/rv64/src/uart.rs: the 8250 register model and the console interface.
mod Tests
pub mod Console
use dc34_baonix.Base.{
  ℕ, ◌+◌, Bool, true, false, not, ◌&&◌, List, [], ◌∷◌, ◌++◌, if◌then◌else◌, ◌==◌, u8, bit_at,
  bit_or,
}

-- The trait `ConsoleSink`.
pub record ConsoleSink (K : Type 0) : Type 0 where
  pub put : ℕ → K → K

pub record VecSink : Type 0 where
  pub bytes : List ℕ

instance abbrev pub vec_sink : ConsoleSink VecSink
vec_sink = record { put = λ byte s. record s { bytes = s.bytes ++ (byte ∷ []) } }

-- Register offsets: the receive and transmit registers, and then IER, IIR, LCR and LSR.
abbrev pub rbr : ℕ
rbr = 0

abbrev pub thr : ℕ
thr = 0

abbrev pub ier_off : ℕ
ier_off = 1

abbrev pub iir_off : ℕ
iir_off = 2

abbrev pub lcr_off : ℕ
lcr_off = 3

abbrev pub lsr_off : ℕ
lsr_off = 5

abbrev pub lsr_dr : ℕ
lsr_dr = 1

-- `LSR_THRE | LSR_TEMT`
abbrev pub lsr_tx : ℕ
lsr_tx = 32 + 64

abbrev pub iir_no_interrupt : ℕ
iir_no_interrupt = 1

abbrev pub iir_thr_empty : ℕ
iir_thr_empty = 2

abbrev pub iir_rx_available : ℕ
iir_rx_available = 4

pub record Uart (K : Type 0) : Type 0 where
  pub sink : K
  pub input : List ℕ
  pub ier : ℕ
  pub lcr : ℕ
  pub dll : ℕ
  pub dlm : ℕ

abbrev pub is_empty : List ℕ → Bool
is_empty [] = true
is_empty (b ∷ bs) = false

module _ {K : Type 0} where
  abbrev pub new : K → Uart K
  new sink = record { sink = sink; input = []; ier = 0; lcr = 0; dll = 0; dlm = 0 }

  unfoldable pub push_input : ℕ → Uart K → Uart K
  push_input byte u = record u { input = u.input ++ (byte ∷ []) }

  -- LCR bit 7.
  unfoldable pub dlab : Uart K → Bool
  dlab u = bit_at u.lcr 7 == 1

  unfoldable pub thr_empty : Uart K → Bool
  thr_empty u = true

  -- `input.pop_front().unwrap_or(0)`
  unfoldable pub pop_input : Uart K → ℕ × Uart K
  pop_input u = elim u.input [ [] ↦ (0, u) | b ∷ bs ↦ (b, record u { input = bs }) ]

  unfoldable pub iir : Uart K → ℕ
  iir u =
      if (bit_at u.ier 0 == 1) && not (is_empty u.input)
      then iir_rx_available
      else if (bit_at u.ier 1 == 1) && thr_empty u
      then iir_thr_empty
      else iir_no_interrupt

  unfoldable pub lsr : Uart K → ℕ
  lsr u = bit_or (if is_empty u.input then 0 else lsr_dr) (if thr_empty u then lsr_tx else 0)

  -- A read returns the value and the new state, since reading RBR consumes input.
  unfoldable pub load : ℕ → Uart K → ℕ × Uart K
  load off u =
      if off == rbr
      then (if dlab u then (u.dll, u) else pop_input u)
      else if off == ier_off
      then (if dlab u then (u.dlm, u) else (u.ier, u))
      else if off == iir_off
      then (iir u, u)
      else if off == lcr_off
      then (u.lcr, u)
      else if off == lsr_off
      then (lsr u, u)
      else (0, u)

  unfoldable pub store : ⦃s : ConsoleSink K⦄ → ℕ → ℕ → Uart K → Uart K
  store ⦃s⦄ off v u =
      if off == thr
      then (if dlab u then record u { dll = u8 v } else record u { sink = s.put (u8 v) u.sink })
      else if off == ier_off
      then (if dlab u then record u { dlm = u8 v } else record u { ier = u8 v })
      else if off == lcr_off
      then record u { lcr = u8 v }
      else u
