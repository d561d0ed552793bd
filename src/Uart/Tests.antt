-- ===== src/Uart/Tests.antt =====
-- A UART with two bytes waiting.
use dc34_baonix.Base.{◌^◌, ◌≡◌, refl, true, false, [], ◌∷◌, bit_at}
use dc34_baonix.Uart.{
  Uart, VecSink, vec_sink, dlab, load, store, lsr_off, new, push_input, rbr, thr,
}
use dc34_baonix.Uart.Console.{load-push_input, load-lsr, load-store_latched}

abbrev waiting : Uart VecSink
waiting = record (new (record { bytes = [] })) { input = 65 ∷ 66 ∷ [] }

closed : dlab waiting ≡ false
unfolding dlab
closed = refl

load-push_input_example :
    load rbr (push_input 67 waiting) ≡ (65, record waiting { input = 66 ∷ 67 ∷ [] })
load-push_input_example = load-push_input waiting 65 67 (66 ∷ []) closed refl

load-lsr_checked : (bit_at (load lsr_off waiting).0 0 ≡ 1) × ((load lsr_off waiting).1 ≡ waiting)
load-lsr_checked = load-lsr waiting

abbrev latched : Uart VecSink
latched = record waiting { lcr = 2 ^ 7 }

is_open : dlab latched ≡ true
unfolding dlab
is_open = refl

load-store_latched_checked :
    ((store thr 0x10D latched).input ≡ 65 ∷ 66 ∷ [])
    × ((store thr 0x10D latched).sink ≡ record { bytes = [] })
    × (load rbr (store thr 0x10D latched) ≡ (0xD, store thr 0x10D latched))
load-store_latched_checked = load-store_latched latched 0x10D is_open
