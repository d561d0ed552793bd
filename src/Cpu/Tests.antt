-- ===== src/Cpu/Tests.antt =====
-- A reservation of the eight bytes from 0x8000_0000.
use dc34_baonix.Base.{◌≡◌, refl, none, some, inr, arith}
use dc34_baonix.Cpu.{Cpu, new, invalidate_reservation}
use dc34_baonix.Cpu.Reservation.{invalidate_reservation_touched, invalidate_reservation_apart}

abbrev holding : Cpu
holding = record (new 0x8000_0000) { reservation = some 0x8000_0000 }

invalidate_reservation_touched_example :
    (invalidate_reservation 0x7FFF_FFFC 8 holding).reservation ≡ none
invalidate_reservation_touched_example =
    invalidate_reservation_touched 0x7FFF_FFFC 8 0x8000_0000 0x8000_0003 holding refl (omega arith)
      (omega arith) (omega arith) (omega arith) (omega arith)

invalidate_reservation_apart_example :
    (invalidate_reservation 0x8000_0008 4 holding).reservation ≡ some 0x8000_0000
invalidate_reservation_apart_example =
    invalidate_reservation_apart 0x8000_0008 4 0x8000_0000 holding refl (inr (omega arith))
      (omega arith) (omega arith)
