-- ===== src/Csr/Tests.antt =====
-- Writes to the reset registers.
use dc34_baonix.Base.{◌*◌, ◌+◌, ◌^◌, ◌≡◌, refl}
use dc34_baonix.Csr.{reset, read, write, satp}
use dc34_baonix.Csr.Legal.{IsLegal, reset-IsLegal, write-IsLegal}

write-IsLegal_example : IsLegal (write reset satp (8 * 2 ^ 60 + 5 * 2 ^ 44 + 1))
write-IsLegal_example = write-IsLegal reset satp (8 * 2 ^ 60 + 5 * 2 ^ 44 + 1) reset-IsLegal

-- The mode is taken and the address-space number is not; an unknown mode changes nothing.
mode_taken : read (write reset satp (8 * 2 ^ 60 + 5 * 2 ^ 44 + 1)) satp ≡ 8 * 2 ^ 60 + 1
unfolding read write reset
mode_taken = refl

mode_refused : read (write reset satp (9 * 2 ^ 60 + 1)) satp ≡ 0
unfolding read write reset
mode_refused = refl
