-- ===== src/Exception.antt =====
-- crates/rv64/src/exception.rs
use dc34_baonix.Base.{ℕ, ◌+◌, ◌^◌}

pub data Exception : Type 0 where
  instruction_address_misaligned : ℕ → Exception
  instruction_access_fault : ℕ → Exception
  illegal_instruction : ℕ → Exception
  breakpoint : Exception
  load_address_misaligned : ℕ → Exception
  load_access_fault : ℕ → Exception
  store_address_misaligned : ℕ → Exception
  store_access_fault : ℕ → Exception
  environment_call_from_u_mode : Exception
  environment_call_from_s_mode : Exception
  environment_call_from_m_mode : Exception
  instruction_page_fault : ℕ → Exception
  load_page_fault : ℕ → Exception
  store_page_fault : ℕ → Exception
  backing_failure : ℕ → Exception

unfoldable pub cause : Exception → ℕ
cause (instruction_address_misaligned _) = 0
cause (instruction_access_fault _) = 1
cause (illegal_instruction _) = 2
cause breakpoint = 3
cause (load_address_misaligned _) = 4
cause (load_access_fault _) = 5
cause (store_address_misaligned _) = 6
cause (store_access_fault _) = 7
cause environment_call_from_u_mode = 8
cause environment_call_from_s_mode = 9
cause environment_call_from_m_mode = 11
cause (instruction_page_fault _) = 12
cause (load_page_fault _) = 13
cause (store_page_fault _) = 15
cause (backing_failure _) = 5

unfoldable pub tval : Exception → ℕ
tval (instruction_address_misaligned v) = v
tval (instruction_access_fault v) = v
tval (illegal_instruction v) = v
tval (load_address_misaligned v) = v
tval (load_access_fault v) = v
tval (store_address_misaligned v) = v
tval (store_access_fault v) = v
tval (instruction_page_fault v) = v
tval (load_page_fault v) = v
tval (store_page_fault v) = v
tval (backing_failure v) = v
tval breakpoint = 0
tval environment_call_from_u_mode = 0
tval environment_call_from_s_mode = 0
tval environment_call_from_m_mode = 0

pub data Interrupt : Type 0 where
  supervisor_software supervisor_timer supervisor_external : Interrupt
  machine_software machine_timer machine_external : Interrupt

unfoldable pub code : Interrupt → ℕ
code supervisor_software = 1
code machine_software = 3
code supervisor_timer = 5
code machine_timer = 7
code supervisor_external = 9
code machine_external = 11

-- `code | (1 << 63)`
unfoldable pub interrupt_cause : Interrupt → ℕ
interrupt_cause i = code i + 2 ^ 63
