-- ===== src/PageTables/Fault.antt =====
-- `page_fault`: what is reported before the kernel stops.
use mush_os.Base.{ℕ, ◌*◌, ◌/◌, ◌%◌}

-- The arguments of the message, the masked bits of the error code among them.
pub record PageFault : Type 0 where
  pub is_present : ℕ
  pub rw : ℕ
  pub us : ℕ
  pub reserved : ℕ
  pub faulting_address : ℕ
  pub eip : ℕ

unfoldable pub page_fault : (err_code faulting_address eip : ℕ) → PageFault
page_fault err_code faulting_address eip = record {
  is_present = err_code % 2;
  rw = err_code / 2 % 2 * 2;
  us = err_code / 4 % 2 * 4;
  reserved = err_code / 8 % 2 * 8;
  faulting_address = faulting_address;
  eip = eip;
}
