-- ===== src/Ports.antt =====
-- The instructions `in` and `out` behind core/drivers/ports_io.h, as an interface: the hardware
-- is no part of the repository. A port access may change the device.
use mush_os.Base.{ℕ, ◌%◌, ◌≡◌, ◌==◌, if◌then◌else◌}

pub record Ports : Type 1 where
  pub Device : Type 0
  pub port_byte_in : ℕ → Device → ℕ × Device
  pub port_byte_out : ℕ → ℕ → Device → Device

-- The documented behaviour of the VGA's controller: the byte sent to 0x3d4 selects a register,
-- which is written and read through 0x3d5.
pub record IsVga (p : Ports) : Type 0 where
  pub selected : p.Device → ℕ
  pub register : p.Device → ℕ → ℕ
  pub select : (i : ℕ) (d : p.Device) → selected (p.port_byte_out 0x3d4 i d) ≡ i
  pub select_keeps :
      (i j : ℕ) (d : p.Device) → register (p.port_byte_out 0x3d4 i d) j ≡ register d j
  pub write_keeps : (v : ℕ) (d : p.Device) → selected (p.port_byte_out 0x3d5 v d) ≡ selected d
  pub write :
      (v j : ℕ) (d : p.Device)
      → register (p.port_byte_out 0x3d5 v d) j ≡ (if j == selected d then v % 256 else register d j)
  pub read : (d : p.Device) → (p.port_byte_in 0x3d5 d).0 ≡ register d (selected d)
  pub read_keeps : (j : ℕ) (d : p.Device) → register (p.port_byte_in 0x3d5 d).1 j ≡ register d j
