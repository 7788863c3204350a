-- ===== src/Screen/Cursor.antt =====
-- The cursor lies in two registers of the VGA's controller.
use mush_os.Base.{ℕ, ◌/◌, ◌%◌, ◌<◌, ◌≡◌, arith, ap, ◌∙◌, ◌==◌, if◌then◌else◌}
use mush_os.Ports.{Ports, IsVga}
use mush_os.Screen.{get_cursor_offset, set_cursor_offset}

module _ (p : Ports) (v : IsVga p) where
  -- Reading a register by selecting it.
  read_register :
      (i : ℕ) (d : p.Device) → (p.port_byte_in 0x3d5 (p.port_byte_out 0x3d4 i d)).0 ≡ v.register d i
  read_register i d =
      v.read (p.port_byte_out 0x3d4 i d)
      ∙ ap (v.register (p.port_byte_out 0x3d4 i d)) (v.select i d)
      ∙ v.select_keeps i i d

  -- Writing a register by selecting it.
  write_register :
      (i w j : ℕ) (d : p.Device)
      → v.register (p.port_byte_out 0x3d5 w (p.port_byte_out 0x3d4 i d)) j
        ≡ (if j == i then w % 256 else v.register d j)
  write_register i w j d =
      v.write w j (p.port_byte_out 0x3d4 i d) ∙ rw (v.select i d, v.select_keeps i j d)

  registers_set :
      (offset : ℕ) (d : p.Device)
      → (v.register (set_cursor_offset p offset d) 14 ≡ offset / 256 % 256)
        × (v.register (set_cursor_offset p offset d) 15 ≡ offset % 256)
  unfolding set_cursor_offset
  registers_set offset d = (
    write_register 15 (offset % 256) 14 _
        ∙ write_register 14 (offset / 256 % 256) 14 d
        ∙ omega arith,
    write_register 15 (offset % 256) 15 _ ∙ omega arith,
  )

  -- The cursor offset is read back as it was set, up to its 16 bits.
  pub get_cursor_offset-set_cursor_offset :
      (offset : ℕ) (d : p.Device)
      → (get_cursor_offset p (set_cursor_offset p offset d)).0 ≡ offset % 65536
  unfolding get_cursor_offset
  get_cursor_offset-set_cursor_offset offset d =
      rw
        (
          read_register 14 (set_cursor_offset p offset d),
          read_register 15
              (p.port_byte_in 0x3d5 (p.port_byte_out 0x3d4 14 (set_cursor_offset p offset d))).1,
          v.read_keeps 15 (p.port_byte_out 0x3d4 14 (set_cursor_offset p offset d)),
          v.select_keeps 14 15 (set_cursor_offset p offset d),
          (registers_set offset d).0,
          (registers_set offset d).1,
        )
        (omega arith)

  -- Two registers hold 16 bits.
  pub get_cursor_offset-lt : (d : p.Device) → (get_cursor_offset p d).0 < 65536
  unfolding get_cursor_offset
  get_cursor_offset-lt d = omega arith
