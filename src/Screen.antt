-- ===== src/Screen.antt =====
-- core/drivers/screen.c: the text screen of 25 rows and 80 columns. A cell is two bytes of the
-- video memory, its character and its colours. Offsets are `u_dword`, so a difference wraps.
pub mod Cursor
pub mod Scroll
pub mod Print
pub mod Lines
pub mod Shown
mod Tests
use mush_os.Base.{
  ℕ, zero, suc, ◌+◌, ◌-◌, ◌*◌, ◌/◌, ◌%◌, ◌^◌, List, [], ◌∷◌, Bool, Option, none, some, ltb, leb,
  ◌==◌, if◌then◌else◌,
}
use mathlib.Core.Option
use mush_os.Machine.{Mem, add32, sub32, load8, store8, load32, store32}
use mush_os.Memory.{memory_copy, memory_fill}
use mush_os.Ports.{Ports}
use mush_os.System.{system_get_arg, system_push}

abbrev pub video_memory : ℕ
video_memory = 0xb8000

abbrev pub rows_num : ℕ
rows_num = 25

abbrev pub cols_num : ℕ
cols_num = 80

-- A `byte` or `u_word` cast.
abbrev low_byte : ℕ → ℕ
low_byte n = n % 256

module _ (p : Ports) where
  open p use {Device, port_byte_in, port_byte_out}

  unfoldable pub get_cursor_offset : Device → ℕ × Device
  get_cursor_offset d =
      let (high, d₁) = port_byte_in 0x3d5 (port_byte_out 0x3d4 14 d) in
      let (low, d₂) = port_byte_in 0x3d5 (port_byte_out 0x3d4 15 d₁) in
      (high % 256 * 256 + low % 256, d₂)

  unfoldable pub set_cursor_offset : ℕ → Device → Device
  set_cursor_offset offset d =
      port_byte_out 0x3d5 (offset % 256) (
        port_byte_out 0x3d4 15
          (port_byte_out 0x3d5 (offset / 256 % 256) (port_byte_out 0x3d4 14 d)))

  -- `screen_coords`, the row first.
  unfoldable pub get_cursor : Device → (ℕ × ℕ) × Device
  get_cursor d =
      let (offset, d') = get_cursor_offset d in ((offset % cols_num + 1, offset / cols_num), d')

  unfoldable pub set_cursor : ℕ × ℕ → Device → Device
  set_cursor coords = set_cursor_offset (coords.0 * cols_num + coords.1)

-- Rows `i` and on, each copied over the one above it.
unfoldable pub scroll_rows : ℕ → ℕ → Mem → Mem
scroll_rows zero i m = m
scroll_rows (suc left) i m = scroll_rows left (i + 1) (
    memory_copy (video_memory + i * cols_num * 2) (video_memory + (i - 1) * cols_num * 2)
      (cols_num * 2) m)

-- A blank cell, light gray on black, in the local variable `sample` at the given address.
unfoldable pub set_sample : ℕ → Mem → Mem
set_sample sample m = store8 (store8 m sample 0x20) (sample + 1) 7

unfoldable pub scroll : ℕ → ℕ → Mem → ℕ × Mem
unfolding set_sample
scroll sample cursor_offset m =
    if ltb cursor_offset (cols_num * rows_num * 2) then (cursor_offset, m) else (
      sub32 cursor_offset (cols_num * 2),
      memory_fill (video_memory + (rows_num - 1) * cols_num * 2) sample 2 cols_num
          (set_sample sample (scroll_rows (rows_num - 1) 1 m)),
    )

-- A character and its colours at a byte offset into the video memory.
unfoldable pub put_cell : ℕ → ℕ → ℕ → Mem → Mem
put_cell mem_offset c attributes m =
    store8 (store8 m (add32 video_memory mem_offset) c) (add32 video_memory (add32 mem_offset 1))
      attributes

-- The four branches of `print_char_color`: line feed, backspace, tab, and any other character.
unfoldable pub put_char : ℕ → ℕ → ℕ → Mem → ℕ × Mem
unfolding put_cell
put_char c attributes mem_offset m =
    if c == 10
    then (2 * cols_num * (mem_offset / 2 / cols_num + 1) - 2, m)
    else if c == 8
    then (sub32 (sub32 mem_offset 2) 2, put_cell (sub32 mem_offset 2) 0x20 attributes m)
    else if c == 9
    then (
      add32 mem_offset 6,
      put_cell (mem_offset + 6) 0x20 attributes (
          put_cell (mem_offset + 4) 0x20 attributes
            (put_cell (mem_offset + 2) 0x20 attributes (put_cell mem_offset 0x20 attributes m))),
    )
    else (mem_offset, put_cell mem_offset c attributes m)

-- The screen between reading and setting the cursor: the new cursor offset and the memory.
unfoldable pub print_at : ℕ → ℕ → (text_color back_color : ℕ) → ℕ → Mem → ℕ × Mem
print_at sample c text_color back_color offset m =
    let attributes = (back_color * 16 + text_color) % 256 in
    let (mem_offset, m₁) = put_char c attributes (offset * 2) m in
    let (scrolled, m₂) = scroll sample (add32 mem_offset 2) m₁ in (scrolled / 2, m₂)

-- The result is a `char`, which is signed: its value as the `u_dword` that it is assigned to.
unfoldable pub get_char : ℕ × ℕ → Mem → ℕ
get_char coords m =
    let c = load8 m (video_memory + coords.0 * coords.1) in
    if ltb c 128 then c else c + (2 ^ 32 - 256)

-- The state that the driver changes.
pub record Console (p : Ports) : Type 0 where
  pub device : p.Device
  pub memory : Mem

module _ (p : Ports) (sample : ℕ) where
  unfoldable pub print_char_color : ℕ → (text_color back_color : ℕ) → Console p → Console p
  print_char_color c text_color back_color s =
      let (offset, d) = get_cursor_offset p s.device in
      let (offset', m) = print_at sample c text_color back_color offset s.memory in
      record { device = set_cursor_offset p offset' d; memory = m }

  -- `print_string_color` without a length prints up to the terminating zero. The fuel bounds the
  -- index `i`, an `int`; `none` means that it runs out.
  unfoldable pub print_string :
      ℕ → (str i : ℕ) → (text_color back_color : ℕ) → Console p → Option (Console p)
  print_string zero str i text_color back_color s = none
  print_string (suc fuel) str i text_color back_color s =
      let c = load8 s.memory (str + i) in
      let rest =
        print_string fuel str (i + 1) text_color back_color
          (print_char_color c text_color back_color s) in
      if c == 0 then some s else rest

  -- With a length it prints that many characters.
  unfoldable pub print_chars : ℕ → (str i : ℕ) → (text_color back_color : ℕ) → Console p → Console p
  print_chars zero str i text_color back_color s = s
  print_chars (suc left) str i text_color back_color s =
      print_chars left str (i + 1) text_color back_color
        (print_char_color (load8 s.memory (str + i)) text_color back_color s)

  unfoldable pub print_string_color :
      (str text_color back_color length : ℕ) → Console p → Option (Console p)
  print_string_color str text_color back_color length s =
      if length == 0
      then print_string (2 ^ 31) str 0 text_color back_color s
      else some (print_chars length str 0 text_color back_color s)

  unfoldable pub clear_screen : Console p → Console p
  clear_screen s = record {
    device = set_cursor p (0, 0) s.device;
    memory = memory_fill video_memory sample 2 (cols_num * rows_num) (set_sample sample s.memory);
  }

  -- What a case of `screen_callback` leaves: the value to return, and the console.
  abbrev pub Answer : Type 0
  Answer = ℕ × Console p

  -- The cases from `GET_CURSOR` on; `SET_CHARS` falls through to it.
  unfoldable pub get_cursor_case : Console p → Answer
  get_cursor_case s =
      let (offset, d) = get_cursor_offset p s.device in (offset, record s { device = d })

  unfoldable pub screen_call : (call_type ebp : ℕ) → Console p → Option Answer
  unfolding system_get_arg
  screen_call call_type ebp s =
      let arg = λ (n : ℕ). system_get_arg ebp n s.memory in
      if call_type == 0
      then some (get_char (0, 0) s.memory, s)
      else if call_type == 1
      then some (0, print_char_color (arg 1 % 256) (arg 2 % 256) (arg 3 % 256) s)
      else if call_type == 2
      then Option.map get_cursor_case
          (print_string_color (arg 1) (arg 2 % 256) (arg 3 % 256) (arg 4) s)
      else if call_type == 3
      then some (get_cursor_case s)
      else if call_type == 4
      then some (0, record s { device = set_cursor_offset p (arg 1) s.device })
      else if call_type == 5
      then some (0, clear_screen s)
      else some (0, s)

  -- `screen_callback`: the handler of interruption 48. The answer overwrites the call's number.
  unfoldable pub screen_callback : ℕ → Console p → Option (Console p)
  unfolding screen_call system_push
  screen_callback ebp s =
      Option.map (λ (a : Answer). record (a.1) { memory = system_push ebp a.0 (a.1).memory })
        (screen_call (system_get_arg ebp 0 s.memory) ebp s)
