-- ===== src/Screen/Tests.antt =====
-- The theorems of the screen driver at concrete screens.
use mush_os.Base.{
  ℕ, ◌+◌, ◌-◌, ◌*◌, ◌%◌, ◌^◌, ◌≤◌, ◌<◌, ◌≡◌, refl, ◌==◌, if◌then◌else◌, inr, arith, [], ◌∷◌, some,
}
use mush_os.Machine.{Mem, load8, store8, load32, store32}
use mush_os.Ports.{Ports, IsVga}
use mush_os.Screen.{video_memory, print_at, scroll, get_cursor_offset, Console, screen_callback}
use mush_os.System.{system_get_arg, system_push}
use mush_os.System.Words.{Passes}
use mush_os.Strings.Text.{IsText}
use mush_os.Screen.Lines.{Steady, print_all, IsOnScreen, screen_callback-IsText}
use mush_os.Format.Sample.{
  memory, used_blocks, literals, whole_numbers, template_text, printed_text, memory-IsHeap,
  memory-used, memory-end, memory-HasLiterals, template-IsStored, template-Renders,
}
use mush_os.System.{good, print_color, print}
use mush_os.System.Calls.{IsRoom}
use mush_os.System.Console.{IsShown}
use mush_os.Screen.Shown.{screen_interrupt, print-screen_interrupt}
use mush_os.Screen.Scroll.{IsScrolled, scroll_lem}
use mush_os.Screen.Print.{
  print_at-lt, print_at-outside, print_at-cell, print_at-backspace_first, print_at-tab_overrun,
}

-- A controller with its registers, and the selected one.
record Vga : Type 0 where
  selected : ℕ
  register : ℕ → ℕ

abbrev out : ℕ → ℕ → Vga → Vga
out port v d =
    if port == 0x3d4
    then record d { selected = v }
    else if port == 0x3d5
    then record d { register = λ j. if j == d.selected then v % 256 else d.register j }
    else d

abbrev vga_ports : Ports
vga_ports = record {
  Device = Vga;
  port_byte_in = λ port d. (d.register d.selected, d);
  port_byte_out = out;
}

vga_ports-IsVga : IsVga vga_ports
vga_ports-IsVga = record {
  selected = λ d. d.selected;
  register = λ d. d.register;
  select = λ i d. refl;
  select_keeps = λ i j d. refl;
  write_keeps = λ v d. refl;
  write = λ v j d. refl;
  read = λ d. refl;
  read_keeps = λ j d. refl;
}

abbrev dark : Vga
dark = record { selected = 0; register = λ _. 0 }

abbrev grey : Mem
grey = λ _. 7

scroll_lem_example :
    (4000 ≤ 4000
      → ((scroll 0x6f00 4000 grey).0 ≡ 3840) × IsScrolled 0x6f00 grey (scroll 0x6f00 4000 grey).1)
    × (4000 < 4000 → scroll 0x6f00 4000 grey ≡ (4000, grey))
scroll_lem_example = scroll_lem 0x6f00 grey (omega arith) 4000 (omega arith)

print_at-lt_example : (print_at 0x6f00 b'x' 7 0 1999 grey).0 < 2000
print_at-lt_example =
    print_at-lt 0x6f00 b'x' 7 0 1999 grey (omega arith) (omega arith) (omega arith)

print_at-outside_example :
    load8 (print_at 0x6f00 9 7 0 1996 grey).1 (video_memory + 4000)
    ≡ load8 grey (video_memory + 4000)
print_at-outside_example =
    print_at-outside 0x6f00 7 0 1996 grey (omega arith) (omega arith) 9 (omega arith) (omega arith)
      (video_memory + 4000) (omega arith) (omega arith)

print_at-cell_example :
    let (offset', g) = print_at 0x6f00 b'x' 7 1 5 grey in
    (offset' ≡ 6)
    × ((x : ℕ)
        → load8 g x ≡ (
            if x == video_memory + 5 * 2 + 1
            then (1 * 16 + 7) % 256
            else if x == video_memory + 5 * 2
            then b'x' % 256
            else load8 grey x))
print_at-cell_example =
    print_at-cell 0x6f00 7 1 5 grey (omega arith) (omega arith) b'x' (omega arith) (omega arith)
      (omega arith) (omega arith)

print_at-backspace_first_example : (print_at 0x6f00 8 7 0 0 grey).0 ≡ 2 ^ 31 - 81
print_at-backspace_first_example = print_at-backspace_first 0x6f00 7 0 grey (omega arith)

print_at-tab_overrun_example :
    load8 (print_at 0x6f00 9 7 0 1998 grey).1 (video_memory + 4000) ≡ 0x20
print_at-tab_overrun_example =
    print_at-tab_overrun 0x6f00 7 0 1998 grey (omega arith) (omega arith) (omega arith)

-- A screen on which "ok" is to be printed from 100 on.
abbrev written : Mem
written x = if x == 100 then b'o' else if x == 101 then b'k' else 0

start-cursor : (get_cursor_offset vga_ports dark).0 < 2000
unfolding get_cursor_offset
start-cursor = omega arith

-- The call's arguments are at 304.
abbrev called : Console vga_ports
called = record {
  device = dark;
  memory = store32 (store32 (store32 (store32 (store32 written 304 2) 308 100) 312 7) 316 0) 320 0;
}

called-IsText : IsText called.memory 100 (b'o' ∷ b'k' ∷ [])
unfolding store32 store8 load8
called-IsText = (refl, omega arith, (refl, omega arith, refl))

called-Passes : Passes called.memory 300 0 (2 ∷ 100 ∷ 7 ∷ 0 ∷ 0 ∷ [])
unfolding store32 store8 load32 load8 system_get_arg
called-Passes = (refl, (refl, (refl, (refl, (refl, tt)))))

screen_callback-IsText_example :
    (screen_callback vga_ports 0x6f00 300 called
      ≡ some (record {
        device =
            (get_cursor_offset vga_ports
              (print_all vga_ports 0x6f00 7 0 (b'o' ∷ b'k' ∷ []) called).device).1;
        memory =
            system_push 300
              (get_cursor_offset vga_ports
                (print_all vga_ports 0x6f00 7 0 (b'o' ∷ b'k' ∷ []) called).device).0
              (print_all vga_ports 0x6f00 7 0 (b'o' ∷ b'k' ∷ []) called).memory;
      }))
    × IsOnScreen vga_ports (print_all vga_ports 0x6f00 7 0 (b'o' ∷ b'k' ∷ []) called)
screen_callback-IsText_example =
    screen_callback-IsText vga_ports vga_ports-IsVga 0x6f00 7 0 300 100 (b'o' ∷ b'k' ∷ []) called
      (omega arith) called-Passes called-IsText (omega arith)
      (omega arith, omega arith, (omega arith, omega arith, tt))
      (λ x l u. (omega arith, omega arith)) start-cursor

room-five : IsRoom 100 memory 1000 5
room-five = record {
  room = omega arith;
  bound = omega arith;
  apart = inr (omega (arith, memory-end));
}

abbrev no_registers : ℕ → ℕ
no_registers i = 0

printed_text-Steady : Steady printed_text
printed_text-Steady = (
  omega arith,
  omega arith,
  (
    omega arith,
    omega arith,
    (
      omega arith,
      omega arith,
      (
        omega arith,
        omega arith,
        (omega arith, omega arith, (omega arith, omega arith, (omega arith, omega arith, tt))),
      ),
    ),
  ),
)

-- The template of the sample is printed on the screen.
print-screen_interrupt_example :
    IsShown 100 300 (screen_interrupt vga_ports 0x6f00 dark) memory used_blocks printed_text 10 0 (
      print 100 no_registers
        (screen_interrupt vga_ports 0x6f00 dark)
        literals
        whole_numbers
        good
        440
        460
        1000
        1100
        memory)
unfolding print_color
print-screen_interrupt_example =
    print-screen_interrupt vga_ports vga_ports-IsVga 0x6f00 dark 100 300 no_registers literals
      whole_numbers memory used_blocks good 440 460 1000 1100 template_text printed_text
      memory-IsHeap memory-used memory-HasLiterals template-IsStored (omega arith) (omega arith)
      template-Renders printed_text-Steady room-five (omega arith) (omega arith)
      (omega (arith, memory-end)) (omega arith, omega arith, (omega arith, omega arith, tt))
      (omega (arith, memory-end), omega (arith, memory-end)) start-cursor
