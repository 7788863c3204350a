-- ===== src/Screen/Shown.antt =====
-- The printing macros of lib/base/stdio.h with the handler of core/drivers/screen.c: the screen shows the
-- text that the template renders to, and the heap is given back.
use mush_os.Base.{
  ℕ, ◌+◌, ◌%◌, ◌^◌, ◌≤◌, ◌<◌, ◌≡◌, ◌≢◌, refl, ap, ◌∙◌, ◌⊎◌, List, [], ◌∷◌, length, arith, Option,
  none, some,
}
use mush_os.Machine.{Mem, load8}
use mush_os.Machine.Words.{Same, load8-store32_ne}
use mush_os.Machine.Run.{Run, ok, stuck, Cmd}
use mush_os.Ports.{Ports, IsVga}
use mush_os.Heap.{first_address, heap_end}
use mush_os.Heap.Chain.{Block, IsHeap}
use mush_os.Heap.Below.{EndBy}
use mush_os.Strings.OnHeap.{IsStored}
use mush_os.Format.{Literals, Precise}
use mush_os.Format.Numbers.{HasLiterals}
use mush_os.Format.Rendering.{Renders}
use mush_os.System.{black, color_code, Print, print_color, print, system_push}
use mush_os.System.Calls.{IsRoom}
use mush_os.System.Console.{Serves, IsShown, print-IsShown}
use mush_os.Screen.{screen_callback, video_memory, Console, get_cursor_offset}
use mush_os.Screen.Scroll.{Elsewhere}
use mush_os.Screen.Lines.{
  Steady, Unwritten, IsOnScreen, print_all, print_char_color-IsOnScreen, print_char_color-Unwritten,
  screen_callback-IsText,
}

module _ (p : Ports) where
  -- The memory that a handler leaves, which does not return when the screen's loop does not.
  abbrev memory_left : Option (Console p) → Run (Unit {0})
  memory_left none = stuck
  memory_left (some s) = ok tt s.memory

  -- `screen_callback` as the interruption of a system call, with the controller as it is then.
  unfoldable pub screen_interrupt : (sample : ℕ) → p.Device → ℕ → Cmd (Unit {0})
  screen_interrupt sample device ebp m =
      memory_left (screen_callback p sample ebp (record { device = device; memory = m }))

-- The bytes from `lo` up to `hi` are ones that printing does not write.
abbrev pub Apart : (sample lo hi : ℕ) → Type 0
Apart sample lo hi =
    ((hi ≤ video_memory) ⊎ (video_memory + 4000 ≤ lo)) × ((hi ≤ sample) ⊎ (sample + 2 ≤ lo))

module _ (p : Ports) (v : IsVga p) (sample : ℕ) (away : Elsewhere sample) where
  print_all-Unwritten :
      (text_color back_color : ℕ) (cs : List ℕ) (s : Console p)
      → Steady cs
      → IsOnScreen p s
      → (x : ℕ) → Unwritten sample x
      → load8 (print_all p sample text_color back_color cs s).memory x ≡ load8 s.memory x
  print_all-Unwritten text_color back_color [] s steady on x o = refl
  print_all-Unwritten text_color back_color (c ∷ cs) s (back, tab, steady) on x o =
      print_all-Unwritten text_color back_color cs _ steady
        (print_char_color-IsOnScreen p v sample text_color back_color away c back tab s on) x o
      ∙ print_char_color-Unwritten p v sample text_color back_color away c back tab s on x o

  -- The screen serves the call that prints.
  screen_interrupt-Serves :
      (device : p.Device) (header hi font back : ℕ) (text : List ℕ)
      → (get_cursor_offset p device).0 < 2000
      → Apart sample header hi
      → length text < 2 ^ 31
      → Steady text
      → Serves header hi text font back (screen_interrupt p sample device)
  unfolding screen_interrupt system_push
  screen_interrupt-Serves device header hi font back text on apart small steady base formatted g
        outside low high passes t =
      (_, ap (memory_left p) called.0, kept)
    where
      s : Console p
      s = record { device = device; memory = g }

      unwritten : (x : ℕ) → header ≤ x → x < hi → Unwritten sample x
      unwritten x l u = (omega (arith, l, u, apart), omega (arith, l, u, apart))

      after : Console p
      after = print_all p sample (font % 256) (back % 256) text s

      called :
          (screen_callback p sample base s
            ≡ some (record {
              device = (get_cursor_offset p after.device).1;
              memory = system_push base (get_cursor_offset p after.device).0 after.memory;
            }))
          × IsOnScreen p after
      called =
          screen_callback-IsText p v sample font back base formatted text s away passes t small
            steady (λ x l u. unwritten x (omega arith) (omega arith)) on

      kept : Same g (system_push base (get_cursor_offset p after.device).0 after.memory) header hi
      kept x l u =
          load8-store32_ne _ (base + 4) _ x (omega (arith, outside, l, u))
          ∙ print_all-Unwritten (font % 256) (back % 256) text s steady on x (unwritten x l u)

-- On a well-formed heap with blocks, all of which end by an address `mid` up to which the heap
-- lies apart from the video memory and from `scroll`'s local variable (as in the kernel's heap,
-- which contains the video memory, while its blocks are below it), for a stored template of fewer
-- than 2^31 characters with its literals, arguments and rendering as for `format`, which renders
-- to no backspace and no tab, with room on a stack apart from the heap, a VGA controller as
-- documented and a cursor on the screen: each of the five macros, with the screen's own handler
-- for its call, calls this handler on the text that the template renders to, in the macro's colour
-- on black. If this text was allocated below `mid`, the handler returns, and then the heap has the
-- blocks that it had, with their bytes; of a text that reaches beyond `mid`, which is in the heap
-- too, nothing more is said. Or the macro throws the allocation exception, because by `ralloc`'s
-- count no free space takes a request that is at most as large as the text or as the five
-- arguments.
pub print-screen_interrupt :
    (ports : Ports) (v : IsVga ports) (sample : ℕ) (device : ports.Device) (header mid : ℕ)
    (registers : ℕ → ℕ) (l : Literals) (p : Precise) (m : Mem) (bs : List Block) (kind : Print)
    (temp frame esp ebp : ℕ) (template text : List ℕ)
    → IsHeap header m bs
    → first_address header m ≢ 0
    → HasLiterals header m bs l
    → IsStored header m bs temp template
    → length template < 2 ^ 31
    → length text < 2 ^ 31
    → Renders header m bs template (frame + 12) text
    → Steady text
    → IsRoom header m esp 5
    → Elsewhere sample
    → header + 12 ≤ mid
    → mid ≤ heap_end header m
    → EndBy mid bs
    → Apart sample header mid
    → (get_cursor_offset ports device).0 < 2000
    → IsShown header mid
        (screen_interrupt ports sample device)
        m
        bs
        text
        (color_code (print_color kind))
        (color_code black)
        (print header registers
          (screen_interrupt ports sample device)
          l
          p
          kind
          temp
          frame
          esp
          ebp
          m)
print-screen_interrupt ports v sample device header mid registers l p m bs kind temp frame esp ebp
      template text h used has stored short small renders steady room away low high ends apart on =
    print-IsShown header mid registers (screen_interrupt ports sample device) l p m bs kind temp
      frame esp ebp template text h used has stored short small renders low high ends
      (screen_interrupt-Serves ports v sample away device header mid (color_code (print_color kind))
        (color_code black) text on apart small steady)
      room
