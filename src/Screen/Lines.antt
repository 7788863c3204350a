-- ===== src/Screen/Lines.antt =====
-- The loop of `print_string_color` up to a zero, as the call of the screen runs it.
use mush_os.Base.{
  ℕ, zero, suc, ◌+◌, ◌%◌, ◌^◌, ◌≤◌, ◌<◌, ◌≡◌, ◌≢◌, refl, subst, ◌⊎◌, List, [], ◌∷◌, length, some,
  arith, ==-false,
}
use mush_os.Machine.{load8}
use mush_os.Ports.{Ports, IsVga}
use mush_os.Strings.Text.{IsText}
use mush_os.Strings.Build.{IsText-frame}
use mush_os.System.{system_push}
use mush_os.System.Words.{Passes}
use mush_os.Screen.{
  screen_callback, screen_call, get_cursor_case, video_memory, get_cursor_offset, print_at, Console,
  print_char_color, print_string, print_string_color,
}
use mush_os.Screen.Cursor.{get_cursor_offset-set_cursor_offset}
use mush_os.Screen.Scroll.{Elsewhere}
use mush_os.Screen.Print.{print_at-lt, print_at-outside}

-- Neither a backspace nor a tab.
abbrev pub Steady : List ℕ → Type 0
Steady [] = Unit
Steady (c ∷ cs) = (c ≢ 8) × (c ≢ 9) × Steady cs

-- The bytes that printing does not write.
abbrev pub Unwritten : (sample x : ℕ) → Type 0
Unwritten sample x =
    ((x < video_memory) ⊎ (video_memory + 4000 ≤ x)) × ((x < sample) ⊎ (sample + 2 ≤ x))

module _ (p : Ports) where
  abbrev pub IsOnScreen : Console p → Type 0
  IsOnScreen s = (get_cursor_offset p s.device).0 < 2000

  -- The characters of a list, one after the other.
  abbrev pub print_all : (sample text_color back_color : ℕ) → List ℕ → Console p → Console p
  print_all sample text_color back_color [] s = s
  print_all sample text_color back_color (c ∷ cs) s =
      print_all sample text_color back_color cs
        (print_char_color p sample c text_color back_color s)

module _ (p : Ports) (v : IsVga p) (sample text_color back_color : ℕ)
    (away : Elsewhere sample) where
  module _ (c : ℕ) (back : c ≢ 8) (tab : c ≢ 9) (s : Console p) (on : IsOnScreen p s) where
    pub print_char_color-IsOnScreen :
        IsOnScreen p (print_char_color p sample c text_color back_color s)
    unfolding print_char_color
    print_char_color-IsOnScreen = omega (
      arith,
      get_cursor_offset-set_cursor_offset p v
          (print_at sample c text_color back_color (get_cursor_offset p s.device).0 s.memory).0
          (get_cursor_offset p s.device).1,
      print_at-lt sample c text_color back_color (get_cursor_offset p s.device).0 s.memory away on
          (λ e. absurd (back e)),
    )

    pub print_char_color-Unwritten :
        (x : ℕ)
        → Unwritten sample x
        → load8 (print_char_color p sample c text_color back_color s).memory x ≡ load8 s.memory x
    unfolding print_char_color
    print_char_color-Unwritten x (o, q) =
        print_at-outside sample text_color back_color (get_cursor_offset p s.device).0 s.memory away
          on c (λ e. absurd (back e)) (λ e. absurd (tab e)) x o q

  print_string-IsText :
      (fuel str i : ℕ) (cs : List ℕ) (s : Console p)
      → IsText s.memory (str + i) cs
      → length cs < fuel
      → Steady cs
      → ((x : ℕ) → str + i ≤ x → x ≤ str + i + length cs → Unwritten sample x)
      → IsOnScreen p s
      → (print_string p sample fuel str i text_color back_color s
          ≡ some (print_all p sample text_color back_color cs s))
        × IsOnScreen p (print_all p sample text_color back_color cs s)
  unfolding print_string
  print_string-IsText zero str i cs s t f steady apart on = absurd (omega arith)
  print_string-IsText (suc fuel) str i [] s t f steady apart on = (rw (t) refl, on)
  print_string-IsText (suc fuel) str i (c ∷ cs) s (e, q, t) f (back, tab, steady) apart on =
      rw (e, ==-false c 0 (omega arith))
        (print_string-IsText fuel str (i + 1) cs
          (print_char_color p sample c text_color back_color s)
          (subst (λ a. IsText (print_char_color p sample c text_color back_color s).memory a cs)
            (omega arith)
            (IsText-frame s.memory (print_char_color p sample c text_color back_color s).memory
              (str + i + 1) cs
              (λ x l u.
                print_char_color-Unwritten c back tab s on x (apart x (omega arith) (omega arith)))
              t))
          (omega arith) steady (λ x l u. apart x (omega (arith, l)) (omega (arith, u)))
          (print_char_color-IsOnScreen c back tab s on))

  -- With a VGA controller as documented, and `scroll`'s local variable outside the video memory:
  -- from a cursor on the screen, for a text of fewer than 2^31 characters, none of them a backspace
  -- or a tab, which lies outside the video memory and that variable, `print_string_color` without a
  -- length ends: it has printed the characters one after the other, and the cursor is on the
  -- screen.
  print_string_color-IsText :
      (str : ℕ) (cs : List ℕ) (s : Console p)
      → IsText s.memory str cs
      → length cs < 2 ^ 31
      → Steady cs
      → ((x : ℕ) → str ≤ x → x ≤ str + length cs → Unwritten sample x)
      → IsOnScreen p s
      → (print_string_color p sample str text_color back_color 0 s
          ≡ some (print_all p sample text_color back_color cs s))
        × IsOnScreen p (print_all p sample text_color back_color cs s)
  unfolding print_string_color
  print_string_color-IsText str cs s t small steady apart on =
      print_string-IsText (2 ^ 31) str 0 cs s (subst (λ a. IsText s.memory a cs) (omega arith) t)
        small steady (λ x l u. apart x (omega (arith, l)) (omega (arith, u))) on

-- With a VGA controller as documented, and `scroll`'s local variable outside the video memory: from
-- a cursor on the screen, for a system call whose arguments are the number 2, the address of a text
-- of fewer than 2^31 characters, none of them a backspace or a tab, which lies outside the video
-- memory and that variable, two colours and no length, the screen's handler ends: it has printed
-- the characters one after the other in these colours, and answers with the cursor, which is on
-- the screen.
pub screen_callback-IsText :
    (p : Ports) (v : IsVga p) (sample font back ebp str : ℕ) (cs : List ℕ) (s : Console p)
    → Elsewhere sample
    → Passes s.memory ebp 0 (2 ∷ str ∷ font ∷ back ∷ 0 ∷ [])
    → IsText s.memory str cs
    → length cs < 2 ^ 31
    → Steady cs
    → ((x : ℕ) → str ≤ x → x ≤ str + length cs → Unwritten sample x)
    → IsOnScreen p s
    → (screen_callback p sample ebp s
        ≡ some (record {
          device =
              (get_cursor_offset p (print_all p sample (font % 256) (back % 256) cs s).device).1;
          memory =
              system_push ebp
                (get_cursor_offset p (print_all p sample (font % 256) (back % 256) cs s).device).0
                (print_all p sample (font % 256) (back % 256) cs s).memory;
        }))
      × IsOnScreen p (print_all p sample (font % 256) (back % 256) cs s)
unfolding screen_callback screen_call get_cursor_case
screen_callback-IsText p v sample font back ebp str cs s away
      (number, (address, (front, (behind, (none_given, _))))) t small steady apart on =
    (rw (number, address, front, behind, none_given, whole.0) refl, whole.1)
  where
    whole :
        (print_string_color p sample str (font % 256) (back % 256) 0 s
          ≡ some (print_all p sample (font % 256) (back % 256) cs s))
        × IsOnScreen p (print_all p sample (font % 256) (back % 256) cs s)
    whole =
        print_string_color-IsText p v sample (font % 256) (back % 256) away str cs s t small steady
          apart on
