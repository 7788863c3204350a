-- ===== src/System/Console.antt =====
-- `print_formatted`: the composition of `format`, the heap and the system call of the screen.
use mush_os.Base.{ℕ, ◌+◌, ◌^◌, ◌≤◌, ◌<◌, ◌≡◌, ◌≢◌, ◌∙◌, ◌⊎◌, inl, inr, List, [], ◌∷◌, length, arith}
use native.Mathlib.Decide.{dec_lt}
use mush_os.Machine.{Mem, load8}
use mush_os.Machine.Words.{Same, load32-lt}
use mush_os.Machine.Run.{Run, ok, thrown, Cmd, and_then, ◌>>◌}
use mush_os.Heap.{unalloc, first_address, heap_end, allocation_exception_id}
use mush_os.Heap.Chain.{Block, IsHeap}
use mush_os.Heap.Insert.{insert}
use mush_os.Heap.Room.{IsFull, Stays, InPayload, InPayload-above}
use mush_os.Heap.Payload.{Owns-insert, Owns-bounds}
use mush_os.Heap.Below.{EndBy, EndBy-insert, EndBy-InPayload, IsHeap-EndBy}
use mush_os.Heap.Owners.{InPayload-Owns}
use mush_os.Heap.GiveBack.{IsBack, unalloc-insert, InPayload-insert}
use mush_os.Strings.Text.{IsText}
use mush_os.Strings.Build.{IsText-frame}
use mush_os.Strings.OnHeap.{IsStored}
use mush_os.Strings.Made.{IsMade, IsPrinted, printed, failed, first_address-insert}
use mush_os.Format.{Literals, Precise}
use mush_os.Format.Numbers.{HasLiterals}
use mush_os.Format.Rendering.{Renders}
use mush_os.Format.Output.{format-IsPrinted}
use mush_os.System.{
  call_system, print_arguments, print_formatted, black, color_code, Print, bad, warn, good, info,
  plain, print_color, print,
}
use mush_os.System.Words.{Fits, Passes}
use mush_os.System.Calls.{depth, IsRoom, IsPrepared, prepared, unprepared, prepare_call-IsPrepared}

-- What a handler does on the call that prints a text from between `header` and `hi`, with its
-- arguments elsewhere: it returns, and leaves the bytes from `header` up to `hi` alone.
abbrev pub Serves : (header hi : ℕ) (text : List ℕ) (font back : ℕ) → (ℕ → Cmd (Unit {0})) → Type 0
Serves header hi text font back interrupt =
    (base formatted : ℕ) (g : Mem)
    → (base + 8 ≤ header) ⊎ (hi ≤ base)
    → header ≤ formatted
    → formatted + length text < hi
    → Passes g base 0 (2 ∷ formatted ∷ font ∷ back ∷ 0 ∷ [])
    → IsText g formatted text
    → (g' : Mem) × (interrupt base g ≡ ok tt g') × Same g g' header hi

-- What printing may come to, on a heap whose blocks end by `mid`: the handler ran, with the call's
-- number, the address of the text, the colours and no length as arguments, and the text was at the
-- address; then the heap has the blocks that it had, with their bytes, and all outside of it is as
-- the handler left it. Or the text, with its zero, reached beyond `mid`, in the heap, where the handler may write:
-- then the handler is called and the text given back, and nothing is said of what this does. Or the
-- exception, because by `ralloc`'s count no free space takes a request that is at most as large as
-- the text or the arguments.
pub data IsShown (header mid : ℕ) (interrupt : ℕ → Cmd (Unit {0})) (m : Mem) (bs : List Block)
    (text : List ℕ) (font back : ℕ) : Run (Unit {0}) → Type 0 where
  shown :
      (base formatted : ℕ) (g g' after : Mem)
      → Passes g base 0 (2 ∷ formatted ∷ font ∷ back ∷ 0 ∷ [])
      → IsText g formatted text
      → interrupt base g ≡ ok tt g'
      → IsHeap header after bs
      → ((x : ℕ) → InPayload x bs → load8 after x ≡ load8 m x)
      → ((x : ℕ) → (x < header) ⊎ (heap_end header m ≤ x) → load8 after x ≡ load8 g' x)
      → IsShown header mid interrupt m bs text font back (ok tt after)
  beyond :
      (base formatted : ℕ) (g : Mem)
      → Passes g base 0 (2 ∷ formatted ∷ font ∷ back ∷ 0 ∷ [])
      → IsText g formatted text
      → mid < formatted + length text + 1
      → formatted + length text + 1 ≤ heap_end header m
      → IsShown header mid interrupt m bs text font back
          (and_then (interrupt base g) (λ _. unalloc header formatted))
  not_shown :
      (g : Mem) (cs : List Block) (size : ℕ)
      → (size ≤ length text + 1) ⊎ (size ≤ 20)
      → IsHeap header g cs
      → IsFull size (heap_end header g) (header + 12) cs
      → IsShown header mid interrupt m bs text font back (thrown allocation_exception_id g)

module _ (header : ℕ) (registers : ℕ → ℕ) (interrupt : ℕ → Cmd (Unit {0})) (m : Mem)
    (bs : List Block) (text : List ℕ) (font back esp ebp : ℕ) (mid : ℕ) (low : header + 12 ≤ mid)
    (high : mid ≤ heap_end header m) (ends : EndBy mid bs)
    (serves : Serves header mid text font back interrupt) (r : IsRoom header m esp 5)
    (colour : font < 2 ^ 32) (ground_colour : back < 2 ^ 32) where
  module _ (a : ℕ) (g : Mem) (made : IsMade header m bs text a g) where
    bounds : (header + 12 + 12 ≤ a) × (a + (length text + 1) ≤ heap_end header g)
    bounds =
        Owns-bounds g (heap_end header g) (header + 12) 0 (first_address header g) a
          (length text + 1) (insert (a, length text + 1) bs) (made.heap.chain)
          (Owns-insert a (length text + 1) bs)

    room : IsRoom header g esp 5
    room = record { room = r.room; bound = r.bound; apart = omega (arith, r.apart, made.kept.end) }

    module _ (base : ℕ) (g2 : Mem) (h : IsHeap header g2 (insert (a, length text + 1) bs))
        (stop : heap_end header g2 ≡ heap_end header g)
        (passes : Passes g2 base 0 (print_arguments a font back))
        (same : (x : ℕ)
          → (x + depth 5 < esp) ⊎ (esp ≤ x)
          → Stays header (heap_end header g) x (insert (a, length text + 1) bs)
          → load8 g2 x ≡ load8 g x)
        (at : base + depth 5 ≡ esp + 8) where
      held : IsText g2 a text
      held =
          IsText-frame g g2 a text
            (λ x l u. same x (omega (arith, l, u, room.room, room.apart, bounds)) (
              inl (
                InPayload-Owns a (length text + 1) x (insert (a, length text + 1) bs)
                  (Owns-insert a (length text + 1) bs) l (omega arith))))
            made.holds

      -- The handler runs, and the text is given back.
      served-IsShown :
          a + (length text + 1) ≤ mid
          → IsShown header mid interrupt m bs text font back
              (and_then (interrupt base g2) (λ _. unalloc header a))
      served-IsShown small =
          rw (ran.1, back_there.1.done)
            (shown base a g2 (ran.0) (back_there.0) passes held (ran.1) (back_there.1.heap)
              kept_blocks
              (λ x o.
                back_there.1.kept x (inr (omega (arith, o, g3-IsHeap.1, stop, made.kept.end)))))
        where
          ran : (g' : Mem) × (interrupt base g2 ≡ ok tt g') × Same g2 g' header mid
          ran =
              serves base a g2 (omega (arith, at, r.apart, r.room, high)) (omega (arith, bounds))
                (omega (arith, small)) passes held

          g3-IsHeap :
              IsHeap header (ran.0) (insert (a, length text + 1) bs)
              × (heap_end header (ran.0) ≡ heap_end header g2)
          g3-IsHeap =
              IsHeap-EndBy header mid g2 (ran.0) (insert (a, length text + 1) bs) low
                (omega (arith, high, stop, made.kept.end))
                (EndBy-insert mid a (length text + 1) bs (omega (arith, small)) small ends) (ran.2)
                h

          back_there : (g' : Mem) × IsBack header (ran.0) a (length text + 1) bs g'
          back_there = unalloc-insert header (ran.0) a (length text + 1) bs (g3-IsHeap.0)

          inside : (x : ℕ) → InPayload x bs → (header + 12 + 12 ≤ x) × (x < mid)
          inside x p = (
            InPayload-above g (heap_end header g) (header + 12) 0 (first_address header g)
                (insert (a, length text + 1) bs) (made.heap.chain) x
                (InPayload-insert x a (length text + 1) bs p),
            EndBy-InPayload mid bs ends x p,
          )

          kept_blocks : (x : ℕ) → InPayload x bs → load8 (back_there.0) x ≡ load8 m x
          kept_blocks x p =
              back_there.1.kept x (inl (InPayload-insert x a (length text + 1) bs p))
              ∙ ran.2 x (omega (arith, inside x p)) (omega (arith, inside x p))
              ∙ same x (omega (arith, inside x p, room.room, room.apart, high, made.kept.end))
                  (inl (InPayload-insert x a (length text + 1) bs p))
              ∙ made.kept.same x (inl p)

    -- The arguments are passed, or their copy does not fit.
    answered-IsShown :
        {run : Run ℕ}
        → IsPrepared header g (insert (a, length text + 1) bs) (print_arguments a font back) esp run
        → IsShown header mid interrupt m bs text font back
            (and_then (and_then run interrupt) (λ _. unalloc header a))
    answered-IsShown (unprepared g' h f) = not_shown g' _ 20 (inr (omega arith)) h f
    answered-IsShown (prepared base g2 h stop passes same at) =
        elim (dec_lt mid (a + length text + 1)) [
          | yes over ↦
              beyond base a g2 passes (held base g2 h stop passes same at) over
                (omega (arith, bounds, made.kept.end))
          | no under ↦ served-IsShown base g2 h stop passes same at (omega (arith, under))
        ]

  -- Once the text is made.
  called-IsShown :
      {run : Run ℕ}
      → IsPrinted header m bs text run
      → IsShown header mid interrupt m bs text font back (
          and_then run (λ formatted.
            call_system header registers interrupt (print_arguments formatted font back) esp ebp
            >> unalloc header formatted))
  unfolding call_system
  called-IsShown (failed g cs size small h f) = not_shown g cs size (inl small) h f
  called-IsShown (printed a g made) = answered-IsShown a g made (
      prepare_call-IsPrepared header registers g (insert (a, length text + 1) bs)
        (print_arguments a font back) esp ebp made.heap
        (first_address-insert header g a (length text + 1) bs made.heap) (fits (bounds a g made))
        (room a g made))
    where
      fits :
          (header + 12 + 12 ≤ a) × (a + (length text + 1) ≤ heap_end header g)
          → Fits (print_arguments a font back)
      fits b = (
        omega arith,
        (omega (arith, b, load32-lt g (header + 8)), (colour, (ground_colour, (omega arith, tt)))),
      )

-- `print_formatted` prints what the template renders to.
pub print_formatted-IsShown :
    (header mid : ℕ) (registers : ℕ → ℕ) (interrupt : ℕ → Cmd (Unit {0})) (l : Literals)
    (p : Precise) (m : Mem) (bs : List Block) (font back temp frame esp ebp : ℕ)
    (template text : List ℕ)
    → IsHeap header m bs
    → first_address header m ≢ 0
    → HasLiterals header m bs l
    → IsStored header m bs temp template
    → length template < 2 ^ 31
    → length text < 2 ^ 31
    → Renders header m bs template (frame + 12) text
    → header + 12 ≤ mid
    → mid ≤ heap_end header m
    → EndBy mid bs
    → Serves header mid text font back interrupt
    → IsRoom header m esp 5
    → font < 2 ^ 32
    → back < 2 ^ 32
    → IsShown header mid interrupt m bs text font back
        (print_formatted header registers interrupt l p font back temp frame esp ebp m)
unfolding print_formatted
print_formatted-IsShown header mid registers interrupt l p m bs font back temp frame esp ebp
      template text h used has stored short small renders low high ends serves room colour
      ground_colour =
    called-IsShown header registers interrupt m bs text font back esp ebp mid low high ends serves
      room colour ground_colour
      (format-IsPrinted header l p m bs temp frame template text h used has stored short small
        renders)

color_code-lt : (kind : Print) → color_code (print_color kind) < 2 ^ 32
unfolding print_color
color_code-lt bad = omega arith
color_code-lt warn = omega arith
color_code-lt good = omega arith
color_code-lt info = omega arith
color_code-lt plain = omega arith

-- The five macros, on a heap whose blocks end by `mid`, with a handler that on the call which prints
-- the rendered text returns and leaves the heap's bytes below `mid` alone.
pub print-IsShown :
    (header mid : ℕ) (registers : ℕ → ℕ) (interrupt : ℕ → Cmd (Unit {0})) (l : Literals)
    (p : Precise) (m : Mem) (bs : List Block) (kind : Print) (temp frame esp ebp : ℕ)
    (template text : List ℕ)
    → IsHeap header m bs
    → first_address header m ≢ 0
    → HasLiterals header m bs l
    → IsStored header m bs temp template
    → length template < 2 ^ 31
    → length text < 2 ^ 31
    → Renders header m bs template (frame + 12) text
    → header + 12 ≤ mid
    → mid ≤ heap_end header m
    → EndBy mid bs
    → Serves header mid text (color_code (print_color kind)) (color_code black) interrupt
    → IsRoom header m esp 5
    → IsShown header mid interrupt m bs text
        (color_code (print_color kind))
        (color_code black)
        (print header registers interrupt l p kind temp frame esp ebp m)
unfolding print
print-IsShown header mid registers interrupt l p m bs kind temp frame esp ebp template text h used
      has stored short small renders low high ends serves room =
    print_formatted-IsShown header mid registers interrupt l p m bs (color_code (print_color kind))
      (color_code black) temp frame esp ebp template text h used has stored short small renders low
      high ends serves room (color_code-lt kind) (omega arith)
