-- ===== src/Format/Output.antt =====
-- `format` as a whole.
use mush_os.Base.{
  ℕ, ◌+◌, ◌^◌, ◌≤◌, ◌<◌, ◌≡◌, ◌≢◌, ◌⊎◌, refl, ◌∙◌, subst, List, [], length, arith, le→leb, lt→ltb,
}
use mush_os.Machine.{Mem, load8}
use mush_os.Machine.Run.{ok}
use mush_os.Memory.{memory_clear}
use mush_os.Memory.Fill.{load8-memory_clear}
use mush_os.Heap.{first_address, heap_end}
use mush_os.Heap.Blocks.{zalloc}
use mush_os.Heap.Chain.{Block, IsHeap}
use mush_os.Heap.Room.{Stays}
use mush_os.Heap.Payload.{memory_clear-Within}
use mush_os.Strings.{int_range}
use mush_os.Strings.OnHeap.{IsStored, IsFilled, filled, ralloc-IsBuilt}
use mush_os.Strings.Made.{IsPrinted, IsPrinted-of_built, IsPrinted-and_then}
use mush_os.Format.{Literals, Precise, init_vararg, format, format_loop}
use mush_os.Format.Numbers.{HasLiterals}
use mush_os.Format.Rendering.{Renders}
use mush_os.Format.Place.{IsPlace}
use mush_os.Format.Printing.{format_loop-IsPrinted}

-- An empty text is made by `zalloc`.
zalloc-IsPrinted :
    (header : ℕ) (m : Mem) (bs : List Block)
    → IsHeap header m bs
    → first_address header m ≢ 0
    → IsPrinted header m bs [] (zalloc header 1 m)
unfolding zalloc
zalloc-IsPrinted header m bs h used =
    IsPrinted-of_built header m bs [] h (ralloc-IsBuilt header m bs [] h _ used (omega arith) fill)
  where
    fill :
        (a : ℕ) (g : Mem)
        → a + 0 < 2 ^ 32
        → ((x : ℕ) → Stays header (heap_end header m) x bs → load8 g x ≡ load8 m x)
        → ((x : ℕ) → Stays header (heap_end header m) x bs → (x < a) ⊎ (a + 1 ≤ x))
        → IsFilled g a [] (ok a (memory_clear a 1 0 g))
    fill a g bound kept apart = filled (memory_clear a 1 0 g) empty (memory_clear-Within a 1 g)
      where
        empty : load8 (memory_clear a 1 0 g) a ≡ 0
        empty =
            load8-memory_clear a 1 0 g a
            ∙ rw (le→leb a a (omega arith), lt→ltb a (a + 1) (omega arith)) refl

-- On a well-formed heap with blocks, with the literals stored, for a stored template of fewer than
-- 2^31 characters that renders, with the arguments behind the frame, to a text of fewer than 2^31
-- characters. A template renders if its conversions are among `%l`, `%p`, `%d`, `%h`, `%b`, `%c` and
-- `%s`, and not if it has a `%f`; a `%` that none of the eight letters follows directly, so also one
-- with digits for a width or a precision, renders to itself, with what comes behind it, and takes
-- no argument. Then `format` ends, and leaves this text in a new block and nothing else that is new, with
-- the other blocks and the memory outside of the heap as they were; or it throws the allocation
-- exception, because by `ralloc`'s count no free space takes a request that is at most as large as
-- the text.
pub format-IsPrinted :
    (header : ℕ) (l : Literals) (p : Precise) (m : Mem) (bs : List Block) (template ebp : ℕ)
    (whole out : List ℕ)
    → IsHeap header m bs
    → first_address header m ≢ 0
    → HasLiterals header m bs l
    → IsStored header m bs template whole
    → length whole < 2 ^ 31
    → length out < 2 ^ 31
    → Renders header m bs whole (ebp + 12) out
    → IsPrinted header m bs out (format header l p template ebp m)
unfolding format init_vararg
format-IsPrinted header l p m bs template ebp whole out h used has s short small r =
    IsPrinted-and_then header m m bs bs [] out (format_loop header l p int_range template ebp 0 0 4)
      (zalloc-IsPrinted header m bs h used) (omega arith)
      (λ a g made.
        format_loop-IsPrinted header l p m bs template ebp has int_range whole [] whole [] out out 0
          0 4 a g short begin made (rw (first) at r) refl small)
  where
    begin : IsPlace header m bs template whole [] whole 0 0
    begin = record {
      entire = s;
      stored = subst (λ a. IsStored header m bs a whole) (omega arith) s;
      index = refl;
      left = omega arith;
      small = short;
    }

    first : ebp + 12 ≡ ebp + 8 + 4
    first = omega arith
