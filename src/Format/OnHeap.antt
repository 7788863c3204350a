-- ===== src/Format/OnHeap.antt =====
-- Numbers as texts on the heap, and texts that replace others.
use mush_os.Base.{
  ℕ, ◌+◌, ◌^◌, ◌≤◌, ◌<◌, ◌≡◌, ◌≢◌, refl, ◌∙◌, ◌⊎◌, List, [], length, Option, some, arith, ==-true,
  ==-false, lt→leb-false,
}
use mush_os.Machine.{Mem, load8, store8}
use mush_os.Machine.Words.{load8-store8}
use mush_os.Machine.Run.{ok, pure, and_then}
use mush_os.Heap.{ralloc, first_address, heap_end}
use mush_os.Heap.Chain.{Block, IsHeap}
use mush_os.Heap.Room.{Stays}
use mush_os.Strings.Text.{IsText}
use mush_os.Strings.OnHeap.{IsBuilt, IsFilled, filled, ralloc-IsBuilt}
use mush_os.Format.{count_digits, write_digits, settle, int_to_string, digit_rounds}
use mush_os.Format.Digits.{
  spell, value_onto, value_onto-spell, count_digits-numeral, length-spell-le,
}
use mush_os.Format.Numeral.{IsWritten, written, write_digits-IsWritten}

-- The digits of a number of 32 bits.
unfoldable pub numeral : (b sys : ℕ) → List ℕ
numeral b sys = spell 32 b sys []

module _ (b sys : ℕ) (low : 2 ≤ sys) (high : sys ≤ 36) (u : b < 2 ^ 32) where
  pub length-numeral-le : length (numeral b sys) ≤ 32
  unfolding numeral
  length-numeral-le = omega (arith, length-spell-le sys low high 32 b [])

  numeral-count : 0 < b → count_digits digit_rounds sys 1 b sys ≡ some (length (numeral b sys))
  unfolding numeral
  numeral-count p = count_digits-numeral sys low high 32 b p u u

  numeral-IsWritten :
      (a : ℕ) (m : Mem)
      → IsText m (a + length (numeral b sys)) []
      → IsWritten a m
          (length (numeral b sys))
          (length (numeral b sys))
          (numeral b sys)
          (write_digits digit_rounds a (length (numeral b sys)) b sys m)
  unfolding numeral
  numeral-IsWritten a m t =
      write_digits-IsWritten sys low high a 32 b (length (spell 32 b sys [])) m [] u (omega arith)
        (omega (arith, length-spell-le sys low high 32 b [])) t

  pub value_onto-numeral : value_onto sys 0 (numeral b sys) ≡ b
  unfolding numeral
  value_onto-numeral = value_onto-spell sys low high 32 b [] u

module _ (header : ℕ) (m : Mem) (bs : List Block) (h : IsHeap header m bs)
    (used : first_address header m ≢ 0) where
  settle-IsFilled :
      (g : Mem) (a count : ℕ) (text : List ℕ) {o : Option Mem}
      → count ≡ length text
      → IsWritten a (store8 g (a + length text) 0) (length text) count text o
      → IsFilled g a text (and_then (settle o) (λ _. pure a))
  settle-IsFilled g a count text e (written start g' s t same) =
      filled g' (rw (whole) at t) (λ x o. same x (omega arith) ∙ kept x (omega arith))
    where
      whole : a + start ≡ a
      whole = omega arith

      kept : (x : ℕ) → x ≢ a + length text → load8 (store8 g (a + length text) 0) x ≡ load8 g x
      kept x ne = load8-store8 g (a + length text) 0 x ∙ rw (==-false x (a + length text) ne) refl

  -- On a well-formed heap with blocks, for a base from 2 to 36 and a number of 32 bits that is not
  -- 0, `int_to_string` builds a text of digits, which stands for the number in this base, or
  -- throws, because by `ralloc`'s count no free space is large enough.
  pub int_to_string-IsBuilt :
      (b sys : ℕ)
      → 0 < b
      → b < 2 ^ 32
      → 2 ≤ sys
      → sys ≤ 36
      → IsBuilt header m bs (numeral b sys) (int_to_string header b sys m)
        × (value_onto sys 0 (numeral b sys) ≡ b)
  unfolding int_to_string
  int_to_string-IsBuilt b sys p u low high = (
    rw (numeral-count b sys low high u p) (
        ralloc-IsBuilt header m bs (numeral b sys) h _ used
          (omega (arith, length-numeral-le b sys low high u)) fill),
    value_onto-numeral b sys low high u,
  )
    where
      fill :
          (a : ℕ) (g : Mem)
          → a + length (numeral b sys) < 2 ^ 32
          → ((x : ℕ) → Stays header (heap_end header m) x bs → load8 g x ≡ load8 m x)
          → ((x : ℕ)
              → Stays header (heap_end header m) x bs
              → (x < a) ⊎ (a + (length (numeral b sys) + 1) ≤ x))
          → IsFilled g a (numeral b sys) (
              and_then
                (settle (
                  write_digits digit_rounds a
                    (length (numeral b sys))
                    b
                    sys
                    (store8 g (a + length (numeral b sys)) 0)))
                (λ _. pure a))
      fill a g bound kept apart =
          settle-IsFilled g a (length (numeral b sys)) (numeral b sys) refl
            (numeral-IsWritten b sys low high u a (store8 g (a + length (numeral b sys)) 0) end)
        where
          end : IsText (store8 g (a + length (numeral b sys)) 0) (a + length (numeral b sys)) []
          end =
              load8-store8 g (a + length (numeral b sys)) 0 (a + length (numeral b sys))
              ∙ rw (==-true (a + length (numeral b sys)) (a + length (numeral b sys)) refl) refl

-- For 0 and a base of at least 1, where `ralloc` of two bytes succeeds, `int_to_string` returns
-- its block, but writes only the second byte: the character of the text is what the memory
-- happened to hold.
pub int_to_string-zero :
    (header sys a : ℕ) (m g : Mem)
    → 0 < sys
    → ralloc header 2 m ≡ ok a g
    → (int_to_string header 0 sys m ≡ ok a (store8 g (a + 1) 0))
      × (load8 (store8 g (a + 1) 0) a ≡ load8 g a)
unfolding int_to_string count_digits write_digits
int_to_string-zero header sys a m g p e = (
  rw (lt→leb-false sys 0 p, e) refl,
  load8-store8 g (a + 1) 0 a ∙ rw (==-false a (a + 1) (omega arith)) refl,
)
