-- ===== src/Strings/Concatenate.antt =====
-- `concatenate` over the heap.
use mathlib.Core.List.{append-nil}
use mush_os.Base.{
  ℕ, ◌+◌, ◌^◌, ◌≤◌, ◌<◌, ◌≡◌, ◌≢◌, refl, ◌∙◌, ◌⊎◌, inl, inr, List, [], ◌++◌, length, length-append,
  arith, ==-true, ==-false, lt_or_le,
}
use mush_os.Machine.{Mem, load8, store8}
use mush_os.Machine.Words.{load8-store8}
use mush_os.Machine.Run.{ok}
use mush_os.Heap.{first_address, heap_end}
use mush_os.Heap.Chain.{Block, IsHeap}
use mush_os.Heap.Room.{Stays}
use mush_os.Heap.Payload.{Within}
use mush_os.Strings.{copy_chars, concatenate}
use mush_os.Strings.Text.{IsText, len-IsText}
use mush_os.Strings.Build.{IsText-frame, IsText-append, copy_chars-inside, copy_chars-outside}
use mush_os.Strings.OnHeap.{IsStored, IsBuilt, IsFilled, filled, ralloc-IsBuilt}

-- Bytes that all lie outside a range lie on one side of it.
pub one_side :
    (str k a n : ℕ)
    → 0 < n
    → ((x : ℕ) → str ≤ x → x ≤ str + k → (x < a) ⊎ (a + n ≤ x))
    → (str + k < a) ⊎ (a + n ≤ str)
one_side str k a n p out = elim (lt_or_le str a) [
  | inl l ↦ elim (lt_or_le (str + k) a) [
    | inl u ↦ inl u
    | inr u ↦ absurd (omega (arith, out a (omega arith) u))
  ]
  | inr l ↦ omega (arith, out str (omega arith) (omega arith))
]

-- Two texts copied behind one another, and a zero.
module _ (g : Mem) (a str1 str2 : ℕ) (xs ys : List ℕ) (one : IsText g str1 xs)
    (two : IsText g str2 ys)
    (apart1 : (str1 + length xs < a) ⊎ (a + (length xs + length ys + 1) ≤ str1))
    (apart2 : (str2 + length ys < a) ⊎ (a + (length xs + length ys + 1) ≤ str2)) where
  first : Mem
  first = copy_chars (length xs) a str1 0 g

  second : Mem
  second = copy_chars (length ys) (a + length xs) str2 0 first

  pub joined : Mem
  joined = store8 second (a + (length xs + length ys)) 0

  second-byte : (x : ℕ) → x ≢ a + (length xs + length ys) → load8 joined x ≡ load8 second x
  unfolding joined
  second-byte x ne =
      load8-store8 second (a + (length xs + length ys)) 0 x
      ∙ rw (==-false x (a + (length xs + length ys)) ne) refl

  first-outside : (x : ℕ) → (x < a) ⊎ (a + length xs ≤ x) → load8 first x ≡ load8 g x
  unfolding first
  first-outside x o = copy_chars-outside (length xs) a str1 g (omega arith) x o

  second-outside :
      (x : ℕ)
      → (x < a + length xs) ⊎ (a + length xs + length ys ≤ x)
      → load8 second x ≡ load8 first x
  unfolding second
  second-outside x o = copy_chars-outside (length ys) (a + length xs) str2 first (omega arith) x o

  joined-Within : Within a (length xs + length ys + 1) g joined
  joined-Within x o =
      second-byte x (omega arith) ∙ second-outside x (omega arith) ∙ first-outside x (omega arith)

  joined-IsText : IsText joined a (xs ++ ys)
  unfolding first second joined
  joined-IsText = IsText-append g joined a str1 xs ys copied one behind
    where
      copied : (j : ℕ) → j < length xs → load8 joined (a + j) ≡ load8 g (str1 + j)
      copied j l =
          second-byte (a + j) (omega arith)
          ∙ second-outside (a + j) (omega arith)
          ∙ copy_chars-inside (length xs) a str1 g (omega arith) j l

      copied_behind :
          (j : ℕ) → j < length ys → load8 joined (a + length xs + j) ≡ load8 g (str2 + j)
      copied_behind j l =
          second-byte (a + length xs + j) (omega arith)
          ∙ copy_chars-inside (length ys) (a + length xs) str2 first (omega arith) j l
          ∙ first-outside (str2 + j) (omega arith)

      end : IsText joined (a + length xs + length ys) []
      end =
          load8-store8 second (a + (length xs + length ys)) 0 (a + length xs + length ys)
          ∙ rw (==-true (a + length xs + length ys) (a + (length xs + length ys)) (omega arith))
              refl

      behind : IsText joined (a + length xs) ys
      behind =
          rw (append-nil ys) at
            (IsText-append g joined (a + length xs) str2 ys [] copied_behind two end)

-- On a well-formed heap with blocks, and for two texts of fewer than 2^31 characters each that
-- are stored in them, or outside of the heap, and together fit a 32-bit size with a header,
-- `concatenate` builds the text of both in a new block, or throws, because by `ralloc`'s count no
-- free space is large enough.
pub concatenate-IsBuilt :
    (header : ℕ) (m : Mem) (bs : List Block) (str1 str2 : ℕ) (xs ys : List ℕ)
    → IsHeap header m bs
    → first_address header m ≢ 0
    → IsStored header m bs str1 xs
    → IsStored header m bs str2 ys
    → length xs + length ys + 13 < 2 ^ 32
    → length xs < 2 ^ 31
    → length ys < 2 ^ 31
    → IsBuilt header m bs (xs ++ ys) (concatenate header str1 str2 m)
unfolding concatenate joined second first
concatenate-IsBuilt header m bs str1 str2 xs ys h used one two small short1 short2 =
    rw (len-IsText m str1 xs one.text short1, len-IsText m str2 ys two.text short2, sum)
      (ralloc-IsBuilt header m bs (xs ++ ys) h _ used (omega (arith, length-append xs ys)) fill)
  where
    sum : length xs + length ys + 1 ≡ length (xs ++ ys) + 1
    sum = omega (arith, length-append xs ys)

    fill :
        (a : ℕ) (g : Mem)
        → a + length (xs ++ ys) < 2 ^ 32
        → ((x : ℕ) → Stays header (heap_end header m) x bs → load8 g x ≡ load8 m x)
        → ((x : ℕ)
            → Stays header (heap_end header m) x bs
            → (x < a) ⊎ (a + (length (xs ++ ys) + 1) ≤ x))
        → IsFilled g a (xs ++ ys) (
            ok a (
              store8
                (copy_chars (length ys) (a + length xs) str2 0 (copy_chars (length xs) a str1 0 g))
                (a + (length xs + length ys))
                0))
    fill a g bound kept apart =
        filled (joined g a str1 str2 xs ys one' two' apart1 apart2)
          (joined-IsText g a str1 str2 xs ys one' two' apart1 apart2)
          (rw (sum) at (joined-Within g a str1 str2 xs ys one' two' apart1 apart2))
      where
        one' : IsText g str1 xs
        one' = IsText-frame m g str1 xs (λ x l u. kept x (one.inside x l u)) one.text

        two' : IsText g str2 ys
        two' = IsText-frame m g str2 ys (λ x l u. kept x (two.inside x l u)) two.text

        apart1 : (str1 + length xs < a) ⊎ (a + (length xs + length ys + 1) ≤ str1)
        apart1 =
            one_side str1 (length xs) a (length xs + length ys + 1) (omega arith)
              (λ x l u. rw sum (apart x (one.inside x l u)))

        apart2 : (str2 + length ys < a) ⊎ (a + (length xs + length ys + 1) ≤ str2)
        apart2 =
            one_side str2 (length ys) a (length xs + length ys + 1) (omega arith)
              (λ x l u. rw sum (apart x (two.inside x l u)))
