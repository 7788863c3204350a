-- ===== src/Strings/Copies.antt =====
-- Texts copied to the heap: a part of a text, and a text that is constant.
use mush_os.Base.{
  ℕ, suc, ◌+◌, ◌-◌, ◌^◌, ◌≤◌, ◌<◌, ◌≡◌, ◌≢◌, refl, ◌∙◌, ◌⊎◌, List, [], ◌∷◌, ◌++◌, length,
  length-append, arith, ==-true, ==-false,
}
use mush_os.Machine.{Mem, add32, sub32, load8, store8}
use mush_os.Machine.Words.{load8-store8}
use mush_os.Machine.Run.{ok}
use mush_os.Heap.{first_address, heap_end}
use mush_os.Heap.Chain.{Block, IsHeap}
use mush_os.Heap.Room.{Stays}
use mush_os.Heap.Payload.{Within}
use mush_os.Strings.{copy_chars, substring_mid}
use mush_os.Strings.Text.{IsText}
use mush_os.Strings.Build.{IsText-frame, copy_chars-inside, copy_chars-outside}
use mush_os.Strings.OnHeap.{IsStored, IsBuilt, IsFilled, filled, ralloc-IsBuilt}
use mush_os.Strings.Concatenate.{one_side}

-- The first characters of a text, copied and ended by a zero.
pub IsText-prefix :
    (m g : Mem) (a str : ℕ) (xs ys : List ℕ)
    → ((j : ℕ) → j < length xs → load8 g (a + j) ≡ load8 m (str + j))
    → IsText m str (xs ++ ys)
    → load8 g (a + length xs) ≡ 0
    → IsText g a xs
IsText-prefix m g a str [] ys same h t = rw (start) at t
  where
    start : a + 0 ≡ a
    start = omega arith
IsText-prefix m g a str (x ∷ xs) ys same (e, p, h) t = (
  rw (start a, start str) at (same 0 (omega arith)) ∙ e,
  p,
  IsText-prefix m g (a + 1) (str + 1) xs ys
      (λ j l. rw (next a j, next str j) (same (j + 1) (omega arith))) h (rw (rest) at t),
)
  where
    start : (k : ℕ) → k + 0 ≡ k
    start k = omega arith

    next : (k j : ℕ) → k + 1 + j ≡ k + (j + 1)
    next k j = omega arith

    rest : a + suc (length xs) ≡ a + 1 + length xs
    rest = omega arith

module _ (g : Mem) (a str : ℕ) (xs ys : List ℕ) (stored : IsText g str (xs ++ ys))
    (apart : (str + length xs < a) ⊎ (a + (length xs + 1) ≤ str)) where
  copied-IsFilled :
      IsFilled g a xs (ok a (store8 (copy_chars (length xs) a str 0 g) (a + length xs) 0))
  copied-IsFilled = filled copy (IsText-prefix g copy a str xs ys inside stored end) outside
    where
      copy : Mem
      copy = store8 (copy_chars (length xs) a str 0 g) (a + length xs) 0

      byte : (x : ℕ) → x ≢ a + length xs → load8 copy x ≡ load8 (copy_chars (length xs) a str 0 g) x
      byte x ne =
          load8-store8 (copy_chars (length xs) a str 0 g) (a + length xs) 0 x
          ∙ rw (==-false x (a + length xs) ne) refl

      inside : (j : ℕ) → j < length xs → load8 copy (a + j) ≡ load8 g (str + j)
      inside j l =
          byte (a + j) (omega arith) ∙ copy_chars-inside (length xs) a str g (omega arith) j l

      end : load8 copy (a + length xs) ≡ 0
      end =
          load8-store8 (copy_chars (length xs) a str 0 g) (a + length xs) 0 (a + length xs)
          ∙ rw (==-true (a + length xs) (a + length xs) refl) refl

      outside : Within a (length xs + 1) g copy
      outside x o =
          byte x (omega arith)
          ∙ copy_chars-outside (length xs) a str g (omega arith) x (omega arith)

module _ (header : ℕ) (m : Mem) (bs : List Block) (str : ℕ) (xs ys : List ℕ)
    (h : IsHeap header m bs) (used : first_address header m ≢ 0) where
  -- What is copied to a new block.
  pub stored-IsFilled :
      IsStored header m bs str (xs ++ ys)
      → (a : ℕ) (g : Mem) → a + length xs < 2 ^ 32
      → ((x : ℕ) → Stays header (heap_end header m) x bs → load8 g x ≡ load8 m x)
      → ((x : ℕ) → Stays header (heap_end header m) x bs → (x < a) ⊎ (a + (length xs + 1) ≤ x))
      → IsFilled g a xs (ok a (store8 (copy_chars (length xs) a str 0 g) (a + length xs) 0))
  stored-IsFilled s a g bound kept apart =
      copied-IsFilled g a str xs ys
        (IsText-frame m g str (xs ++ ys) (λ x l u. kept x (s.inside x l u)) s.text)
        (one_side str (length xs) a (length xs + 1) (omega arith)
          (λ x l u. apart x (s.inside x l (omega (arith, length-append xs ys, u)))))

  -- On a well-formed heap with blocks, `substring_mid` from the place of a part of a stored text
  -- up to its end builds the part in a new block, or throws, because by `ralloc`'s count no
  -- free space is large enough.
  pub substring_mid-IsBuilt :
      (begin end base : ℕ)
      → base + begin ≡ str
      → end ≡ begin + length xs
      → end < 2 ^ 31
      → IsStored header m bs str (xs ++ ys)
      → IsBuilt header m bs xs (substring_mid header base begin end m)
  unfolding substring_mid
  substring_mid-IsBuilt begin end base e f small s =
      rw (size, count, span, e) (ralloc-IsBuilt header m bs xs h _ used (omega arith) fill)
    where
      span : sub32 end begin ≡ length xs
      span = omega arith

      count : end - begin ≡ length xs
      count = omega arith

      size : add32 (sub32 end begin) 1 ≡ length xs + 1
      size = omega arith

      fill :
          (a : ℕ) (g : Mem)
          → a + length xs < 2 ^ 32
          → ((x : ℕ) → Stays header (heap_end header m) x bs → load8 g x ≡ load8 m x)
          → ((x : ℕ) → Stays header (heap_end header m) x bs → (x < a) ⊎ (a + (length xs + 1) ≤ x))
          → IsFilled g a xs
              (ok a (store8 (copy_chars (length xs) a str 0 g) (add32 a (length xs)) 0))
      fill a g bound kept apart = rw (last) (stored-IsFilled s a g bound kept apart)
        where
          last : add32 a (length xs) ≡ a + length xs
          last = omega arith
