-- ===== src/Format/Pieces.antt =====
-- The texts that the conversions of `format` make: of characters, constants, numbers and pointers.
use mathlib.Core.List.{append-nil}
use mush_os.Base.{
  ℕ, ◌+◌, ◌^◌, ◌≤◌, ◌<◌, ◌≡◌, ◌≢◌, refl, ◌∙◌, ◌⊎◌, List, [], ◌∷◌, ◌++◌, length, length-append,
  arith, ==-true, ==-false,
}
use mush_os.Machine.{Mem, load8, store8}
use mush_os.Machine.Words.{load8-store8}
use mush_os.Machine.Run.{ok, pure, ◌>>◌}
use mush_os.Heap.{unalloc, first_address, heap_end}
use mush_os.Heap.Chain.{Block, IsHeap}
use mush_os.Heap.Insert.{insert}
use mush_os.Heap.Room.{Stays}
use mush_os.Strings.Text.{len-IsText}
use mush_os.Strings.OnHeap.{IsStored, IsBuilt, IsFilled, filled, ralloc-IsBuilt}
use mush_os.Strings.Concatenate.{concatenate-IsBuilt}
use mush_os.Strings.Copies.{stored-IsFilled}
use mush_os.Strings.Made.{
  IsMade, IsPrinted, printed, IsPrinted-of_built, IsPrinted-and_then, IsStored-kept,
  IsStored-insert, IsStored-made, IsMade-earlier, first_address-insert, unalloc-IsMade,
}
use mush_os.Format.{Literals, char_to_string, const_to_string, prefixed}

module _ (header : ℕ) (m : Mem) (bs : List Block) (h : IsHeap header m bs)
    (used : first_address header m ≢ 0) where
  pub char_to_string-IsBuilt :
      (c : ℕ) → 0 < c → c < 256 → IsBuilt header m bs (c ∷ []) (char_to_string header c m)
  unfolding char_to_string
  char_to_string-IsBuilt c p u = ralloc-IsBuilt header m bs (c ∷ []) h _ used (omega arith) fill
    where
      fill :
          (a : ℕ) (g : Mem)
          → a + 1 < 2 ^ 32
          → ((x : ℕ) → Stays header (heap_end header m) x bs → load8 g x ≡ load8 m x)
          → ((x : ℕ) → Stays header (heap_end header m) x bs → (x < a) ⊎ (a + 2 ≤ x))
          → IsFilled g a (c ∷ []) (ok a (store8 (store8 g a c) (a + 1) 0))
      fill a g bound kept apart =
          filled (store8 (store8 g a c) (a + 1) 0) (at_first, p, at_second)
            (λ x o.
              load8-store8 (store8 g a c) (a + 1) 0 x
              ∙ rw (==-false x (a + 1) (omega arith))
                  (load8-store8 g a c x ∙ rw (==-false x a (omega arith)) refl))
        where
          at_first : load8 (store8 (store8 g a c) (a + 1) 0) a ≡ c
          at_first =
              load8-store8 (store8 g a c) (a + 1) 0 a
              ∙ rw (==-false a (a + 1) (omega arith))
                  (load8-store8 g a c a ∙ rw (==-true a a refl) (omega arith))

          at_second : load8 (store8 (store8 g a c) (a + 1) 0) (a + 1) ≡ 0
          at_second =
              load8-store8 (store8 g a c) (a + 1) 0 (a + 1) ∙ rw (==-true (a + 1) (a + 1) refl) refl

  pub const_to_string-IsBuilt :
      (str : ℕ) (xs : List ℕ)
      → IsStored header m bs str xs
      → length xs < 2 ^ 31
      → IsBuilt header m bs xs (const_to_string header str m)
  unfolding const_to_string
  const_to_string-IsBuilt str xs s small = rw (len-IsText m str xs s.text small) (
      ralloc-IsBuilt header m bs xs h _ used (omega arith)
        (stored-IsFilled header m bs str xs [] h used (rw (append-nil xs) s)))

-- A stored text in front of a text that was made, which is given back.
pub prefixed-IsPrinted :
    (header : ℕ) (m g : Mem) (bs : List Block) (l : Literals) (literal a : ℕ) (xs ys : List ℕ)
    → IsStored header m bs literal xs
    → IsMade header m bs ys a g
    → length (xs ++ ys) < 2 ^ 31
    → IsPrinted header m bs (xs ++ ys) (prefixed header l literal a g)
unfolding prefixed
prefixed-IsPrinted header m g bs l literal a xs ys s made small =
    IsPrinted-and_then header m g bs (insert (a, length ys + 1) bs) (xs ++ ys) (xs ++ ys)
      (λ b. unalloc header a >> pure b)
      (IsPrinted-of_built header g (insert (a, length ys + 1) bs) (xs ++ ys) made.heap (
        concatenate-IsBuilt header g (insert (a, length ys + 1) bs) literal a xs ys made.heap
          (first_address-insert header g a (length ys + 1) bs made.heap)
          (IsStored-insert header g bs literal xs a (length ys + 1)
            (IsStored-kept header m g bs literal xs made.kept s))
          (IsStored-made header m g bs ys a made) (omega (arith, length-append xs ys, small))
          (omega (arith, length-append xs ys, small)) (omega (arith, length-append xs ys, small))))
      (omega arith)
      (λ b g' made'.
        freed b g'
          (unalloc-IsMade header g g' bs (xs ++ ys) b a (length ys + 1) (omega arith) made'))
  where
    freed :
        (b : ℕ) (g' : Mem)
        → (f : Mem) × (unalloc header a g' ≡ ok tt f) × IsMade header g bs (xs ++ ys) b f
        → IsPrinted header m bs (xs ++ ys) ((unalloc header a >> pure b) g')
    freed b g' back =
        rw (back.1) (
          printed b (back.0)
            (IsMade-earlier header m g (back.0) bs (xs ++ ys) b made.kept (back.2)))
