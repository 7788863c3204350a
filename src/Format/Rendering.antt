-- ===== src/Format/Rendering.antt =====
-- What `format` is to print: its template, with the conversions replaced by their arguments' texts.
use mush_os.Base.{
  ℕ, refl, sym, subst, inl, inr, ◌+◌, ◌^◌, ◌≤◌, ◌<◌, ◌≡◌, ◌≢◌, List, [], ◌∷◌, ◌++◌, length, arith,
  none, some,
}
use mush_os.Machine.{Mem, load8, load32}
use mush_os.Machine.Words.{load8-lt, load32-lt, load32_of_Same}
use mush_os.Heap.{first_address, heap_end}
use mush_os.Heap.Chain.{Block, IsHeap}
use mush_os.Heap.Insert.{insert}
use mush_os.Heap.Room.{Stays}
use mush_os.Strings.OnHeap.{IsStored}
use mush_os.Strings.Made.{IsKept, IsPrinted, IsPrinted-of_built, IsStored-kept, IsStored-insert}
use mush_os.Format.{
  Literals, number_to_string, Precise, Conversion, logical, pointer, decimals, hexadecimals,
  binaries, character, text, conversion, width, convert, decimal, hexadecimal, binary,
}
use mush_os.Format.Pieces.{char_to_string-IsBuilt, const_to_string-IsBuilt}
use mush_os.Format.Numbers.{
  HasLiterals, IsSystem, number_text, boolean_text, pointer_text, number_to_string-IsPrinted,
  boolean_to_string-IsPrinted, pointer_to_string-IsPrinted,
}

-- The text of the argument at an address. A number that is no `float` is a word, a `boolean` and a
-- character are a byte; the character is not 0, and a text is stored.
pub data Shows (header : ℕ) (m : Mem) (bs : List Block) (at : ℕ)
    : Conversion → List ℕ → Type 0 where
  truth : Shows header m bs at logical (boolean_text (load8 m at))
  place : Shows header m bs at pointer (pointer_text (load32 m at))
  tens : Shows header m bs at decimals (number_text (load32 m at) decimal)
  sixteens : Shows header m bs at hexadecimals (number_text (load32 m at) hexadecimal)
  twos : Shows header m bs at binaries (number_text (load32 m at) binary)
  letter : 0 < load8 m at → Shows header m bs at character (load8 m at ∷ [])
  words : (xs : List ℕ) → IsStored header m bs (load32 m at) xs → Shows header m bs at text xs

abbrev pub first_letter : List ℕ → ℕ
first_letter [] = 0
first_letter (c ∷ cs) = c

-- The bytes of an argument, which allocations leave alone.
abbrev pub IsArgument : (header : ℕ) (m : Mem) (bs : List Block) (at : ℕ) → Type 0
IsArgument header m bs at = (x : ℕ) → at ≤ x → x < at + 4 → Stays header (heap_end header m) x bs

-- What is printed for the rest of a template, with the arguments from an address on.
pub data Renders (header : ℕ) (m : Mem) (bs : List Block) : List ℕ → ℕ → List ℕ → Type 0 where
  finished : (at : ℕ) → Renders header m bs [] at []
  plain :
      (c at : ℕ) (cs out : List ℕ)
      → c ≢ b'%'
      → Renders header m bs cs at out
      → Renders header m bs (c ∷ cs) at (c ∷ out)
  stray :
      (at : ℕ) (cs out : List ℕ)
      → conversion (first_letter cs) ≡ none
      → Renders header m bs cs at out
      → Renders header m bs (b'%' ∷ cs) at (b'%' ∷ out)
  converted :
      (c at : ℕ) (cs shown out : List ℕ) (v : Conversion)
      → conversion c ≡ some v
      → IsArgument header m bs at
      → Shows header m bs at v shown
      → Renders header m bs cs (at + width v) out
      → Renders header m bs (b'%' ∷ c ∷ cs) at (shown ++ out)

-- What is stored is still shown when the heap has other blocks besides.
module _ (header : ℕ) (m g : Mem) (bs : List Block) (at : ℕ) (kept : IsKept header m bs g)
    (arg : IsArgument header m bs at) where
  same_byte : load8 g at ≡ load8 m at
  same_byte = kept.same at (arg at (omega arith) (omega arith))

  same_word : load32 g at ≡ load32 m at
  same_word =
      load32_of_Same m g at (at + 4) at (λ x l u. kept.same x (arg x l u)) (omega arith)
        (omega arith)

  pub Shows-kept :
      (v : Conversion) (xs : List ℕ) → Shows header m bs at v xs → Shows header g bs at v xs
  Shows-kept v xs truth = subst (λ b. Shows header g bs at logical (boolean_text b)) same_byte truth
  Shows-kept v xs place = subst (λ w. Shows header g bs at pointer (pointer_text w)) same_word place
  Shows-kept v xs tens =
      subst (λ w. Shows header g bs at decimals (number_text w decimal)) same_word tens
  Shows-kept v xs sixteens =
      subst (λ w. Shows header g bs at hexadecimals (number_text w hexadecimal)) same_word sixteens
  Shows-kept v xs twos =
      subst (λ w. Shows header g bs at binaries (number_text w binary)) same_word twos
  Shows-kept v xs (letter p) =
      subst (λ b. Shows header g bs at character (b ∷ [])) same_byte
        (letter (omega (arith, same_byte, p)))
  Shows-kept v xs (words ys s) = words ys (
      subst (λ w. IsStored header g bs w ys) (sym same_word)
        (IsStored-kept header m g bs (load32 m at) ys kept s))

pub Shows-insert :
    (header : ℕ) (m : Mem) (bs : List Block) (at a n : ℕ) (v : Conversion) (xs : List ℕ)
    → Shows header m bs at v xs
    → Shows header m (insert (a, n) bs) at v xs
Shows-insert header m bs at a n v xs truth = truth
Shows-insert header m bs at a n v xs place = place
Shows-insert header m bs at a n v xs tens = tens
Shows-insert header m bs at a n v xs sixteens = sixteens
Shows-insert header m bs at a n v xs twos = twos
Shows-insert header m bs at a n v xs (letter p) = letter p
Shows-insert header m bs at a n v xs (words ys s) =
    words ys (IsStored-insert header m bs (load32 m at) ys a n s)

pub HasLiterals-kept :
    (header : ℕ) (m g : Mem) (bs : List Block) (l : Literals)
    → IsKept header m bs g
    → HasLiterals header m bs l
    → HasLiterals header g bs l
HasLiterals-kept header m g bs l kept has = record {
  for_true = IsStored-kept header m g bs _ _ kept has.for_true;
  for_false = IsStored-kept header m g bs _ _ kept has.for_false;
  for_dot = IsStored-kept header m g bs _ _ kept has.for_dot;
  for_minus = IsStored-kept header m g bs _ _ kept has.for_minus;
  for_null = IsStored-kept header m g bs _ _ kept has.for_null;
  for_hexadecimal = IsStored-kept header m g bs _ _ kept has.for_hexadecimal;
  for_binary = IsStored-kept header m g bs _ _ kept has.for_binary;
}

pub HasLiterals-insert :
    (header : ℕ) (m : Mem) (bs : List Block) (l : Literals) (a n : ℕ)
    → HasLiterals header m bs l
    → HasLiterals header m (insert (a, n) bs) l
HasLiterals-insert header m bs l a n has = record {
  for_true = IsStored-insert header m bs _ _ a n has.for_true;
  for_false = IsStored-insert header m bs _ _ a n has.for_false;
  for_dot = IsStored-insert header m bs _ _ a n has.for_dot;
  for_minus = IsStored-insert header m bs _ _ a n has.for_minus;
  for_null = IsStored-insert header m bs _ _ a n has.for_null;
  for_hexadecimal = IsStored-insert header m bs _ _ a n has.for_hexadecimal;
  for_binary = IsStored-insert header m bs _ _ a n has.for_binary;
}

-- `convert` prints the text of the argument.
module _ (header : ℕ) (m : Mem) (bs : List Block) (l : Literals) (p : Precise) (at : ℕ)
    (h : IsHeap header m bs) (used : first_address header m ≢ 0)
    (has : HasLiterals header m bs l) where
  number :
      (sys : ℕ)
      → IsSystem sys
      → IsPrinted header m bs
          (number_text (load32 m at) sys)
          (number_to_string header l (load32 m at) sys m)
  unfolding number_text
  number sys base =
      (number_to_string-IsPrinted header m bs l (load32 m at) sys h used has (load32-lt m at)
        base).0

  pub convert-IsPrinted :
      (v : Conversion) (xs : List ℕ)
      → length xs < 2 ^ 31
      → Shows header m bs at v xs
      → IsPrinted header m bs xs (convert header l p v at m)
  unfolding convert
  convert-IsPrinted v xs small truth =
      boolean_to_string-IsPrinted header m bs l h used has (load8 m at)
  convert-IsPrinted v xs small place =
      pointer_to_string-IsPrinted header m bs l h used has (load32 m at) (load32-lt m at)
  convert-IsPrinted v xs small tens = number decimal (inl refl)
  convert-IsPrinted v xs small sixteens = number hexadecimal (inr (inl refl))
  convert-IsPrinted v xs small twos = number binary (inr (inr refl))
  convert-IsPrinted v xs small (letter q) =
      IsPrinted-of_built header m bs (load8 m at ∷ []) h
        (char_to_string-IsBuilt header m bs h used (load8 m at) q (load8-lt m at))
  convert-IsPrinted v xs small (words ys s) =
      IsPrinted-of_built header m bs ys h
        (const_to_string-IsBuilt header m bs h used (load32 m at) ys s small)
