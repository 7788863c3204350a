-- ===== src/Format/Place.antt =====
-- Where the loop of `format` stands in its template.
use mathlib.Core.List.{append_assoc}
use mush_os.Base.{
  ℕ, ◌+◌, ◌^◌, ◌<◌, ◌≡◌, refl, subst, List, [], ◌∷◌, ◌++◌, length, length-append, arith, some,
}
use mush_os.Machine.{Mem, load8}
use mush_os.Heap.Chain.{Block}
use mush_os.Strings.Text.{IsText, len-IsText}
use mush_os.Strings.{len}
use mush_os.Strings.Build.{IsText-suffix}
use mush_os.Strings.OnHeap.{IsStored}
use mush_os.Strings.Made.{IsKept, IsStored-kept}
use mush_os.Format.Rendering.{first_letter}

IsText-first : (m : Mem) (a : ℕ) (xs : List ℕ) → IsText m a xs → load8 m a ≡ first_letter xs
IsText-first m a [] h = h
IsText-first m a (x ∷ xs) (e, p, h) = e

-- `pending` is read and not yet printed, and `rest` is still to be read.
pub record IsPlace (header : ℕ) (m : Mem) (bs : List Block) (template : ℕ)
    (whole pending rest : List ℕ) (j start : ℕ) : Type 0 where
  pub entire : IsStored header m bs template whole
  pub stored : IsStored header m bs (template + start) (pending ++ rest)
  pub index : start + length pending ≡ j
  pub left : length whole ≡ j + length rest
  pub small : length whole < 2 ^ 31

module _ (header : ℕ) (m : Mem) (bs : List Block) (template : ℕ) (whole pending : List ℕ)
    (j start : ℕ) where
  IsStored-suffix :
      (rest : List ℕ)
      → IsPlace header m bs template whole pending rest j start
      → IsStored header m bs (template + j) rest
  IsStored-suffix rest place =
      subst (λ a. IsStored header m bs a rest) (omega (arith, place.index))
        (record {
          text = IsText-suffix m (template + start) pending rest (place.stored.text);
          inside = λ x l u.
              place.stored.inside x (omega arith) (omega (arith, length-append pending rest, u));
        })

  -- What the loop reads.
  pub len-IsPlace :
      (rest : List ℕ)
      → IsPlace header m bs template whole pending rest j start
      → len template m ≡ some (length whole)
  len-IsPlace rest place = len-IsText m template whole place.entire.text place.small

  pub load8-IsPlace :
      (rest : List ℕ)
      → IsPlace header m bs template whole pending rest j start
      → load8 m (template + j) ≡ first_letter rest
  load8-IsPlace rest place = IsText-first m (template + j) rest ((IsStored-suffix rest place).text)

  pub load8-IsPlace_next :
      (c : ℕ) (rest : List ℕ)
      → IsPlace header m bs template whole pending (c ∷ rest) j start
      → load8 m (template + (j + 1)) ≡ first_letter rest
  load8-IsPlace_next c rest place =
      rw (next) (IsText-first m (template + j + 1) rest ((IsStored-suffix (c ∷ rest) place).text.2))
    where
      next : template + (j + 1) ≡ template + j + 1
      next = omega arith

  -- The places that the loop goes on to.
  pub IsPlace-plain :
      (c : ℕ) (rest : List ℕ)
      → IsPlace header m bs template whole pending (c ∷ rest) j start
      → IsPlace header m bs template whole (pending ++ (c ∷ [])) rest (j + 1) start
  IsPlace-plain c rest place = record {
    entire = place.entire;
    stored = rw (← append_assoc pending (c ∷ []) rest) at (place.stored);
    index = omega (arith, place.index, length-append pending (c ∷ []));
    left = omega (arith, place.left);
    small = place.small;
  }

  pub IsPlace-stray :
      (c : ℕ) (rest : List ℕ)
      → IsPlace header m bs template whole pending (c ∷ rest) j start
      → IsPlace header m bs template whole (c ∷ []) rest (j + 1) j
  IsPlace-stray c rest place = record {
    entire = place.entire;
    stored = IsStored-suffix (c ∷ rest) place;
    index = refl;
    left = omega (arith, place.left);
    small = place.small;
  }

  pub IsPlace-converted :
      (c d : ℕ) (rest : List ℕ)
      → IsPlace header m bs template whole pending (c ∷ d ∷ rest) j start
      → IsPlace header m bs template whole [] rest (j + 2) (j + 2)
  IsPlace-converted c d rest place = record {
    entire = place.entire;
    stored = behind (IsStored-suffix (c ∷ d ∷ rest) place);
    index = omega arith;
    left = omega (arith, place.left);
    small = place.small;
  }
    where
      behind :
          IsStored header m bs (template + j) (c ∷ d ∷ rest)
          → IsStored header m bs (template + (j + 2)) rest
      behind s =
          subst (λ a. IsStored header m bs a rest) (omega arith)
            (record { text = s.text.2.2; inside = λ x l u. s.inside x (omega arith) (omega arith) })

pub IsPlace-kept :
    (header : ℕ) (m g : Mem) (bs : List Block) (template : ℕ) (whole pending rest : List ℕ)
    (j start : ℕ)
    → IsKept header m bs g
    → IsPlace header m bs template whole pending rest j start
    → IsPlace header g bs template whole pending rest j start
IsPlace-kept header m g bs template whole pending rest j start kept place = record {
  entire = IsStored-kept header m g bs template whole kept place.entire;
  stored = IsStored-kept header m g bs (template + start) (pending ++ rest) kept place.stored;
  index = place.index;
  left = place.left;
  small = place.small;
}
