-- ===== src/Strings/Text.antt =====
-- What the functions on texts compute of the lists of their characters.
use mush_os.Base.{
  ℕ, zero, suc, ◌+◌, ◌^◌, ◌<◌, ◌≡◌, refl, ◌∙◌, ap, List, [], ◌∷◌, length, Bool, true, false, some,
  arith, ◌==◌, ==-false, if◌then◌else◌,
}
use mush_os.Machine.{Mem, load8}
use mush_os.Strings.{int_range, len_from, len, equals_from, equals}

-- From `str` on, the memory holds the characters and then a zero.
abbrev pub IsText : Mem → ℕ → List ℕ → Type 0
IsText m str [] = load8 m str ≡ 0
IsText m str (x ∷ xs) = (load8 m str ≡ x) × (0 < x) × IsText m (str + 1) xs

-- Whether two texts have the same characters.
abbrev pub same_text : List ℕ → List ℕ → Bool
same_text [] [] = true
same_text [] (y ∷ ys) = false
same_text (x ∷ xs) [] = false
same_text (x ∷ xs) (y ∷ ys) = if x == y then same_text xs ys else false

module _ (m : Mem) where
  pub shift : (a i : ℕ) (xs : List ℕ) → IsText m (a + i + 1) xs → IsText m (a + (i + 1)) xs
  shift a i xs h = rw (next) h
    where
      next : a + (i + 1) ≡ a + i + 1
      next = omega arith

  len_from-IsText :
      (fuel str i : ℕ) (xs : List ℕ)
      → IsText m (str + i) xs
      → length xs < fuel
      → len_from fuel str i m ≡ some (i + length xs)
  unfolding len_from
  len_from-IsText zero str i xs h f = absurd (omega arith)
  len_from-IsText (suc fuel) str i [] h f = rw (h) (ap some (omega arith))
  len_from-IsText (suc fuel) str i (x ∷ xs) (e, p, h) f =
      rw (==-false (load8 m (str + i)) 0 (omega (arith, e, p))) (
        len_from-IsText fuel str (i + 1) xs (shift str i xs h) (omega arith)
        ∙ ap some (omega arith))

  equals_from-IsText :
      (fuel str1 str2 i : ℕ) (xs ys : List ℕ)
      → IsText m (str1 + i) xs
      → IsText m (str2 + i) ys
      → length xs < fuel
      → equals_from fuel str1 str2 i m ≡ some (same_text xs ys)
  unfolding equals_from
  equals_from-IsText zero str1 str2 i xs ys h g f = absurd (omega arith)
  equals_from-IsText (suc fuel) str1 str2 i [] [] h g f = rw (h, g) refl
  equals_from-IsText (suc fuel) str1 str2 i [] (y ∷ ys) h (e, p, g) f =
      rw (h, ==-false (load8 m (str2 + i)) 0 (omega (arith, e, p))) refl
  equals_from-IsText (suc fuel) str1 str2 i (x ∷ xs) [] (e, p, h) g f =
      rw (==-false (load8 m (str1 + i)) 0 (omega (arith, e, p)), g) refl
  equals_from-IsText (suc fuel) str1 str2 i (x ∷ xs) (y ∷ ys) (e, p, h) (e', p', g) f =
      rw
        (
          ==-false (load8 m (str1 + i)) 0 (omega (arith, e, p)),
          ==-false (load8 m (str2 + i)) 0 (omega (arith, e', p')),
          e,
          e',
          equals_from-IsText fuel str1 str2 (i + 1) xs ys (shift str1 i xs h) (shift str2 i ys g)
              (omega arith),
        )
        (choose (x == y))
    where
      choose :
          (b : Bool)
          → (if b then some (same_text xs ys) else some false)
            ≡ some (if b then same_text xs ys else false)
      choose true = refl
      choose false = refl

  -- The length of a text in memory, of fewer than 2^31 characters, is found.
  pub len-IsText :
      (str : ℕ) (xs : List ℕ) → IsText m str xs → length xs < 2 ^ 31 → len str m ≡ some (length xs)
  unfolding len
  len-IsText str xs h l = rw (whole) (len_from-IsText int_range str 0 xs (rw (start) h) l)
    where
      start : str + 0 ≡ str
      start = omega arith

      whole : some (length xs) ≡ some (0 + length xs)
      whole = ap some (omega arith)

  -- Two texts in memory are compared, if the first has fewer than 2^31 characters: the answer is
  -- whether they have the same characters.
  pub equals-IsText :
      (str1 str2 : ℕ) (xs ys : List ℕ)
      → IsText m str1 xs
      → IsText m str2 ys
      → length xs < 2 ^ 31
      → equals str1 str2 m ≡ some (same_text xs ys)
  unfolding equals
  equals-IsText str1 str2 xs ys h g l =
      equals_from-IsText int_range str1 str2 0 xs ys (rw (start str1) h) (rw (start str2) g) l
    where
      start : (str : ℕ) → str + 0 ≡ str
      start str = omega arith
