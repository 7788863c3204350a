-- ===== src/Strings/Positions.antt =====
-- The positions of a character in a text, as the list of its characters has them.
use mathlib.Core.Option
use mush_os.Base.{
  Bool, true, false, ℕ, zero, suc, ◌+◌, ◌^◌, ◌<◌, ◌≡◌, ◌≢◌, refl, sym, ◌∙◌, ap, List, [], ◌∷◌,
  length, some, arith, ◌==◌, ==-false, if◌then◌else◌,
}
use mush_os.Machine.{Mem, load8}
use mush_os.Strings.{
  int_range, Found, at, nowhere, first_pos_from, first_pos, last_pos_from, last_pos,
}
use mush_os.Strings.Text.{IsText, shift, len-IsText}

-- The first and the last position of a character in a list whose first position is `i`.
abbrev pub first_index : (ch i : ℕ) → List ℕ → Found
first_index ch i [] = nowhere
first_index ch i (x ∷ xs) = if x == ch then at i else first_index ch (i + 1) xs

abbrev pub last_index : (ch i : ℕ) → List ℕ → Found → Found
last_index ch i [] before = before
last_index ch i (x ∷ xs) before = last_index ch (i + 1) xs (if x == ch then at i else before)

module _ (m : Mem) (str ch : ℕ) where
  first_pos_from-IsText :
      (fuel i : ℕ) (xs : List ℕ)
      → IsText m (str + i) xs
      → length xs < fuel
      → first_pos_from fuel str i ch m ≡ some (first_index ch i xs)
  unfolding first_pos_from
  first_pos_from-IsText zero i xs t l = absurd (omega arith)
  first_pos_from-IsText (suc fuel) i [] t l = rw (t) refl
  first_pos_from-IsText (suc fuel) i (x ∷ xs) (e, p, t) l =
      rw
        (
          ==-false (load8 m (str + i)) 0 (omega (arith, e, p)),
          e,
          first_pos_from-IsText fuel (i + 1) xs (shift m str i xs t) (omega arith),
        )
        (choose (x == ch))
    where
      choose :
          (b : Bool)
          → (if b then some (at i) else some (first_index ch (i + 1) xs))
            ≡ some (if b then at i else first_index ch (i + 1) xs)
      choose true = refl
      choose false = refl

  -- In a text of fewer than 2^31 characters, `first_pos` finds the first position of the character,
  -- or that it is nowhere.
  pub first_pos-IsText :
      (xs : List ℕ)
      → IsText m str xs
      → length xs < 2 ^ 31
      → first_pos str ch m ≡ some (first_index ch 0 xs)
  unfolding first_pos
  first_pos-IsText xs t l = first_pos_from-IsText int_range 0 xs (rw (start) t) l
    where
      start : str + 0 ≡ str
      start = omega arith

  step :
      (j : ℕ)
      → last_pos_from str (j + 1) ch m
        ≡ (if load8 m (str + (j + 1)) == ch then at (j + 1) else last_pos_from str j ch m)
  unfolding last_pos_from
  step j = rw (next) refl
    where
      next : j + 1 ≡ suc j
      next = omega arith

  text_end : (a : ℕ) (xs : List ℕ) → IsText m a xs → load8 m (a + length xs) ≡ 0
  text_end a [] t = rw (whole) t
    where
      whole : a + 0 ≡ a
      whole = omega arith
  text_end a (x ∷ xs) (e, p, t) = rw (whole) (text_end (a + 1) xs t)
    where
      whole : a + suc (length xs) ≡ a + 1 + length xs
      whole = omega arith

  last_pos_from-IsText :
      (j : ℕ) (xs : List ℕ)
      → IsText m (str + (j + 1)) xs
      → last_pos_from str (j + length xs) ch m ≡ last_index ch (j + 1) xs (last_pos_from str j ch m)
  last_pos_from-IsText j [] t = ap (λ (n : ℕ). last_pos_from str n ch m) (omega arith)
  last_pos_from-IsText j (x ∷ xs) (e, p, t) =
      ap (λ (n : ℕ). last_pos_from str n ch m) whole
      ∙ last_pos_from-IsText (j + 1) xs (shift m str (j + 1) xs t)
      ∙ ap (last_index ch (j + 1 + 1) xs) here
    where
      whole : j + suc (length xs) ≡ j + 1 + length xs
      whole = omega arith

      here :
          last_pos_from str (j + 1) ch m
          ≡ (if x == ch then at (j + 1) else last_pos_from str j ch m)
      here = step j ∙ ap (λ (y : ℕ). if y == ch then at (j + 1) else last_pos_from str j ch m) e

  -- In a text of fewer than 2^31 characters, for a character that is not 0, `last_pos` finds the
  -- last of the character's positions behind the first character, whatever this one is.
  pub last_pos-IsText :
      (x : ℕ) (xs : List ℕ)
      → IsText m str (x ∷ xs)
      → suc (length xs) < 2 ^ 31
      → ch ≢ 0
      → last_pos str ch m ≡ some (last_index ch 1 xs nowhere)
  unfolding last_pos last_pos_from
  last_pos-IsText x xs t l ne =
      ap (Option.map (λ (n : ℕ). last_pos_from str n ch m)) (len-IsText m str (x ∷ xs) t l)
      ∙ ap (λ (n : ℕ). some (last_pos_from str n ch m)) next
      ∙ ap some
          (skipped ∙ last_pos_from-IsText 0 xs (rw (start) t.2) ∙ ap (last_index ch 1 xs) first)
    where
      next : suc (length xs) ≡ length xs + 1
      next = omega arith

      end : load8 m (str + (length xs + 1)) ≡ 0
      end = rw (← next) (text_end str (x ∷ xs) t)

      skipped : last_pos_from str (length xs + 1) ch m ≡ last_pos_from str (0 + length xs) ch m
      skipped =
          step (length xs)
          ∙ rw (end, ==-false 0 ch (λ e. ne (sym e)))
              (ap (λ (n : ℕ). last_pos_from str n ch m) (omega arith))

      start : str + (0 + 1) ≡ str + 1
      start = omega arith

      first : last_pos_from str 0 ch m ≡ nowhere
      first = refl
