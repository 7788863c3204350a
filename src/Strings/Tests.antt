-- ===== src/Strings/Tests.antt =====
-- Texts at concrete addresses.
use mush_os.Base.{ℕ, ◌<◌, ◌≡◌, ◌≢◌, ◌⊎◌, refl, List, [], ◌∷◌, some, arith, ◌==◌, if◌then◌else◌}
use mush_os.Machine.{Mem, load8}
use mush_os.Strings.{equals, nowhere, last_pos, move_string_by}
use mush_os.Strings.Text.{same_text, equals-IsText}
use mush_os.Strings.Text.{IsText}
use mush_os.Strings.Shift.{move_string_by-IsText, move_string_by-zero}
use mush_os.Strings.Positions.{last_index, last_pos-IsText}

-- "hi" at 100 and "ho" at 200.
abbrev texts : Mem
texts x =
    if x == 100
    then 104
    else if x == 101
    then 105
    else if x == 200
    then 104
    else if x == 201
    then 111
    else 0

abbrev hi : List ℕ
hi = 104 ∷ 105 ∷ []

hi-IsText : IsText texts 100 hi
unfolding load8
hi-IsText = (refl, omega arith, (refl, omega arith, refl))

ho-IsText : IsText texts 200 (104 ∷ 111 ∷ [])
unfolding load8
ho-IsText = (refl, omega arith, (refl, omega arith, refl))

equals-IsText_example : equals 100 200 texts ≡ some (same_text (104 ∷ 105 ∷ []) (104 ∷ 111 ∷ []))
equals-IsText_example =
    equals-IsText texts 100 200 (104 ∷ 105 ∷ []) (104 ∷ 111 ∷ []) hi-IsText ho-IsText (omega arith)

-- The only "h" is the first character, and is not found.
last_pos-IsText_example : last_pos 100 104 texts ≡ some (last_index 104 1 (105 ∷ []) nowhere)
last_pos-IsText_example =
    last_pos-IsText texts 100 104 104 (105 ∷ []) hi-IsText (omega arith) (omega arith)

-- "hi" without its first character.
move_string_by-IsText_example :
    (g : Mem) × (move_string_by 100 1 texts ≡ some g)
    × IsText g 100 (105 ∷ [])
    × ((x : ℕ) → (x < 100) ⊎ (102 < x) → load8 g x ≡ load8 texts x)
move_string_by-IsText_example =
    move_string_by-IsText 100 texts (104 ∷ []) (105 ∷ []) (omega arith) hi-IsText (omega arith)
      (omega arith)

move_string_by-zero_example :
    (g : Mem) × (move_string_by 100 0 texts ≡ some g)
    × (load8 g 103 ≡ 0)
    × ((x : ℕ) → x ≢ 103 → load8 g x ≡ load8 texts x)
move_string_by-zero_example = move_string_by-zero 100 texts hi hi-IsText (omega arith) (omega arith)
