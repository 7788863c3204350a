-- ===== src/Format/Numeral.antt =====
-- What `int_to_string` writes is the number's numeral.
use mush_os.Base.{
  ℕ, zero, suc, ◌+◌, ◌-◌, ◌/◌, ◌%◌, ◌^◌, ◌≤◌, ◌<◌, ◌≡◌, refl, ◌∙◌, ◌⊎◌, inl, inr, List, [], ◌∷◌,
  length, Option, some, arith, ◌==◌, ==-true, ==-false, Bool-cases,
}
use mush_os.Machine.{Mem, sub32, load8, store8}
use mush_os.Machine.Words.{load8-store8}
use mush_os.Strings.Text.{IsText}
use mush_os.Strings.Build.{IsText-frame}
use mush_os.Format.{atom_to_char, write_digits}
use mush_os.Format.Digits.{spell, atom_to_char_bounds, length-spell, smaller, digit-lt}

-- What the second loop leaves: `count` digits below `power` more in front of a text, which is
-- then `text`, and no other byte changed.
pub data IsWritten (result : ℕ) (m : Mem) (power count : ℕ) (text : List ℕ)
    : Option Mem → Type 0 where
  written :
      (start : ℕ) (g : Mem)
      → start + count ≡ power
      → IsText g (result + start) text
      → ((x : ℕ) → (x < result + start) ⊎ (result + power ≤ x) → load8 g x ≡ load8 m x)
      → IsWritten result m power count text (some g)

module _ (sys : ℕ) (low : 2 ≤ sys) (high : sys ≤ 36) (result : ℕ) where
  -- A digit before a text.
  IsText-digit :
      (m : Mem) (power n : ℕ) (rest : List ℕ)
      → 0 < power
      → IsText m (result + power) rest
      → IsText
          (store8 m (result + (power - 1)) (atom_to_char (n % sys) sys))
          (result + (power - 1))
          (atom_to_char (n % sys) sys ∷ rest)
  IsText-digit m power n rest p h = (
    load8-store8 m (result + (power - 1)) (atom_to_char (n % sys) sys) (result + (power - 1))
        ∙ rw (==-true (result + (power - 1)) (result + (power - 1)) refl) (omega (arith, digit)),
    digit.0,
    rw (next) (
        IsText-frame m (store8 m (result + (power - 1)) (atom_to_char (n % sys) sys))
          (result + power) rest
          (λ x l u.
            load8-store8 m (result + (power - 1)) (atom_to_char (n % sys) sys) x
            ∙ rw (==-false x (result + (power - 1)) (omega arith)) refl)
          h),
  )
    where
      digit : (0 < atom_to_char (n % sys) sys) × (atom_to_char (n % sys) sys < 256)
      digit = atom_to_char_bounds sys low high (n % sys) (digit-lt sys low high n)

      next : result + (power - 1) + 1 ≡ result + power
      next = omega arith

  -- One more digit below.
  IsWritten-digit :
      (m : Mem) (power count c : ℕ) (text : List ℕ) (r : Option Mem)
      → 0 < power
      → IsWritten result (store8 m (result + (power - 1)) c) (power - 1) count text r
      → IsWritten result m power (1 + count) text r
  IsWritten-digit m power count c text r p (written start g e t same) =
      written start g (omega arith) t (λ x o.
        same x (omega arith)
        ∙ load8-store8 m (result + (power - 1)) c x
        ∙ rw (==-false x (result + (power - 1)) (omega (arith, e))) refl)

  pub write_digits-IsWritten :
      (k n power : ℕ) (m : Mem) (rest : List ℕ)
      → n < 2 ^ k
      → length (spell k n sys []) ≤ power
      → power < 2 ^ 32
      → IsText m (result + power) rest
      → IsWritten result m power
          (length (spell k n sys []))
          (spell k n sys rest)
          (write_digits (suc k) result power n sys m)
  unfolding write_digits
  write_digits-IsWritten zero n power m rest h l u t =
      rw (==-true n 0 (omega arith)) (written power m (omega arith) t (λ x o. refl))
  write_digits-IsWritten (suc k) n power m rest h l u t = elim (Bool-cases (n == 0)) [
    | inl e ↦ rw e (written power m (omega arith) t (λ x o. refl))
    | inr e ↦
        rw (e, counted, minus (rw (e, counted) at l))
          (IsWritten-digit m power (length (spell k (n / sys) sys [])) c
            (spell k (n / sys) sys (c ∷ rest)) _ (positive (rw (e, counted) at l))
            (write_digits-IsWritten k (n / sys) (power - 1) (store8 m (result + (power - 1)) c)
              (c ∷ rest) (smaller sys low high n k h) (omega (arith, rw (e, counted) at l))
              (omega arith) (IsText-digit m power n rest (positive (rw (e, counted) at l)) t)))
  ]
    where
      c : ℕ
      c = atom_to_char (n % sys) sys

      counted : length (spell k (n / sys) sys (c ∷ [])) ≡ 1 + length (spell k (n / sys) sys [])
      counted = length-spell sys low high k (n / sys) (c ∷ [])

      positive : 1 + length (spell k (n / sys) sys []) ≤ power → 0 < power
      positive h = omega arith

      minus : 1 + length (spell k (n / sys) sys []) ≤ power → sub32 power 1 ≡ power - 1
      minus h = omega arith
