-- ===== src/Format/Digits.antt =====
-- The digits of a number: how many the first loop of `int_to_string` counts, and which the second
-- one writes.
use native.Mathlib.Nat.{div-div-eq-div-mul, div-lt_iff_lt-mul, div-add-mod, div-le_self, pow-succ'}
use mush_os.Base.{
  ℕ, zero, suc, ◌+◌, ◌-◌, ◌*◌, ◌/◌, ◌%◌, ◌^◌, ◌≤◌, ◌<◌, ◌≡◌, ◌≢◌, refl, sym, ap, ◌∙◌, inl, inr,
  List, [], ◌∷◌, length, some, arith, ltb, ◌==◌, ==-true, ==-false, Bool-cases, if◌then◌else◌,
  lt_or_le, le→leb, lt→leb-false, ==→eq,
}
use mush_os.Format.{atom_to_char, count_digits}

-- The digits of `n` in base `sys` in front of the given ones, for fuel from the length on.
abbrev pub spell : ℕ → (n sys : ℕ) → List ℕ → List ℕ
spell zero n sys rest = rest
spell (suc fuel) n sys rest =
    let more = spell fuel (n / sys) sys (atom_to_char (n % sys) sys ∷ rest) in
    if n == 0 then rest else more

-- What a digit stands for, and a text of digits behind a number.
abbrev pub digit_value : ℕ → ℕ
digit_value c = if ltb c 58 then c - 48 else c - 55

abbrev pub value_onto : (sys n : ℕ) → List ℕ → ℕ
value_onto sys n [] = n
value_onto sys n (c ∷ cs) = value_onto sys (n * sys + digit_value c) cs

module _ (sys : ℕ) (low : 2 ≤ sys) (high : sys ≤ 36) where
  digit_value-atom_to_char : (d : ℕ) → d < sys → digit_value (atom_to_char d sys) ≡ d
  unfolding atom_to_char
  digit_value-atom_to_char d h = ground arith

  half : (n k : ℕ) → n < 2 * k → n / sys < k
  half n k h = (div-lt_iff_lt-mul {k = sys} {x = n} {y = k} (omega arith)).1 (grind arith)

  pub digit-lt : (n : ℕ) → n % sys < sys
  digit-lt n = grind arith

  doubled : (n k : ℕ) → n < 2 ^ suc k → n < 2 * 2 ^ k
  doubled n k h = simp pow-succ' at h

  pub smaller : (n k : ℕ) → n < 2 ^ suc k → n / sys < 2 ^ k
  smaller n k h = half n (2 ^ k) (doubled n k h)

  -- The digits stand for the number.
  pub value_onto-spell :
      (fuel n : ℕ) (rest : List ℕ)
      → n < 2 ^ fuel
      → value_onto sys 0 (spell fuel n sys rest) ≡ value_onto sys n rest
  value_onto-spell zero n rest h = ap (λ k. value_onto sys k rest) (omega arith)
  value_onto-spell (suc fuel) n rest h = elim (Bool-cases (n == 0)) [
    | inl e ↦ rw e (ap (λ k. value_onto sys k rest) (sym (==→eq n 0 e)))
    | inr e ↦ rw e (
        value_onto-spell fuel (n / sys) (atom_to_char (n % sys) sys ∷ rest) (smaller n fuel h)
        ∙ ap (λ k. value_onto sys k rest) (whole n))
  ]
    where
      whole : (n : ℕ) → n / sys * sys + digit_value (atom_to_char (n % sys) sys) ≡ n
      whole n =
          rw (digit_value-atom_to_char (n % sys) (digit-lt n)) (grind (arith, div-add-mod n sys))

  pub length-spell :
      (fuel n : ℕ) (rest : List ℕ)
      → length (spell fuel n sys rest) ≡ length rest + length (spell fuel n sys [])
  length-spell zero n rest = omega arith
  length-spell (suc fuel) n rest = elim (Bool-cases (n == 0)) [
    | inl e ↦ rw e (omega arith)
    | inr e ↦ rw e (
        omega (
          arith,
          length-spell fuel (n / sys) (atom_to_char (n % sys) sys ∷ rest),
          length-spell fuel (n / sys) (atom_to_char (n % sys) sys ∷ []),
        ))
  ]

  none_left : (b mult : ℕ) → 0 < mult → b < mult → b / mult ≡ 0
  none_left b mult p l =
      omega (arith, (div-lt_iff_lt-mul {k = mult} {x = b} {y = 1} p).1 (omega arith))

  some_left : (b mult : ℕ) → 0 < mult → mult ≤ b → b / mult ≢ 0
  some_left b mult p l e =
      absurd (omega (arith, (div-lt_iff_lt-mul {k = mult} {x = b} {y = 1} p).0 (omega (arith, e))))

  no_overflow : (mult b : ℕ) → mult ≤ b → b < 2 ^ 32 → mult * sys % 2 ^ 64 ≡ mult * sys
  no_overflow mult b l u = grind arith

  -- The first loop counts the digits of what is left of `b`; its 64 bits do not overflow.
  count_digits-length :
      (k mult power b : ℕ)
      → 0 < mult
      → b < 2 ^ 32
      → b / mult < 2 ^ k
      → count_digits (suc k) mult power b sys ≡ some (power + length (spell k (b / mult) sys []))
  unfolding count_digits
  count_digits-length zero mult power b p u h =
      rw (lt→leb-false mult b (omega (arith, (div-lt_iff_lt-mul {k = mult} {x = b} {y = 1} p).0 h)))
        (ap some (omega arith))
  count_digits-length (suc k) mult power b p u h = elim (lt_or_le b mult) [
    | inl l ↦
        rw (lt→leb-false mult b l, ==-true (b / mult) 0 (none_left b mult p l))
          (ap some (omega arith))
    | inr l ↦
        rw (le→leb mult b l, no_overflow mult b l u, ==-false (b / mult) 0 (some_left b mult p l))
          (count_digits-length k (mult * sys) (power + 1) b (grind arith) u
              (rw (next) (smaller (b / mult) k h))
            ∙ ap some (omega (arith, counted)))
  ]
    where
      next : b / (mult * sys) ≡ b / mult / sys
      next = sym (div-div-eq-div-mul b mult sys)

      counted :
          length (spell k (b / mult / sys) sys (atom_to_char (b / mult % sys) sys ∷ []))
          ≡ 1 + length (spell k (b / (mult * sys)) sys [])
      counted = rw next (length-spell k (b / mult / sys) (atom_to_char (b / mult % sys) sys ∷ []))

  -- Digits are no zeros, and fit a byte.
  pub atom_to_char_bounds :
      (d : ℕ) → d < sys → (0 < atom_to_char d sys) × (atom_to_char d sys < 256)
  unfolding atom_to_char
  atom_to_char_bounds d h = ground arith

  -- More fuel makes no difference.
  spell_enough :
      (k n : ℕ) (rest : List ℕ) → n < 2 ^ k → spell (suc k) n sys rest ≡ spell k n sys rest
  spell_enough zero n rest h = rw (==-true n 0 (omega arith)) refl
  spell_enough (suc k) n rest h = elim (Bool-cases (n == 0)) [
    | inl e ↦ rw e refl
    | inr e ↦ rw e (spell_enough k (n / sys) (atom_to_char (n % sys) sys ∷ rest) (smaller n k h))
  ]

  -- What the first loop finds is the length of the numeral.
  pub count_digits-numeral :
      (k b : ℕ)
      → 0 < b
      → b < 2 ^ 32
      → b < 2 ^ k
      → count_digits (suc k) sys 1 b sys ≡ some (length (spell k b sys []))
  count_digits-numeral k b p u h =
      count_digits-length k sys 1 b (omega arith) u (grind (arith, div-le_self b sys))
      ∙ ap some counted
    where
      counted : 1 + length (spell k (b / sys) sys []) ≡ length (spell k b sys [])
      counted =
          sym (length-spell k (b / sys) (atom_to_char (b % sys) sys ∷ []))
          ∙ (rw (==-false b 0 (omega arith)) at (ap length (spell_enough k b [] h)))

  pub length-spell-le : (k n : ℕ) (rest : List ℕ) → length (spell k n sys rest) ≤ k + length rest
  length-spell-le zero n rest = omega arith
  length-spell-le (suc k) n rest = elim (Bool-cases (n == 0)) [
    | inl e ↦ rw e (omega arith)
    | inr e ↦ rw e (omega (arith, length-spell-le k (n / sys) (atom_to_char (n % sys) sys ∷ rest)))
  ]
