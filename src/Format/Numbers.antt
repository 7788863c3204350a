-- ===== src/Format/Numbers.antt =====
-- What the conversions of `format` print of numbers and pointers.
use mush_os.Base.{
  ℕ, ◌+◌, ◌-◌, ◌^◌, ◌≤◌, ◌<◌, ◌≡◌, ◌≢◌, ◌⊎◌, inl, inr, List, [], ◌∷◌, ◌++◌, length, length-append,
  arith, ◌==◌, if◌then◌else◌, leb, Bool-cases, ==→eq,
}
use mush_os.Machine.{Mem}
use mush_os.Machine.Run.{pure}
use mush_os.Heap.{first_address}
use mush_os.Heap.Chain.{Block, IsHeap}
use mush_os.Strings.OnHeap.{IsStored}
use mush_os.Strings.Made.{IsMade, IsPrinted, printed, IsPrinted-of_built, IsPrinted-and_then}
use mush_os.Format.{
  Literals, char_to_string, const_to_string, int_to_string, boolean_to_string, pointer_to_string,
  prefixed, number_to_string, with_base_name, atom_to_char, decimal, hexadecimal, binary,
}
use mush_os.Format.Digits.{value_onto}
use mush_os.Format.OnHeap.{numeral, length-numeral-le, value_onto-numeral, int_to_string-IsBuilt}
use mush_os.Format.Pieces.{char_to_string-IsBuilt, const_to_string-IsBuilt, prefixed-IsPrinted}

-- The texts that the literals stand for.
pub record HasLiterals (header : ℕ) (m : Mem) (bs : List Block) (l : Literals) : Type 0 where
  pub for_true : IsStored header m bs l.true_text (b't' ∷ b'r' ∷ b'u' ∷ b'e' ∷ [])
  pub for_false : IsStored header m bs l.false_text (b'f' ∷ b'a' ∷ b'l' ∷ b's' ∷ b'e' ∷ [])
  pub for_dot : IsStored header m bs l.dot (b'.' ∷ [])
  pub for_minus : IsStored header m bs l.minus (b'-' ∷ [])
  pub for_null : IsStored header m bs l.null_text (b'.' ∷ b'n' ∷ b'u' ∷ b'l' ∷ b'l' ∷ [])
  pub for_hexadecimal : IsStored header m bs l.hexadecimal_prefix (b'0' ∷ b'x' ∷ [])
  pub for_binary : IsStored header m bs l.binary_prefix (b'0' ∷ b'b' ∷ [])

-- The absolute value of a `dword`.
unfoldable pub magnitude : ℕ → ℕ
magnitude num = if leb (2 ^ 31) num then 2 ^ 32 - num else num

unfoldable pub digits_text : (num sys : ℕ) → List ℕ
unfolding magnitude
digits_text num sys = if num == 0 then b'0' ∷ [] else numeral (magnitude num) sys

unfoldable pub prefix_text : ℕ → List ℕ
prefix_text sys =
    if sys == hexadecimal then b'0' ∷ b'x' ∷ [] else if sys == binary then b'0' ∷ b'b' ∷ [] else []

unfoldable pub sign_text : ℕ → List ℕ
sign_text num = if leb (2 ^ 31) num then b'-' ∷ [] else []

-- The values of the enumeration `system`.
abbrev pub IsSystem : ℕ → Type 0
IsSystem sys = (sys ≡ decimal) ⊎ (sys ≡ hexadecimal) ⊎ (sys ≡ binary)

-- A `dword` in a base: a sign, the base's prefix, the digits.
unfoldable pub number_text : (num sys : ℕ) → List ℕ
unfolding digits_text prefix_text sign_text
number_text num sys = sign_text num ++ (prefix_text sys ++ digits_text num sys)

unfoldable pub boolean_text : ℕ → List ℕ
boolean_text b =
    if b == 0 then b'f' ∷ b'a' ∷ b'l' ∷ b's' ∷ b'e' ∷ [] else b't' ∷ b'r' ∷ b'u' ∷ b'e' ∷ []

unfoldable pub pointer_text : ℕ → List ℕ
pointer_text ptr =
    if ptr == 0
    then b'.' ∷ b'n' ∷ b'u' ∷ b'l' ∷ b'l' ∷ []
    else (b'.' ∷ []) ++ numeral ptr hexadecimal

atom_to_char-zero : (sys : ℕ) → 2 ≤ sys → sys ≤ 36 → atom_to_char 0 sys ≡ b'0'
unfolding atom_to_char
atom_to_char-zero sys low high = ground arith

module _ (header : ℕ) (m : Mem) (bs : List Block) (l : Literals) (h : IsHeap header m bs)
    (used : first_address header m ≢ 0) (has : HasLiterals header m bs l) where
  pub boolean_to_string-IsPrinted :
      (b : ℕ) → IsPrinted header m bs (boolean_text b) (boolean_to_string header l b m)
  unfolding boolean_text boolean_to_string
  boolean_to_string-IsPrinted b = elim (Bool-cases (b == 0)) [
    | inl e ↦ rw e (text _ _ has.for_false (omega arith))
    | inr e ↦ rw e (text _ _ has.for_true (omega arith))
  ]
    where
      text :
          (str : ℕ) (xs : List ℕ)
          → IsStored header m bs str xs
          → length xs < 2 ^ 31
          → IsPrinted header m bs xs (const_to_string header str m)
      text str xs s small =
          IsPrinted-of_built header m bs xs h
            (const_to_string-IsBuilt header m bs h used str xs s small)

  int_to_string-IsPrinted :
      (b sys : ℕ)
      → b ≢ 0
      → b < 2 ^ 32
      → 2 ≤ sys
      → sys ≤ 36
      → IsPrinted header m bs (numeral b sys) (int_to_string header b sys m)
  int_to_string-IsPrinted b sys p u low high =
      IsPrinted-of_built header m bs (numeral b sys) h
        ((int_to_string-IsBuilt header m bs h used b sys (omega (arith, p)) u low high).0)

  pub pointer_to_string-IsPrinted :
      (ptr : ℕ)
      → ptr < 2 ^ 32
      → IsPrinted header m bs (pointer_text ptr) (pointer_to_string header l ptr m)
  unfolding pointer_text pointer_to_string prefixed
  pointer_to_string-IsPrinted ptr u = elim (Bool-cases (ptr == 0)) [
    | inl e ↦ rw e (
        IsPrinted-of_built header m bs _ h
          (const_to_string-IsBuilt header m bs h used _ _ has.for_null (omega arith)))
    | inr e ↦ rw e (
        IsPrinted-and_then header m m bs bs (numeral ptr hexadecimal)
          ((b'.' ∷ []) ++ numeral ptr hexadecimal) (prefixed header l l.dot)
          (int_to_string-IsPrinted ptr hexadecimal (ground (arith, e)) u (omega arith)
            (omega arith))
          (omega arith)
          (λ a g made.
            prefixed-IsPrinted header m g bs l l.dot a (b'.' ∷ []) (numeral ptr hexadecimal)
              (has.for_dot) made
              (omega (arith, length-numeral-le ptr hexadecimal (omega arith) (omega arith) u))))
  ]

  -- The first part of `number_to_string`.
  digits-IsPrinted :
      (num sys : ℕ)
      → num < 2 ^ 32
      → 2 ≤ sys
      → sys ≤ 36
      → IsPrinted header m bs (digits_text num sys) (
          (if num == 0
              then char_to_string header (atom_to_char 0 sys)
              else if leb (2 ^ 31) num
              then int_to_string header (2 ^ 32 - num) sys
              else int_to_string header num sys)
            m)
  unfolding digits_text magnitude
  digits-IsPrinted num sys u low high = elim (Bool-cases (num == 0)) [
    | inl e ↦
        rw (e, atom_to_char-zero sys low high)
          (IsPrinted-of_built header m bs (b'0' ∷ []) h
            (char_to_string-IsBuilt header m bs h used b'0' (omega arith) (omega arith)))
    | inr e ↦ elim (Bool-cases (leb (2 ^ 31) num)) [
      | inl n ↦
          rw (e, n)
            (int_to_string-IsPrinted (2 ^ 32 - num) sys (ground (arith, u)) (ground (arith, e, n))
              low high)
      | inr n ↦ rw (e, n) (int_to_string-IsPrinted num sys (ground (arith, e)) u low high)
    ]
  ]

length-digits_text-le :
    (num sys : ℕ) → num < 2 ^ 32 → 2 ≤ sys → sys ≤ 36 → length (digits_text num sys) ≤ 32
unfolding digits_text magnitude
length-digits_text-le num sys u low high = elim (Bool-cases (num == 0)) [
  | inl e ↦ rw e (omega arith)
  | inr e ↦ rw e (length-numeral-le _ sys low high (ground (arith, u)))
]

-- The digits stand for the absolute value.
value_onto-digits_text :
    (num sys : ℕ)
    → num < 2 ^ 32
    → 2 ≤ sys
    → sys ≤ 36
    → value_onto sys 0 (digits_text num sys) ≡ magnitude num
unfolding digits_text magnitude
value_onto-digits_text num sys u low high = elim (Bool-cases (num == 0)) [
  | inl e ↦ rw e (ground (arith, ==→eq num 0 e))
  | inr e ↦ rw e (value_onto-numeral _ sys low high (ground (arith, u)))
]

length-prefix_text-le : (sys : ℕ) → length (prefix_text sys) ≤ 2
unfolding prefix_text
length-prefix_text-le sys = ground arith

module _ (header : ℕ) (m g : Mem) (bs : List Block) (l : Literals) (has : HasLiterals header m bs l)
    (a : ℕ) (text : List ℕ) (made : IsMade header m bs text a g)
    (short : length text + 2 < 2 ^ 31) where
  -- The second part: the prefix of the base.
  based-IsPrinted :
      (sys : ℕ)
      → IsSystem sys
      → IsPrinted header m bs (prefix_text sys ++ text) (
          (if sys == decimal
              then pure a
              else if sys == hexadecimal
              then prefixed header l l.hexadecimal_prefix a
              else if sys == binary
              then prefixed header l l.binary_prefix a
              else with_base_name header l sys a)
            g)
  unfolding prefix_text
  based-IsPrinted sys (inl e) = rw e (printed a g made)
  based-IsPrinted sys (inr (inl e)) = rw e (
      prefixed-IsPrinted header m g bs l l.hexadecimal_prefix a (b'0' ∷ b'x' ∷ []) text
        has.for_hexadecimal made (omega arith))
  based-IsPrinted sys (inr (inr e)) = rw e (
      prefixed-IsPrinted header m g bs l l.binary_prefix a (b'0' ∷ b'b' ∷ []) text has.for_binary
        made (omega arith))

  -- The third part: the sign.
  signed-IsPrinted :
      (num : ℕ)
      → IsPrinted header m bs
          (sign_text num ++ text)
          ((if leb (2 ^ 31) num then prefixed header l l.minus a else pure a) g)
  unfolding sign_text
  signed-IsPrinted num = elim (Bool-cases (leb (2 ^ 31) num)) [
    | inl e ↦ rw e (
        prefixed-IsPrinted header m g bs l l.minus a (b'-' ∷ []) text has.for_minus made
          (omega arith))
    | inr e ↦ rw e (printed a g made)
  ]

module _ (header : ℕ) (m : Mem) (bs : List Block) (l : Literals) (h : IsHeap header m bs)
    (used : first_address header m ≢ 0) (has : HasLiterals header m bs l) where
  number_text-IsPrinted :
      (num sys : ℕ)
      → num < 2 ^ 32
      → 2 ≤ sys
      → sys ≤ 36
      → IsSystem sys
      → IsPrinted header m bs (number_text num sys) (number_to_string header l num sys m)
  unfolding number_text number_to_string
  number_text-IsPrinted num sys u low high base =
      IsPrinted-and_then header m m bs bs (digits_text num sys) (number_text num sys) _
        (digits-IsPrinted header m bs l h used has num sys u low high)
        (omega (
          arith,
          length-append (sign_text num) (prefix_text sys ++ digits_text num sys),
          length-append (prefix_text sys) (digits_text num sys),
        ))
        (λ a g made.
          IsPrinted-and_then header m m bs bs (prefix_text sys ++ digits_text num sys)
            (number_text num sys) _
            (based-IsPrinted header m g bs l has a (digits_text num sys) made
              (omega (arith, length-digits_text-le num sys u low high)) sys base)
            (omega (arith, length-append (sign_text num) (prefix_text sys ++ digits_text num sys)))
            (λ a' g' made'.
              signed-IsPrinted header m g' bs l has a' (prefix_text sys ++ digits_text num sys)
                made'
                (omega (
                  arith,
                  length-digits_text-le num sys u low high,
                  length-prefix_text-le sys,
                  length-append (prefix_text sys) (digits_text num sys),
                ))
                num))

-- On a well-formed heap with blocks and with the literals stored, for a `dword`, which is a word,
-- and a base of the enumeration `system` (10, 16 or 2): `number_to_string` prints a minus for a
-- negative number, the prefix of the base 16 or 2, and digits that stand for the absolute value in
-- the base; or it throws the allocation exception, because by `ralloc`'s count no free space is
-- large enough.
pub number_to_string-IsPrinted :
    (header : ℕ) (m : Mem) (bs : List Block) (l : Literals) (num sys : ℕ)
    → IsHeap header m bs
    → first_address header m ≢ 0
    → HasLiterals header m bs l
    → num < 2 ^ 32
    → IsSystem sys
    → IsPrinted header m bs
        (sign_text num ++ (prefix_text sys ++ digits_text num sys))
        (number_to_string header l num sys m)
      × (value_onto sys 0 (digits_text num sys) ≡ magnitude num)
unfolding number_text
number_to_string-IsPrinted header m bs l num sys h used has u base =
    (number_text-IsPrinted header m bs l h used has num sys u low high base, value)
  where
    low : 2 ≤ sys
    low = omega (arith, base)

    high : sys ≤ 36
    high = omega (arith, base)

    value : value_onto sys 0 (digits_text num sys) ≡ magnitude num
    value = value_onto-digits_text num sys u low high
