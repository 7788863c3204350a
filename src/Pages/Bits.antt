-- ===== src/Pages/Bits.antt =====
-- The bits of a byte: their values before and after one is set or cleared, and the lowest that is
-- free. A byte has few values, so each fact is a table.
use Prim.Native.Nat.{bit_and, bit_or}
use native.Mathlib.Decide.{ℕ_discrete}
use mush_os.Base.{
  lt_or_le, subst, ◌⊎◌, inl, inr, ==-true, ==-false, ℕ, zero, suc, ◌-◌, ◌/◌, ◌%◌, ◌^◌, ◌<◌, ◌≡◌,
  refl, Bool, true, ◌&&◌, ◌||◌, not, arith, ltb, ◌==◌, if◌then◌else◌, ==→eq, &&_iff, ltb→lt, lt→ltb,
}
use mush_os.Pages.{get_free_bit}

-- The bit at `i`.
abbrev pub bit : ℕ → ℕ → ℕ
bit b i = b / 2 ^ i % 2

tabulated : ℕ → (ℕ → Bool) → Bool
tabulated zero p = true
tabulated (suc n) p = p n && tabulated n p

tabulated_at : (n : ℕ) (p : ℕ → Bool) (x : ℕ) → tabulated n p ≡ true → x < n → p x ≡ true
unfolding tabulated
tabulated_at zero p x table inside = absurd (omega arith)
tabulated_at (suc last) p x table inside =
    let (here, below) = &&_iff (p last) (tabulated last p) table in
    elim (lt_or_le x last) [
      | inl l ↦ tabulated_at last p x below l
      | inr l ↦ subst (λ k. p k ≡ true) (omega arith) here
    ]

tabulated₂_at :
    (n k : ℕ) (p : ℕ → ℕ → Bool) (x y : ℕ)
    → tabulated n (λ x. tabulated k (p x)) ≡ true
    → x < n
    → y < k
    → p x y ≡ true
tabulated₂_at n k p x y h l u =
    tabulated_at k (p x) y (tabulated_at n (λ x. tabulated k (p x)) x h l) u

-- Setting a bit leaves the others.
abbrev set_check : ℕ → ℕ → Bool
set_check b i =
    ltb (bit_or b (2 ^ i)) 256
    && tabulated 8 (λ j. bit (bit_or b (2 ^ i)) j == (if j == i then 1 else bit b j))

set_table : tabulated 256 (λ b. tabulated 8 (set_check b)) ≡ true
unfolding tabulated
set_table = refl

pub bit-bit_or :
    (b i j : ℕ)
    → b < 256
    → i < 8
    → j < 8
    → (bit_or b (2 ^ i) < 256) × (bit (bit_or b (2 ^ i)) j ≡ (if j == i then 1 else bit b j))
bit-bit_or b i j hb hi hj =
    let checked = &&_iff _ _ (tabulated₂_at 256 8 set_check b i set_table hb hi) in
    (
      ltb→lt _ _ (checked.0),
      ==→eq _ _ (
          tabulated_at 8 (λ j. bit (bit_or b (2 ^ i)) j == (if j == i then 1 else bit b j)) j
            (checked.1) hj),
    )

-- `get_free_bit` of a byte that is not full is its lowest clear bit.
abbrev free_check : ℕ → Bool
free_check b =
    if b == 255
    then get_free_bit b == 255
    else ltb (get_free_bit b) 8
      && (bit b (get_free_bit b) == 0
          && tabulated 8 (λ j. not (ltb j (get_free_bit b)) || (bit b j == 1)))

free_table : tabulated 256 free_check ≡ true
unfolding tabulated get_free_bit
free_table = refl

-- A full byte has no free bit, and of any other the lowest is found.
pub get_free_bit_cases :
    (b : ℕ)
    → b < 256
    → ((b ≡ 255) × (get_free_bit b ≡ 255))
      ⊎ ((get_free_bit b < 8)
          × (bit b (get_free_bit b) ≡ 0)
          × ((j : ℕ) → j < get_free_bit b → bit b j ≡ 1))
get_free_bit_cases b h = elim (ℕ_discrete b 255) [
  | yes e ↦ inl (e, ==→eq _ _ (rw (==-true b 255 e) at checked))
  | no ne ↦ inr (found (rw (==-false b 255 ne) at checked))
]
  where
    checked : free_check b ≡ true
    checked = tabulated_at 256 free_check b free_table h

    found :
        (ltb (get_free_bit b) 8
            && (bit b (get_free_bit b) == 0
                && tabulated 8 (λ j. not (ltb j (get_free_bit b)) || (bit b j == 1))))
          ≡ true
        → (get_free_bit b < 8)
          × (bit b (get_free_bit b) ≡ 0)
          × ((j : ℕ) → j < get_free_bit b → bit b j ≡ 1)
    found c =
        let (small, more) = &&_iff _ _ c in
        let (clear, below) = &&_iff _ _ more in
        (
          ltb→lt _ _ small,
          ==→eq _ _ clear,
          λ j l. implied j l (
              tabulated_at 8 (λ j. not (ltb j (get_free_bit b)) || (bit b j == 1)) j below
                (omega (arith, ltb→lt _ _ small))),
        )
      where
        implied :
            (j : ℕ)
            → j < get_free_bit b
            → (not (ltb j (get_free_bit b)) || (bit b j == 1)) ≡ true
            → bit b j ≡ 1
        implied j l c = ==→eq _ _ (rw (lt→ltb j (get_free_bit b) l) at c)

pub full_bits : (j : ℕ) → j < 8 → bit 255 j ≡ 1
full_bits j h = ==→eq _ _ (tabulated_at 8 (λ j. bit 255 j == 1) j full_table h)
  where
    full_table : tabulated 8 (λ j. bit 255 j == 1) ≡ true
    full_table = unfold tabulated in refl

-- Clearing a bit leaves the others.
abbrev clear_check : ℕ → ℕ → Bool
clear_check b i =
    ltb (bit_and b (255 - 2 ^ i)) 256
    && tabulated 8 (λ j. bit (bit_and b (255 - 2 ^ i)) j == (if j == i then 0 else bit b j))

clear_table : tabulated 256 (λ b. tabulated 8 (clear_check b)) ≡ true
unfolding tabulated
clear_table = refl

pub bit-bit_and :
    (b i j : ℕ)
    → b < 256
    → i < 8
    → j < 8
    → (bit_and b (255 - 2 ^ i) < 256)
      × (bit (bit_and b (255 - 2 ^ i)) j ≡ (if j == i then 0 else bit b j))
bit-bit_and b i j hb hi hj =
    let checked = &&_iff _ _ (tabulated₂_at 256 8 clear_check b i clear_table hb hi) in
    (
      ltb→lt _ _ (checked.0),
      ==→eq _ _ (
          tabulated_at 8 (λ j. bit (bit_and b (255 - 2 ^ i)) j == (if j == i then 0 else bit b j)) j
            (checked.1) hj),
    )
