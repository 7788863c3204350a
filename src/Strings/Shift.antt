-- ===== src/Strings/Shift.antt =====
-- `move_string_by`: a text is moved down over its first characters.
use native.Mathlib.Decide.{ℕ_discrete}
use mush_os.Base.{
  ℕ, zero, suc, ◌+◌, ◌-◌, ◌^◌, ◌≤◌, ◌<◌, ◌≡◌, ◌≢◌, refl, sym, ◌∙◌, ap, subst, ◌⊎◌, inl, List, [],
  ◌∷◌, ◌++◌, length, length-append, some, arith, ==-true, ==-false,
}
use mush_os.Machine.{Mem, add32, sub32, load8, store8}
use mush_os.Machine.Words.{load8-store8, load8-lt}
use mush_os.Strings.{int_range, move_from, move_string_by}
use mush_os.Strings.Text.{IsText}
use mush_os.Strings.Build.{IsText-frame, IsText-suffix}

-- The byte that is written, and the others.
store8-at : (m : Mem) (a v : ℕ) → v < 256 → load8 (store8 m a v) a ≡ v
store8-at m a v l = load8-store8 m a v a ∙ rw (==-true a a refl) (omega arith)

store8-beside : (m : Mem) (a v x : ℕ) → x ≢ a → load8 (store8 m a v) x ≡ load8 m x
store8-beside m a v x ne = load8-store8 m a v x ∙ rw (==-false x a ne) refl

-- A text at `a`, and the memory as it was but for the text and the byte behind its end.
record IsMoved (m : Mem) (a : ℕ) (xs : List ℕ) (g : Mem) : Type 0 where
  text : IsText g a xs
  kept : (x : ℕ) → (x < a) ⊎ (a + length xs + 2 ≤ x) → load8 g x ≡ load8 m x

module _ (str step : ℕ) (moves : 0 < step) where
  module _ (fuel i : ℕ) (m : Mem) (l : step ≤ i) (u : str + i + 1 < 2 ^ 32) where
    -- One round at the text's end, and one before it.
    move_from-end :
        load8 m (str + i) ≡ 0
        → move_from (suc fuel) str i step m
          ≡ some (store8 (store8 m (str + (i - step)) 0) (str + (i - step) + 1) 0)
    unfolding move_from
    move_from-end e =
        rw (to, from, behind, e, store8-beside m (str + (i - step)) 0 (str + i) (omega arith), e)
          refl
      where
        to : add32 str (sub32 i step) ≡ str + (i - step)
        to = omega arith

        from : add32 str i ≡ str + i
        from = omega arith

        behind : add32 str (add32 (sub32 i step) 1) ≡ str + (i - step) + 1
        behind = omega arith

    move_from-next :
        (x : ℕ)
        → load8 m (str + i) ≡ x
        → 0 < x
        → move_from (suc fuel) str i step m
          ≡ move_from fuel str (i + 1) step (store8 m (str + (i - step)) x)
    unfolding move_from
    move_from-next x e p =
        rw
          (
            to,
            from,
            behind,
            e,
            store8-beside m (str + (i - step)) x (str + i) (omega arith),
            e,
            ==-false x 0 (omega arith),
          )
          refl
      where
        to : add32 str (sub32 i step) ≡ str + (i - step)
        to = omega arith

        from : add32 str i ≡ str + i
        from = omega arith

        behind : add32 i 1 ≡ i + 1
        behind = omega arith

  -- A character is moved, and then the rest.
  longer :
      (fuel i : ℕ) (m : Mem) (x : ℕ) (xs : List ℕ)
      → step ≤ i
      → load8 m (str + i) ≡ x
      → 0 < x
      → str + i + 1 < 2 ^ 32
      → (g : Mem) × (move_from fuel str (i + 1) step (store8 m (str + (i - step)) x) ≡ some g)
        × IsMoved (store8 m (str + (i - step)) x) (str + (i + 1 - step)) xs g
      → (g : Mem) × (move_from (suc fuel) str i step m ≡ some g)
        × IsMoved m (str + (i - step)) (x ∷ xs) g
  longer fuel i m x xs l e p u rest = (
    rest.0,
    move_from-next fuel i m l u x e p ∙ rest.1,
    record {
      text = (
        rest.2.kept (str + (i - step)) (inl (omega arith))
            ∙ store8-at m (str + (i - step)) x (omega (arith, e, load8-lt m (str + i))),
        p,
        subst (λ a. IsText (rest.0) a xs) (omega arith) (rest.2.text),
      );
      kept =
          λ y o. rest.2.kept y (omega arith) ∙ store8-beside m (str + (i - step)) x y (omega arith);
    },
  )

  move_from-IsMoved :
      (fuel i : ℕ) (m : Mem) (xs : List ℕ)
      → step ≤ i
      → IsText m (str + i) xs
      → length xs < fuel
      → str + i + length xs + 1 < 2 ^ 32
      → (g : Mem) × (move_from fuel str i step m ≡ some g) × IsMoved m (str + (i - step)) xs g
  move_from-IsMoved zero i m xs l t f u = absurd (omega arith)
  move_from-IsMoved (suc fuel) i m [] l t f u = (
    store8 (store8 m (str + (i - step)) 0) (str + (i - step) + 1) 0,
    move_from-end fuel i m l (omega arith) t,
    record {
      text =
          store8-beside (store8 m (str + (i - step)) 0) (str + (i - step) + 1) 0 (str + (i - step))
            (omega arith)
          ∙ store8-at m (str + (i - step)) 0 (omega arith);
      kept = λ x o.
          store8-beside (store8 m (str + (i - step)) 0) (str + (i - step) + 1) 0 x (omega arith)
          ∙ store8-beside m (str + (i - step)) 0 x (omega arith);
    },
  )
  move_from-IsMoved (suc fuel) i m (x ∷ xs) l (e, p, t) f u =
      longer fuel i m x xs l e p (omega arith) (
        move_from-IsMoved fuel (i + 1) (store8 m (str + (i - step)) x) xs (omega arith)
          (subst (λ a. IsText (store8 m (str + (i - step)) x) a xs) (omega arith)
            (IsText-frame m (store8 m (str + (i - step)) x) (str + i + 1) xs
              (λ y a b. store8-beside m (str + (i - step)) x y (omega arith)) t))
          (omega arith) (omega arith))

-- Moving a text of fewer than 2^31 characters, which lies in the 32-bit memory, down by the length
-- of its first part, which is not empty, leaves the rest of the text at its address, and changes no
-- byte before or behind the text.
pub move_string_by-IsText :
    (str : ℕ) (m : Mem) (xs ys : List ℕ)
    → 0 < length xs
    → IsText m str (xs ++ ys)
    → length (xs ++ ys) < 2 ^ 31
    → str + length (xs ++ ys) + 1 < 2 ^ 32
    → (g : Mem) × (move_string_by str (length xs) m ≡ some g)
      × IsText g str ys
      × ((x : ℕ) → (x < str) ⊎ (str + length (xs ++ ys) < x) → load8 g x ≡ load8 m x)
unfolding move_string_by
move_string_by-IsText str m xs ys moves t small u = (
  moved.0,
  moved.1,
  subst (λ a. IsText (moved.0) a ys) (omega arith) (moved.2.text),
  λ x o. moved.2.kept x (omega (arith, o, length-append xs ys)),
)
  where
    moved :
        (g : Mem) × (move_from int_range str (length xs) (length xs) m ≡ some g)
        × IsMoved m (str + (length xs - length xs)) ys g
    moved =
        move_from-IsMoved str (length xs) moves int_range (length xs) m ys (omega arith)
          (IsText-suffix m str xs ys t) (omega (arith, length-append xs ys, small))
          (omega (arith, length-append xs ys, u))

-- A round without a step writes a byte over itself.
module _ (str i : ℕ) (m : Mem) where
  same : Mem
  same = store8 m (str + i) (load8 m (str + i))

  load8-same : (x : ℕ) → load8 same x ≡ load8 m x
  unfolding same
  load8-same x = elim (ℕ_discrete x (str + i)) [
    | yes e ↦
        ap (load8 same) e
        ∙ store8-at m (str + i) (load8 m (str + i)) (load8-lt m (str + i))
        ∙ ap (load8 m) (sym e)
    | no ne ↦ store8-beside m (str + i) (load8 m (str + i)) x ne
  ]

  move_from-zero_end :
      (fuel : ℕ)
      → str + i + 1 < 2 ^ 32
      → load8 m (str + i) ≡ 0
      → move_from (suc fuel) str i 0 m ≡ some (store8 same (str + i + 1) 0)
  unfolding move_from same
  move_from-zero_end fuel u e = rw (to, from, behind, load8-same (str + i), e) refl
    where
      to : add32 str (sub32 i 0) ≡ str + i
      to = omega arith

      from : add32 str i ≡ str + i
      from = omega arith

      behind : add32 str (add32 (sub32 i 0) 1) ≡ str + i + 1
      behind = omega arith

  move_from-zero_next :
      (fuel x : ℕ)
      → str + i + 1 < 2 ^ 32
      → load8 m (str + i) ≡ x
      → 0 < x
      → move_from (suc fuel) str i 0 m ≡ move_from fuel str (i + 1) 0 same
  unfolding move_from same
  move_from-zero_next fuel x u e p =
      rw (to, from, behind, load8-same (str + i), e, ==-false x 0 (omega arith)) refl
    where
      to : add32 str (sub32 i 0) ≡ str + i
      to = omega arith

      from : add32 str i ≡ str + i
      from = omega arith

      behind : add32 i 1 ≡ i + 1
      behind = omega arith

-- The byte at an address is 0, and every other one is kept.
record IsZeroed (m : Mem) (a : ℕ) (g : Mem) : Type 0 where
  zeroed : load8 g a ≡ 0
  kept : (x : ℕ) → x ≢ a → load8 g x ≡ load8 m x

move_from-zero :
    (str fuel i end : ℕ) (m : Mem) (xs : List ℕ)
    → IsText m (str + i) xs
    → length xs < fuel
    → end ≡ str + i + length xs + 1
    → end < 2 ^ 32
    → (g : Mem) × (move_from fuel str i 0 m ≡ some g) × IsZeroed m end g
move_from-zero str zero i end m xs t f at u = absurd (omega arith)
move_from-zero str (suc fuel) i end m [] t f at u = (
  store8 (same str i m) (str + i + 1) 0,
  move_from-zero_end str i m fuel (omega (arith, at)) t,
  subst (λ a. IsZeroed m a (store8 (same str i m) (str + i + 1) 0)) (omega (arith, at))
      (record {
        zeroed = store8-at (same str i m) (str + i + 1) 0 (omega arith);
        kept = λ x ne. store8-beside (same str i m) (str + i + 1) 0 x ne ∙ load8-same str i m x;
      }),
)
move_from-zero str (suc fuel) i end m (x ∷ xs) (e, p, t) f at u = further (
    move_from-zero str fuel (i + 1) end (same str i m) xs
      (subst (λ a. IsText (same str i m) a xs) (omega arith)
        (IsText-frame m (same str i m) (str + i + 1) xs (λ y a b. load8-same str i m y) t))
      (omega arith) (omega (arith, at)) u)
  where
    further :
        (g : Mem) × (move_from fuel str (i + 1) 0 (same str i m) ≡ some g)
          × IsZeroed (same str i m) end g
        → (g : Mem) × (move_from (suc fuel) str i 0 m ≡ some g) × IsZeroed m end g
    further rest = (
      rest.0,
      move_from-zero_next str i m fuel x (omega (arith, at)) e p ∙ rest.1,
      record { zeroed = rest.2.zeroed; kept = λ y ne. rest.2.kept y ne ∙ load8-same str i m y },
    )

-- Moving a text of fewer than 2^31 characters, which ends before the last byte of the 32-bit
-- memory, by 0 keeps the text, but overwrites the byte behind its end.
pub move_string_by-zero :
    (str : ℕ) (m : Mem) (xs : List ℕ)
    → IsText m str xs
    → length xs < 2 ^ 31
    → str + length xs + 1 < 2 ^ 32
    → (g : Mem) × (move_string_by str 0 m ≡ some g)
      × (load8 g (str + length xs + 1) ≡ 0)
      × ((x : ℕ) → x ≢ str + length xs + 1 → load8 g x ≡ load8 m x)
unfolding move_string_by
move_string_by-zero str m xs t small u = (moved.0, moved.1, moved.2.zeroed, moved.2.kept)
  where
    moved :
        (g : Mem) × (move_from int_range str 0 0 m ≡ some g) × IsZeroed m (str + length xs + 1) g
    moved =
        move_from-zero str int_range 0 (str + length xs + 1) m xs
          (subst (λ a. IsText m a xs) (omega arith) t) small (omega arith) u
