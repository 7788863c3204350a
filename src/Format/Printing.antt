-- ===== src/Format/Printing.antt =====
-- The loop of `format` prints what its template renders to.
use mathlib.Core.List.{append_assoc, append-nil}
use mush_os.Base.{
  ℕ, zero, suc, ◌+◌, ◌^◌, ◌≤◌, ◌<◌, ◌≡◌, refl, sym, ap, subst, ◌∙◌, List, [], ◌∷◌, ◌++◌, length,
  length-append, arith, ==-false, lt→ltb, le→ltb-false,
}
use mush_os.Machine.{Mem}
use mush_os.Machine.Run.{and_then}
use mush_os.Heap.Chain.{Block}
use mush_os.Heap.Insert.{insert}
use mush_os.Strings.{substring_mid, substring_beg}
use mush_os.Strings.Copies.{substring_mid-IsBuilt}
use mush_os.Strings.Made.{
  IsMade, IsPrinted, IsPrinted-of_built, IsStored-insert, first_address-insert,
}
use mush_os.Format.{
  Literals, Precise, Conversion, width, convert, format_loop, on_letter, free_concat,
}
use mush_os.Format.Joined.{IsPrinted-free_concat, IsPrinted-last_free_concat}
use mush_os.Format.Numbers.{HasLiterals}
use mush_os.Format.Rendering.{
  Shows, Renders, finished, plain, stray, converted, IsArgument, Shows-kept, Shows-insert,
  HasLiterals-kept, HasLiterals-insert, convert-IsPrinted,
}
use mush_os.Format.Place.{
  IsPlace, len-IsPlace, load8-IsPlace, load8-IsPlace_next, IsPlace-plain, IsPlace-stray,
  IsPlace-converted, IsPlace-kept,
}

-- A part of a text is no longer than the text.
part-length :
    (acc xs ys final : List ℕ) → acc ++ (xs ++ ys) ≡ final → length (acc ++ xs) ≤ length final
part-length acc xs ys final e =
    omega
      (arith, ap length e, length-append acc (xs ++ ys), length-append xs ys, length-append acc xs)

module _ (header : ℕ) (l : Literals) (p : Precise) (m : Mem) (bs : List Block) (template ebp : ℕ)
    (has : HasLiterals header m bs l) where
  module _ (whole pending acc : List ℕ) (j start result : ℕ) (g : Mem)
      (made : IsMade header m bs acc result g) where
    cs : List Block
    cs = insert (result, length acc + 1) bs

    -- What is read and not yet printed is copied to the heap.
    pending-IsPrinted :
        (rest : List ℕ)
        → IsPlace header m bs template whole pending rest j start
        → IsPrinted header g cs pending (substring_mid header template start j g)
    unfolding cs
    pending-IsPrinted rest place = IsPrinted-of_built header g cs pending made.heap (
        substring_mid-IsBuilt header g cs (template + start) pending rest made.heap
          (first_address-insert header g result (length acc + 1) bs made.heap) start j template refl
          (sym (place.index)) (omega (arith, place.left, place.small))
          (IsStored-insert header g bs (template + start) (pending ++ rest) result (length acc + 1)
            (here.stored)))
      where
        here : IsPlace header g bs template whole pending rest j start
        here = IsPlace-kept header m g bs template whole pending rest j start made.kept place

    rest-IsPrinted :
        IsPlace header m bs template whole pending [] j start
        → IsPrinted header g cs pending (substring_beg header template start g)
    unfolding substring_beg cs
    rest-IsPrinted place =
        rw (len-IsPlace header g bs template whole pending j start [] here, stop)
          (pending-IsPrinted [] place)
      where
        here : IsPlace header g bs template whole pending [] j start
        here = IsPlace-kept header m g bs template whole pending [] j start made.kept place

        stop : length whole ≡ j
        stop = omega (arith, place.left)

    -- An argument's text is made beside the result.
    shown-IsPrinted :
        (at : ℕ) (v : Conversion) (shown : List ℕ)
        → IsArgument header m bs at
        → Shows header m bs at v shown
        → length shown < 2 ^ 31
        → IsPrinted header g cs shown (convert header l p v at g)
    unfolding cs
    shown-IsPrinted at v shown arg s small =
        convert-IsPrinted header g cs l p at made.heap
          (first_address-insert header g result (length acc + 1) bs made.heap)
          (HasLiterals-insert header g bs l result (length acc + 1)
            (HasLiterals-kept header m g bs l made.kept has))
          v shown small
          (Shows-insert header g bs at result (length acc + 1) v shown
            (Shows-kept header m g bs at made.kept arg v shown s))

  pub format_loop-IsPrinted :
      (fuel : ℕ) (whole pending rest acc out final : List ℕ) (j start argumentor result : ℕ)
      (g : Mem)
      → length rest < fuel
      → IsPlace header m bs template whole pending rest j start
      → IsMade header m bs acc result g
      → Renders header m bs rest (ebp + 8 + argumentor) out
      → acc ++ (pending ++ out) ≡ final
      → length final < 2 ^ 31
      → IsPrinted header m bs final
          (format_loop header l p fuel template ebp j start argumentor result g)
  unfolding format_loop on_letter cs
  format_loop-IsPrinted zero whole pending rest acc out final j start argumentor result g f place
        made r e small =
      absurd (omega arith)
  format_loop-IsPrinted (suc fuel) whole pending [] acc out final j start argumentor result g f
        place made (finished at) e small =
      rw
        (
          len-IsPlace header g bs template whole pending j start [] here,
          le→ltb-false j (length whole) (omega (arith, place.left)),
        )
        (subst
          (λ xs.
            IsPrinted header m bs xs
              (and_then (substring_beg header template start g) (free_concat header result)))
          (ap (λ xs. acc ++ xs) (sym (append-nil pending)) ∙ e)
          (IsPrinted-last_free_concat header m g bs acc pending result made
            (rest-IsPrinted whole pending acc j start result g made place)
            (omega (arith, part-length acc pending [] final e))))
    where
      here : IsPlace header g bs template whole pending [] j start
      here = IsPlace-kept header m g bs template whole pending [] j start made.kept place
  format_loop-IsPrinted (suc fuel) whole pending (c ∷ rest) acc out final j start argumentor result
        g f place made (plain c' at cs' out' ne r) e small =
      rw
        (
          len-IsPlace header g bs template whole pending j start (c ∷ rest) here,
          load8-IsPlace header g bs template whole pending j start (c ∷ rest) here,
          lt→ltb j (length whole) (omega (arith, place.left)),
          ==-false c b'%' ne,
        )
        (format_loop-IsPrinted fuel whole (pending ++ (c ∷ [])) rest acc out' final (j + 1) start
          argumentor result g (omega arith)
          (IsPlace-plain header m bs template whole pending j start c rest place) made r
          (ap (λ xs. acc ++ xs) (append_assoc pending (c ∷ []) out') ∙ e) small)
    where
      here : IsPlace header g bs template whole pending (c ∷ rest) j start
      here = IsPlace-kept header m g bs template whole pending (c ∷ rest) j start made.kept place
  format_loop-IsPrinted (suc fuel) whole pending (c ∷ rest) acc out final j start argumentor result
        g f place made (stray at cs' out' none_here r) e small =
      rw
        (
          len-IsPlace header g bs template whole pending j start (c ∷ rest) here,
          load8-IsPlace header g bs template whole pending j start (c ∷ rest) here,
          lt→ltb j (length whole) (omega (arith, place.left)),
        )
        (IsPrinted-free_concat header m g bs acc pending final result _ made
          (pending-IsPrinted whole pending acc j start result g made (c ∷ rest) place)
          (part-length acc pending out final e) small
          (λ a g' made'.
            rw
              (
                load8-IsPlace_next header g' bs template whole pending j start b'%' rest (
                    IsPlace-kept header m g' bs template whole pending (b'%' ∷ rest) j start
                      made'.kept place),
                none_here,
              )
              (format_loop-IsPrinted fuel whole (b'%' ∷ []) rest (acc ++ pending) out' final (j + 1)
                j argumentor a g' (omega arith)
                (IsPlace-stray header m bs template whole pending j start b'%' rest place) made' r
                (append_assoc acc pending (b'%' ∷ out') ∙ e) small)))
    where
      here : IsPlace header g bs template whole pending (c ∷ rest) j start
      here = IsPlace-kept header m g bs template whole pending (c ∷ rest) j start made.kept place
  format_loop-IsPrinted (suc fuel) whole pending (c ∷ d ∷ rest) acc out final j start argumentor
        result g f place made (converted c' at cs' shown out' v is arg s r) e small =
      rw
        (
          len-IsPlace header g bs template whole pending j start (c ∷ d ∷ rest) here,
          load8-IsPlace header g bs template whole pending j start (c ∷ d ∷ rest) here,
          lt→ltb j (length whole) (omega (arith, place.left)),
        )
        (IsPrinted-free_concat header m g bs acc pending final result _ made
          (pending-IsPrinted whole pending acc j start result g made (c ∷ d ∷ rest) place)
          (part-length acc pending out final e) small
          (λ a g' made'.
            rw
              (
                load8-IsPlace_next header g' bs template whole pending j start c (d ∷ rest) (
                    IsPlace-kept header m g' bs template whole pending (c ∷ d ∷ rest) j start
                      made'.kept place),
                is,
              )
              (IsPrinted-free_concat header m g' bs (acc ++ pending) shown final a _ made'
                (shown-IsPrinted whole pending (acc ++ pending) j start a g' made' at v shown arg s
                  (omega (
                    arith,
                    part-length (acc ++ pending) shown out' final together,
                    length-append (acc ++ pending) shown,
                    small,
                  )))
                (part-length (acc ++ pending) shown out' final together) small
                (λ b g'' made''.
                  format_loop-IsPrinted fuel whole [] rest ((acc ++ pending) ++ shown) out' final
                    (j + 2) (j + 2) (argumentor + width v) b g'' (omega arith)
                    (IsPlace-converted header m bs template whole pending j start c d rest place)
                    made'' (rw (next) at r) (append_assoc (acc ++ pending) shown out' ∙ together)
                    small))))
    where
      here : IsPlace header g bs template whole pending (c ∷ d ∷ rest) j start
      here =
          IsPlace-kept header m g bs template whole pending (c ∷ d ∷ rest) j start made.kept place

      together : (acc ++ pending) ++ (shown ++ out') ≡ final
      together = append_assoc acc pending (shown ++ out') ∙ e

      next : ebp + 8 + argumentor + width v ≡ ebp + 8 + (argumentor + width v)
      next = omega arith
