-- ===== src/Format/Joined.antt =====
-- `free_concat` of a result and a new piece, as the loop of `format` uses it.
use mush_os.Base.{ℕ, ◌+◌, ◌^◌, ◌≤◌, ◌<◌, ◌≡◌, List, ◌++◌, length, length-append, arith}
use mush_os.Machine.{Mem}
use mush_os.Machine.Run.{Run, ok, Cmd, and_then, ◌>>◌, pure}
use mush_os.Heap.{unalloc}
use mush_os.Heap.Chain.{Block}
use mush_os.Heap.Insert.{insert}
use mush_os.Heap.GiveBack.{insert_comm}
use mush_os.Strings.Concatenate.{concatenate-IsBuilt}
use mush_os.Strings.Made.{
  IsMade, IsPrinted, printed, IsPrinted-of_built, IsPrinted-and_then, IsStored-kept,
  IsStored-insert, IsStored-made, IsKept-trans, IsKept-insert, IsMade-earlier, first_address-insert,
  insert_apart, unalloc-IsMade,
}
use mush_os.Format.{free_concat}

module _ (header : ℕ) (m g1 g2 : Mem) (bs : List Block) (xs ys : List ℕ) (p r : ℕ)
    (made1 : IsMade header m bs xs p g1)
    (made2 : IsMade header g1 (insert (p, length xs + 1) bs) ys r g2) where
  both : List Block
  both = insert (r, length ys + 1) (insert (p, length xs + 1) bs)

  given_back :
      (a : ℕ) (g3 : Mem)
      → IsMade header g2 both (xs ++ ys) a g3
      → IsPrinted header m bs (xs ++ ys) ((unalloc header p >> (unalloc header r >> pure a)) g3)
  unfolding both
  given_back a g3 made3 = rw (one.1, two.1) (printed a (two.0) whole)
    where
      one :
          (g4 : Mem) × (unalloc header p g3 ≡ ok tt g4)
          × IsMade header g2 (insert (r, length ys + 1) bs) (xs ++ ys) a g4
      one =
          unalloc-IsMade header g2 g3 (insert (r, length ys + 1) bs) (xs ++ ys) a p (length xs + 1)
            (omega arith)
            (rw
              (insert_comm r (length ys + 1) p (length xs + 1) bs (
                insert_apart header g2 r (length ys + 1) p (length xs + 1) bs (omega arith)
                  (omega arith) (made2.heap)))
              at made3)

      two : (g5 : Mem) × (unalloc header r (one.0) ≡ ok tt g5) × IsMade header g2 bs (xs ++ ys) a g5
      two = unalloc-IsMade header g2 (one.0) bs (xs ++ ys) a r (length ys + 1) (omega arith) (one.2)

      whole : IsMade header m bs (xs ++ ys) a (two.0)
      whole =
          IsMade-earlier header m g2 (two.0) bs (xs ++ ys) a
            (IsKept-trans header m g1 g2 bs made1.kept
              (IsKept-insert header g1 g2 p (length xs + 1) bs made2.kept))
            (two.2)

  pub free_concat-IsPrinted :
      length (xs ++ ys) < 2 ^ 31 → IsPrinted header m bs (xs ++ ys) (free_concat header p r g2)
  unfolding free_concat both
  free_concat-IsPrinted small =
      IsPrinted-and_then header m g2 bs both (xs ++ ys) (xs ++ ys)
        (λ a. unalloc header p >> (unalloc header r >> pure a))
        (IsPrinted-of_built header g2 both (xs ++ ys) made2.heap (
          concatenate-IsBuilt header g2 both p r xs ys made2.heap
            (first_address-insert header g2 r (length ys + 1) (insert (p, length xs + 1) bs)
              made2.heap)
            (IsStored-insert header g2 (insert (p, length xs + 1) bs) p xs r (length ys + 1) (
              IsStored-kept header g1 g2 (insert (p, length xs + 1) bs) p xs made2.kept
                (IsStored-made header m g1 bs xs p made1)))
            (IsStored-made header g1 g2 (insert (p, length xs + 1) bs) ys r made2)
            (omega (arith, length-append xs ys, small)) (omega (arith, length-append xs ys, small))
            (omega (arith, length-append xs ys, small))))
        (omega arith) given_back

-- A command that makes a piece, then `free_concat`, then the rest.
pub IsPrinted-free_concat :
    (header : ℕ) (m g : Mem) (bs : List Block) (xs ys whole : List ℕ) (p : ℕ) (k : ℕ → Cmd ℕ)
    {r : Run ℕ}
    → IsMade header m bs xs p g
    → IsPrinted header g (insert (p, length xs + 1) bs) ys r
    → length (xs ++ ys) ≤ length whole
    → length whole < 2 ^ 31
    → ((a : ℕ) (g' : Mem)
        → IsMade header m bs (xs ++ ys) a g'
        → IsPrinted header m bs whole (k a g'))
    → IsPrinted header m bs whole
        (and_then r (λ part m'. and_then (free_concat header p part m') k))
IsPrinted-free_concat header m g bs xs ys whole p k made1 piece fits small next =
    IsPrinted-and_then header m g bs (insert (p, length xs + 1) bs) ys whole
      (λ part m'. and_then (free_concat header p part m') k) piece
      (omega (arith, length-append xs ys, fits))
      (λ r g2 made2.
        IsPrinted-and_then header m m bs bs (xs ++ ys) whole k
          (free_concat-IsPrinted header m g g2 bs xs ys p r made1 made2
            (omega (arith, fits, small)))
          fits next)

-- The same at the end.
pub IsPrinted-last_free_concat :
    (header : ℕ) (m g : Mem) (bs : List Block) (xs ys : List ℕ) (p : ℕ) {r : Run ℕ}
    → IsMade header m bs xs p g
    → IsPrinted header g (insert (p, length xs + 1) bs) ys r
    → length (xs ++ ys) < 2 ^ 31
    → IsPrinted header m bs (xs ++ ys) (and_then r (free_concat header p))
IsPrinted-last_free_concat header m g bs xs ys p made1 piece small =
    IsPrinted-and_then header m g bs (insert (p, length xs + 1) bs) ys (xs ++ ys)
      (free_concat header p) piece (omega (arith, length-append xs ys))
      (λ r g2 made2. free_concat-IsPrinted header m g g2 bs xs ys p r made1 made2 small)
