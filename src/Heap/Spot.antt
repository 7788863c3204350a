-- ===== src/Heap/Spot.antt =====
-- Where a free space of the heap lies with respect to the blocks around it.
use mush_os.Base.{ℕ, ◌+◌, ◌-◌, ◌^◌, ◌≤◌, ◌<◌, ◌≡◌, ◌⊎◌, inl, inr, List, [], ◌∷◌, arith}
use mush_os.Machine.{Mem, load32}
use mush_os.Heap.{Place}
use mush_os.Heap.Chain.{Block, Chain}
use mush_os.Heap.Search.{spaces}
use mush_os.Heap.Choice.{IsIn}

-- `q` lies above `lo`, behind the block `q.previous` and before `q.next`, with room for `size`.
pub record IsSpot (size hi lo prev : ℕ) (q : Place) : Type 0 where
  pub low : lo ≤ q.address
  pub behind :
      ((q.address ≡ lo) × (q.previous ≡ prev)) ⊎ ((lo + 12 ≤ q.previous) × (q.previous ≤ q.address))
  pub before :
      ((q.next ≡ 0) × (q.address + size + 24 ≤ hi))
      ⊎ ((q.address + size + 24 ≤ q.next) × (q.next < hi))

module _ (m : Mem) (size hi : ℕ) (q : Place) (fits : size + 12 ≤ q.size) (small : q.size + 12 ≤ hi)
    (top : hi < 2 ^ 32) where
  -- Every free space that holds the request is such a spot.
  pub IsSpot-spaces :
      (lo prev p : ℕ) (bs : List Block)
      → lo ≤ hi
      → Chain m hi lo prev p bs
      → IsIn q (spaces hi lo prev bs)
      → IsSpot size hi lo prev q
  IsSpot-spaces lo prev p [] l c (inl e) = ground arith
  IsSpot-spaces lo prev p [] l c (inr i) = elim i [ ]
  IsSpot-spaces lo prev p ((a, n) ∷ bs) l (e, b, c) (inl i) = ground arith
  IsSpot-spaces lo prev p ((a, n) ∷ bs) l (e, b, c) (inr i) =
      deeper (IsSpot-spaces (a + n) a (load32 m (a - 4)) bs b.below c i)
    where
      deeper : IsSpot size hi (a + n) a q → IsSpot size hi lo prev q
      deeper s = record {
        low = omega (arith, s.low, b.above);
        behind = inr (elim s.behind [
          | inl (at, back) ↦ omega (arith, at, back, b.above)
          | inr (far, back) ↦ omega (arith, far, back, b.above)
        ]);
        before = s.before;
      }
