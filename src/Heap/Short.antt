-- ===== src/Heap/Short.antt =====
-- heap.c's `ralloc`: the space behind the last block is counted a header too small.
use mush_os.Base.{ℕ, ◌+◌, ◌-◌, ◌^◌, ◌≤◌, ◌<◌, ◌≡◌, ◌≢◌, refl, ap, inl, inr, List, [], ◌∷◌, arith}
use mush_os.Machine.{Mem, load32}
use mush_os.Machine.Run.{Run, thrown}
use mush_os.Machine.Words.{load32-lt}
use mush_os.Heap.{Place, ralloc, heap_end, first_address, allocation_exception_id}
use mush_os.Heap.Chain.{Block, Chain, IsHeap}
use mush_os.Heap.Search.{spaces}
use mush_os.Heap.Choice.{IsIn}
use mush_os.Heap.Ralloc.{IsAllocation, allocated, exhausted, ralloc-IsAllocation}

-- Between `lo` and `hi`, no gap in front of a block takes a header and `size` bytes, but the space
-- behind the last block does, with less than another header to spare.
abbrev pub HasSpaceBehind : (size hi lo : ℕ) → List Block → Type 0
HasSpaceBehind size hi lo [] = (lo + 12 + size ≤ hi) × (hi < lo + 12 + size + 12)
HasSpaceBehind size hi lo ((a, n) ∷ bs) =
    (a < lo + 12 + size + 12) × HasSpaceBehind size hi (a + n) bs

-- Then no free space is as large as that by the code's count.
not_counted :
    (m : Mem) (size hi lo prev p : ℕ) (bs : List Block)
    → hi < 2 ^ 32
    → lo ≤ hi
    → Chain m hi lo prev p bs
    → HasSpaceBehind size hi lo bs
    → (q : Place) → IsIn q (spaces hi lo prev bs)
    → size + 12 ≤ q.size
    → ⊥
not_counted m size hi lo prev p [] top l c (fits, tight) q (inl e) f =
    omega (arith, fits, tight, ap (λ (x : Place). x.size) e)
not_counted m size hi lo prev p [] top l c s q (inr i) f = absurd i
not_counted m size hi lo prev p ((a, n) ∷ bs) top l (e, b, c) (tight, s) q (inl i) f =
    omega (arith, tight, b.above, ap (λ (x : Place). x.size) i)
not_counted m size hi lo prev p ((a, n) ∷ bs) top l (e, b, c) (tight, s) q (inr i) f =
    not_counted m size hi (a + n) a (load32 m (a - 4)) bs top b.below c s q i f

-- On a well-formed heap with blocks, for a request whose size does not overflow with its header:
-- when a header and the request fit behind the last block with less than 12 bytes to spare, and fit
-- in no gap in front of a block, `ralloc` throws the allocation exception all the same.
pub ralloc-HasSpaceBehind :
    (header : ℕ) (m : Mem) (bs : List Block) (size : ℕ)
    → IsHeap header m bs
    → first_address header m ≢ 0
    → size + 12 < 2 ^ 32
    → HasSpaceBehind size (heap_end header m) (header + 12) bs
    → ralloc header size m ≡ thrown allocation_exception_id m
ralloc-HasSpaceBehind header m bs size h used small space =
    thrown_only (ralloc-IsAllocation header m bs size h used small)
  where
    thrown_only :
        {run : Run ℕ} → IsAllocation header m bs size run → run ≡ thrown allocation_exception_id m
    thrown_only (exhausted full) = refl
    thrown_only (allocated q g i fits least heap kept stop) = absurd (
        not_counted m size (heap_end header m) (header + 12) 0 (first_address header m) bs
          (load32-lt m (header + 8)) h.above h.chain space q i fits)
