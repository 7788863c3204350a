-- ===== src/Heap/Chain.antt =====
-- What a heap stands for: its blocks in the order of their addresses, linked both ways in memory.
use mush_os.Base.{ℕ, ◌+◌, ◌-◌, ◌≤◌, ◌<◌, ◌≡◌, ◌∙◌, List, [], ◌∷◌, arith}
use mush_os.Machine.{Mem, load32}
use mush_os.Machine.Run.{ok}
use mush_os.Machine.Words.{Same, load32_of_Same, load32-lt}
use mush_os.Heap.{heap_start, heap_end, first_address, get_header}

-- The address of the payload, and its size.
abbrev pub Block : Type 0
Block = ℕ × ℕ

-- The block at `a` of size `n` lies between `lo` and `hi` with its header, which says so.
pub record IsBlock (m : Mem) (hi lo prev a n : ℕ) : Type 0 where
  pub above : lo + 12 ≤ a
  pub inside : a < hi
  pub below : a + n ≤ hi
  pub sized : load32 m (a - 12) ≡ n
  pub linked : load32 m (a - 8) ≡ prev

-- From `p` on, the links lead through the blocks `bs`, which lie above `lo` in rising order.
abbrev pub Chain : Mem → ℕ → ℕ → ℕ → ℕ → List Block → Type 0
Chain m hi lo prev p [] = p ≡ 0
Chain m hi lo prev p ((a, n) ∷ bs) =
    (p ≡ a) × IsBlock m hi lo prev a n × Chain m hi (a + n) a (load32 m (a - 4)) bs

pub record IsHeap (header : ℕ) (m : Mem) (bs : List Block) : Type 0 where
  pub start : heap_start header m ≡ header + 12
  pub above : header + 12 ≤ heap_end header m
  pub chain : Chain m (heap_end header m) (header + 12) 0 (first_address header m) bs

module _ (m g : Mem) (hi : ℕ) where
  pub IsBlock-frame :
      (lo prev a n : ℕ) → Same m g lo hi → IsBlock m hi lo prev a n → IsBlock g hi lo prev a n
  IsBlock-frame lo prev a n same b = record {
    above = b.above;
    inside = b.inside;
    below = b.below;
    sized =
        load32_of_Same m g lo a (a - 12) (λ x p q. same x p (omega arith)) (omega arith)
          (omega arith)
        ∙ b.sized;
    linked =
        load32_of_Same m g lo a (a - 8) (λ x p q. same x p (omega arith)) (omega arith)
          (omega arith)
        ∙ b.linked;
  }

  -- A chain depends on the bytes of its region alone.
  pub Chain-frame :
      (lo prev p : ℕ) (bs : List Block)
      → Same m g lo hi
      → Chain m hi lo prev p bs
      → Chain g hi lo prev p bs
  Chain-frame lo prev p [] same c = c
  Chain-frame lo prev p ((a, n) ∷ bs) same (e, b, c) = (
    e,
    IsBlock-frame lo prev a n same b,
    rw next (
        Chain-frame (a + n) a (load32 m (a - 4)) bs (λ x l h. same x (omega (arith, b.above)) h) c),
  )
    where
      next : load32 g (a - 4) ≡ load32 m (a - 4)
      next =
          load32_of_Same m g lo a (a - 4) (λ x l h. same x l (omega (arith, b.inside)))
            (omega (arith, b.above)) (omega (arith, b.above))

-- A pointer inside the heap has its header twelve bytes below.
pub get_header-ok :
    (header : ℕ) (m : Mem) (a : ℕ)
    → heap_start header m < a
    → a < heap_end header m
    → 12 ≤ a
    → get_header header a m ≡ ok (a - 12) m
unfolding get_header
get_header-ok header m a above below far = ground (arith, load32-lt m (header + 8))
