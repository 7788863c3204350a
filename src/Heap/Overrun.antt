-- ===== src/Heap/Overrun.antt =====
-- `challoc` in place where there is no room: it compares the new size with the distance to the next
-- block, whose header lies before this block, and does not look at the end of the heap.
use mush_os.Base.{
  ℕ, ◌+◌, ◌-◌, ◌^◌, ◌≤◌, ◌<◌, ◌≡◌, refl, sym, ap, ◌∙◌, ◌≢◌, ◌⊎◌, inl, inr, List, [], ◌∷◌, arith,
  lt→ltb, le→ltb-false,
}
use mush_os.Machine.{Mem, add32, sub32, load32, store32}
use mush_os.Machine.Run.{ok}
use mush_os.Machine.Words.{load32-lt, load32-store32_self, load32-store32_ne}
use mush_os.Heap.{get_header, heap_end, first_address}
use mush_os.Heap.Chain.{Block, Chain, IsHeap, get_header-ok}
use mush_os.Heap.Blocks.{challoc}

-- `s` bytes at `a` reach into the header of the next block, or behind the end of the heap.
abbrev pub Beyond : ℕ → ℕ → ℕ → List Block → Type 0
Beyond hi a s [] = hi < a + s
Beyond hi a s ((c, j) ∷ bs) = c < a + s + 12

-- There is a block of `n` bytes at `a`, without room for `s`.
abbrev pub LacksRoom : ℕ → (a n s : ℕ) → List Block → Type 0
LacksRoom hi a n s [] = ⊥
LacksRoom hi a n s ((b, k) ∷ bs) =
    ((b ≡ a) × (k ≡ n) × Beyond hi a s bs) ⊎ ((b ≢ a) × LacksRoom hi a n s bs)

record IsHere (m : Mem) (hi lo a n : ℕ) : Type 0 where
  low : lo + 12 ≤ a
  inside : a < hi
  sized : load32 m (a - 12) ≡ n

module _ (m : Mem) (hi a n s : ℕ) where
  IsHere-Chain :
      (lo prev p : ℕ) (bs : List Block)
      → Chain m hi lo prev p bs
      → LacksRoom hi a n s bs
      → IsHere m hi lo a n
  IsHere-Chain lo prev p [] c h = absurd h
  IsHere-Chain lo prev p ((b, k) ∷ bs) (e, i, c) (inl (f, g, r)) =
      rw (← f) (record { low = i.above; inside = i.inside; sized = i.sized ∙ g })
  IsHere-Chain lo prev p ((b, k) ∷ bs) (e, i, c) (inr (f, r)) =
      deeper (IsHere-Chain (b + k) b (load32 m (b - 4)) bs c r)
    where
      deeper : IsHere m hi (b + k) a n → IsHere m hi lo a n
      deeper q = record { low = omega (arith, q.low, i.above); inside = q.inside; sized = q.sized }

  clash :
      (g : Mem) (bs cs : List Block) (lo prev p prev' : ℕ)
      → Chain m hi lo prev p bs
      → Beyond hi a s bs
      → Chain g hi (prev' + s) prev' p cs
      → (prev' ≡ a) × (prev' + s ≤ hi)
      → ⊥
  clash g [] cs lo prev p prev' c r d u = absurd (omega arith)
  clash g ((b, k) ∷ bs) [] lo prev p prev' (e, i, c) r d u = absurd (omega (arith, i.above))
  clash g ((b, k) ∷ bs) ((b', k') ∷ cs) lo prev p prev' (e, i, c) r (e', i', d) u =
      absurd (omega (arith, i'.above))

  -- No list of blocks fits the memory with the new size.
  refuted :
      (g : Mem)
      → load32 g (a - 12) ≡ s
      → ((x : ℕ) → (x + 16 ≤ a) ⊎ (a ≤ x + 8) → load32 g x ≡ load32 m x)
      → (lo prev p : ℕ) (bs cs : List Block) → Chain m hi lo prev p bs
      → LacksRoom hi a n s bs
      → Chain g hi lo prev p cs
      → ⊥
  refuted g sized same lo prev p [] cs c r d = r
  refuted g sized same lo prev p ((b, k) ∷ bs) [] (e, i, c) r d =
      absurd (omega (arith, e, d, i.above))
  refuted g sized same lo prev p ((b, k) ∷ bs) ((b', k') ∷ cs) (e, i, c) (inl (f, q, r))
        (e', i', d) =
      clash g bs cs (b + k) b (load32 m (b - 4)) b c r (rw (there, size, next) at d)
        (omega (arith, there, f, size, i'.below))
    where
      there : b' ≡ b
      there = omega (arith, e, e')

      size : k' ≡ s
      size = sym i'.sized ∙ ap (λ (x : ℕ). load32 g (x - 12)) (there ∙ f) ∙ sized

      next : load32 g (b - 4) ≡ load32 m (b - 4)
      next = same (b - 4) (omega (arith, f))
  refuted g sized same lo prev p ((b, k) ∷ bs) ((b', k') ∷ cs) (e, i, c) (inr (f, r)) (e', i', d) =
      refuted g sized same (b + k) b (load32 m (b - 4)) bs cs c r (rw (there, size, next) at d)
    where
      there : b' ≡ b
      there = omega (arith, e, e')

      low : b + k + 12 ≤ a
      low = (IsHere-Chain (b + k) b (load32 m (b - 4)) bs c r).low

      size : k' ≡ k
      size =
          sym i'.sized
          ∙ ap (λ (x : ℕ). load32 g (x - 12)) there
          ∙ same (b - 12) (omega (arith, low))
          ∙ i.sized

      next : load32 g (b - 4) ≡ load32 m (b - 4)
      next = same (b - 4) (omega (arith, low, i.above))

module _ (header : ℕ) (m : Mem) (bs : List Block) (a n s : ℕ) (h : IsHeap header m bs)
    (lacks : LacksRoom (heap_end header m) a n s bs) where
  at : IsHere m (heap_end header m) (header + 12) a n
  at =
      IsHere-Chain m (heap_end header m) a n s (header + 12) 0 (first_address header m) bs h.chain
        lacks

  word_kept :
      s < 2 ^ 32
      → (x : ℕ) → (x + 16 ≤ a) ⊎ (a ≤ x + 8)
      → load32 (store32 m (a - 12) s) x ≡ load32 m x
  word_kept u x o = load32-store32_ne m (a - 12) s x (omega (arith, at.low))

  -- On a well-formed heap, `challoc` of a block to a larger size grows it in place when the size is
  -- less than the distance to the next block, or to the end of the address space behind the last
  -- one. If the block then reaches into the next header, or behind the end of the heap, the heap is
  -- well formed no more.
  pub challoc-not-IsHeap :
      n < s
      → s < sub32 (load32 m (a - 4)) a
      → (challoc header a s m ≡ ok a (store32 m (a - 12) s))
        × ((cs : List Block) → ¬ IsHeap header (store32 m (a - 12) s) cs)
  unfolding challoc
  challoc-not-IsHeap l u = (
    rw
        (
          found,
          at.sized,
          word_address,
          le→ltb-false s n (omega arith),
          lt→ltb n s l,
          lt→ltb s (sub32 (load32 m (a - 4)) a) u,
        )
        refl,
    λ cs k.
        refuted m (heap_end header m) a n s (store32 m (a - 12) s) stored (word_kept small)
          (header + 12) 0 (first_address header m) bs cs h.chain lacks
          (rw
            (
              word_kept small (header + 8) (omega (arith, at.low)),
              word_kept small header (omega (arith, at.low)),
            )
            at (k.chain)),
  )
    where
      small : s < 2 ^ 32
      small = omega arith

      stored : load32 (store32 m (a - 12) s) (a - 12) ≡ s
      stored = load32-store32_self m (a - 12) s ∙ omega arith

      word_address : add32 (a - 12) 8 ≡ a - 4
      word_address = omega (arith, at.low, at.inside, load32-lt m (header + 8))

      found : get_header header a m ≡ ok (a - 12) m
      found =
          get_header-ok header m a (omega (arith, h.start, at.low)) at.inside
            (omega (arith, at.low))
