-- ===== src/Heap/Search.antt =====
-- The search of `ralloc` goes through the free spaces of the heap, and chooses the best fit.
use mush_os.Base.{
  ℕ, zero, suc, ◌+◌, ◌-◌, ◌*◌, ◌^◌, ◌≤◌, ◌<◌, ◌≡◌, List, [], ◌∷◌, arith, length, ap, if◌then◌else◌,
  ◌==◌, ==-false, ◌≢◌,
}
use mush_os.Machine.{Mem, add32, sub32, load32}
use mush_os.Machine.Run.{ok, pure}
use mush_os.Machine.Words.{load32-lt}
use mush_os.Heap.{Place, place, consider, walk, find_place, heap_start, heap_end, first_address}
use mush_os.Heap.Chain.{Block, IsBlock, Chain, IsHeap, get_header-ok}

-- The free spaces between `lo` and `hi` around the blocks, with what the C code takes for their
-- sizes: it subtracts a header too many from the last one.
abbrev pub spaces : ℕ → ℕ → ℕ → List Block → List Place
spaces hi lo prev [] = place (sub32 (sub32 hi lo) 12) lo prev 0 ∷ []
spaces hi lo prev ((a, n) ∷ bs) = place (a - lo - 12) lo prev a ∷ spaces hi (a + n) a bs

-- `consider` each of them in turn.
abbrev pub choose : ℕ → List Place → Place → Place
choose size [] best = best
choose size (c ∷ cs) best = choose size cs (consider size c best)

-- Each block takes a header, so there are no more of them than the region has bytes.
pub length-Chain :
    (m : Mem) (hi lo prev p : ℕ) (bs : List Block)
    → lo ≤ hi
    → Chain m hi lo prev p bs
    → lo + 12 * length bs ≤ hi
length-Chain m hi lo prev p [] h c = omega arith
length-Chain m hi lo prev p ((a, n) ∷ bs) h (e, b, c) =
    omega (arith, b.above, length-Chain m hi (a + n) a (load32 m (a - 4)) bs b.below c)

module _ (header : ℕ) (m : Mem) (size : ℕ) where
  -- One round of the loop, at a block.
  walk-suc :
      (fuel lo prev a n : ℕ) (best : Place)
      → heap_start header m ≤ lo
      → IsBlock m (heap_end header m) lo prev a n
      → walk header (suc fuel) size a best m ≡ (
          let next = load32 m (a - 4) in
          let until = if next == 0 then heap_end header m else next in
          let best' = consider size (place (sub32 (sub32 until (a + n)) 12) (a + n) a next) best in
          (if next == 0 then pure best' else walk header fuel size next best') m)
  unfolding walk
  walk-suc fuel lo prev a n best s b = rw (
    get_header-ok header m a (omega (arith, b.above)) b.inside (omega (arith, b.above)),
    b.sized,
    at_next,
    from,
    free (if load32 m (a - 4) == 0 then heap_end header m else load32 m (a - 4)),
  )
    where
      from : add32 a n ≡ a + n
      from = omega (arith, b.below, load32-lt m (header + 8))

      free : (u : ℕ) → sub32 (sub32 u a) n ≡ sub32 u (a + n)
      free u = omega (arith, b.below, load32-lt m (header + 8))

      small : a + n < 2 ^ 32
      small = omega (arith, b.below, load32-lt m (header + 8))

      at_next : load32 m (add32 (a - 12) 8) ≡ load32 m (a - 4)
      at_next = ap (load32 m) (omega (arith, b.above, b.inside, small))

  -- From a block on, the loop considers the spaces behind it, if the fuel covers the blocks.
  pub walk-choose :
      (fuel lo prev a n : ℕ) (bs : List Block) (best : Place)
      → heap_start header m ≤ lo
      → IsBlock m (heap_end header m) lo prev a n
      → Chain m (heap_end header m) (a + n) a (load32 m (a - 4)) bs
      → length bs < fuel
      → walk header fuel size a best m
        ≡ ok (choose size (spaces (heap_end header m) (a + n) a bs) best) m
  unfolding walk
  walk-choose zero lo prev a n bs best s b c f = absurd (omega arith)
  walk-choose (suc fuel) lo prev a n [] best s b c f = rw (walk-suc fuel lo prev a n best s b, c)
  walk-choose (suc fuel) lo prev a n ((a', n') ∷ bs) best s b (e, b', c) f =
      rw (walk-suc fuel lo prev a n best s b, e, ==-false a' 0 (omega (arith, b'.above)), free)
        (walk-choose fuel (a + n) a a' n' bs _ (omega (arith, b.above)) b' c (omega arith))
    where
      free : sub32 (sub32 a' (a + n)) 12 ≡ a' - (a + n) - 12
      free = omega (arith, b'.above, b'.inside, load32-lt m (header + 8))

  -- The search looks at every free space of the heap, and chooses among them.
  pub find_place-choose :
      {bs : List Block}
      → IsHeap header m bs
      → first_address header m ≢ 0
      → find_place header size m ≡ (
          let hi = heap_end header m in
          ok (choose size (spaces hi (header + 12) 0 bs) (place (hi - (header + 12)) 0 0 0)) m)
  unfolding find_place
  find_place-choose {bs = []} h used = absurd (used h.chain)
  find_place-choose {bs = (a, n) ∷ bs} h used =
      rw (h.start, e, first, all)
        (walk-choose hi (header + 12) 0 a n bs _ (omega arith) b c
          (omega (arith, length-Chain m hi (a + n) a (load32 m (a - 4)) bs b.below c)))
    where
      hi : ℕ
      hi = heap_end header m

      e : first_address header m ≡ a
      e = h.chain.0

      b : IsBlock m hi (header + 12) 0 a n
      b = h.chain.1

      c : Chain m hi (a + n) a (load32 m (a - 4)) bs
      c = h.chain.2

      first : sub32 (sub32 a (header + 12)) 12 ≡ a - (header + 12) - 12
      first = omega (arith, b.above, b.inside, load32-lt m (header + 8))

      all : sub32 hi (header + 12) ≡ hi - (header + 12)
      all = omega (arith, h.above, load32-lt m (header + 8))
