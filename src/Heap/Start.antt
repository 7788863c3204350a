-- ===== src/Heap/Start.antt =====
-- A fresh heap, its first block, and the count of the blocks.
use mush_os.Base.{
  ℕ, zero, suc, ◌+◌, ◌-◌, ◌*◌, ◌^◌, ◌≤◌, ◌<◌, ◌≡◌, refl, sym, ◌∙◌, ap, inl, inr, List, [], ◌∷◌,
  arith, length, ==-false, ==-true,
}
use mush_os.Machine.{Mem, add32, load32, store32}
use mush_os.Machine.Run.{ok}
use mush_os.Machine.Words.{load32-lt, load32-store32_ne, load32-store32_self}
use mush_os.Heap.{
  Place, place, ralloc, allocate_first, heap_start, heap_end, first_address, allocate_space,
}
use mush_os.Heap.Chain.{Block, IsBlock, Chain, IsHeap, get_header-ok}
use mush_os.Heap.Search.{length-Chain}
use mush_os.Heap.Insert.{IsPlaced}
use mush_os.Heap.Links.{IsRegion}
use mush_os.Heap.Allot.{IsClear, placed, placed-IsPlaced, allocate_space-ok, IsRegion-placed}
use mush_os.Heap.Ralloc.{IsHeap-first}
use mush_os.Heap.Blocks.{Library, start_memory, initialize_heap, occupation, occupation_loop}

-- `initialize_heap` makes a well-formed heap with no block, if the region is not smaller than
-- the heap's header and does not run over the address space.
pub initialize_heap-IsHeap :
    (start size : ℕ) (lib : Library)
    → 12 ≤ size
    → start + size < 2 ^ 32
    → let lib' = initialize_heap start size lib in
      IsHeap lib'.header lib'.memory [] × (heap_end lib'.header lib'.memory ≡ start + size)
unfolding initialize_heap
initialize_heap-IsHeap start size lib h u =
    (record { start = first; above = rw stop (omega arith); chain = null }, stop)
  where
    first : heap_start start (start_memory start size lib.memory) ≡ start + 12
    first =
        unfold start_memory in
        load32-store32_ne _ start 0 (start + 4) (omega arith)
        ∙ load32-store32_ne _ (start + 8) (add32 start size) (start + 4) (omega arith)
        ∙ load32-store32_self _ (start + 4) (add32 start 12)
        ∙ omega arith

    stop : heap_end start (start_memory start size lib.memory) ≡ start + size
    stop =
        unfold start_memory in
        load32-store32_ne _ start 0 (start + 8) (omega arith)
        ∙ load32-store32_self _ (start + 8) (add32 start size)
        ∙ omega arith

    null : first_address start (start_memory start size lib.memory) ≡ 0
    null = unfold start_memory in load32-store32_self _ start 0

module _ (header : ℕ) (m : Mem) (size : ℕ) (h : IsHeap header m []) (u : header + 24 < 2 ^ 32) where
  abbrev front : Place
  front = place 0 (header + 12) 0 0

  front-IsClear : IsClear front
  front-IsClear = record {
    behind = inl refl;
    before = inl refl;
    low = omega arith;
    high = omega arith;
    fits = omega arith;
  }

  abbrev grown : Mem
  grown = placed m size front

  pub first_memory : Mem
  first_memory = store32 grown header (header + 24)

  region : IsRegion header m (heap_end header m)
  region = record { start = h.start; stop = refl }

  IsRegion-grown : IsRegion header grown (heap_end header m)
  IsRegion-grown =
      IsRegion-placed header (heap_end header m) m size front region (omega arith) (inl refl)
        (inl refl)

  written : size < 2 ^ 32 → IsPlaced m grown size front
  written = placed-IsPlaced m size front front-IsClear

  pub heap_end-first_memory : heap_end header first_memory ≡ heap_end header m
  unfolding first_memory
  heap_end-first_memory =
      load32-store32_ne grown header (header + 24) (header + 8) (inr (omega arith))
      ∙ IsRegion-grown.stop

  -- The first allocation never fails: nothing compares the size with the heap.
  pub ralloc-first : ralloc header size m ≡ ok (header + 24) first_memory
  unfolding ralloc allocate_first first_memory
  ralloc-first =
      rw (==-true (first_address header m) 0 h.chain, h.start, space)
        (ap (λ a. ok a first_memory) (load32-store32_self grown header (header + 24) ∙ omega arith))
    where
      space : allocate_space header (header + 12) size 0 0 m ≡ ok (header + 24) grown
      space =
          allocate_space-ok header (heap_end header m) m size front region (omega arith)
            (omega arith) (inl refl) (inl refl)
          ∙ ap (λ a. ok a grown) (omega arith)

  -- On a well-formed heap without blocks, and with room for it, `ralloc` gives the first block,
  -- and leaves a well-formed heap of this one block.
  pub ralloc-first-IsHeap :
      header + 24 < heap_end header m
      → header + 24 + size ≤ heap_end header m
      → (ralloc header size m ≡ ok (header + 24) first_memory)
        × IsHeap header first_memory ((header + 24, size) ∷ [])
  unfolding first_memory
  ralloc-first-IsHeap a b = (
    ralloc-first,
    IsHeap-first header m [] size h grown (header + 24) ((header + 24, size) ∷ []) u IsRegion-grown
        (refl, block, next),
  )
    where
      w : IsPlaced m grown size front
      w = written (omega (arith, load32-lt m (header + 8)))

      block : IsBlock grown (heap_end header m) (header + 12) 0 (header + 24) size
      block = record {
        above = omega arith;
        inside = a;
        below = b;
        sized = ap (load32 grown) (omega arith) ∙ w.sized;
        linked = ap (load32 grown) (omega arith) ∙ w.back;
      }

      next : load32 grown (header + 24 - 4) ≡ 0
      next = ap (load32 grown) (omega arith) ∙ w.forth

  -- On a well-formed heap without blocks, `ralloc` grants a block of a 32-bit size for which
  -- there is no room, and the heap is well formed no more.
  pub ralloc-first-not-IsHeap :
      size < 2 ^ 32
      → heap_end header m < header + 24 + size
      → (ralloc header size m ≡ ok (header + 24) first_memory)
        × ((bs : List Block) → ¬ IsHeap header first_memory bs)
  unfolding first_memory
  ralloc-first-not-IsHeap small over = (ralloc-first, refuted)
    where
      first : first_address header (store32 grown header (header + 24)) ≡ header + 24
      first = load32-store32_self grown header (header + 24) ∙ omega arith

      stop : heap_end header (store32 grown header (header + 24)) ≡ heap_end header m
      stop =
          load32-store32_ne grown header (header + 24) (header + 8) (omega arith)
          ∙ IsRegion-grown.stop

      sized : load32 (store32 grown header (header + 24)) (header + 24 - 12) ≡ size
      sized =
          load32-store32_ne grown header (header + 24) (header + 24 - 12) (omega arith)
          ∙ ap (load32 grown) (omega arith)
          ∙ (written small).sized

      refuted : (bs : List Block) → ¬ IsHeap header (store32 grown header (header + 24)) bs
      refuted [] k = omega (arith, k.chain, first)
      refuted ((a, n) ∷ bs) k = omega (
        arith,
        stop,
        first,
        over,
        k.chain.0,
        k.chain.1.below,
        k.chain.1.sized,
        ap (λ t. load32 (store32 grown header (header + 24)) (t - 12)) (sym first ∙ k.chain.0),
        sized,
      )

-- Every round of `occupation` counts one block of the chain.
occupation_loop-length :
    (header : ℕ) (m : Mem) (fuel lo prev p sum num : ℕ) (bs : List Block)
    → heap_start header m ≤ lo
    → Chain m (heap_end header m) lo prev p bs
    → length bs < fuel
    → num + length bs < 2 ^ 32
    → occupation_loop header fuel p sum num m ≡ ok (num + length bs) m
unfolding occupation_loop
occupation_loop-length header m zero lo prev p sum num bs s c f u = absurd (omega arith)
occupation_loop-length header m (suc fuel) lo prev p sum num [] s c f u =
    rw (==-true p 0 c) (ap (λ n. ok n m) (omega arith))
occupation_loop-length header m (suc fuel) lo prev p sum num ((a, n) ∷ bs) s (e, b, c) f u =
    rw
      (
        e,
        ==-false a 0 (omega (arith, b.above)),
        get_header-ok header m a (omega (arith, b.above)) b.inside (omega (arith, b.above)),
        next,
        one,
      )
      (occupation_loop-length header m fuel (a + n) a (load32 m (a - 4)) _ (num + 1) bs
          (omega (arith, b.above)) c (omega arith) (omega arith)
        ∙ ap (λ n. ok n m) (omega arith))
  where
    next : load32 m (add32 (a - 12) 8) ≡ load32 m (a - 4)
    next = ap (load32 m) (omega (arith, b.above, b.inside, load32-lt m (header + 8)))

    one : add32 num 1 ≡ num + 1
    one = omega arith

-- On a well-formed heap `occupation` returns the number of its blocks, whatever their sizes.
pub occupation-length :
    (header : ℕ) (m : Mem) (bs : List Block)
    → IsHeap header m bs
    → occupation header m ≡ ok (length bs) m
unfolding occupation
occupation-length header m [] h = rw (==-true (first_address header m) 0 h.chain)
occupation-length header m ((a, n) ∷ bs) h =
    rw (==-false (first_address header m) 0 (omega (arith, h.chain.0, h.chain.1.above))) (
      occupation_loop-length header m (heap_end header m + 1) (header + 12) 0
        (first_address header m) 0 0 ((a, n) ∷ bs) (omega (arith, h.start)) h.chain
        (omega (arith, few)) (omega (arith, few, load32-lt m (header + 8)))
      ∙ ap (λ n. ok n m) (omega arith))
  where
    few : header + 12 + 12 * length ((a, n) ∷ bs) ≤ heap_end header m
    few =
        length-Chain m (heap_end header m) (header + 12) 0 (first_address header m) ((a, n) ∷ bs)
          h.above h.chain
