-- ===== src/Heap/Tests.antt =====
-- Runs of the heap on a small region, and the theorems at it.
use mush_os.Base.{ℕ, ◌+◌, ◌<◌, ◌≡◌, refl, List, [], ◌∷◌, inl, inr, arith}
use mush_os.Machine.{Mem, sub32, load8, store8, load32, store32}
use mush_os.Machine.Run.{Run, ok, thrown, stuck, Cmd, ◌>>=◌, ◌>>◌}
use mush_os.Exceptions.{no_handlers}
use mush_os.Memory.{memory_clear}
use mush_os.Heap.{
  ralloc, unalloc, allocate_first, allocate_space, find_place, take_place, consider, walk,
  get_header, is_in_heap, link_next, link_previous, heap_end, first_address,
  allocation_exception_id,
}
use mush_os.Heap.Chain.{Block, IsBlock, IsHeap}
use mush_os.Heap.Blocks.{Library, initialize_heap, challoc, occupation, start_memory}
use mush_os.Heap.Room.{InPayload}
use mush_os.Heap.Ralloc.{IsAllocation, ralloc-IsAllocation}
use mush_os.Heap.Unalloc.{freed, IsFreed, unalloc-IsFreed}
use mush_os.Heap.Resize.{HasRoom, IsResized, resized, challoc-IsResized}
use mush_os.Heap.Overrun.{LacksRoom, challoc-not-IsHeap}
use mush_os.Heap.RoundTrip.{unalloc-ralloc}
use mush_os.Heap.Short.{HasSpaceBehind, ralloc-HasSpaceBehind}
use mush_os.Heap.Start.{
  initialize_heap-IsHeap, first_memory, ralloc-first-IsHeap, ralloc-first-not-IsHeap,
  occupation-length,
}

abbrev empty_library : Library
empty_library = record { memory = λ _. 0; header = 0; handlers = no_handlers }

abbrev library : Library
library = initialize_heap 100 200 empty_library

abbrev header : ℕ
header = 100

-- The value of a run.
abbrev answer : {A : Type 0} → Run A → Run A
answer (ok a m) = ok a (λ _. 0)
answer (thrown e m) = thrown e (λ _. 0)
answer stuck = stuck

-- Three blocks, the middle one given back, and a smaller one put into its place.
abbrev script : Cmd ℕ
script = do
  a ← ralloc header 10
  b ← ralloc header 30
  c ← ralloc header 20
  unalloc header b
  ralloc header 8

answer-script : answer (script library.memory) ≡ ok 146 (λ _. 0)
unfolding initialize_heap start_memory memory_clear store8 load8 load32 store32 ralloc unalloc
    allocate_first allocate_space find_place take_place consider walk get_header is_in_heap
    link_next link_previous
answer-script = refl

initialize_heap-IsHeap_example :
    IsHeap library.header library.memory [] × (heap_end library.header library.memory ≡ 300)
initialize_heap-IsHeap_example =
    initialize_heap-IsHeap 100 200 empty_library (omega arith) (omega arith)

-- A heap that can be computed with: twelve bytes of header, and no block.
abbrev fresh : Mem
fresh = store32 (store32 (store32 (λ _. 0) 104 112) 108 300) 100 0

fresh-IsHeap : IsHeap header fresh []
unfolding store32 store8 load32 load8
fresh-IsHeap = record { start = refl; above = omega arith; chain = refl }

fresh_end : heap_end header fresh ≡ 300
unfolding store32 store8 load32 load8
fresh_end = refl

ralloc-first-IsHeap_example :
    (ralloc header 10 fresh ≡ ok 124 (first_memory header fresh 10 fresh-IsHeap (omega arith)))
    × IsHeap header (first_memory header fresh 10 fresh-IsHeap (omega arith)) ((124, 10) ∷ [])
ralloc-first-IsHeap_example =
    ralloc-first-IsHeap header fresh 10 fresh-IsHeap (omega arith) (omega (arith, fresh_end))
      (omega (arith, fresh_end))

ralloc-first-not-IsHeap_example :
    (ralloc header 1000 fresh ≡ ok 124 (first_memory header fresh 1000 fresh-IsHeap (omega arith)))
    × ((bs : List Block)
        → ¬ IsHeap header (first_memory header fresh 1000 fresh-IsHeap (omega arith)) bs)
ralloc-first-not-IsHeap_example =
    ralloc-first-not-IsHeap header fresh 1000 fresh-IsHeap (omega arith) (omega arith)
      (omega (arith, fresh_end))

-- Two blocks with a gap of 20 bytes between them: 10 bytes at 124 and 20 bytes at 166.
abbrev words : List (ℕ × ℕ) → Mem
words [] = λ _. 0
words ((a, v) ∷ ws) = store32 (words ws) a v

abbrev two : Mem
two = words (
    (100, 124)
    ∷ (104, 112)
    ∷ (108, 300)
    ∷ (112, 10)
    ∷ (116, 0)
    ∷ (120, 166)
    ∷ (154, 20)
    ∷ (158, 124)
    ∷ (162, 0)
    ∷ [])

abbrev blocks : List Block
blocks = (124, 10) ∷ (166, 20) ∷ []

two-IsHeap : IsHeap header two blocks
unfolding store32 store8 load32 load8
two-IsHeap = record {
  start = refl;
  above = omega arith;
  chain = (refl, first, (refl, second, refl));
}
  where
    first : IsBlock two 300 112 0 124 10
    first = record {
      above = omega arith;
      inside = omega arith;
      below = omega arith;
      sized = refl;
      linked = refl;
    }

    second : IsBlock two 300 134 124 166 20
    second = record {
      above = omega arith;
      inside = omega arith;
      below = omega arith;
      sized = refl;
      linked = refl;
    }

two_first : first_address header two ≡ 124
two_first = two-IsHeap.chain.0

ralloc-IsAllocation_example : IsAllocation header two blocks 8 (ralloc header 8 two)
ralloc-IsAllocation_example =
    ralloc-IsAllocation header two blocks 8 two-IsHeap (omega (arith, two_first)) (omega arith)

-- The gap of 20 bytes is taken: the block is at 146.
two_fits : answer (ralloc header 8 two) ≡ ok 146 (λ _. 0)
unfolding store8 load8 load32 store32 ralloc allocate_first allocate_space find_place take_place
    consider walk get_header is_in_heap link_next link_previous
two_fits = refl

two_allocated : (g : Mem) × (ralloc header 8 two ≡ ok 146 g)
unfolding store8 load8 load32 store32 ralloc allocate_first allocate_space find_place take_place
    consider walk get_header is_in_heap link_next link_previous
two_allocated = (_, refl)

unalloc-ralloc_example :
    (g : Mem) × (unalloc header 146 two_allocated.0 ≡ ok tt g)
    × IsHeap header g blocks
    × ((x : ℕ) → InPayload x blocks → load8 g x ≡ load8 two x)
unalloc-ralloc_example =
    unalloc-ralloc header two blocks 8 two-IsHeap (omega (arith, two_first)) (omega arith) 146
      two_allocated.0 two_allocated.1

unalloc-IsFreed_example :
    (unalloc header 166 two
      ≡ ok tt (freed header two 166 blocks two-IsHeap (inr (omega arith, inl refl))))
    × IsFreed header two
        (freed header two 166 blocks two-IsHeap (inr (omega arith, inl refl)))
        166
        blocks
unalloc-IsFreed_example =
    unalloc-IsFreed header two 166 blocks two-IsHeap (inr (omega arith, inl refl))

occupation-length_example : occupation header two ≡ ok 2 two
occupation-length_example = occupation-length header two blocks two-IsHeap

two_end : heap_end header two ≡ 300
unfolding store32 store8 load32 load8
two_end = refl

two_has : HasRoom (heap_end header two) 124 10 25 blocks
two_has = inl (refl, refl, omega arith)

challoc-IsResized_example :
    (challoc header 124 25 two ≡ ok 124 (resized header two blocks 124 10 25 two-IsHeap two_has))
    × IsResized header two (resized header two blocks 124 10 25 two-IsHeap two_has) 124 25 blocks
challoc-IsResized_example = challoc-IsResized header two blocks 124 10 25 two-IsHeap two_has

two_lacks : LacksRoom (heap_end header two) 124 10 35 blocks
two_lacks = inl (refl, refl, omega arith)

two_distance : 35 < sub32 (load32 two 120) 124
unfolding store32 store8 load32 load8
two_distance = omega arith

challoc-not-IsHeap_example :
    (challoc header 124 35 two ≡ ok 124 (store32 two 112 35))
    × ((bs : List Block) → ¬ IsHeap header (store32 two 112 35) bs)
challoc-not-IsHeap_example =
    challoc-not-IsHeap header two blocks 124 10 35 two-IsHeap two_lacks (omega arith) two_distance

two_space : HasSpaceBehind 95 (heap_end header two) (header + 12) blocks
two_space = (omega arith, (omega arith, (omega (arith, two_end), omega (arith, two_end))))

ralloc-HasSpaceBehind_example : ralloc header 95 two ≡ thrown allocation_exception_id two
ralloc-HasSpaceBehind_example =
    ralloc-HasSpaceBehind header two blocks 95 two-IsHeap (omega (arith, two_first)) (omega arith)
      two_space
