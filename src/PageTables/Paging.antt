-- ===== src/PageTables/Paging.antt =====
-- The start of the paging over the heap as the kernel's start leaves it.
use mush_os.Base.{
  ℕ, ◌+◌, ◌^◌, ◌≤◌, ◌<◌, ◌≡◌, refl, ◌∙◌, inl, false, List, [], ◌∷◌, some, arith, le→leb, lt→ltb,
}
use mush_os.Machine.{Mem, load8, load32}
use mush_os.Machine.Run.{Run, ok, Cmd, and_then}
use mush_os.Memory.{memory_clear}
use mush_os.Memory.Fill.{load8-memory_clear}
use mush_os.Heap.{heap_end, first_address}
use mush_os.Heap.Chain.{Block, IsHeap}
use mush_os.Machine.Words.{load32_of_Same}
use mush_os.Heap.Insert.{insert}
use mush_os.Heap.Room.{InPayload}
use mush_os.Heap.Owners.{Owns-insert_other}
use mush_os.PageTables.KeptHeap.{IsHeap-kept}
use mush_os.Heap.Payload.{
  memory_clear-Within, Owns-bounds, Owns-insert, IsHeap-payload, InPayload-insert_apart,
}
use mush_os.Heap.Ralloc.{IsAllocation, allocated, exhausted, ralloc-IsAllocation}
use mush_os.Heap.Start.{first_memory, heap_end-first_memory, ralloc-first-IsHeap}
use mush_os.Pages.{paging_pool_start, user_space_start}
use mush_os.PageTables.{get_page}
use mush_os.PageTables.Clone.{Pools}
use mush_os.PageTables.Start.{
  paging_pool_size, user_space_pool_size, Stack, map_kernel, initialise_paging,
}
use mush_os.PageTables.MapKernel.{map_kernel-outside, IsIdentity, map_kernel-IsIdentity}

-- The paging can start: with the pools and the directory at hand, every address below user space
-- leads to itself, and the heap is well formed with the blocks of the two pools.
pub data IsPaged (header hi unset : ℕ) (s : Stack) : Run (Pools × ℕ) → Type 0 where
  paged :
      (pools : Pools) (directory : ℕ) (g : Mem)
      → ((a : ℕ)
          → a < user_space_start
          → (entry : ℕ) × (get_page pools.paging_pool pools.paging_size unset a false directory g
              ≡ (some entry, g))
            × IsIdentity s a (load32 g entry))
      → IsHeap header g (
          insert
            (pools.user_space_pool, user_space_pool_size)
            ((pools.paging_pool, paging_pool_size) ∷ []))
      → heap_end header g ≡ hi
      → IsPaged header hi unset s (ok (pools, directory) g)

memory_clear-zero : (a n j : ℕ) (m : Mem) → j < n → load8 (memory_clear a n 0 m) (a + j) ≡ 0
memory_clear-zero a n j m l =
    load8-memory_clear a n 0 m (a + j)
    ∙ rw (le→leb a (a + j) (omega arith), lt→ltb (a + j) (a + n) (omega arith)) refl

module _ (header unset : ℕ) (s : Stack) (m : Mem) (h : IsHeap header m [])
    (room : header + 8192 ≤ heap_end header m) (low : heap_end header m ≤ paging_pool_start) where
  below : header + 24 < 2 ^ 32
  below = omega arith

  one_block : List Block
  one_block = (header + 24, paging_pool_size) ∷ []

  first : Mem
  first = first_memory header m paging_pool_size h below

  cleared : Mem
  cleared = memory_clear (header + 24) paging_pool_size 0 first

  stop : heap_end header cleared ≡ heap_end header m
  unfolding cleared first
  stop =
      load32_of_Same first cleared (header + 8) (header + 12) (header + 8)
        (λ x l u. memory_clear-Within (header + 24) paging_pool_size first x (inl (omega arith)))
        (omega arith) (omega arith)
      ∙ heap_end-first_memory header m paging_pool_size h below

  cleared-IsHeap : IsHeap header cleared one_block
  unfolding one_block first cleared
  cleared-IsHeap =
      IsHeap-payload first cleared (heap_end header first) (header + 24) paging_pool_size
        (memory_clear-Within (header + 24) paging_pool_size first) header one_block refl
        (ralloc-first-IsHeap header m paging_pool_size h below (omega arith) (omega arith)).1
        (inl (refl, refl))

  -- What follows the second allocation is reached: the heap has room.
  allocated-IsPaged :
      (k : ℕ → Cmd (Pools × ℕ)) {r : Run ℕ}
      → ((a : ℕ) (g : Mem)
          → IsHeap header g (insert (a, user_space_pool_size) one_block)
          → heap_end header g ≡ heap_end header m
          → ((x : ℕ) → InPayload x one_block → load8 g x ≡ load8 cleared x)
          → IsPaged header (heap_end header m) unset s (k a g))
      → IsAllocation header cleared one_block user_space_pool_size r
      → IsPaged header (heap_end header m) unset s (and_then r k)
  unfolding one_block
  allocated-IsPaged k rest (allocated q g i fits least grown kept end) =
      rest (q.address + 12) g grown (end ∙ stop) (λ x p. kept x (inl p))
  allocated-IsPaged k rest (exhausted f) = absurd (omega (arith, f.1, stop))

  -- The first pool is as it was cleared.
  pool-zero :
      (a : ℕ) (g : Mem)
      → IsHeap header g (insert (a, user_space_pool_size) one_block)
      → ((x : ℕ) → InPayload x one_block → load8 g x ≡ load8 cleared x)
      → (j : ℕ) → j < paging_pool_size
      → load8 (memory_clear a user_space_pool_size 0 g) (header + 24 + j) ≡ 0
  unfolding one_block cleared
  pool-zero a g grown kept j l =
      memory_clear-Within a user_space_pool_size g (header + 24 + j) (
        InPayload-insert_apart g (heap_end header g) (header + 12) 0 (first_address header g) a
          user_space_pool_size one_block grown.chain (header + 24 + j) here)
      ∙ kept (header + 24 + j) here
      ∙ memory_clear-zero (header + 24) paging_pool_size j first l
    where
      here : InPayload (header + 24 + j) one_block
      here = inl (omega arith, omega arith)

  -- The second pool is cleared, and the directory is made.
  mapped-IsPaged :
      (a : ℕ) (g : Mem)
      → IsHeap header g (insert (a, user_space_pool_size) one_block)
      → heap_end header g ≡ heap_end header m
      → ((x : ℕ) → InPayload x one_block → load8 g x ≡ load8 cleared x)
      → IsPaged header (heap_end header m) unset s (
          ok
            (
              record {
                paging_pool = header + 24;
                paging_size = paging_pool_size;
                user_space_pool = a;
                user_space_size = user_space_pool_size;
              },
              (map_kernel (header + 24) unset s (memory_clear a user_space_pool_size 0 g)).0,
            )
            (map_kernel (header + 24) unset s (memory_clear a user_space_pool_size 0 g)).1)
  unfolding one_block
  mapped-IsPaged a g grown end kept =
      paged _ _ _ (map_kernel-IsIdentity (header + 24) unset s g' (omega arith) clear) (both.0)
        (both.1 ∙ stop' ∙ end)
    where
      g' : Mem
      g' = memory_clear a user_space_pool_size 0 g

      clear : (j : ℕ) → j < paging_pool_size → load8 g' (header + 24 + j) ≡ 0
      clear = pool-zero a g grown kept

      two : List Block
      two = insert (a, user_space_pool_size) one_block

      behind : (header + 12 + 12 ≤ a) × (a + user_space_pool_size ≤ heap_end header g)
      behind =
          Owns-bounds g (heap_end header g) (header + 12) 0 (first_address header g) a
            user_space_pool_size two grown.chain (Owns-insert a user_space_pool_size one_block)

      wiped : IsHeap header g' two
      wiped =
          IsHeap-payload g g' (heap_end header g) a user_space_pool_size
            (memory_clear-Within a user_space_pool_size g) header two refl grown
            (Owns-insert a user_space_pool_size one_block)

      stop' : heap_end header g' ≡ heap_end header g
      stop' =
          load32_of_Same g g' (header + 8) (header + 12) (header + 8)
            (λ x l u.
              memory_clear-Within a user_space_pool_size g x (inl (omega (arith, behind.0))))
            (omega arith) (omega arith)

      both :
          IsHeap header (map_kernel (header + 24) unset s g').1 two
          × (heap_end header (map_kernel (header + 24) unset s g').1 ≡ heap_end header g')
      both =
          IsHeap-kept header paging_pool_start (header + 24) paging_pool_size g'
            (map_kernel (header + 24) unset s g').1 two wiped (omega (arith, stop', end))
            (Owns-insert_other (header + 24) paging_pool_size a user_space_pool_size one_block
              (inl (refl, refl)))
            (map_kernel-outside (header + 24) unset s g' (omega arith) clear)

  -- On a well-formed heap without blocks, with 8192 bytes and below the frames of the pools, the
  -- start of the paging succeeds: the heap is well formed with the blocks of the two pools, and for
  -- every address below user space, looking its entry up in the kernel's directory finds one and
  -- changes nothing, and the entry is present and leads to the address's own page; it is open to
  -- users, and may be written, exactly if the page's first byte is in the kernel's stack.
  pub initialise_paging-IsPaged :
      IsPaged header (heap_end header m) unset s (initialise_paging header unset s m)
  unfolding initialise_paging first cleared one_block
  initialise_paging-IsPaged =
      rw ((ralloc-first-IsHeap header m paging_pool_size h below (omega arith) (omega arith)).0) (
        allocated-IsPaged _ mapped-IsPaged (
          ralloc-IsAllocation header cleared one_block user_space_pool_size cleared-IsHeap
            (omega (arith, cleared-IsHeap.chain.0)) (omega arith)))
