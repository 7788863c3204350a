-- ===== src/Heap/Blocks.antt =====
-- The rest of lib/base/heap.c: `zalloc`, `challoc`, `occupation`, and the start of a heap.
use mush_os.Base.{ℕ, zero, suc, ◌+◌, ◌/◌, ltb, ◌==◌, if◌then◌else◌}
use mush_os.Machine.{Mem, add32, sub32, load32, store32}
use mush_os.Machine.Run.{ok, stuck, Cmd, pure, ◌>>=◌, ◌>>◌}
use mush_os.Memory.{memory_copy, memory_clear}
use mush_os.Exceptions.{Handlers, library_allocation, handle_exceptions}
use mush_os.Heap.{
  header_size, nullptr, allocation_exception_id, size_at, next_at, get, set, first_address,
  get_header, size, ralloc, unalloc,
}

-- The variables of the library: the memory, `header` and `handlers`.
pub record Library : Type 0 where
  pub memory : Mem
  pub header : ℕ
  pub handlers : Handlers

unfoldable pub start_memory : ℕ → ℕ → Mem → Mem
start_memory start initial_size m =
    let cleared = memory_clear start header_size 0 m in
    let started = store32 cleared (start + 4) (add32 start header_size) in
    let ended = store32 started (start + 8) (add32 start initial_size) in
    store32 ended start nullptr

unfoldable pub initialize_heap : ℕ → ℕ → Library → Library
unfolding start_memory
initialize_heap start_address initial_size lib = record {
  memory = start_memory start_address initial_size lib.memory;
  header = start_address;
  handlers = handle_exceptions allocation_exception_id library_allocation lib.handlers;
}

-- A change of the memory by a routine of memory.c.
abbrev pub apply : (Mem → Mem) → Cmd (Unit {0})
apply f m = ok tt (f m)

module _ (header : ℕ) where
  -- The macro `size_of`, for units of `unit` bytes.
  unfoldable pub size_of : ℕ → ℕ → Cmd ℕ
  size_of unit structure = do bytes ← size header structure; pure (bytes / unit)

  unfoldable pub zalloc : ℕ → Cmd ℕ
  zalloc size = do result ← ralloc header size; apply (memory_clear result size 0); pure result

  -- The last branch of `challoc`: a new block, a copy, and the old block given back.
  unfoldable pub move : ℕ → ℕ → ℕ → Cmd ℕ
  move block structure new_size = do
    new_structure ← ralloc header new_size
    old_size ← get λ m. size_at m block
    apply (memory_copy structure new_structure old_size)
    unalloc header structure
    pure new_structure

  unfoldable pub challoc : ℕ → ℕ → Cmd ℕ
  challoc structure new_size = do
    block ← get_header header structure
    old_size ← get λ m. size_at m block
    next ← get λ m. next_at m block
    let in_place = (do set block new_size; pure structure)
    let grown =
        if ltb new_size (sub32 next structure) then in_place else move block structure new_size
    if ltb new_size old_size
        then in_place
        else if ltb old_size new_size
        then grown
        else pure structure

  -- The loop of `occupation` sums the sizes up and counts the blocks; the count is returned.
  unfoldable pub occupation_loop : ℕ → ℕ → (sum num : ℕ) → Cmd ℕ
  occupation_loop zero current sum num = λ _. stuck
  occupation_loop (suc fuel) current sum num =
      let round = (do
        block ← get_header header current
        used ← get λ m. size_at m block
        next ← get λ m. next_at m block
        occupation_loop fuel next (add32 sum used) (add32 num 1)) in
      if current == nullptr then pure num else round

  -- The fuel is the end of the heap, which is more than the number of blocks.
  unfoldable pub occupation : Cmd ℕ
  occupation = do
    first ← get (first_address header)
    end ← get (λ m. load32 m (header + 8))
    if first == nullptr then pure 0 else occupation_loop (end + 1) first 0 0
