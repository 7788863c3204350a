-- ===== src/Heap.antt =====
-- lib/base/heap.c: a doubly linked list of headed blocks inside one region, with best fit search.
-- The structs lie in memory, as the C code lays them out. A pointer to a block is the address
-- of its payload, and its header takes the twelve bytes below. `header` is the C variable.
pub mod Chain
pub mod Search
pub mod Choice
pub mod Spot
pub mod Insert
pub mod Allot
pub mod Ralloc
pub mod Room
pub mod GiveBack
pub mod RoundTrip
pub mod Short
pub mod Below
mod Tests
pub mod Blocks
pub mod Start
pub mod Payload
pub mod Owners
pub mod Resize
pub mod Overrun
pub mod Unalloc
pub mod Remove
pub mod Links
use mush_os.Base.{ℕ, zero, suc, ◌+◌, ◌^◌, Bool, ◌&&◌, ltb, leb, ◌==◌, if◌then◌else◌}
use mush_os.Machine.{Mem, add32, sub32, load32, store32}
use mush_os.Machine.Run.{Run, ok, thrown, stuck, Cmd, pure, ◌>>=◌, ◌>>◌}

abbrev pub allocation_exception_id : ℕ
allocation_exception_id = 1

abbrev pub heap_exception_id : ℕ
heap_exception_id = 2

-- The size of `heap_block_header`, and of `heap_header`.
abbrev pub header_size : ℕ
header_size = 12

abbrev pub nullptr : ℕ
nullptr = 0

-- The fields of `heap_block_header` at an address.
abbrev pub size_at : Mem → ℕ → ℕ
size_at m block = load32 m block

abbrev pub previous_at : Mem → ℕ → ℕ
previous_at m block = load32 m (add32 block 4)

abbrev pub next_at : Mem → ℕ → ℕ
next_at m block = load32 m (add32 block 8)

abbrev pub set : ℕ → ℕ → Cmd (Unit {0})
set a v m = ok tt (store32 m a v)

abbrev pub get : (Mem → ℕ) → Cmd ℕ
get f m = ok (f m) m

-- The best place found so far, the variables `best_…` of `ralloc`.
pub record Place : Type 0 where
  pub size : ℕ
  pub address : ℕ
  pub previous : ℕ
  pub next : ℕ

abbrev pub place : ℕ → ℕ → ℕ → ℕ → Place
place s a p n = record { size = s; address = a; previous = p; next = n }

-- One `if` of `ralloc`: a candidate that holds the request and is smaller than the best so far.
-- After the last block the C code leaves `best_size` alone; it is not read again.
unfoldable pub consider : ℕ → Place → Place → Place
consider size candidate best =
    if leb (add32 size header_size) candidate.size && ltb candidate.size best.size
    then candidate
    else best

module _ (header : ℕ) where
  -- The fields of `heap_header`.
  abbrev pub first_address : Mem → ℕ
  first_address m = load32 m header

  abbrev pub heap_start : Mem → ℕ
  heap_start m = load32 m (header + 4)

  abbrev pub heap_end : Mem → ℕ
  heap_end m = load32 m (header + 8)

  unfoldable pub is_in_heap : Mem → ℕ → Bool
  is_in_heap m structure = ltb (heap_start m) structure && ltb structure (heap_end m)

  unfoldable pub get_header : ℕ → Cmd ℕ
  unfolding is_in_heap
  get_header structure m =
      if is_in_heap m structure
      then ok (sub32 structure header_size) m
      else thrown heap_exception_id m

  unfoldable pub size : ℕ → Cmd ℕ
  unfolding get_header
  size structure = do block ← get_header structure; get λ m. size_at m block

  -- `if (structure) get_header(structure)->next = address`, and so for `previous`.
  unfoldable pub link_next : ℕ → ℕ → Cmd (Unit {0})
  unfolding get_header
  link_next structure address =
      if structure == nullptr
      then pure tt
      else do block ← get_header structure; set (add32 block 8) address

  unfoldable pub link_previous : ℕ → ℕ → Cmd (Unit {0})
  unfolding get_header
  link_previous structure address =
      if structure == nullptr
      then pure tt
      else do block ← get_header structure; set (add32 block 4) address

  unfoldable pub allocate_space : ℕ → ℕ → ℕ → ℕ → Cmd ℕ
  unfolding link_next link_previous
  allocate_space free_pointer size previous next = do
    set free_pointer size
    set (add32 free_pointer 4) previous
    set (add32 free_pointer 8) next
    let memory_address = add32 free_pointer header_size
    link_next previous memory_address
    link_previous next memory_address
    pure memory_address

  -- The search of `ralloc` from the block at `current` on, with the free space behind it. Each
  -- round reads the header of `current`, and the last one looks at the space up to `heap_end`.
  unfoldable pub walk : ℕ → ℕ → ℕ → Place → Cmd Place
  walk zero size current best = λ _. stuck
  walk (suc fuel) size current best = do
    block ← get_header current
    used ← get λ m. size_at m block
    next ← get λ m. next_at m block
    end ← get heap_end
    let free_from = add32 current used
    let until = if next == nullptr then end else next
    let free = sub32 (sub32 (sub32 until current) used) header_size
    let best' = consider size (place free free_from current next) best
    if next == nullptr then pure best' else walk fuel size next best'

  -- The best place before, between and behind the blocks; `address` is null if there is none.
  unfoldable pub find_place : ℕ → Cmd Place
  unfolding walk
  find_place size = do
    start ← get heap_start
    end ← get heap_end
    first ← get first_address
    let free = sub32 (sub32 first start) header_size
    let nothing = place (sub32 end start) nullptr nullptr nullptr
    walk end size first (consider size (place free start nullptr first) nothing)

  -- `best_address == heap_start` updates `first_address`; the final test throws. The command ends
  -- with this throw, as it does with the kernel's handler, which stops, and which `_start` registers
  -- before the first request. The library's handler and
  -- `throw_exception` without a handler call `terminate`, which is empty: then the throw returns, and
  -- `ralloc` goes on to return the null pointer, which is not part of the model.
  unfoldable pub take_place : ℕ → Place → Cmd ℕ
  unfolding allocate_space
  take_place size best = do
    start ← get heap_start
    if best.address == nullptr then (λ m. thrown allocation_exception_id m) else (do
      final_address ← allocate_space best.address size best.previous best.next
      if best.address == start then set header final_address else pure tt
      pure final_address)

  -- The first block of an empty heap.
  unfoldable pub allocate_first : ℕ → Cmd ℕ
  allocate_first size = do
    start ← get heap_start
    address ← allocate_space start size nullptr nullptr
    set header address
    get first_address

  unfoldable pub ralloc : ℕ → Cmd ℕ
  ralloc size = do
    first ← get first_address
    let search = (do best ← find_place size; take_place size best)
    if first == nullptr then allocate_first size else search

  unfoldable pub unalloc : ℕ → Cmd (Unit {0})
  unalloc structure = do
    block ← get_header structure
    first ← get first_address
    next ← get λ m. next_at m block
    if structure == first then set header next else pure tt
    next ← get λ m. next_at m block
    previous ← get λ m. previous_at m block
    link_previous next previous
    next ← get λ m. next_at m block
    previous ← get λ m. previous_at m block
    link_next previous next
