-- ===== src/PageTables/Start.antt =====
-- `initialise_paging`: the pools, the kernel's directory, and the entries of the pages below user
-- space. The processor's switch to paging is not part of it.
use mush_os.Base.{ℕ, zero, suc, ◌+◌, ◌-◌, ◌/◌, Bool, true, ◌&&◌, not, leb, ltb}
use mush_os.Machine.{Mem, sub32, store32}
use mush_os.Machine.Run.{ok, Cmd, pure, ◌>>=◌, ◌>>◌}
use mush_os.Memory.{memory_clear}
use mush_os.Heap.{ralloc}
use mush_os.Heap.Blocks.{apply}
use mush_os.Pages.{page_size, paging_pool_start, user_space_start, allocate_page_folder}
use mush_os.PageTables.{user_space_end, create_page_entry, address_or_null, get_page}
use mush_os.PageTables.Clone.{Pools}

abbrev pub paging_pool_end : ℕ
paging_pool_end = 0xf00000

abbrev pub paging_pool_size : ℕ
paging_pool_size = (paging_pool_end - paging_pool_start) / page_size / 8

abbrev pub user_space_pool_size : ℕ
user_space_pool_size = (user_space_end - user_space_start) / page_size / 8

-- The kernel's stack, below `stack_pointer`.
pub record Stack : Type 0 where
  pub stack_pointer : ℕ
  pub stack_size : ℕ

unfoldable pub in_stack : Stack → ℕ → Bool
in_stack s i = leb (sub32 s.stack_pointer s.stack_size) i && ltb i s.stack_pointer

-- One round of the loop: `*get_page(i, true, dir) = create_page_entry(...)`. The locals of both
-- functions hold `unset`.
unfoldable pub map_page : (paging_pool unset dir : ℕ) → Stack → (i : ℕ) → Mem → Mem
unfolding in_stack
map_page paging_pool unset dir s i m =
    let (entry, m) = get_page paging_pool paging_pool_size unset i true dir m in
    store32 m (address_or_null entry)
      (create_page_entry unset i (not (in_stack s i)) (in_stack s i))

unfoldable pub map_pages : ℕ → (paging_pool unset dir : ℕ) → Stack → (i : ℕ) → Mem → Mem
unfolding map_page
map_pages zero paging_pool unset dir s i m = m
map_pages (suc left) paging_pool unset dir s i m =
    map_pages left paging_pool unset dir s (i + page_size) (map_page paging_pool unset dir s i m)

-- The kernel's directory, from the pools as they were made.
unfoldable pub map_kernel : (paging_pool unset : ℕ) → Stack → Mem → ℕ × Mem
map_kernel paging_pool unset s m =
    let (folder, m) = allocate_page_folder paging_pool paging_pool_size m in
    let dir = address_or_null folder in
    (dir, map_pages (user_space_start / page_size) paging_pool unset dir s 0 m)

-- The pools, and the kernel's directory.
unfoldable pub initialise_paging : (header unset : ℕ) → Stack → Cmd (Pools × ℕ)
initialise_paging header unset s = do
  paging_pool ← ralloc header paging_pool_size
  apply (memory_clear paging_pool paging_pool_size 0)
  user_space_pool ← ralloc header user_space_pool_size
  apply (memory_clear user_space_pool user_space_pool_size 0)
  kernel_directory ← (λ m. let (dir, m) = map_kernel paging_pool unset s m in ok dir m)
  pure (
    record {
      paging_pool = paging_pool;
      paging_size = paging_pool_size;
      user_space_pool = user_space_pool;
      user_space_size = user_space_pool_size;
    },
    kernel_directory,
  )
