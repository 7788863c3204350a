-- ===== src/PageTables.antt =====
-- core/kernel/pages.c: page directories and page tables, folders of 1024 words. A word is a
-- `page_pointer`: its bits 0, 1 and 2 are `present`, `rw` and `user`, those from 12 on `frame`.
pub mod Lookup
pub mod Fault
pub mod Folders
pub mod Identity
pub mod MapPages
pub mod MapKernel
pub mod KeptHeap
pub mod Paging
pub mod Clone
pub mod Start
mod Tests
use mush_os.Base.{
  ℕ, zero, suc, ◌+◌, ◌-◌, ◌*◌, ◌/◌, ◌%◌, ◌^◌, Bool, true, false, not, ◌||◌, Option, none, some, ltb,
  ◌==◌, if◌then◌else◌,
}
use mush_os.Machine.{Mem, sub32, load32, store32}
use mush_os.Pages.{page_size, paging_pool_start, allocate_page_folder, clear_bit, free_frame}

abbrev pub pages_in_table : ℕ
pages_in_table = 1024

abbrev pub user_space_end : ℕ
user_space_end = 0x10000000

abbrev pub user : ℕ → ℕ
user page = page / 4 % 2

abbrev pub frame : ℕ → ℕ
frame page = page / 2 ^ 12 % 2 ^ 20

-- `get_contents_as_page` and `get_contents_as_table`.
abbrev pub get_contents : ℕ → ℕ
get_contents page = frame page * page_size

-- Entry `i` of a folder.
abbrev pub contents_at : Mem → (folder i : ℕ) → ℕ
contents_at m folder i = load32 m (folder + i * 4)

-- The seven fields that are not assigned (`write`, `cache`, `accessed`, `dirty`, `zero`, `global` and
-- `unused`) keep what the local variable held, `unset`. Where a function makes several entries, one
-- value stands for what the variable held in each of these calls.
unfoldable pub create_page_entry : (unset address : ℕ) (is_kernel is_writeable : Bool) → ℕ
create_page_entry unset address is_kernel is_writeable =
    address / page_size % 2 ^ 20 * 2 ^ 12
    + unset / 8 % 2 ^ 9 * 8
    + (if is_kernel then 0 else 4)
    + (if is_writeable then 2 else 0)
    + 1

-- A null pointer that is stored has frame 0.
abbrev pub address_or_null : Option ℕ → ℕ
address_or_null none = 0
address_or_null (some a) = a

-- The pool's address and size are those of `paging_pool`; `none` is the null pointer.
unfoldable pub get_page :
    (paging_pool size unset address : ℕ) (make : Bool) (dir : ℕ) → Mem → Option ℕ × Mem
get_page paging_pool size unset address make dir m =
    let page = address / page_size in
    let table_idx = page / pages_in_table in
    let found =
      λ (m : Mem). some (get_contents (contents_at m dir table_idx) + page % pages_in_table * 4) in
    let (folder, cleared) = allocate_page_folder paging_pool size m in
    let made =
      store32 cleared (dir + table_idx * 4)
        (create_page_entry unset (address_or_null folder) true true) in
    if ltb user_space_end address
    then (none, m)
    else if get_contents (contents_at m dir table_idx) == 0
    then (if make then (found made, made) else (none, m))
    else (found m, m)

-- The loop of `contains_user_pages`.
unfoldable pub any_user : ℕ → (i directory contains : ℕ) → Mem → ℕ
any_user zero i directory contains m = contains
any_user (suc left) i directory contains m =
    any_user left (i + 1) directory
      (if contains == 0 then user (contents_at m directory i) else contains) m

unfoldable pub contains_user_pages : ℕ → Mem → Bool
unfolding any_user
contains_user_pages folder m = not (any_user pages_in_table 0 (get_contents folder) 0 m == 0)

-- The loop of `free_page_table`, with what it does to the contents of an entry.
unfoldable pub free_entries : ℕ → (i table : ℕ) → (ℕ → Mem → Mem) → Mem → Mem
free_entries zero i table free m = m
free_entries (suc left) i table free m =
    free_entries left (i + 1) table free (free (get_contents (contents_at m table i)) m)

-- `free_page_table` of a table, and of a directory. The index is the distance in bytes.
unfoldable pub free_table : (paging_pool user_space_pool table : ℕ) → Mem → Mem
unfolding free_entries
free_table paging_pool user_space_pool table m =
    free_entries pages_in_table 0 table (free_frame user_space_pool)
      (clear_bit paging_pool (sub32 table paging_pool_start) m)

unfoldable pub free_page_table :
    (paging_pool user_space_pool table : ℕ) (top_level : Bool) → Mem → Mem
unfolding free_entries free_table
free_page_table paging_pool user_space_pool table top_level m =
    if top_level
    then free_entries pages_in_table 0 table (free_table paging_pool user_space_pool)
        (clear_bit paging_pool (sub32 table paging_pool_start) m)
    else free_table paging_pool user_space_pool table m
