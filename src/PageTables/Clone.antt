-- ===== src/PageTables/Clone.antt =====
-- The copy of page tables and directories, for `fork`. Frames are copied by a routine in assembly,
-- `copy_page_physical`, which is an argument.
use mush_os.Base.{
  ℕ, zero, suc, ◌+◌, ◌*◌, ◌/◌, ◌%◌, ◌^◌, ◌≡◌, ◌<◌, ◌||◌, not, arith, ◌==◌, if◌then◌else◌,
}
use mush_os.Machine.{Mem, store32}
use mush_os.Pages.{page_size, allocate_frame, allocate_page_folder}
use mush_os.PageTables.{
  pages_in_table, user, frame, get_contents, contents_at, address_or_null, contains_user_pages,
}

-- The pools, by their addresses and sizes.
pub record Pools : Type 0 where
  pub paging_pool : ℕ
  pub paging_size : ℕ
  pub user_space_pool : ℕ
  pub user_space_size : ℕ

abbrev pub present : ℕ → ℕ
present page = page % 2

-- The eleven fields one by one, each with its bits.
unfoldable pub clone_page_pointer : ℕ → ℕ
clone_page_pointer page =
    page % 2
    + page / 2 % 2 * 2
    + page / 4 % 2 * 4
    + page / 8 % 2 * 8
    + page / 16 % 2 * 16
    + page / 32 % 2 * 32
    + page / 64 % 2 * 64
    + page / 128 % 2 * 128
    + page / 256 % 2 * 256
    + page / 512 % 8 * 512
    + frame page * 4096

-- The fields are all bits of the word.
pub clone_page_pointer_lem : (page : ℕ) → page < 2 ^ 32 → clone_page_pointer page ≡ page
unfolding clone_page_pointer
clone_page_pointer_lem page h = omega arith

-- An assignment to the field `frame`.
abbrev pub with_frame : ℕ → ℕ → ℕ
with_frame page f = page % 4096 + f % 2 ^ 20 * 4096

module _ (pools : Pools) (copy_page_physical : (source destination : ℕ) → Mem → Mem) where
  open pools use {paging_pool, paging_size, user_space_pool, user_space_size}

  -- An entry whose page is cloned: the flags, then a frame of its own, then the frame's content.
  unfoldable pub clone_entry : (table i pages : ℕ) → Mem → Mem
  unfolding clone_page_pointer
  clone_entry table i pages m =
      let m = store32 m (table + i * 4) (clone_page_pointer (contents_at m pages i)) in
      let (address, m) = allocate_frame user_space_pool user_space_size m in
      let m =
        store32 m (table + i * 4)
          (with_frame (contents_at m table i) (address_or_null address / page_size)) in
      copy_page_physical (frame (contents_at m pages i) * page_size)
        (frame (contents_at m table i) * page_size) m

  -- The loop of `clone_table`: `pages` are the entries of the table at `src`.
  unfoldable pub clone_entries : ℕ → (i src pages table : ℕ) → Mem → Mem
  unfolding clone_entry
  clone_entries zero i src pages table m = m
  clone_entries (suc left) i src pages table m =
      let page = contents_at m pages i in
      let m' =
        if present page == 0
        then m
        else if not (user src == 0) || not (user page == 0)
        then clone_entry table i pages m
        else store32 m (table + i * 4) page in
      clone_entries left (i + 1) src pages table m'

  unfoldable pub clone_table : (src : ℕ) → Mem → ℕ × Mem
  unfolding clone_entries
  clone_table src m =
      let (folder, m) = allocate_page_folder paging_pool paging_size m in
      let table = address_or_null folder in
      (
        with_frame (clone_page_pointer src) (table / page_size),
        clone_entries pages_in_table 0 src (get_contents src) table m,
      )

  -- The loop of `clone_directory`.
  unfoldable pub clone_tables : ℕ → (i src dir : ℕ) → Mem → Mem
  unfolding clone_table
  clone_tables zero i src dir m = m
  clone_tables (suc left) i src dir m =
      let table = contents_at m src i in
      let (cloned, copied) = clone_table table m in
      let m' =
        if present table == 0
        then m
        else if not (user table == 0) || contains_user_pages table m
        then store32 copied (dir + i * 4) cloned
        else store32 m (dir + i * 4) table in
      clone_tables left (i + 1) src dir m'

  unfoldable pub clone_directory : (src : ℕ) → Mem → ℕ × Mem
  unfolding clone_tables
  clone_directory src m =
      let (folder, m) = allocate_page_folder paging_pool paging_size m in
      let dir = address_or_null folder in (dir, clone_tables pages_in_table 0 src dir m)
