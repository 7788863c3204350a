-- ===== src/PageTables/MapKernel.antt =====
-- What the kernel's directory says of an address below user space.
use native.Mathlib.Nat.{zero-div}
use mush_os.Base.{
  ℕ, ◌+◌, ◌*◌, ◌/◌, ◌%◌, ◌^◌, ◌≤◌, ◌<◌, ◌≡◌, ◌≢◌, ◌⊎◌, refl, sym, ◌∙◌, ap, Bool, true, false, not,
  some, arith, if◌then◌else◌,
}
use mush_os.Machine.{Mem, load8, load32}
use mush_os.Machine.Words.{load32_of_Same}
use mush_os.Pages.{page_size, paging_pool_start, user_space_start, allocate_page_folder}
use mush_os.PageTables.{user, get_contents, contents_at, create_page_entry, get_page}
use mush_os.PageTables.Lookup.{frame-create_page_entry, get_page-there, table_idx, entry_in}
use mush_os.PageTables.Folders.{IsPooled, IsNext, allocate_page_folder-IsNext}
use mush_os.PageTables.Clone.{present}
use mush_os.PageTables.Start.{paging_pool_size, Stack, in_stack, map_pages, map_kernel}
use mush_os.PageTables.MapPages.{map_pages-IsMapped}
use mush_os.PageTables.Identity.{IsMapped, entry_in-IsMapped, kernel_entry, tables_start}

-- An entry that leads the page of an address to itself. The pages of the kernel's stack, and no
-- other ones, are open to users and may be written.
pub record IsIdentity (s : Stack) (address entry : ℕ) : Type 0 where
  pub page : get_contents entry ≡ address / page_size * page_size
  pub is_present : present entry ≡ 1
  pub is_user : user entry ≡ (if in_stack s (address / page_size * page_size) then 1 else 0)
  pub is_writeable : entry / 2 % 2 ≡ (if in_stack s (address / page_size * page_size) then 1 else 0)

create_page_entry-flags :
    (unset i : ℕ) (b : Bool)
    → (present (create_page_entry unset i (not b) b) ≡ 1)
      × (user (create_page_entry unset i (not b) b) ≡ (if b then 1 else 0))
      × (create_page_entry unset i (not b) b / 2 % 2 ≡ (if b then 1 else 0))
unfolding create_page_entry
create_page_entry-flags unset i true = omega arith
create_page_entry-flags unset i false = omega arith

kernel_entry-IsIdentity :
    (unset : ℕ) (s : Stack) (a : ℕ)
    → a < user_space_start
    → IsIdentity s a (kernel_entry unset s (a / page_size * page_size))
kernel_entry-IsIdentity unset s a l = record {
  page =
      ap (λ (f : ℕ). f * page_size)
        (frame-create_page_entry unset start (not (in_stack s start)) (in_stack s start))
      ∙ omega arith;
  is_present = (create_page_entry-flags unset start (in_stack s start)).0;
  is_user = (create_page_entry-flags unset start (in_stack s start)).1;
  is_writeable = (create_page_entry-flags unset start (in_stack s start)).2;
}
  where
    start : ℕ
    start = a / page_size * page_size

-- A cleared pool has no frame that is taken.
IsPooled-zero :
    (pool size : ℕ) (m : Mem)
    → ((j : ℕ) → j < size → load8 m (pool + j) ≡ 0)
    → IsPooled pool size 0 m
IsPooled-zero pool size m clear = record {
  below = λ j l. absurd (omega arith);
  above = λ j l u. rw (clear (j / 8) (omega arith), zero-div (2 ^ (j % 8))) refl;
}

zero_byte : (x : ℕ) → load8 (λ _. 0) x ≡ 0
unfolding load8
zero_byte x = refl

zero_word : (x : ℕ) → load32 (λ _. 0) x ≡ 0
unfolding load32 load8
zero_word x = refl

module _ (pool unset : ℕ) (s : Stack) (m : Mem) (low : pool + paging_pool_size ≤ paging_pool_start)
    (clear : (j : ℕ) → j < paging_pool_size → load8 m (pool + j) ≡ 0) where
  next : IsNext pool paging_pool_size 0 m (allocate_page_folder pool paging_pool_size m)
  next =
      allocate_page_folder-IsNext pool paging_pool_size 0 m low (omega arith)
        (IsPooled-zero pool paging_pool_size m clear)

  -- No page has an entry yet.
  empty-IsMapped : IsMapped pool unset s m 0 0 (allocate_page_folder pool paging_pool_size m).1
  empty-IsMapped = record {
    pooled = next.pooled;
    enough = omega arith;
    outside = λ x l o. next.outside x l o;
    needed = omega arith;
    tables = λ i l. absurd (omega arith);
    no_tables = λ i l u. fresh_word (paging_pool_start + i * 4) (omega arith) (omega arith);
    entries = λ j l. absurd (omega arith);
  }
    where
      fresh_word :
          (x : ℕ)
          → paging_pool_start ≤ x
          → x + 4 ≤ paging_pool_start + page_size
          → load32 (allocate_page_folder pool paging_pool_size m).1 x ≡ 0
      fresh_word x l u =
          load32_of_Same (λ _. 0) (allocate_page_folder pool paging_pool_size m).1 x (x + 4) x
            (λ y p q. next.cleared y (omega arith) (omega arith) ∙ sym (zero_byte y)) (omega arith)
            (omega arith)
          ∙ zero_word x

  whole :
      (t : ℕ) × IsMapped pool unset s m 4096 t (
        map_pages 4096 pool unset paging_pool_start s
          (0 * page_size)
          (allocate_page_folder pool paging_pool_size m).1)
  whole =
      map_pages-IsMapped pool unset s m low 4096 0 0
        (allocate_page_folder pool paging_pool_size m).1 empty-IsMapped refl

  map_kernel_whole : map_kernel pool unset s m ≡ (
    paging_pool_start,
    map_pages 4096 pool unset paging_pool_start s
        (0 * page_size)
        (allocate_page_folder pool paging_pool_size m).1,
  )
  unfolding map_kernel
  map_kernel_whole = rw (next.address) refl

  -- Below the folders the directory's making changes the pool alone.
  pub map_kernel-outside :
      (x : ℕ)
      → x < paging_pool_start
      → (x < pool) ⊎ (pool + paging_pool_size ≤ x)
      → load8 (map_kernel pool unset s m).1 x ≡ load8 m x
  map_kernel-outside = rw (map_kernel_whole) (whole.1.outside)

  -- With a pool that is cleared and lies below its frames, the kernel's directory that is made is
  -- such that for every address below user space, looking its entry up finds one and
  -- changes nothing, and the entry is present and leads to the address's own page; it is open to
  -- users, and may be written, exactly if the page's first byte is in the kernel's stack.
  pub map_kernel-IsIdentity :
      (a : ℕ)
      → a < user_space_start
      → (entry : ℕ) × (get_page pool paging_pool_size unset a false
            (map_kernel pool unset s m).0
            (map_kernel pool unset s m).1
          ≡ (some entry, (map_kernel pool unset s m).1))
        × IsIdentity s a (load32 (map_kernel pool unset s m).1 entry)
  unfolding table_idx
  map_kernel-IsIdentity a l = rw (map_kernel_whole) (
    tables_start + a / page_size * 4,
    get_page-there pool paging_pool_size unset a paging_pool_start g (omega arith) false found.0
        ∙ ap (λ (e : ℕ). (some e, g)) found.1,
    rw (mapped.entries (a / page_size) (omega arith)) (kernel_entry-IsIdentity unset s a l),
  )
    where
      g : Mem
      g =
          map_pages 4096 pool unset paging_pool_start s (0 * page_size)
            (allocate_page_folder pool paging_pool_size m).1

      mapped : IsMapped pool unset s m 4096 whole.0 g
      mapped = whole.1

      found :
          (get_contents (contents_at g paging_pool_start (a / page_size / 1024)) ≢ 0)
          × (entry_in pool paging_pool_size unset a paging_pool_start g (omega arith) g
              ≡ tables_start + a / page_size * 4)
      found =
          entry_in-IsMapped pool unset s m low 4096 whole.0 a g g (omega arith) mapped
            (omega (arith, mapped.needed)) (omega (arith, mapped.enough))
