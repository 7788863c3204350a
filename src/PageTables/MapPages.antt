-- ===== src/PageTables/MapPages.antt =====
-- The rounds of the loop that fills the kernel's directory.
use mush_os.Base.{ℕ, zero, suc, ◌+◌, ◌*◌, ◌/◌, ◌≤◌, ◌<◌, ◌≡◌, ◌≢◌, inl, inr, true, arith, lt_or_le}
use mush_os.Machine.{Mem}
use mush_os.Pages.{page_size, paging_pool_start}
use mush_os.PageTables.{get_contents, contents_at}
use mush_os.PageTables.Lookup.{table_idx, entry_in, made, get_page-there, get_page-made}
use mush_os.PageTables.Start.{paging_pool_size, Stack, map_page, map_pages}
use mush_os.PageTables.Identity.{
  directory, tables_start, IsMapped, entry_in-IsMapped, store-IsMapped, made-IsMapped,
}

module _ (pool unset : ℕ) (s : Stack) (before : Mem)
    (low : pool + paging_pool_size ≤ paging_pool_start) where
  -- One round of the loop: the page's table is there, or it is made.
  map_page-there :
      (k t : ℕ) (m : Mem)
      → IsMapped pool unset s before k t m
      → t ≤ 4
      → k < t * 1024
      → IsMapped pool unset s before (k + 1) t (map_page pool unset directory s (k * page_size) m)
  unfolding map_page table_idx
  map_page-there k t m p few l =
      rw
        (
          get_page-there pool paging_pool_size unset (k * page_size) directory m (omega arith) true
              found.0,
          found.1,
          page,
        )
        (store-IsMapped pool unset s before low k t m p few l)
    where
      found :
          (get_contents (contents_at m directory (k * page_size / page_size / 1024)) ≢ 0)
          × (entry_in pool paging_pool_size unset (k * page_size) directory m (omega arith) m
              ≡ tables_start + k * page_size / page_size * 4)
      found =
          entry_in-IsMapped pool unset s before low k t (k * page_size) m m (omega arith) p
            (omega arith) (omega arith)

      page : k * page_size / page_size ≡ k
      page = omega arith

  map_page-made :
      (t : ℕ) (m : Mem)
      → IsMapped pool unset s before (t * 1024) t m
      → t < 4
      → IsMapped pool unset s before
          (t * 1024 + 1)
          (t + 1)
          (map_page pool unset directory s (t * 1024 * page_size) m)
  unfolding map_page table_idx
  map_page-made t m p few =
      rw
        (
          get_page-made pool paging_pool_size unset (t * 1024 * page_size) directory m (omega arith)
              grown.0,
          found,
          page,
        )
        (store-IsMapped pool unset s before low (t * 1024) (t + 1) g grown.1 (omega arith)
          (omega arith))
    where
      g : Mem
      g = made pool paging_pool_size unset (t * 1024 * page_size) directory m (omega arith)

      grown :
          (get_contents (contents_at m directory (t * 1024 * page_size / page_size / 1024)) ≡ 0)
          × IsMapped pool unset s before (t * 1024) (t + 1) g
      grown = made-IsMapped pool unset s before low t m (omega arith) p few

      found :
          entry_in pool paging_pool_size unset (t * 1024 * page_size) directory m (omega arith) g
          ≡ tables_start + t * 1024 * page_size / page_size * 4
      found =
          (entry_in-IsMapped pool unset s before low (t * 1024) (t + 1) (t * 1024 * page_size) g m
            (omega arith) grown.1 (omega arith) (omega arith)).1

      page : t * 1024 * page_size / page_size ≡ t * 1024
      page = omega arith

  map_page-IsMapped :
      (k t : ℕ) (m : Mem)
      → IsMapped pool unset s before k t m
      → k < 4096
      → (t' : ℕ) × IsMapped pool unset s before
          (k + 1)
          t'
          (map_page pool unset directory s (k * page_size) m)
  map_page-IsMapped k t m p few = elim (lt_or_le k (t * 1024)) [
    | inl l ↦ (t, map_page-there k t m p (omega (arith, p.needed)) l)
    | inr h ↦ (t + 1, rw (whole h) (map_page-made t m (rw (whole h) at p) (omega arith)))
  ]
    where
      whole : t * 1024 ≤ k → k ≡ t * 1024
      whole h = omega (arith, p.enough)

  pub map_pages-IsMapped :
      (left k t : ℕ) (m : Mem)
      → IsMapped pool unset s before k t m
      → k + left ≡ 4096
      → (t' : ℕ) × IsMapped pool unset s before 4096 t'
          (map_pages left pool unset directory s (k * page_size) m)
  unfolding map_pages
  map_pages-IsMapped zero k t m p e = (t, rw (← end) p)
    where
      end : k ≡ 4096
      end = omega arith
  map_pages-IsMapped (suc left) k t m p e =
      rw (next) (map_pages-IsMapped left (k + 1) step.0 _ step.1 (omega arith))
    where
      step :
          (t' : ℕ) × IsMapped pool unset s before
            (k + 1)
            t'
            (map_page pool unset directory s (k * page_size) m)
      step = map_page-IsMapped k t m p (omega arith)

      next : k * page_size + page_size ≡ (k + 1) * page_size
      next = omega arith
