-- ===== src/PageTables/Tests.antt =====
-- A directory at 0x200000 without tables, and a pool at 100 whose first frame is taken.
use mush_os.Base.{◌≡◌, refl, some, ◌==◌, if◌then◌else◌}
use mush_os.Machine.{Mem, load8}
use mush_os.Pages.{allocate_page_folder, get_free_bit}

abbrev pool_memory : Mem
pool_memory x = if x == 100 then 1 else 0

allocated : (allocate_page_folder 100 2 pool_memory).0 ≡ some 0x101000
unfolding allocate_page_folder get_free_bit load8
allocated = refl
