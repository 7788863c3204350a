-- ===== src/PageTables/Lookup.antt =====
-- The place of a page's entry.
use mush_os.Base.{
  ℕ, ◌+◌, ◌*◌, ◌/◌, ◌%◌, ◌^◌, ◌≤◌, ◌<◌, ◌≡◌, ◌≢◌, refl, ◌∙◌, Bool, true, false, Option, none, some,
  arith, ==-true, ==-false, le→ltb-false,
}
use native.Mathlib.Decide.{ℕ_discrete}
use mush_os.Machine.{Mem, store32}
use mush_os.Machine.Words.{load32-store32_self}
use mush_os.Pages.{page_size, paging_pool_start, allocate_page_folder, clear_folder, take_frame}
use mush_os.Pages.Frames.{taken, full, IsTaken, take_frame-IsTaken}
use mush_os.PageTables.{
  user_space_end, pages_in_table, frame, get_contents, contents_at, create_page_entry,
  address_or_null, get_page,
}

pub frame-create_page_entry :
    (unset address : ℕ) (k w : Bool)
    → frame (create_page_entry unset address k w) ≡ address / page_size % 2 ^ 20
unfolding create_page_entry
frame-create_page_entry unset address k w = ground arith

pub create_page_entry-lt :
    (unset address : ℕ) (k w : Bool) → create_page_entry unset address k w < 2 ^ 32
unfolding create_page_entry
create_page_entry-lt unset address k w = ground arith

-- A folder that is allocated is in the pool's region.
data IsFolder (size : ℕ) : Option ℕ → Type 0 where
  folder : (k : ℕ) → k < size * 8 → IsFolder size (some (paging_pool_start + k * page_size))
  no_folder : IsFolder size none

allocate_page_folder-IsFolder :
    (paging_pool size : ℕ) (m : Mem) → IsFolder size (allocate_page_folder paging_pool size m).0
unfolding allocate_page_folder clear_folder
allocate_page_folder-IsFolder paging_pool size m =
    located (take_frame size 0 paging_pool paging_pool_start m)
      (take_frame-IsTaken paging_pool m size 0 paging_pool_start)
  where
    located :
        (r : Option ℕ × Mem)
        → IsTaken paging_pool paging_pool_start 0 ((0 + size) * 8) m r
        → IsFolder size (clear_folder (r.0) (r.1)).0
    located r (taken k g l u c b s o) = folder k (omega arith)
    located r (full b) = no_folder

-- A folder's address gives an entry that is not null.
frame-IsFolder :
    (size : ℕ) (a : Option ℕ)
    → 256 + size * 8 ≤ 2 ^ 20
    → IsFolder size a
    → a ≢ none
    → 0 < address_or_null a / page_size % 2 ^ 20
frame-IsFolder size a bound (folder k l) h = omega arith
frame-IsFolder size a bound no_folder h = absurd (h refl)

module _ (paging_pool size unset address dir : ℕ) (m : Mem)
    (inside : address ≤ user_space_end) where
  unfoldable pub table_idx : ℕ
  table_idx = address / page_size / pages_in_table

  -- The address of the page's entry, if its table is there.
  unfoldable pub entry_in : Mem → ℕ
  entry_in g = get_contents (contents_at g dir table_idx) + address / page_size % pages_in_table * 4

  -- The memory with a new table.
  unfoldable pub made : Mem
  made = store32 (allocate_page_folder paging_pool size m).1 (dir + table_idx * 4) (
      create_page_entry unset (address_or_null (allocate_page_folder paging_pool size m).0) true
        true)

  pub get_page-there :
      (make : Bool)
      → get_contents (contents_at m dir table_idx) ≢ 0
      → get_page paging_pool size unset address make dir m ≡ (some (entry_in m), m)
  unfolding get_page table_idx entry_in
  get_page-there make h =
      rw
        (
          le→ltb-false user_space_end address inside,
          ==-false (get_contents (contents_at m dir table_idx)) 0 h,
        )
        refl

  pub get_page-made :
      get_contents (contents_at m dir table_idx) ≡ 0
      → get_page paging_pool size unset address true dir m ≡ (some (entry_in made), made)
  unfolding get_page table_idx entry_in made
  get_page-made h =
      rw
        (
          le→ltb-false user_space_end address inside,
          ==-true (get_contents (contents_at m dir table_idx)) 0 h,
        )
        refl

  -- The new table is there.
  made-there :
      256 + size * 8 ≤ 2 ^ 20
      → (allocate_page_folder paging_pool size m).0 ≢ none
      → get_contents (contents_at made dir table_idx) ≢ 0
  unfolding made
  made-there bound free e = absurd (
      omega (
        arith,
        e,
        read,
        frame-create_page_entry unset (address_or_null (allocate_page_folder paging_pool size m).0)
            true true,
        frame-IsFolder size (allocate_page_folder paging_pool size m).0 bound
            (allocate_page_folder-IsFolder paging_pool size m) free,
      ))
    where
      value : ℕ
      value =
          create_page_entry unset (address_or_null (allocate_page_folder paging_pool size m).0) true
            true

      small : value < 2 ^ 32 → value % 2 ^ 32 ≡ value
      small l = omega arith

      read : contents_at made dir table_idx ≡ value
      read =
          load32-store32_self (allocate_page_folder paging_pool size m).1 (dir + table_idx * 4)
            value
          ∙ small (
              create_page_entry-lt unset
                (address_or_null (allocate_page_folder paging_pool size m).0) true true)

-- For an address up to the end of user space and a pool of folders below 4 gigabytes that is not
-- exhausted, looking a page's entry up with leave to make its table finds an entry, and looking
-- it up again without leave finds the same entry and changes nothing.
pub get_page-get_page :
    (paging_pool size unset unset' address dir : ℕ) (m : Mem)
    → address ≤ user_space_end
    → 256 + size * 8 ≤ 2 ^ 20
    → (allocate_page_folder paging_pool size m).0 ≢ none
    → ((get_page paging_pool size unset address true dir m).0 ≢ none)
      × (get_page paging_pool size unset' address false dir
            (get_page paging_pool size unset address true dir m).1
          ≡ get_page paging_pool size unset address true dir m)
unfolding table_idx entry_in
get_page-get_page paging_pool size unset unset' address dir m inside bound free =
    elim (ℕ_discrete (get_contents (contents_at m dir (address / page_size / pages_in_table))) 0) [
      | yes e ↦
          again (made paging_pool size unset address dir m inside)
            (get_page-made paging_pool size unset address dir m inside e)
            (made-there paging_pool size unset address dir m inside bound free)
      | no ne ↦ again m (get_page-there paging_pool size unset address dir m inside true ne) ne
    ]
  where
    again :
        (g : Mem)
        → get_page paging_pool size unset address true dir m
          ≡ (some (entry_in paging_pool size unset address dir m inside g), g)
        → get_contents (contents_at g dir (address / page_size / pages_in_table)) ≢ 0
        → ((get_page paging_pool size unset address true dir m).0 ≢ none)
          × (get_page paging_pool size unset' address false dir
                (get_page paging_pool size unset address true dir m).1
              ≡ get_page paging_pool size unset address true dir m)
    again g e h =
        rw e ((λ n. cc), get_page-there paging_pool size unset' address dir g inside false h)
