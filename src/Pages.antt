-- ===== src/Pages.antt =====
-- core/kernel/pages.c: the pools of free frames, bitmaps with a bit for each frame of 4096 bytes.
-- A pool is an array of bytes on the heap, given by its address and its size.
pub mod Bits
pub mod Frames
mod Tests
use Prim.Native.Nat.{bit_and, bit_or}
use mush_os.Base.{
  ℕ, zero, suc, ◌+◌, ◌-◌, ◌*◌, ◌/◌, ◌%◌, ◌^◌, Option, none, some, ◌==◌, if◌then◌else◌,
}
use mush_os.Machine.{Mem, add32, sub32, load8, store8}
use mush_os.Memory.{memory_clear}

abbrev pub paging_pool_start : ℕ
paging_pool_start = 0x100000

abbrev pub user_space_start : ℕ
user_space_start = 0x1000000

abbrev pub page_size : ℕ
page_size = 0x1000

abbrev pub full_byte : ℕ
full_byte = 0xff

-- The loop of `get_free_bit`: `!(search & (1u << i))`.
unfoldable pub free_bit_from : ℕ → ℕ → ℕ → ℕ
free_bit_from zero i search = full_byte
free_bit_from (suc left) i search =
    if bit_and search (2 ^ i) == 0 then i else free_bit_from left (i + 1) search

unfoldable pub get_free_bit : ℕ → ℕ
unfolding free_bit_from
get_free_bit search = if search == full_byte then search else free_bit_from 8 0 search

-- The loop that `allocate_frame` and `allocate_page_folder` share: the first byte with a free
-- bit gets this bit, whose frame is returned. `none` is the null pointer.
unfoldable pub take_frame : ℕ → ℕ → (pool start : ℕ) → Mem → Option ℕ × Mem
take_frame zero i pool start m = (none, m)
take_frame (suc left) i pool start m =
    let search = load8 m (pool + i) in
    let free_bit = get_free_bit search in
    let rest = take_frame left (i + 1) pool start m in
    if free_bit == full_byte then rest else (
      some (start + (i * 8 + free_bit) * page_size),
      store8 m (pool + i) (bit_or search (2 ^ free_bit)),
    )

unfoldable pub allocate_frame : (user_space_pool size : ℕ) → Mem → Option ℕ × Mem
unfolding take_frame
allocate_frame user_space_pool size m = take_frame size 0 user_space_pool user_space_start m

-- A page folder's frame is cleared.
unfoldable pub clear_folder : Option ℕ → Mem → Option ℕ × Mem
clear_folder none m = (none, m)
clear_folder (some a) m = (some a, memory_clear a page_size 0 m)

unfoldable pub allocate_page_folder : (paging_pool size : ℕ) → Mem → Option ℕ × Mem
unfolding take_frame clear_folder
allocate_page_folder paging_pool size m =
    let (address, m') = take_frame size 0 paging_pool paging_pool_start m in clear_folder address m'

-- `pool[index / 8] &= ~(0x1 << (index % 8))`.
unfoldable pub clear_bit : (pool index : ℕ) → Mem → Mem
clear_bit pool index m =
    store8 m (pool + index / 8) (bit_and (load8 m (pool + index / 8)) (255 - 2 ^ (index % 8)))

-- The index is the distance in bytes; it is not divided by the page's size.
unfoldable pub free_frame : (user_space_pool address : ℕ) → Mem → Mem
unfolding clear_bit
free_frame user_space_pool address m = clear_bit user_space_pool (sub32 address user_space_start) m
