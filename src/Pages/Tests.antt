-- ===== src/Pages/Tests.antt =====
-- The pool of frames at concrete bytes.
use mush_os.Base.{◌+◌, ◌*◌, ◌≡◌, arith, if◌then◌else◌, ◌==◌}
use mush_os.Machine.{Mem}
use mush_os.Pages.{allocate_frame, free_frame, user_space_start}
use mush_os.Pages.Frames.{IsTaken, frame_bit, allocate_frame-IsTaken, free_frame-keeps_bit}

-- A pool at 100 whose first ten frames are taken.
abbrev pool_memory : Mem
pool_memory x = if x == 100 then 255 else if x == 101 then 3 else 0

allocate_frame-IsTaken_example :
    IsTaken 100 user_space_start 0 (4 * 8) pool_memory (allocate_frame 100 4 pool_memory)
allocate_frame-IsTaken_example = allocate_frame-IsTaken 100 4 pool_memory

free_frame-keeps_bit_example :
    frame_bit (free_frame 100 (user_space_start + 9 * 0x1000) pool_memory) 100 9
    ≡ frame_bit pool_memory 100 9
free_frame-keeps_bit_example = free_frame-keeps_bit 100 9 pool_memory (omega arith) (omega arith)
