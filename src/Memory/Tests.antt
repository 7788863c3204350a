-- ===== src/Memory/Tests.antt =====
-- The memory routines at concrete regions.
use mush_os.Base.{ℕ, ◌+◌, ◌-◌, ◌<◌, ◌≡◌, ◌↔◌, ◌&&◌, true, leb, ltb, if◌then◌else◌, arith}
use mush_os.Machine.{Mem, load8}
use mush_os.Memory.{memory_copy, memory_compare}
use mush_os.Memory.Copy.{load8-memory_copy, memory_compare_iff}

abbrev ramp : Mem
ramp = λ x. x

-- A copy to an overlapping target below.
load8-memory_copy_example :
    load8 (memory_copy 12 10 5 ramp) 13
    ≡ (if leb 10 13 && ltb 13 (10 + 5) then load8 ramp (12 + (13 - 10)) else load8 ramp 13)
load8-memory_copy_example = load8-memory_copy 12 10 5 ramp (omega arith) 13

memory_compare_iff_example :
    (memory_compare 10 20 3 ramp ≡ true)
    ↔ ((j : ℕ) → j < 3 → load8 ramp (10 + j) ≡ load8 ramp (20 + j))
memory_compare_iff_example = memory_compare_iff 10 20 3 ramp
