-- ===== src/Memory.antt =====
-- lib/base/memory.c: the byte loops. A loop recurs on the rounds that are left, from index `i`.
-- The C code adds an index to a pointer inside one object, so these sums do not wrap.
pub mod Copy
pub mod Fill
mod Tests
use mush_os.Base.{ℕ, zero, suc, ◌+◌, ◌*◌, Bool, true, ◌&&◌, ◌==◌}
use mush_os.Machine.{Mem, load8, store8}

unfoldable pub copy_loop : ℕ → ℕ → (source dest : ℕ) → Mem → Mem
copy_loop zero i source dest m = m
copy_loop (suc left) i source dest m =
    copy_loop left (i + 1) source dest (store8 m (dest + i) (load8 m (source + i)))

unfoldable pub memory_copy : (source dest : ℕ) → ℕ → Mem → Mem
unfolding copy_loop
memory_copy source dest num_bytes m = copy_loop num_bytes 0 source dest m

clear_loop : ℕ → ℕ → ℕ → ℕ → Mem → Mem
clear_loop zero i start sample m = m
clear_loop (suc left) i start sample m =
    clear_loop left (i + 1) start sample (store8 m (start + i) sample)

unfoldable pub memory_clear : ℕ → ℕ → ℕ → Mem → Mem
unfolding clear_loop
memory_clear start num_bytes sample m = clear_loop num_bytes 0 start sample m

-- The outer loop; the inner one is the loop of `memory_copy` at `dest + i * source_bytes`.
fill_loop : ℕ → ℕ → (dest source : ℕ) → ℕ → Mem → Mem
fill_loop zero i dest source source_bytes m = m
fill_loop (suc left) i dest source source_bytes m =
    fill_loop left (i + 1) dest source source_bytes
      (copy_loop source_bytes 0 source (dest + i * source_bytes) m)

-- The source file takes `dest` first.
unfoldable pub memory_fill : (dest source : ℕ) → ℕ → ℕ → Mem → Mem
unfolding fill_loop copy_loop
memory_fill dest source source_bytes times m = fill_loop times 0 dest source source_bytes m

compare_loop : ℕ → ℕ → (comp1 comp2 : ℕ) → Bool → Mem → Bool
compare_loop zero i comp1 comp2 equal m = equal
compare_loop (suc left) i comp1 comp2 equal m =
    compare_loop left (i + 1) comp1 comp2 (equal && (load8 m (comp1 + i) == load8 m (comp2 + i))) m

unfoldable pub memory_compare : (comp1 comp2 : ℕ) → ℕ → Mem → Bool
unfolding compare_loop
memory_compare comp1 comp2 length m = compare_loop length 0 comp1 comp2 true m
