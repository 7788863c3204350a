-- ===== src/Machine.antt =====
-- The memory that every part of the kernel and of the library works on: bytes at addresses, with
-- 32-bit little-endian words on top, and the wrap-around of `u_dword` arithmetic.
pub mod Words
pub mod Run
use mush_os.Base.{ℕ, ◌+◌, ◌-◌, ◌*◌, ◌/◌, ◌%◌, ◌^◌, ◌==◌, if◌then◌else◌}

-- `u_dword` sums and differences.
abbrev pub add32 : ℕ → ℕ → ℕ
add32 a b = (a + b) % 2 ^ 32

abbrev pub sub32 : ℕ → ℕ → ℕ
sub32 a b = (a + 2 ^ 32 - b) % 2 ^ 32

-- A byte at each address; what is read is a byte whatever the function says.
abbrev pub Mem : Type 0
Mem = ℕ → ℕ

unfoldable pub load8 : Mem → ℕ → ℕ
load8 m a = m a % 256

unfoldable pub store8 : Mem → ℕ → ℕ → Mem
store8 m a v x = if x == a then v % 256 else m x

-- A `u_dword` in memory, lowest byte first.
unfoldable pub load32 : Mem → ℕ → ℕ
unfolding load8
load32 m a =
    load8 m a + 256 * load8 m (a + 1) + 65536 * load8 m (a + 2) + 16777216 * load8 m (a + 3)

unfoldable pub store32 : Mem → ℕ → ℕ → Mem
unfolding store8
store32 m a v =
    store8 (store8 (store8 (store8 m a v) (a + 1) (v / 256)) (a + 2) (v / 65536)) (a + 3)
      (v / 16777216)
