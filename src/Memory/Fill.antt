-- ===== src/Memory/Fill.antt =====
-- What `memory_clear` and `memory_fill` do.
use native.Mathlib.Decide.{ℕ_discrete}
use mush_os.Base.{
  ap, ◌∙◌, ℕ, zero, suc, ◌+◌, ◌-◌, ◌*◌, ◌%◌, ◌≤◌, ◌<◌, ◌≡◌, refl, ◌⊎◌, ◌&&◌, arith, leb, ltb,
  if◌then◌else◌,
}
use mush_os.Machine.{Mem, load8, store8}
use mush_os.Machine.Words.{load8-store8}
use mush_os.Memory.{clear_loop, memory_clear, fill_loop, memory_fill, copy_loop}
use mush_os.Memory.Copy.{copy_loop-load8}

clear_loop-load8 :
    (left i start sample : ℕ) (m : Mem) (x : ℕ)
    → load8 (clear_loop left i start sample m) x
      ≡ (if leb (start + i) x && ltb x (start + i + left) then sample % 256 else load8 m x)
unfolding clear_loop
clear_loop-load8 zero i start sample m x = ground arith
clear_loop-load8 (suc left) i start sample m x = ground (
  arith,
  clear_loop-load8 left (i + 1) start sample (store8 m (start + i) sample) x,
  load8-store8 m (start + i) sample x,
)

-- `memory_clear` writes the sample to exactly the given bytes.
pub load8-memory_clear :
    (start num_bytes sample : ℕ) (m : Mem) (x : ℕ)
    → load8 (memory_clear start num_bytes sample m) x
      ≡ (if leb start x && ltb x (start + num_bytes) then sample % 256 else load8 m x)
unfolding memory_clear
load8-memory_clear start n sample m x = ground (arith, clear_loop-load8 n 0 start sample m x)

module _ (dest source n : ℕ) where
  -- Rounds from `i` on leave what lies outside their targets alone.
  fill_loop-outside :
      (left i : ℕ) (m : Mem)
      → (source + n ≤ dest) ⊎ (dest + (i + left) * n ≤ source)
      → (x : ℕ) → (x < dest + i * n) ⊎ (dest + (i + left) * n ≤ x)
      → load8 (fill_loop left i dest source n m) x ≡ load8 m x
  unfolding fill_loop
  fill_loop-outside zero i m h x o = refl
  fill_loop-outside (suc left) i m h x o =
      fill_loop-outside left (i + 1) (copy_loop n 0 source (dest + i * n) m) (grind arith) x
        (grind arith)
      ∙ ground (arith, copy_loop-load8 n 0 source (dest + i * n) m (grind arith) x, far o)
    where
      far :
          (x < dest + i * n) ⊎ (dest + (i + suc left) * n ≤ x)
          → (x < dest + i * n) ⊎ (dest + i * n + n ≤ x)
      far o = grind arith

  fill_loop-inside :
      (left i : ℕ) (m : Mem)
      → (source + n ≤ dest) ⊎ (dest + (i + left) * n ≤ source)
      → (k j : ℕ) → i ≤ k
      → k < i + left
      → j < n
      → load8 (fill_loop left i dest source n m) (dest + k * n + j) ≡ load8 m (source + j)
  unfolding fill_loop
  fill_loop-inside zero i m h k j l u v = absurd (omega arith)
  fill_loop-inside (suc left) i m h k j l u v = elim (ℕ_discrete k i) [
    | yes e ↦ rw e (
        fill_loop-outside left (i + 1) m' (grind arith) (dest + i * n + j) (grind arith)
        ∙ ground (
          arith,
          copy_loop-load8 n 0 source (dest + i * n) m (grind arith) (dest + i * n + j),
          ap (load8 m) (index (dest + i * n)),
        ))
    | no ne ↦
        fill_loop-inside left (i + 1) m' (grind arith) k j (omega arith) (omega arith) v
        ∙ ground (
          arith,
          copy_loop-load8 n 0 source (dest + i * n) m (grind arith) (source + j),
          apart (grind arith),
        )
  ]
    where
      m' : Mem
      m' = copy_loop n 0 source (dest + i * n) m

      index : (d : ℕ) → source + (d + j - d) ≡ source + j
      index d = omega arith

      apart :
          (source + n ≤ dest) ⊎ (dest + i * n + n ≤ source)
          → (source + j < dest + i * n) ⊎ (dest + i * n + n ≤ source + j)
      apart h = grind arith

  -- If the source does not overlap with the target, `memory_fill` repeats it `times` times from
  -- `dest` on, and writes nothing else.
  pub memory_fill-load8 :
      (times : ℕ) (m : Mem)
      → (source + n ≤ dest) ⊎ (dest + times * n ≤ source)
      → ((k j : ℕ)
          → k < times
          → j < n
          → load8 (memory_fill dest source n times m) (dest + k * n + j) ≡ load8 m (source + j))
        × ((x : ℕ)
            → (x < dest) ⊎ (dest + times * n ≤ x)
            → load8 (memory_fill dest source n times m) x ≡ load8 m x)
  unfolding memory_fill
  memory_fill-load8 times m h = (
    λ k j u v. fill_loop-inside times 0 m (grind arith) k j (omega arith) (omega arith) v,
    λ x o. fill_loop-outside times 0 m (grind arith) x (grind arith),
  )
