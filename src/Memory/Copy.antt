-- ===== src/Memory/Copy.antt =====
-- What `memory_copy` and `memory_compare` do.
use native.Mathlib.Decide.{ℕ_discrete}
use mush_os.Base.{
  &&_iff, ==→eq, ==-true, ap, ℕ, zero, suc, ◌+◌, ◌-◌, ◌≤◌, ◌<◌, ◌≡◌, refl, ◌↔◌, ◌⊎◌, Bool, true,
  ◌&&◌, arith, leb, ltb, ◌==◌, if◌then◌else◌,
}
use mush_os.Machine.{Mem, load8, store8}
use mush_os.Machine.Words.{load8-store8, load8-lt}
use mush_os.Memory.{copy_loop, memory_copy, compare_loop, memory_compare}

pub copy_loop-load8 :
    (left i source dest : ℕ) (m : Mem)
    → (dest ≤ source) ⊎ (source + i + left ≤ dest + i)
    → (x : ℕ)
    → load8 (copy_loop left i source dest m) x ≡ (
        if leb (dest + i) x && ltb x (dest + i + left)
        then load8 m (source + (x - dest))
        else load8 m x)
unfolding copy_loop
copy_loop-load8 zero i source dest m h x = ground arith
copy_loop-load8 (suc left) i source dest m h x = elim (ℕ_discrete x (dest + i)) [
  | yes e ↦ ground (
    arith,
    copy_loop-load8 left (i + 1) source dest (store8 m (dest + i) (load8 m (source + i)))
        (omega arith) x,
    load8-store8 m (dest + i) (load8 m (source + i)) x,
    load8-lt m (source + i),
    ap (load8 m) (index e),
  )
  | no ne ↦ ground (
    arith,
    copy_loop-load8 left (i + 1) source dest (store8 m (dest + i) (load8 m (source + i)))
        (omega arith) x,
    load8-store8 m (dest + i) (load8 m (source + i)) x,
    load8-store8 m (dest + i) (load8 m (source + i)) (source + (x - dest)),
  )
]
  where
    index : x ≡ dest + i → source + i ≡ source + (x - dest)
    index e = omega arith

-- `memory_copy` moves `num_bytes` bytes and writes no other, unless the target begins inside the
-- source: targets below or at the source may overlap with it.
pub load8-memory_copy :
    (source dest num_bytes : ℕ) (m : Mem)
    → (dest ≤ source) ⊎ (source + num_bytes ≤ dest)
    → (x : ℕ)
    → load8 (memory_copy source dest num_bytes m) x ≡ (
        if leb dest x && ltb x (dest + num_bytes) then load8 m (source + (x - dest)) else load8 m x)
unfolding memory_copy
load8-memory_copy source dest n m h x =
    ground (arith, copy_loop-load8 n 0 source dest m (omega arith) x)

abbrev AgreeFrom : Mem → (comp1 comp2 lo hi : ℕ) → Type 0
AgreeFrom m comp1 comp2 lo hi =
    (j : ℕ) → lo ≤ j → j < hi → load8 m (comp1 + j) ≡ load8 m (comp2 + j)

step :
    (left i comp1 comp2 : ℕ) (equal : Bool) (m : Mem)
    → ((compare_loop left
            (i + 1)
            comp1
            comp2
            (equal && (load8 m (comp1 + i) == load8 m (comp2 + i)))
            m
          ≡ true)
        ↔ (((equal && (load8 m (comp1 + i) == load8 m (comp2 + i))) ≡ true)
            × AgreeFrom m comp1 comp2 (i + 1) (i + 1 + left)))
    → (compare_loop (suc left) i comp1 comp2 equal m ≡ true)
      ↔ ((equal ≡ true) × AgreeFrom m comp1 comp2 i (i + suc left))
unfolding compare_loop
step left i comp1 comp2 equal m rest = (
  λ h.
      let (both, later) = rest.0 h in
      let (e, first) = &&_iff equal (load8 m (comp1 + i) == load8 m (comp2 + i)) both in
      (
        e,
        λ j l u. elim (ℕ_discrete i j) [
          | yes at ↦ rw (← at) (==→eq _ _ first)
          | no ne ↦ later j (omega arith) (omega arith)
        ],
      ),
  λ (e, all). rest.1 (
    rw (e, ==-true _ _ (all i (omega arith) (omega arith))),
    λ j l u. all j (omega arith) (omega arith),
  ),
)

compare_loop_iff :
    (left i comp1 comp2 : ℕ) (equal : Bool) (m : Mem)
    → (compare_loop left i comp1 comp2 equal m ≡ true)
      ↔ ((equal ≡ true) × AgreeFrom m comp1 comp2 i (i + left))
unfolding compare_loop
compare_loop_iff zero i comp1 comp2 equal m = (λ e. (e, λ j l u. absurd (omega arith)), λ p. p.0)
compare_loop_iff (suc left) i comp1 comp2 equal m = step left i comp1 comp2 equal m (
    compare_loop_iff left (i + 1) comp1 comp2
      (equal && (load8 m (comp1 + i) == load8 m (comp2 + i))) m)

-- `memory_compare` answers true exactly when the two regions hold the same bytes.
pub memory_compare_iff :
    (comp1 comp2 length : ℕ) (m : Mem)
    → (memory_compare comp1 comp2 length m ≡ true)
      ↔ ((j : ℕ) → j < length → load8 m (comp1 + j) ≡ load8 m (comp2 + j))
unfolding memory_compare
memory_compare_iff comp1 comp2 n m = (
  λ h j u. (loop.0 h).1 j (omega arith) (omega arith),
  λ all. loop.1 (refl, λ j l u. all j (omega arith)),
)
  where
    loop :
        (compare_loop n 0 comp1 comp2 true m ≡ true)
        ↔ ((◌≡◌ {A = Bool} true true) × AgreeFrom m comp1 comp2 0 (0 + n))
    loop = compare_loop_iff n 0 comp1 comp2 true m
