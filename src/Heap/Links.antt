-- ===== src/Heap/Links.antt =====
-- What the writes of `allocate_space` and `unalloc` leave in memory.
use mush_os.Base.{
  ℕ, ◌+◌, ◌-◌, ◌^◌, ◌≤◌, ◌<◌, ◌≡◌, ◌∙◌, ◌⊎◌, inl, inr, arith, ◌==◌, ==-false, ==-true,
  if◌then◌else◌,
}
use mush_os.Machine.{Mem, add32, store32}
use mush_os.Machine.Run.{ok}
use mush_os.Machine.Words.{load32-lt, load32-store32_ne}
use mush_os.Heap.{heap_start, heap_end, link_next, link_previous, get_header}
use mush_os.Heap.Chain.{get_header-ok}

-- The heap's own header is in place: it bounds the region.
pub record IsRegion (header : ℕ) (m : Mem) (hi : ℕ) : Type 0 where
  pub start : heap_start header m ≡ header + 12
  pub stop : heap_end header m ≡ hi

-- A null pointer, or a block inside the region.
abbrev pub Linkable : ℕ → ℕ → ℕ → Type 0
Linkable header hi s = (s ≡ 0) ⊎ ((header + 24 ≤ s) × (s < hi))

-- A word written below a pointer, unless the pointer is null.
abbrev pub write_below : ℕ → ℕ → ℕ → Mem → Mem
write_below k s v m = if s == 0 then m else store32 m (s - k) v

module _ (header hi : ℕ) (m : Mem) (r : IsRegion header m hi) where
  pub IsRegion-store32 : (a v : ℕ) → header + 12 ≤ a → IsRegion header (store32 m a v) hi
  IsRegion-store32 a v h = record {
    start = load32-store32_ne m a v (header + 4) (omega arith) ∙ r.start;
    stop = load32-store32_ne m a v (header + 8) (omega arith) ∙ r.stop;
  }

  get_header-block : (s : ℕ) → header + 24 ≤ s → s < hi → get_header header s m ≡ ok (s - 12) m
  get_header-block s l u =
      get_header-ok header m s (omega (arith, r.start)) (omega (arith, r.stop)) (omega arith)

  hi-lt : hi < 2 ^ 32
  hi-lt = omega (arith, r.stop, load32-lt m (header + 8))

  pub link_next-ok :
      (s v : ℕ) → Linkable header hi s → link_next header s v m ≡ ok tt (write_below 4 s v m)
  unfolding link_next
  link_next-ok s v (inl e) = rw (==-true s 0 e)
  link_next-ok s v (inr (l, u)) = rw (==-false s 0 (omega arith), get_header-block s l u, at)
    where
      at : add32 (s - 12) 8 ≡ s - 4
      at = omega (arith, hi-lt)

  pub link_previous-ok :
      (s v : ℕ) → Linkable header hi s → link_previous header s v m ≡ ok tt (write_below 8 s v m)
  unfolding link_previous
  link_previous-ok s v (inl e) = rw (==-true s 0 e)
  link_previous-ok s v (inr (l, u)) = rw (==-false s 0 (omega arith), get_header-block s l u, at)
    where
      at : add32 (s - 12) 4 ≡ s - 8
      at = omega (arith, hi-lt)

  pub IsRegion-write_below :
      (k s v : ℕ) → k ≤ 12 → Linkable header hi s → IsRegion header (write_below k s v m) hi
  IsRegion-write_below k s v h (inl e) = rw (==-true s 0 e) r
  IsRegion-write_below k s v h (inr (l, u)) =
      rw (==-false s 0 (omega arith)) (IsRegion-store32 (s - k) v (omega arith))
