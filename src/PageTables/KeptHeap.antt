-- ===== src/PageTables/KeptHeap.antt =====
-- A heap below the folders, of whose bytes only those of one block have changed.
use mush_os.Base.{
  ℕ, ◌+◌, ◌≤◌, ◌<◌, ◌≡◌, refl, sym, ◌∙◌, ◌⊎◌, List, arith, ltb, lt→ltb, le→ltb-false, lt_or_le, inl,
  inr, if◌then◌else◌,
}
use mush_os.Machine.{Mem, load8, load32}
use mush_os.Machine.Words.{load32_of_Same}
use mush_os.Heap.{heap_end, first_address}
use mush_os.Heap.Chain.{Block, IsHeap, Chain-frame}
use mush_os.Heap.Payload.{Owns, Owns-bounds, Within, IsHeap-payload}

-- The bytes of one memory below an address, and those of another from there on.
abbrev mix : ℕ → Mem → Mem → Mem
mix top below above x = if ltb x top then below x else above x

load8-mix_below : (top x : ℕ) (m g : Mem) → x < top → load8 (mix top m g) x ≡ load8 m x
unfolding load8
load8-mix_below top x m g l = rw (lt→ltb x top l) refl

load8-mix_above : (top x : ℕ) (m g : Mem) → top ≤ x → load8 (mix top m g) x ≡ load8 g x
unfolding load8
load8-mix_above top x m g l = rw (le→ltb-false x top l) refl

module _ (header top a n : ℕ) (m g : Mem) (bs : List Block) (h : IsHeap header m bs)
    (low : heap_end header m ≤ top) (own : Owns a n bs)
    (same : (x : ℕ) → x < top → (x < a) ⊎ (a + n ≤ x) → load8 g x ≡ load8 m x) where
  middle : Mem
  middle = mix top g m

  middle-Within : Within a n m middle
  unfolding middle
  middle-Within x o = elim (lt_or_le x top) [
    | inl l ↦ load8-mix_below top x g m l ∙ same x l o
    | inr l ↦ load8-mix_above top x g m l
  ]

  middle-IsHeap : IsHeap header middle bs
  middle-IsHeap = IsHeap-payload m middle (heap_end header m) a n middle-Within header bs refl h own

  word : (x : ℕ) → x + 4 ≤ top → load32 g x ≡ load32 middle x
  unfolding middle
  word x l =
      load32_of_Same middle g x (x + 4) x (λ y p q. sym (load8-mix_below top y g m (omega arith)))
        (omega arith) (omega arith)

  byte : (x : ℕ) → x < top → load8 g x ≡ load8 middle x
  unfolding middle
  byte x l = sym (load8-mix_below top x g m l)

  stop : heap_end header middle ≡ heap_end header m
  stop =
      load32_of_Same m middle (header + 8) (header + 12) (header + 8)
        (λ x l u. middle-Within x (
          inl (
            omega (
              arith,
              (Owns-bounds m (heap_end header m) (header + 12) 0 (first_address header m) a n bs
                  h.chain own).0,
            ))))
        (omega arith) (omega arith)

  pub IsHeap-kept : IsHeap header g bs × (heap_end header g ≡ heap_end header m)
  IsHeap-kept = (
    record {
      start = word (header + 4) (omega (arith, h.above)) ∙ middle-IsHeap.start;
      above = rw (word (header + 8) (omega (arith, h.above))) middle-IsHeap.above;
      chain =
          rw (word (header + 8) (omega (arith, h.above)), word header (omega (arith, h.above)))
            (Chain-frame middle g (heap_end header middle) (header + 12) 0 (load32 middle header) bs
              (λ x l u. byte x (omega (arith, u, stop))) middle-IsHeap.chain);
    },
    word (header + 8) (omega (arith, h.above)) ∙ stop,
  )
