-- ===== src/Heap/Below.antt =====
-- A heap whose blocks all end at or below some address depends on the bytes below it alone.
use mush_os.Base.{ℕ, ◌+◌, ◌-◌, ◌≤◌, ◌<◌, ◌≡◌, ◌∙◌, inl, inr, List, [], ◌∷◌, arith, ltb, Bool-cases}
use mush_os.Machine.{Mem, load32}
use mush_os.Machine.Words.{Same, load32_of_Same}
use mush_os.Heap.{heap_end, first_address}
use mush_os.Heap.Chain.{Block, Chain, Chain-frame, IsHeap}
use mush_os.Heap.Room.{InPayload}
use mush_os.Heap.Insert.{insert}

-- The blocks begin below `mid`, and end there at the latest.
abbrev pub EndBy : ℕ → List Block → Type 0
EndBy mid [] = Unit
EndBy mid ((a, n) ∷ bs) = (a < mid) × (a + n ≤ mid) × EndBy mid bs

pub EndBy-insert :
    (mid a n : ℕ) (bs : List Block)
    → a < mid
    → a + n ≤ mid
    → EndBy mid bs
    → EndBy mid (insert (a, n) bs)
unfolding insert
EndBy-insert mid a n [] l u e = (l, u, tt)
EndBy-insert mid a n ((b, k) ∷ bs) l u (f, g, e) = elim (Bool-cases (ltb a b)) [
  | inl t ↦ rw t (l, u, (f, g, e))
  | inr t ↦ rw t (f, g, EndBy-insert mid a n bs l u e)
]

pub EndBy-InPayload :
    (mid : ℕ) (bs : List Block) → EndBy mid bs → (x : ℕ) → InPayload x bs → x < mid
EndBy-InPayload mid [] e x p = absurd p
EndBy-InPayload mid ((a, n) ∷ bs) (f, g, e) x (inl p) = omega (arith, g, p)
EndBy-InPayload mid ((a, n) ∷ bs) (f, g, e) x (inr p) = EndBy-InPayload mid bs e x p

-- The region of a chain may be cut off behind its last block, and be extended.
Chain-cut :
    (m : Mem) (hi mid lo prev p : ℕ) (bs : List Block)
    → EndBy mid bs
    → Chain m hi lo prev p bs
    → Chain m mid lo prev p bs
Chain-cut m hi mid lo prev p [] e c = c
Chain-cut m hi mid lo prev p ((a, n) ∷ bs) (f, g, e) (q, b, c) = (
  q,
  record { above = b.above; inside = f; below = g; sized = b.sized; linked = b.linked },
  Chain-cut m hi mid (a + n) a (load32 m (a - 4)) bs e c,
)

Chain-extend :
    (m : Mem) (hi mid lo prev p : ℕ) (bs : List Block)
    → mid ≤ hi
    → Chain m mid lo prev p bs
    → Chain m hi lo prev p bs
Chain-extend m hi mid lo prev p [] l c = c
Chain-extend m hi mid lo prev p ((a, n) ∷ bs) l (q, b, c) = (
  q,
  record {
    above = b.above;
    inside = omega (arith, b.inside, l);
    below = omega (arith, b.below, l);
    sized = b.sized;
    linked = b.linked;
  },
  Chain-extend m hi mid (a + n) a (load32 m (a - 4)) bs l c,
)

pub IsHeap-EndBy :
    (header mid : ℕ) (m g : Mem) (bs : List Block)
    → header + 12 ≤ mid
    → mid ≤ heap_end header m
    → EndBy mid bs
    → Same m g header mid
    → IsHeap header m bs
    → IsHeap header g bs × (heap_end header g ≡ heap_end header m)
IsHeap-EndBy header mid m g bs low high ends same h = (
  record {
    start = word (header + 4) (omega arith) (omega (arith, low)) ∙ h.start;
    above = rw (stop) (h.above);
    chain =
        rw (stop, word header (omega arith) (omega (arith, low)))
          (Chain-extend g (heap_end header m) mid (header + 12) 0 (first_address header m) bs high (
            Chain-frame m g mid (header + 12) 0 (first_address header m) bs
              (λ x l u. same x (omega arith) u)
              (Chain-cut m (heap_end header m) mid (header + 12) 0 (first_address header m) bs ends
                h.chain)));
  },
  stop,
)
  where
    word : (x : ℕ) → header ≤ x → x + 4 ≤ mid → load32 g x ≡ load32 m x
    word x l u = load32_of_Same m g header mid x same l u

    stop : heap_end header g ≡ heap_end header m
    stop = word (header + 8) (omega arith) (omega (arith, low))
