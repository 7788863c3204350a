-- ===== src/Heap/Payload.antt =====
-- A program writes into its own block: the heap stays well formed, and other blocks stay.
use mush_os.Base.{
  ℕ, ◌+◌, ◌-◌, ◌≤◌, ◌<◌, ◌≡◌, refl, ◌∙◌, ◌⊎◌, inl, inr, List, [], ◌∷◌, arith, ltb, Bool-cases,
}
use mush_os.Memory.{memory_clear}
use mush_os.Memory.Fill.{load8-memory_clear}
use mush_os.Base.{lt→leb-false, le→leb, le→ltb-false}
use mush_os.Machine.{Mem, load8, load32}
use mush_os.Machine.Words.{Same, load32_of_Same}
use mush_os.Heap.{heap_end, first_address}
use mush_os.Heap.Chain.{Block, Chain, Chain-frame, IsHeap}
use mush_os.Heap.Room.{Stays, InPayload, InPayload-above}
use mush_os.Heap.Insert.{insert}

-- The block at `a`, of size `n`, is one of the heap's.
abbrev pub Owns : ℕ → ℕ → List Block → Type 0
Owns a n [] = ⊥
Owns a n ((b, k) ∷ bs) = ((a ≡ b) × (n ≡ k)) ⊎ Owns a n bs

-- The memories differ in the `n` bytes at `a` at most.
abbrev pub Within : ℕ → ℕ → Mem → Mem → Type 0
Within a n m g = (x : ℕ) → (x < a) ⊎ (a + n ≤ x) → load8 g x ≡ load8 m x

pub Owns-insert : (a n : ℕ) (bs : List Block) → Owns a n (insert (a, n) bs)
unfolding insert
Owns-insert a n [] = inl (refl, refl)
Owns-insert a n ((b, k) ∷ bs) = elim (Bool-cases (ltb a b)) [
  | inl e ↦ rw e (inl (refl, refl))
  | inr e ↦ rw e (inr (Owns-insert a n bs))
]

pub Owns-bounds :
    (m : Mem) (hi lo prev p a n : ℕ) (bs : List Block)
    → Chain m hi lo prev p bs
    → Owns a n bs
    → (lo + 12 ≤ a) × (a + n ≤ hi)
Owns-bounds m hi lo prev p a n [] c h = absurd h
Owns-bounds m hi lo prev p a n ((b, k) ∷ bs) (e, i, c) (inl o) = omega (arith, i.above, i.below)
Owns-bounds m hi lo prev p a n ((b, k) ∷ bs) (e, i, c) (inr o) =
    omega (arith, i.above, Owns-bounds m hi (b + k) b (load32 m (b - 4)) a n bs c o)

module _ (m g : Mem) (hi a n : ℕ) (within : Within a n m g) where
  word : (x : ℕ) → (x + 4 ≤ a) ⊎ (a + n ≤ x) → load32 g x ≡ load32 m x
  word x h =
      load32_of_Same m g x (x + 4) x (λ y l u. within y (omega arith)) (omega arith) (omega arith)

  -- Headers lie outside the payloads.
  Chain-payload :
      (lo prev p : ℕ) (bs : List Block)
      → Chain m hi lo prev p bs
      → Owns a n bs
      → Chain g hi lo prev p bs
  Chain-payload lo prev p [] c h = absurd h
  Chain-payload lo prev p ((b, k) ∷ bs) (e, i, c) (inl o) = (
    e,
    record {
      above = i.above;
      inside = i.inside;
      below = i.below;
      sized = word (b - 12) (omega (arith, i.above)) ∙ i.sized;
      linked = word (b - 8) (omega (arith, i.above)) ∙ i.linked;
    },
    rw (word (b - 4) (omega (arith, i.above)))
        (Chain-frame m g hi (b + k) b (load32 m (b - 4)) bs (λ x l u. within x (omega arith)) c),
  )
  Chain-payload lo prev p ((b, k) ∷ bs) (e, i, c) (inr o) = (
    e,
    record {
      above = i.above;
      inside = i.inside;
      below = i.below;
      sized = word (b - 12) (omega (arith, bounds)) ∙ i.sized;
      linked = word (b - 8) (omega (arith, bounds)) ∙ i.linked;
    },
    rw (word (b - 4) (omega (arith, bounds, i.above)))
        (Chain-payload (b + k) b (load32 m (b - 4)) bs c o),
  )
    where
      bounds : (b + k + 12 ≤ a) × (a + n ≤ hi)
      bounds = Owns-bounds m hi (b + k) b (load32 m (b - 4)) a n bs c o

  pub IsHeap-payload :
      (header : ℕ) (bs : List Block)
      → heap_end header m ≡ hi
      → IsHeap header m bs
      → Owns a n bs
      → IsHeap header g bs
  IsHeap-payload header bs stop h o = record {
    start = word (header + 4) (omega (arith, bounds)) ∙ h.start;
    above = rw (word (header + 8) (omega (arith, bounds))) (h.above);
    chain =
        rw (word (header + 8) (omega (arith, bounds)), word header (omega (arith, bounds)), stop)
          (Chain-payload (header + 12) 0 (first_address header m) bs (rw stop at (h.chain)) o);
  }
    where
      bounds : (header + 12 + 12 ≤ a) × (a + n ≤ heap_end header m)
      bounds =
          Owns-bounds m (heap_end header m) (header + 12) 0 (first_address header m) a n bs h.chain
            o

-- The blocks that were there are apart from one that is put between them.
pub InPayload-insert_apart :
    (m : Mem) (hi lo prev p a n : ℕ) (bs : List Block)
    → Chain m hi lo prev p (insert (a, n) bs)
    → (x : ℕ) → InPayload x bs
    → (x < a) ⊎ (a + n ≤ x)
unfolding insert
InPayload-insert_apart m hi lo prev p a n [] c x h = absurd h
InPayload-insert_apart m hi lo prev p a n ((b, k) ∷ bs) c x h = elim (Bool-cases (ltb a b)) [
  | inl e ↦ behind (rw e at c)
  | inr e ↦
      before (rw e at c) h
        (λ d later. InPayload-insert_apart m hi (b + k) b (load32 m (b - 4)) a n bs d x later)
]
  where
    behind : Chain m hi lo prev p ((a, n) ∷ (b, k) ∷ bs) → (x < a) ⊎ (a + n ≤ x)
    behind (f, i, d) =
        omega (arith, InPayload-above m hi (a + n) a (load32 m (a - 4)) ((b, k) ∷ bs) d x h)

    before :
        Chain m hi lo prev p ((b, k) ∷ insert (a, n) bs)
        → ((b ≤ x) × (x < b + k)) ⊎ InPayload x bs
        → (Chain m hi (b + k) b (load32 m (b - 4)) (insert (a, n) bs)
            → InPayload x bs
            → (x < a) ⊎ (a + n ≤ x))
        → (x < a) ⊎ (a + n ≤ x)
    before (f, i, d) (inl own) rest = omega (
      arith,
      own,
      Owns-bounds m hi (b + k) b (load32 m (b - 4)) a n (insert (a, n) bs) d (Owns-insert a n bs),
    )
    before (f, i, d) (inr later) rest = rest d later

-- What stays is apart from a new block.
pub Stays-insert_apart :
    (header : ℕ) (m : Mem) (a n : ℕ) (bs : List Block)
    → IsHeap header m (insert (a, n) bs)
    → (x : ℕ) → Stays header (heap_end header m) x bs
    → (x < a) ⊎ (a + n ≤ x)
Stays-insert_apart header m a n bs h x (inl p) =
    InPayload-insert_apart m (heap_end header m) (header + 12) 0 (first_address header m) a n bs
      h.chain x p
Stays-insert_apart header m a n bs h x (inr o) = omega (
  arith,
  Owns-bounds m (heap_end header m) (header + 12) 0 (first_address header m) a n (insert (a, n) bs)
      h.chain (Owns-insert a n bs),
)

-- Bytes outside of what is cleared.
pub memory_clear-Within : (a n : ℕ) (m : Mem) → Within a n m (memory_clear a n 0 m)
memory_clear-Within a n m x (inl l) = load8-memory_clear a n 0 m x ∙ rw (lt→leb-false a x l) refl
memory_clear-Within a n m x (inr l) =
    load8-memory_clear a n 0 m x ∙ rw (le→leb a x (omega arith), le→ltb-false x (a + n) l) refl

-- A heap depends on the bytes of its region alone.
pub IsHeap-Same :
    (header : ℕ) (m g : Mem) (bs : List Block)
    → Same m g header (heap_end header m)
    → IsHeap header m bs
    → IsHeap header g bs × (heap_end header g ≡ heap_end header m)
IsHeap-Same header m g bs same h = (
  record {
    start = word (header + 4) (omega arith) (omega (arith, h.above)) ∙ h.start;
    above = rw (stop) (h.above);
    chain =
        rw (stop, word header (omega arith) (omega (arith, h.above)))
          (Chain-frame m g (heap_end header m) (header + 12) 0 (first_address header m) bs
            (λ x l u. same x (omega arith) u) h.chain);
  },
  stop,
)
  where
    word : (x : ℕ) → header ≤ x → x + 4 ≤ heap_end header m → load32 g x ≡ load32 m x
    word x l u = load32_of_Same m g header (heap_end header m) x same l u

    stop : heap_end header g ≡ heap_end header m
    stop = word (header + 8) (omega arith) (omega (arith, h.above))
