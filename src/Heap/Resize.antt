-- ===== src/Heap/Resize.antt =====
-- `challoc` in place: the block's size changes, and nothing else.
use native.Mathlib.Decide.{ℕ_discrete}
use mush_os.Base.{
  ℕ, ◌+◌, ◌-◌, ◌^◌, ◌≤◌, ◌<◌, ◌≡◌, refl, sym, ap, ◌∙◌, ◌≢◌, ◌⊎◌, inl, inr, List, [], ◌∷◌, arith,
  ltb, ◌==◌, ==-true, ==-false, lt→ltb, le→ltb-false, lt_or_le, ◌%◌, if◌then◌else◌, true,
}
use mush_os.Machine.{Mem, add32, sub32, load8, load32, store32}
use mush_os.Machine.Run.{ok}
use mush_os.Machine.Words.{load32_of_Same, load32-lt, load32-store32_self, load8-store32_ne}
use mush_os.Heap.{get_header, heap_end, first_address}
use mush_os.Heap.Chain.{Block, Chain, Chain-frame, IsHeap, get_header-ok}
use mush_os.Heap.Room.{InPayload, InPayload-above}
use mush_os.Heap.Blocks.{challoc}

-- The blocks with another size for the one at `a`.
pub resize : ℕ → ℕ → List Block → List Block
resize a s [] = []
resize a s ((b, k) ∷ bs) = if b == a then (b, s) ∷ bs else (b, k) ∷ resize a s bs

-- `s` bytes at `a` end before the header of the next block, or before the end of the heap.
abbrev pub Behind : ℕ → ℕ → ℕ → List Block → Type 0
Behind hi a s [] = a + s ≤ hi
Behind hi a s ((c, j) ∷ bs) = a + s + 12 ≤ c

-- There is a block of `n` bytes at `a`, with room for `s`.
abbrev pub HasRoom : ℕ → (a n s : ℕ) → List Block → Type 0
HasRoom hi a n s [] = ⊥
HasRoom hi a n s ((b, k) ∷ bs) =
    ((b ≡ a) × (k ≡ n) × Behind hi a s bs) ⊎ ((b ≢ a) × HasRoom hi a n s bs)

-- What is known of the block's header.
record IsRoom (m : Mem) (hi lo a n s : ℕ) : Type 0 where
  low : lo + 12 ≤ a
  inside : a < hi
  sized : load32 m (a - 12) ≡ n
  next : (load32 m (a - 4) ≡ 0) ⊎ (a + s + 12 ≤ load32 m (a - 4))
  fits : a + s ≤ hi

module _ (m : Mem) (hi a n s : ℕ) where
  Behind-bounds :
      (bs : List Block) (lo prev p : ℕ)
      → Chain m hi lo prev p bs
      → Behind hi a s bs
      → ((p ≡ 0) ⊎ (a + s + 12 ≤ p)) × (a + s ≤ hi)
  Behind-bounds [] lo prev p c r = (inl c, r)
  Behind-bounds ((b, k) ∷ bs) lo prev p (e, i, c) r = omega (arith, e, i.inside, r)

  IsRoom-Chain :
      (lo prev p : ℕ) (bs : List Block)
      → Chain m hi lo prev p bs
      → HasRoom hi a n s bs
      → IsRoom m hi lo a n s
  IsRoom-Chain lo prev p [] c h = absurd h
  IsRoom-Chain lo prev p ((b, k) ∷ bs) (e, i, c) (inl (f, g, r)) = rw (← f) (record {
    low = i.above;
    inside = i.inside;
    sized = i.sized ∙ g;
    next = omega (arith, f, Behind-bounds bs (b + k) b (load32 m (b - 4)) c r);
    fits = omega (arith, f, Behind-bounds bs (b + k) b (load32 m (b - 4)) c r);
  })
  IsRoom-Chain lo prev p ((b, k) ∷ bs) (e, i, c) (inr (f, r)) =
      deeper (IsRoom-Chain (b + k) b (load32 m (b - 4)) bs c r)
    where
      deeper : IsRoom m hi (b + k) a n s → IsRoom m hi lo a n s
      deeper q = record {
        low = omega (arith, q.low, i.above);
        inside = q.inside;
        sized = q.sized;
        next = q.next;
        fits = q.fits;
      }

-- The chain depends on where a block begins only through the next one.
Chain-Behind :
    (m : Mem) (hi a n s prev p : ℕ) (bs : List Block)
    → Behind hi a s bs
    → Chain m hi (a + n) prev p bs
    → Chain m hi (a + s) prev p bs
Chain-Behind m hi a n s prev p [] r c = c
Chain-Behind m hi a n s prev p ((b, k) ∷ bs) r (e, i, c) = (
  e,
  record { above = r; inside = i.inside; below = i.below; sized = i.sized; linked = i.linked },
  c,
)

module _ (m g : Mem) (hi a n s : ℕ) (sized : load32 g (a - 12) ≡ s)
    (same : (x : ℕ) → (x + 12 < a) ⊎ (a ≤ x + 8) → load8 g x ≡ load8 m x) where
  word : (x : ℕ) → (x + 16 ≤ a) ⊎ (a ≤ x + 8) → load32 g x ≡ load32 m x
  word x h =
      load32_of_Same m g x (x + 4) x (λ y l u. same y (omega arith)) (omega arith) (omega arith)

  Chain-resize :
      (lo prev p : ℕ) (bs : List Block)
      → Chain m hi lo prev p bs
      → HasRoom hi a n s bs
      → Chain g hi lo prev p (resize a s bs)
  unfolding resize
  Chain-resize lo prev p [] c h = absurd h
  Chain-resize lo prev p ((b, k) ∷ bs) (e, i, c) (inl (f, q, r)) =
      rw (==-true b a f, f)
        (
          e ∙ f,
          record {
            above = omega (arith, i.above, f);
            inside = omega (arith, i.inside, f);
            below = (Behind-bounds m hi a n s bs (b + k) b (load32 m (b - 4)) c r).1;
            sized = sized;
            linked =
                word (a - 8) (omega arith) ∙ ap (λ (b : ℕ). load32 m (b - 8)) (sym f) ∙ i.linked;
          },
          rw (word (a - 4) (omega arith)) (
              Chain-frame m g hi (a + s) a (load32 m (a - 4)) bs (λ x l u. same x (omega arith))
                (Chain-Behind m hi a n s a (load32 m (a - 4)) bs r (rw (f, q) at c))),
        )
  Chain-resize lo prev p ((b, k) ∷ bs) (e, i, c) (inr (f, r)) = rw (==-false b a f) (
    e,
    record {
      above = i.above;
      inside = i.inside;
      below = i.below;
      sized = word (b - 12) (omega (arith, low)) ∙ i.sized;
      linked = word (b - 8) (omega (arith, low)) ∙ i.linked;
    },
    rw (word (b - 4) (omega (arith, low, i.above)))
        (Chain-resize (b + k) b (load32 m (b - 4)) bs c r),
  )
    where
      low : b + k + 12 ≤ a
      low = (IsRoom-Chain m hi a n s (b + k) b (load32 m (b - 4)) bs c r).low

-- Payloads lie outside the block's header.
outside_header :
    (m : Mem) (hi a n s x lo prev p : ℕ) (bs : List Block)
    → Chain m hi lo prev p bs
    → HasRoom hi a n s bs
    → InPayload x bs
    → (x + 12 < a) ⊎ (a ≤ x + 8)
outside_header m hi a n s x lo prev p [] c r h = absurd h
outside_header m hi a n s x lo prev p ((b, k) ∷ bs) (e, i, c) (inl (f, q, r)) (inl o) =
    inr (omega (arith, f, o))
outside_header m hi a n s x lo prev p ((b, k) ∷ bs) (e, i, c) (inl (f, q, r)) (inr o) =
    inr (omega (arith, f, InPayload-above m hi (b + k) b (load32 m (b - 4)) bs c x o))
outside_header m hi a n s x lo prev p ((b, k) ∷ bs) (e, i, c) (inr (f, r)) (inl o) =
    inl (omega (arith, o, (IsRoom-Chain m hi a n s (b + k) b (load32 m (b - 4)) bs c r).low))
outside_header m hi a n s x lo prev p ((b, k) ∷ bs) (e, i, c) (inr (f, r)) (inr o) =
    outside_header m hi a n s x (b + k) b (load32 m (b - 4)) bs c r o

-- What `challoc` leaves when the size changes in place: the same block with the new size, on a
-- well-formed heap, and every byte of every block as it was.
pub record IsResized (header : ℕ) (m g : Mem) (a s : ℕ) (bs : List Block) : Type 0 where
  pub heap : IsHeap header g (resize a s bs)
  pub kept : (x : ℕ) → InPayload x bs → load8 g x ≡ load8 m x

module _ (header : ℕ) (m : Mem) (bs : List Block) (a n s : ℕ) (h : IsHeap header m bs)
    (room : HasRoom (heap_end header m) a n s bs) where
  -- The memory with the new size, if it is new.
  pub resized : Mem
  resized = if n == s then m else store32 m (a - 12) s

  at : IsRoom m (heap_end header m) (header + 12) a n s
  at =
      IsRoom-Chain m (heap_end header m) a n s (header + 12) 0 (first_address header m) bs h.chain
        room

  resized-sized : load32 resized (a - 12) ≡ s
  unfolding resized
  resized-sized = elim (ℕ_discrete n s) [
    | yes e ↦ rw (==-true n s e) (at.sized ∙ e)
    | no ne ↦ rw (==-false n s ne) (load32-store32_self m (a - 12) s ∙ small)
  ]
    where
      small : s % 2 ^ 32 ≡ s
      small = omega (arith, at.fits, load32-lt m (header + 8))

  resized-same : (x : ℕ) → (x + 12 < a) ⊎ (a ≤ x + 8) → load8 resized x ≡ load8 m x
  unfolding resized
  resized-same x o = elim (ℕ_discrete n s) [
    | yes e ↦ rw (==-true n s e) refl
    | no ne ↦ rw (==-false n s ne) (load8-store32_ne m (a - 12) s x (omega (arith, at.low)))
  ]

  resized-word : (x : ℕ) → x + 16 ≤ a → load32 resized x ≡ load32 m x
  resized-word x o =
      load32_of_Same m resized x (x + 4) x (λ y l u. resized-same y (omega arith)) (omega arith)
        (omega arith)

  resized-IsResized : IsResized header m resized a s bs
  resized-IsResized = record {
    heap = record {
      start = resized-word (header + 4) (omega (arith, at.low)) ∙ h.start;
      above = rw (resized-word (header + 8) (omega (arith, at.low))) h.above;
      chain =
          rw
            (
              resized-word (header + 8) (omega (arith, at.low)),
              resized-word header (omega (arith, at.low)),
            )
            (Chain-resize m resized (heap_end header m) a n s resized-sized resized-same
              (header + 12) 0 (first_address header m) bs h.chain room);
    };
    kept = λ x p. resized-same x (
        outside_header m (heap_end header m) a n s x (header + 12) 0 (first_address header m) bs
          h.chain room p);
  }

  word_address : add32 (a - 12) 8 ≡ a - 4
  word_address = omega (arith, at.low, at.inside, load32-lt m (header + 8))

  grows : n < s → ltb s (sub32 (load32 m (a - 4)) a) ≡ true
  grows l =
      lt→ltb s (sub32 (load32 m (a - 4)) a)
        (omega (arith, at.next, at.fits, at.low, load32-lt m (header + 8), load32-lt m (a - 4)))

  challoc-resized : challoc header a s m ≡ ok a resized
  unfolding challoc resized
  challoc-resized = elim (ℕ_discrete n s) [
    | yes e ↦
        rw
          (
            found,
            at.sized,
            ==-true n s e,
            le→ltb-false s n (omega arith),
            le→ltb-false n s (omega arith),
          )
          refl
    | no ne ↦ elim (lt_or_le s n) [
      | inl l ↦ rw (found, at.sized, ==-false n s ne, lt→ltb s n l) refl
      | inr l ↦
          rw
            (
              found,
              at.sized,
              word_address,
              ==-false n s ne,
              le→ltb-false s n l,
              lt→ltb n s (omega arith),
              grows (omega arith),
            )
            refl
    ]
  ]
    where
      found : get_header header a m ≡ ok (a - 12) m
      found =
          get_header-ok header m a (omega (arith, h.start, at.low)) at.inside
            (omega (arith, at.low))

  -- On a well-formed heap, `challoc` of a block to a size that ends before the next header, or
  -- before the end of the heap behind the last block, returns the same address, and the heap is
  -- well formed with the block's new size and with all bytes of its blocks as they were.
  pub challoc-IsResized : (challoc header a s m ≡ ok a resized) × IsResized header m resized a s bs
  challoc-IsResized = (challoc-resized, resized-IsResized)
