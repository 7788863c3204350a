-- ===== src/Heap/GiveBack.antt =====
-- A block of a heap is given back while another one, put in later, stays.
use mush_os.Base.{
  ℕ, ◌+◌, ◌-◌, ◌≤◌, ◌<◌, ◌≡◌, refl, sym, ap, ◌≢◌, ◌⊎◌, inl, inr, List, [], ◌∷◌, arith, ltb,
  Bool-cases, ==-false, ==-true, lt→ltb, le→ltb-false, lt_or_le,
}
use mush_os.Machine.{Mem, load8, load32}
use mush_os.Machine.Run.{ok}
use mush_os.Heap.{unalloc, first_address, heap_end}
use mush_os.Heap.Chain.{Block, Chain, IsHeap}
use mush_os.Heap.Room.{InPayload, Stays}
use mush_os.Heap.Insert.{insert}
use mush_os.Heap.Remove.{remove, HasBlock, IsAt-Chain}
use mush_os.Heap.Unalloc.{freed, IsFreed, unalloc-IsFreed}

HasBlock-insert :
    (a n : ℕ) (bs : List Block) (m : Mem) (hi lo prev p : ℕ)
    → Chain m hi lo prev p (insert (a, n) bs)
    → HasBlock a (insert (a, n) bs)
unfolding insert
HasBlock-insert a n [] m hi lo prev p c = inl refl
HasBlock-insert a n ((b, k) ∷ bs) m hi lo prev p c = elim (Bool-cases (ltb a b)) [
  | inl e ↦ rw e (inl refl)
  | inr e ↦
      rw e (behind (rw e at c) (λ d. HasBlock-insert a n bs m hi (b + k) b (load32 m (b - 4)) d))
]
  where
    behind :
        Chain m hi lo prev p ((b, k) ∷ insert (a, n) bs)
        → (Chain m hi (b + k) b (load32 m (b - 4)) (insert (a, n) bs)
            → HasBlock a (insert (a, n) bs))
        → (b ≡ a) ⊎ ((b ≢ a) × HasBlock a (insert (a, n) bs))
    behind (f, i, d) live =
        let at = IsAt-Chain m hi a (b + k) b (load32 m (b - 4)) (insert (a, n) bs) d (live d) in
        inr (omega (arith, at.low), live d)

remove-insert :
    (a n : ℕ) (bs : List Block) (m : Mem) (hi lo prev p : ℕ)
    → Chain m hi lo prev p (insert (a, n) bs)
    → remove a (insert (a, n) bs) ≡ bs
unfolding insert remove
remove-insert a n [] m hi lo prev p c = rw (==-true a a refl)
remove-insert a n ((b, k) ∷ bs) m hi lo prev p c = elim (Bool-cases (ltb a b)) [
  | inl e ↦ rw (e, ==-true a a refl)
  | inr e ↦
      rw (e, ==-false b a (apart (rw e at c)))
        (ap (λ cs. (b, k) ∷ cs)
          (remove-insert a n bs m hi (b + k) b (load32 m (b - 4)) (rest (rw e at c))))
]
  where
    rest :
        Chain m hi lo prev p ((b, k) ∷ insert (a, n) bs)
        → Chain m hi (b + k) b (load32 m (b - 4)) (insert (a, n) bs)
    rest (f, i, d) = d

    apart : Chain m hi lo prev p ((b, k) ∷ insert (a, n) bs) → b ≢ a
    apart (f, i, d) =
        let at =
          IsAt-Chain m hi a (b + k) b (load32 m (b - 4)) (insert (a, n) bs) d
            (HasBlock-insert a n bs m hi (b + k) b (load32 m (b - 4)) d) in
        omega (arith, at.low)

pub InPayload-insert :
    (x a n : ℕ) (bs : List Block) → InPayload x bs → InPayload x (insert (a, n) bs)
unfolding insert
InPayload-insert x a n [] h = absurd h
InPayload-insert x a n ((b, k) ∷ bs) h = elim (Bool-cases (ltb a b)) [
  | inl e ↦ rw e (inr h)
  | inr e ↦ rw e (elim h [ inl own ↦ inl own | inr later ↦ inr (InPayload-insert x a n bs later) ])
]

pub Stays-insert :
    (header hi x a n : ℕ) (bs : List Block)
    → Stays header hi x bs
    → Stays header hi x (insert (a, n) bs)
Stays-insert header hi x a n bs (inl p) = inl (InPayload-insert x a n bs p)
Stays-insert header hi x a n bs (inr o) = inr o

insert-front :
    (a n b k : ℕ) (bs : List Block) → a < b → insert (a, n) ((b, k) ∷ bs) ≡ (a, n) ∷ (b, k) ∷ bs
unfolding insert
insert-front a n b k bs l = rw (lt→ltb a b l) refl

insert-behind :
    (a n b k : ℕ) (bs : List Block)
    → b ≤ a
    → insert (a, n) ((b, k) ∷ bs) ≡ (b, k) ∷ insert (a, n) bs
unfolding insert
insert-behind a n b k bs l = rw (le→ltb-false a b l) refl

insert_pair :
    (a n c k : ℕ) → a < c → insert (a, n) (insert (c, k) []) ≡ insert (c, k) (insert (a, n) [])
unfolding insert
insert_pair a n c k l = rw (lt→ltb a c l, le→ltb-false c a (omega arith)) refl

insert_lower :
    (a n c k : ℕ) (bs : List Block)
    → a < c
    → insert (a, n) (insert (c, k) bs) ≡ insert (c, k) (insert (a, n) bs)
insert_lower a n c k [] l = insert_pair a n c k l
insert_lower a n c k ((b, j) ∷ bs) l = elim (lt_or_le c b) [
  | inl before ↦
      rw
        (
          insert-front c k b j bs before,
          insert-front a n b j bs (omega arith),
          insert-front a n c k ((b, j) ∷ bs) l,
          insert-behind c k a n ((b, j) ∷ bs) (omega arith),
          insert-front c k b j bs before,
        )
        refl
  | inr behind ↦ rw (insert-behind c k b j bs behind) (elim (lt_or_le a b) [
    | inl before ↦
        rw
          (
            insert-front a n b j (insert (c, k) bs) before,
            insert-front a n b j bs before,
            insert-behind c k a n ((b, j) ∷ bs) (omega arith),
            insert-behind c k b j bs behind,
          )
          refl
    | inr above ↦
        rw
          (
            insert-behind a n b j (insert (c, k) bs) above,
            insert-behind a n b j bs above,
            insert-behind c k b j (insert (a, n) bs) behind,
          )
          (ap (λ ds. (b, j) ∷ ds) (insert_lower a n c k bs l))
  ])
]

-- Blocks at different places may be put in in either order.
pub insert_comm :
    (a n c k : ℕ) (bs : List Block)
    → a ≢ c
    → insert (a, n) (insert (c, k) bs) ≡ insert (c, k) (insert (a, n) bs)
insert_comm a n c k bs ne = elim (lt_or_le a c) [
  | inl l ↦ insert_lower a n c k bs l
  | inr l ↦ sym (insert_lower c k a n bs (omega (arith, l, ne)))
]

-- What a heap is like after one of its blocks was given back.
pub record IsBack (header : ℕ) (m : Mem) (a n : ℕ) (bs : List Block) (g : Mem) : Type 0 where
  pub done : unalloc header a m ≡ ok tt g
  pub heap : IsHeap header g bs
  pub kept : (x : ℕ) → Stays header (heap_end header m) x (insert (a, n) bs) → load8 g x ≡ load8 m x
  pub end : heap_end header g ≡ heap_end header m

-- `unalloc` of a block that was put in restores the heap without it.
pub unalloc-insert :
    (header : ℕ) (m : Mem) (a n : ℕ) (bs : List Block)
    → IsHeap header m (insert (a, n) bs)
    → (g : Mem) × IsBack header m a n bs g
unalloc-insert header m a n bs h = (
  freed header m a (insert (a, n) bs) h live,
  record { done = back.0; heap = rw same at (back.1.heap); kept = back.1.kept; end = back.1.end },
)
  where
    live : HasBlock a (insert (a, n) bs)
    live =
        HasBlock-insert a n bs m (heap_end header m) (header + 12) 0 (first_address header m)
          h.chain

    back :
        (unalloc header a m ≡ ok tt (freed header m a (insert (a, n) bs) h live))
        × IsFreed header m (freed header m a (insert (a, n) bs) h live) a (insert (a, n) bs)
    back = unalloc-IsFreed header m a (insert (a, n) bs) h live

    same : remove a (insert (a, n) bs) ≡ bs
    same =
        remove-insert a n bs m (heap_end header m) (header + 12) 0 (first_address header m) h.chain
