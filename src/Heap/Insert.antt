-- ===== src/Heap/Insert.antt =====
-- Writing a header into a free space, and linking it, inserts the block into the chain.
use mush_os.Base.{
  ℕ, ◌+◌, ◌-◌, ◌^◌, ◌≤◌, ◌<◌, ◌≡◌, refl, ◌∙◌, ap, ◌≢◌, ◌⊎◌, inl, inr, List, [], ◌∷◌, arith, ltb,
  lt→ltb, ◌==◌, ==-false, ==-true, le→ltb-false, if◌then◌else◌,
}
use mush_os.Machine.{Mem, load8, load32}
use mush_os.Machine.Words.{load32_ext}
use mush_os.Heap.{Place}
use mush_os.Heap.Chain.{Block, IsBlock, Chain, Chain-frame}
use mush_os.Heap.Spot.{IsSpot, IsSpot-spaces}
use mush_os.Heap.Search.{spaces}
use mush_os.Heap.Choice.{IsIn}

-- The blocks with one more, in the order of their addresses.
unfoldable pub insert : Block → List Block → List Block
insert c [] = c ∷ []
insert (a, n) ((b, k) ∷ bs) = if ltb a b then (a, n) ∷ (b, k) ∷ bs else (b, k) ∷ insert (a, n) bs

-- `x` is not among the bytes that an allocation at `q` writes: the new header, and the link to
-- it in the headers on both sides.
abbrev pub Spared : Place → ℕ → Type 0
Spared q x =
    ((x < q.address) ⊎ (q.address + 12 ≤ x))
    × ((x + 4 < q.previous) ⊎ (q.previous ≤ x))
    × ((x + 8 < q.next) ⊎ (q.next ≤ x + 4))

-- `g` is `m` after that allocation.
pub record IsPlaced (m g : Mem) (size : ℕ) (q : Place) : Type 0 where
  pub other : (x : ℕ) → Spared q x → load8 g x ≡ load8 m x
  pub sized : load32 g q.address ≡ size
  pub back : load32 g (q.address + 4) ≡ q.previous
  pub forth : load32 g (q.address + 8) ≡ q.next
  pub behind : q.previous ≢ 0 → load32 g (q.previous - 4) ≡ q.address + 12
  pub before : q.next ≢ 0 → load32 g (q.next - 8) ≡ q.address + 12

module _ (m g : Mem) (size hi : ℕ) (q : Place) (w : IsPlaced m g size q) where
  -- A word whose bytes are spared keeps its value.
  word-Spared :
      (x : ℕ)
      → Spared q x
      → Spared q (x + 1)
      → Spared q (x + 2)
      → Spared q (x + 3)
      → load32 g x ≡ load32 m x
  word-Spared x a b c d =
      load32_ext m g x (w.other x a) (w.other (x + 1) b) (w.other (x + 2) c) (w.other (x + 3) d)

  -- The new block with what follows it.
  insert_here :
      (lo prev : ℕ) (bs : List Block)
      → IsSpot size hi lo prev q
      → q.previous ≡ prev
      → Chain g hi (q.address + 12 + size) (q.address + 12) q.next bs
      → Chain g hi lo prev (q.address + 12) ((q.address + 12, size) ∷ bs)
  insert_here lo prev bs s f c = (refl, here, rw forth c)
    where
      here : IsBlock g hi lo prev (q.address + 12) size
      here = record {
        above = omega (arith, s.low);
        inside = omega (arith, s.before);
        below = omega (arith, s.before);
        sized = ap (load32 g) (omega arith) ∙ w.sized;
        linked = ap (load32 g) (omega arith) ∙ w.back ∙ f;
      }

      forth : load32 g (q.address + 12 - 4) ≡ q.next
      forth = ap (load32 g) (omega arith) ∙ w.forth

  -- The blocks behind the new one: the first of them is linked back to it.
  relink :
      (lo prev a n : ℕ) (bs : List Block)
      → IsSpot size hi lo prev q
      → q.next ≡ a
      → q.previous ≤ q.address
      → IsBlock m hi lo prev a n
      → Chain m hi (a + n) a (load32 m (a - 4)) bs
      → Chain g hi (q.address + 12 + size) (q.address + 12) a ((a, n) ∷ bs)
  relink lo prev a n bs s e f b c = (refl, here, rw next rest)
    where
      far : q.address + size + 24 ≤ a
      far = omega (arith, s.before, b.above, e)

      here : IsBlock g hi (q.address + 12 + size) (q.address + 12) a n
      here = record {
        above = omega arith;
        inside = b.inside;
        below = b.below;
        sized =
            word-Spared (a - 12) (omega arith) (omega arith) (omega arith) (omega arith) ∙ b.sized;
        linked = rw e at (w.before (omega arith));
      }

      next : load32 g (a - 4) ≡ load32 m (a - 4)
      next = word-Spared (a - 4) (omega arith) (omega arith) (omega arith) (omega arith)

      rest : Chain g hi (a + n) a (load32 m (a - 4)) bs
      rest = Chain-frame m g hi (a + n) a (load32 m (a - 4)) bs (λ x l u. w.other x (omega arith)) c

  -- A block in front of the free space keeps its size and its link back.
  IsBlock-spared :
      (lo prev a n : ℕ)
      → IsSpot size hi (a + n) a q
      → IsBlock m hi lo prev a n
      → IsBlock g hi lo prev a n
  IsBlock-spared lo prev a n s b = record {
    above = b.above;
    inside = b.inside;
    below = b.below;
    sized =
        word-Spared (a - 12) (clear (a - 12) (omega arith)) (clear _ (omega arith))
          (clear _ (omega arith)) (clear _ (omega arith))
        ∙ b.sized;
    linked =
        word-Spared (a - 8) (clear _ (omega arith)) (clear _ (omega arith)) (clear _ (omega arith))
          (clear _ (omega arith))
        ∙ b.linked;
  }
    where
      clear : (x : ℕ) → x + 4 < a → Spared q x
      clear x h = omega (arith, s.low, s.behind, s.before)

  -- Its link forward leads to the new block if that is the next one.
  next_of_spared :
      (lo prev a n : ℕ)
      → IsSpot size hi (a + n) a q
      → IsBlock m hi lo prev a n
      → load32 g (a - 4) ≡ (if q.address == a + n then q.address + 12 else load32 m (a - 4))
  next_of_spared lo prev a n s b = elim s.behind [
    | inl (at, back) ↦
        rw (==-true q.address (a + n) at) (rw back at (w.behind (omega (arith, b.above))))
    | inr (far, back) ↦ rw (==-false q.address (a + n) (omega arith)) (
        word-Spared (a - 4) (omega (arith, b.above, s.before)) (omega (arith, b.above, s.before))
          (omega (arith, b.above, s.before)) (omega (arith, b.above, s.before)))
  ]

  module _ (fits : size + 12 ≤ q.size) (small : q.size + 12 ≤ hi) (top : hi < 2 ^ 32) where
    -- The chain after an allocation at a free space that holds the request.
    pub insert-Chain :
        (lo prev p : ℕ) (bs : List Block)
        → lo ≤ hi
        → prev ≤ lo
        → Chain m hi lo prev p bs
        → IsIn q (spaces hi lo prev bs)
        → Chain g hi lo prev
            (if q.address == lo then q.address + 12 else p)
            (insert (q.address + 12, size) bs)
    unfolding insert
    insert-Chain lo prev p [] l v c (inr i) = elim i [ ]
    insert-Chain lo prev p [] l v c (inl e) =
        rw (==-true q.address lo (ap (λ (x : Place). x.address) e)) (
          insert_here lo prev [] (IsSpot-spaces m size hi q fits small top lo prev p [] l c (inl e))
            (ap (λ (x : Place). x.previous) e) (ap (λ (x : Place). x.next) e))
    insert-Chain lo prev p ((a, n) ∷ bs) l v (e, b, c) (inl i) =
        rw
          (
            ==-true q.address lo at,
            lt→ltb (q.address + 12) a (omega (arith, s.before, b.above, next)),
          )
          (insert_here lo prev ((a, n) ∷ bs) s back
            (rw next (relink lo prev a n bs s next (omega (arith, at, back, v)) b c)))
      where
        at : q.address ≡ lo
        at = ap (λ (x : Place). x.address) i

        back : q.previous ≡ prev
        back = ap (λ (x : Place). x.previous) i

        next : q.next ≡ a
        next = ap (λ (x : Place). x.next) i

        s : IsSpot size hi lo prev q
        s = IsSpot-spaces m size hi q fits small top lo prev p ((a, n) ∷ bs) l (e, b, c) (inl i)
    insert-Chain lo prev p ((a, n) ∷ bs) l v (e, b, c) (inr i) =
        rw
          (
            ==-false q.address lo (omega (arith, s.low, b.above)),
            le→ltb-false (q.address + 12) a (omega (arith, s.low)),
          )
          (
            e,
            IsBlock-spared lo prev a n s b,
            rw (next_of_spared lo prev a n s b)
                (insert-Chain (a + n) a (load32 m (a - 4)) bs b.below (omega arith) c i),
          )
      where
        s : IsSpot size hi (a + n) a q
        s = IsSpot-spaces m size hi q fits small top (a + n) a (load32 m (a - 4)) bs b.below c i
