-- ===== src/Heap/Room.antt =====
-- The room between the blocks of a heap, and the bytes that an allocation leaves alone.
use mush_os.Base.{ℕ, ◌+◌, ◌-◌, ◌^◌, ◌≤◌, ◌<◌, ◌≡◌, refl, ap, ◌⊎◌, inl, inr, List, [], ◌∷◌, arith}
use native.Mathlib.Decide.{dec_lt}
use mush_os.Machine.{Mem, sub32, load32}
use mush_os.Heap.{Place, place}
use mush_os.Heap.Chain.{Block, Chain}
use mush_os.Heap.Search.{spaces}
use mush_os.Heap.Choice.{IsIn}
use mush_os.Heap.Spot.{IsSpot, IsSpot-spaces}
use mush_os.Heap.Insert.{Spared}

-- `x` is the address of a byte of one of the blocks.
abbrev pub InPayload : ℕ → List Block → Type 0
InPayload x [] = ⊥
InPayload x ((a, n) ∷ bs) = ((a ≤ x) × (x < a + n)) ⊎ InPayload x bs

-- The byte at `x` belongs to a block, or lies outside of the heap.
abbrev pub Stays : (header hi x : ℕ) → List Block → Type 0
Stays header hi x bs = InPayload x bs ⊎ ((x < header) ⊎ (hi ≤ x))

-- By the count of `ralloc`, no free space between `lo` and `hi` takes `size` bytes. In a gap in
-- front of a block's header the request needs a header besides, as it should; behind the last block
-- `ralloc` wants two headers besides, one more than the request needs.
abbrev pub IsFull : ℕ → ℕ → ℕ → List Block → Type 0
IsFull size hi lo [] = hi < lo + size + 24
IsFull size hi lo ((a, n) ∷ bs) = (a < lo + size + 24) × IsFull size hi (a + n) bs

module _ (m : Mem) (size hi st whole : ℕ) (wide : st + whole ≡ hi) (top : hi < 2 ^ 32) where
  -- If whatever holds the request is as large as the whole region, nothing holds it.
  pub IsFull-of_least :
      (lo prev p : ℕ) (bs : List Block)
      → st ≤ lo
      → lo ≤ hi
      → ((c : Place) → IsIn c (spaces hi lo prev bs) → size + 12 ≤ c.size → whole ≤ c.size)
      → Chain m hi lo prev p bs
      → IsFull size hi lo bs
  IsFull-of_least lo prev p [] above l least c = elim (dec_lt hi (lo + size + 24)) [
    | yes h ↦ h
    | no h ↦
        absurd
          (omega (arith, least (place (sub32 (sub32 hi lo) 12) lo prev 0) (inl refl) (omega arith)))
  ]
  IsFull-of_least lo prev p ((a, n) ∷ bs) above l least (e, b, c) = (
    elim (dec_lt a (lo + size + 24)) [
      | yes h ↦ h
      | no h ↦
          absurd
            (omega (arith, b.below, least (place (a - lo - 12) lo prev a) (inl refl) (omega arith)))
    ],
    IsFull-of_least (a + n) a (load32 m (a - 4)) bs (omega (arith, b.above)) b.below
        (λ d i. least d (inr i)) c,
  )

pub InPayload-above :
    (m : Mem) (hi lo prev p : ℕ) (bs : List Block)
    → Chain m hi lo prev p bs
    → (x : ℕ) → InPayload x bs
    → lo + 12 ≤ x
InPayload-above m hi lo prev p [] c x h = absurd h
InPayload-above m hi lo prev p ((a, n) ∷ bs) (e, b, c) x (inl h) = omega (arith, b.above, h)
InPayload-above m hi lo prev p ((a, n) ∷ bs) (e, b, c) x (inr h) =
    omega (arith, b.above, InPayload-above m hi (a + n) a (load32 m (a - 4)) bs c x h)

module _ (m : Mem) (size hi : ℕ) (q : Place) (fits : size + 12 ≤ q.size) (small : q.size + 12 ≤ hi)
    (top : hi < 2 ^ 32) where
  -- The bytes of the blocks are spared by an allocation at a free space.
  pub Spared-InPayload :
      (lo prev p : ℕ) (bs : List Block)
      → lo ≤ hi
      → prev ≤ lo
      → Chain m hi lo prev p bs
      → IsIn q (spaces hi lo prev bs)
      → (x : ℕ) → InPayload x bs
      → Spared q x
  Spared-InPayload lo prev p [] l v c i x h = absurd h
  Spared-InPayload lo prev p ((a, n) ∷ bs) l v c (inl i) x h = omega (
    arith,
    v,
    above,
    ap (λ (x : Place). x.previous) i,
    ap (λ (x : Place). x.next) i,
    s.low,
    s.before,
  )
    where
      s : IsSpot size hi lo prev q
      s = IsSpot-spaces m size hi q fits small top lo prev p ((a, n) ∷ bs) l c (inl i)

      above : a ≤ x
      above = elim h [
        | inl g ↦ g.0
        | inr g ↦ omega (arith, InPayload-above m hi (a + n) a (load32 m (a - 4)) bs c.2 x g)
      ]
  Spared-InPayload lo prev p ((a, n) ∷ bs) l v (e, b, c) (inr i) x (inl h) =
      omega (arith, h, s.low, s.behind, s.before)
    where
      s : IsSpot size hi (a + n) a q
      s = IsSpot-spaces m size hi q fits small top (a + n) a (load32 m (a - 4)) bs b.below c i
  Spared-InPayload lo prev p ((a, n) ∷ bs) l v (e, b, c) (inr i) x (inr h) =
      Spared-InPayload (a + n) a (load32 m (a - 4)) bs b.below (omega arith) c i x h
