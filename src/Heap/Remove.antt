-- ===== src/Heap/Remove.antt =====
-- Unlinking a block in memory removes it from the chain.
use mush_os.Base.{
  ℕ, ◌+◌, ◌-◌, ◌≤◌, ◌<◌, ◌≡◌, sym, ◌∙◌, ap, ◌≢◌, ◌⊎◌, inl, inr, List, [], ◌∷◌, arith, ◌==◌,
  ==-false, ==-true, if◌then◌else◌,
}
use mush_os.Machine.{Mem, load8, load32}
use mush_os.Machine.Words.{load32_ext}
use mush_os.Heap.Room.{InPayload, InPayload-above}
use mush_os.Heap.Chain.{Block, IsBlock, Chain, Chain-frame}

-- The blocks without the one at `a`.
unfoldable pub remove : ℕ → List Block → List Block
remove a [] = []
remove a ((b, k) ∷ bs) = if b == a then bs else (b, k) ∷ remove a bs

abbrev pub HasBlock : ℕ → List Block → Type 0
HasBlock a [] = ⊥
HasBlock a ((b, k) ∷ bs) = (b ≡ a) ⊎ ((b ≢ a) × HasBlock a bs)

-- Where a block lies: at the front of the chain from `p`, or further on.
pub record IsAt (m : Mem) (hi lo prev p a : ℕ) : Type 0 where
  pub low : lo + 12 ≤ a
  pub inside : a < hi
  pub back :
      ((p ≡ a) × (load32 m (a - 8) ≡ prev))
      ⊎ ((p ≢ a) × (lo + 12 ≤ load32 m (a - 8)) × (load32 m (a - 8) ≤ a))
  pub forth : (load32 m (a - 4) ≡ 0) ⊎ ((a + 12 ≤ load32 m (a - 4)) × (load32 m (a - 4) < hi))

module _ (m : Mem) (hi a : ℕ) where
  next_of_Chain :
      (lo prev p : ℕ) (bs : List Block)
      → Chain m hi lo prev p bs
      → (p ≡ 0) ⊎ ((lo + 12 ≤ p) × (p < hi))
  next_of_Chain lo prev p [] c = inl c
  next_of_Chain lo prev p ((b, k) ∷ bs) (e, i, c) =
      inr (omega (arith, e, i.above), omega (arith, e, i.inside))

  pub IsAt-Chain :
      (lo prev p : ℕ) (bs : List Block)
      → Chain m hi lo prev p bs
      → HasBlock a bs
      → IsAt m hi lo prev p a
  IsAt-Chain lo prev p ((b, k) ∷ bs) (e, i, c) (inl f) = rw (← f) (record {
    low = i.above;
    inside = i.inside;
    back = inl (e, i.linked);
    forth = omega (arith, next_of_Chain (b + k) b (load32 m (b - 4)) bs c);
  })
  IsAt-Chain lo prev p ((b, k) ∷ bs) (e, i, c) (inr (f, h)) =
      deeper (IsAt-Chain (b + k) b (load32 m (b - 4)) bs c h)
    where
      deeper : IsAt m hi (b + k) b (load32 m (b - 4)) a → IsAt m hi lo prev p a
      deeper s = record {
        low = omega (arith, s.low, i.above);
        inside = s.inside;
        back =
            inr (omega (arith, e, f), omega (arith, s.back, i.above), omega (arith, s.back, s.low));
        forth = s.forth;
      }
  IsAt-Chain lo prev p [] c h = absurd h

-- `x` is not in the link to the block from behind, nor in the one from the front.
abbrev pub Untouched : ℕ → ℕ → ℕ → Type 0
Untouched previous next x =
    ((x + 4 < previous) ⊎ (previous ≤ x)) × ((x + 8 < next) ⊎ (next ≤ x + 4))

-- Payloads are untouched: the links lie in headers.
module _ (m : Mem) (hi a : ℕ) where
  from_next : (lo prev p x : ℕ) (bs : List Block) → Chain m hi lo prev p bs → InPayload x bs → p ≤ x
  from_next lo prev p x [] c h = absurd h
  from_next lo prev p x ((b, k) ∷ bs) (e, i, c) (inl h) = omega (arith, e, h)
  from_next lo prev p x ((b, k) ∷ bs) (e, i, c) (inr h) =
      omega (arith, e, InPayload-above m hi (b + k) b (load32 m (b - 4)) bs c x h)

  pub Untouched-InPayload :
      (lo prev p x : ℕ) (bs : List Block)
      → prev ≤ lo
      → Chain m hi lo prev p bs
      → HasBlock a bs
      → InPayload x bs
      → Untouched (load32 m (a - 8)) (load32 m (a - 4)) x
  Untouched-InPayload lo prev p x [] v c l h = absurd h
  Untouched-InPayload lo prev p x ((b, k) ∷ bs) v (e, i, c) (inl f) h = rw (← f) (
    elim h [
      | inl own ↦ omega (arith, i.linked, i.above, own)
      | inr later ↦
          omega (
            arith,
            i.linked,
            i.above,
            InPayload-above m hi (b + k) b (load32 m (b - 4)) bs c x later,
          )
    ],
    elim h [
      | inl own ↦ omega (arith, own, next_of_Chain m hi a (b + k) b (load32 m (b - 4)) bs c)
      | inr later ↦ omega (arith, from_next (b + k) b (load32 m (b - 4)) x bs c later)
    ],
  )
  Untouched-InPayload lo prev p x ((b, k) ∷ bs) v (e, i, c) (inr (f, l)) (inl h) =
      omega (arith, h, at.back, at.forth, at.low)
    where
      at : IsAt m hi (b + k) b (load32 m (b - 4)) a
      at = IsAt-Chain m hi a (b + k) b (load32 m (b - 4)) bs c l
  Untouched-InPayload lo prev p x ((b, k) ∷ bs) v (e, i, c) (inr (f, l)) (inr h) =
      Untouched-InPayload (b + k) b (load32 m (b - 4)) x bs (omega arith) c l h

-- In `g` the blocks at `previous` and `next` are linked to one another; above `lo` nothing else
-- has changed.
pub record IsBridged (m g : Mem) (lo previous next : ℕ) : Type 0 where
  pub other : (x : ℕ) → lo ≤ x → Untouched previous next x → load8 g x ≡ load8 m x
  pub behind : previous ≢ 0 → load32 g (previous - 4) ≡ next
  pub before : next ≢ 0 → load32 g (next - 8) ≡ previous

module _ (m g : Mem) (hi st a : ℕ)
    (w : IsBridged m g st (load32 m (a - 8)) (load32 m (a - 4))) where
  abbrev previous : ℕ
  previous = load32 m (a - 8)

  abbrev next : ℕ
  next = load32 m (a - 4)

  word-Untouched :
      (x : ℕ)
      → st ≤ x
      → ((y : ℕ) → x ≤ y → y < x + 4 → Untouched previous next y)
      → load32 g x ≡ load32 m x
  word-Untouched x l u =
      load32_ext m g x (w.other x l (u x (omega arith) (omega arith)))
        (w.other (x + 1) (omega arith) (u (x + 1) (omega arith) (omega arith)))
        (w.other (x + 2) (omega arith) (u (x + 2) (omega arith) (omega arith)))
        (w.other (x + 3) (omega arith) (u (x + 3) (omega arith) (omega arith)))

  -- What follows the block hangs on what preceded it.
  bridge :
      (lo n prev : ℕ) (bs : List Block)
      → st ≤ lo
      → lo + 12 ≤ a
      → prev ≤ lo
      → previous ≡ prev
      → Chain m hi (a + n) a next bs
      → Chain g hi lo prev next bs
  bridge lo n prev [] s l v e c = c
  bridge lo n prev ((b, k) ∷ bs) s l v e (f, i, c) = (f, here, rw after rest)
    where
      here : IsBlock g hi lo prev b k
      here = record {
        above = omega (arith, i.above);
        inside = i.inside;
        below = i.below;
        sized =
            word-Untouched (b - 12) (omega (arith, i.above)) (λ y p q. omega (arith, i.above, f, e))
            ∙ i.sized;
        linked = rw f at (w.before (omega (arith, i.above, f))) ∙ e;
      }

      after : load32 g (b - 4) ≡ load32 m (b - 4)
      after =
          word-Untouched (b - 4) (omega (arith, i.above)) (λ y p q. omega (arith, i.above, f, e))

      rest : Chain g hi (b + k) b (load32 m (b - 4)) bs
      rest =
          Chain-frame m g hi (b + k) b (load32 m (b - 4)) bs
            (λ x p q. w.other x (omega (arith, i.above)) (omega (arith, i.above, f, e))) c

  -- A block in front of it keeps its header, but for the link when it is the one right before.
  before_removed :
      (lo prev b k : ℕ)
      → st ≤ lo
      → IsBlock m hi lo prev b k
      → IsAt m hi (b + k) b (load32 m (b - 4)) a
      → IsBlock g hi lo prev b k
        × (load32 g (b - 4) ≡ (if load32 m (b - 4) == a then next else load32 m (b - 4)))
  before_removed lo prev b k s i at = (
    record {
      above = i.above;
      inside = i.inside;
      below = i.below;
      sized =
          word-Untouched (b - 12) (omega (arith, i.above)) (λ y p q. apart y (omega arith))
          ∙ i.sized;
      linked =
          word-Untouched (b - 8) (omega (arith, i.above))
            (λ y p q. apart y (omega (arith, i.above)))
          ∙ i.linked;
    },
    elim at.back [
      | inl (e, f) ↦
          rw (==-true (load32 m (b - 4)) a e)
            (ap (λ t. load32 g (t - 4)) (sym f) ∙ w.behind (omega (arith, f, i.above)))
      | inr (e, l, u) ↦ rw (==-false (load32 m (b - 4)) a e) (
          word-Untouched (b - 4) (omega (arith, i.above))
            (λ y p q. omega (arith, i.above, at.low, at.forth)))
    ],
  )
    where
      apart : (y : ℕ) → y + 4 < b → Untouched previous next y
      apart y h = omega (arith, at.back, at.forth, at.low)

  pub remove-Chain :
      (lo prev p : ℕ) (bs : List Block)
      → st ≤ lo
      → prev ≤ lo
      → Chain m hi lo prev p bs
      → HasBlock a bs
      → Chain g hi lo prev (if p == a then next else p) (remove a bs)
  unfolding remove
  remove-Chain lo prev p ((b, k) ∷ bs) s v (e, i, c) (inl f) =
      rw (==-true p a (e ∙ f), ==-true b a f)
        (bridge lo k prev bs s (omega (arith, i.above, f)) v
          (ap (λ t. load32 m (t - 8)) (sym f) ∙ i.linked) (rw f at c))
  remove-Chain lo prev p ((b, k) ∷ bs) s v (e, i, c) (inr (f, h)) =
      rw (==-false p a (λ q. f (sym e ∙ q)), ==-false b a f)
        (
          e,
          kept.0,
          rw (kept.1) (
              remove-Chain (b + k) b (load32 m (b - 4)) bs (omega (arith, i.above)) (omega arith) c
                h),
        )
    where
      kept :
          IsBlock g hi lo prev b k
          × (load32 g (b - 4) ≡ (if load32 m (b - 4) == a then next else load32 m (b - 4)))
      kept = before_removed lo prev b k s i (IsAt-Chain m hi a (b + k) b (load32 m (b - 4)) bs c h)
  remove-Chain lo prev p [] s v c h = absurd h
