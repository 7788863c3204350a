-- ===== src/Heap/Owners.antt =====
-- Blocks that stay the heap's own when others come and go.
use native.Mathlib.Decide.{ℕ_discrete}
use mush_os.Base.{
  ℕ, ◌+◌, ◌≤◌, ◌<◌, sym, ◌∙◌, ◌≢◌, inl, inr, List, [], ◌∷◌, arith, ltb, Bool-cases, ◌==◌, ==-false,
}
use mush_os.Heap.Chain.{Block}
use mush_os.Heap.Room.{InPayload}
use mush_os.Heap.Insert.{insert}
use mush_os.Heap.Remove.{remove, HasBlock}
use mush_os.Heap.Payload.{Owns}

pub Owns-HasBlock : (a n : ℕ) (bs : List Block) → Owns a n bs → HasBlock a bs
Owns-HasBlock a n [] o = o
Owns-HasBlock a n ((b, k) ∷ bs) (inl o) = inl (sym (o.0))
Owns-HasBlock a n ((b, k) ∷ bs) (inr o) = elim (ℕ_discrete b a) [
  | yes e ↦ inl e
  | no ne ↦ inr (ne, Owns-HasBlock a n bs o)
]

pub InPayload-Owns :
    (a n x : ℕ) (bs : List Block) → Owns a n bs → a ≤ x → x < a + n → InPayload x bs
InPayload-Owns a n x [] o l u = o
InPayload-Owns a n x ((b, k) ∷ bs) (inl o) l u = inl (omega (arith, o.0), omega (arith, o.0, o.1))
InPayload-Owns a n x ((b, k) ∷ bs) (inr o) l u = inr (InPayload-Owns a n x bs o l u)

pub Owns-insert_other : (c k a n : ℕ) (bs : List Block) → Owns c k bs → Owns c k (insert (a, n) bs)
unfolding insert
Owns-insert_other c k a n [] o = absurd o
Owns-insert_other c k a n ((b, j) ∷ bs) o = elim (Bool-cases (ltb a b)) [
  | inl e ↦ rw e (inr o)
  | inr e ↦
      rw e (elim o [ inl own ↦ inl own | inr later ↦ inr (Owns-insert_other c k a n bs later) ])
]

pub Owns-remove : (c k a : ℕ) (bs : List Block) → Owns c k bs → c ≢ a → Owns c k (remove a bs)
unfolding remove
Owns-remove c k a [] o ne = o
Owns-remove c k a ((b, j) ∷ bs) (inl o) ne = rw (==-false b a (λ e. ne (o.0 ∙ e))) (inl o)
Owns-remove c k a ((b, j) ∷ bs) (inr o) ne = elim (Bool-cases (b == a)) [
  | inl e ↦ rw e o
  | inr e ↦ rw e (inr (Owns-remove c k a bs o ne))
]
