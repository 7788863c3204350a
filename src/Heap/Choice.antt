-- ===== src/Heap/Choice.antt =====
-- The choice of `ralloc` among candidate places is a best fit.
use mush_os.Base.{
  ℕ, ◌+◌, ◌^◌, ◌≤◌, ◌<◌, ◌≡◌, refl, ◌⊎◌, inl, inr, List, [], ◌∷◌, arith, Bool-cases, ltb, leb,
}
use mush_os.Machine.{add32}
use mush_os.Heap.{Place, consider}
use mush_os.Heap.Search.{choose}

abbrev pub IsIn : Place → List Place → Type 0
IsIn c [] = ⊥
IsIn c (x ∷ xs) = (c ≡ x) ⊎ IsIn c xs

-- `r` is the best of `best` and the candidates that hold `size` bytes and a header.
pub record IsBestFit (size : ℕ) (cs : List Place) (best r : Place) : Type 0 where
  pub no_worse : r.size ≤ best.size
  pub least : (c : Place) → IsIn c cs → size + 12 ≤ c.size → r.size ≤ c.size
  pub choice : (r ≡ best) ⊎ (IsIn r cs × (size + 12 ≤ r.size) × (r.size < best.size))

consider_cases :
    (size : ℕ) (c best : Place)
    → size + 12 < 2 ^ 32
    → ((consider size c best ≡ c) × (size + 12 ≤ c.size) × (c.size < best.size))
      ⊎ ((consider size c best ≡ best) × (size + 12 ≤ c.size → best.size ≤ c.size))
unfolding consider
consider_cases size c best small = elim (Bool-cases (leb (add32 size 12) c.size)) [
  | inl fits ↦ elim (Bool-cases (ltb c.size best.size)) [
    | inl better ↦ inl (rw (fits, better), ground arith, ground arith)
    | inr worse ↦ inr (rw (fits, worse), λ f. ground arith)
  ]
  | inr tight ↦ inr (rw tight, λ f. ground arith)
]

pub choose-IsBestFit :
    (size : ℕ) (cs : List Place) (best : Place)
    → size + 12 < 2 ^ 32
    → IsBestFit size cs best (choose size cs best)
choose-IsBestFit size [] best small = record {
  no_worse = omega arith;
  least = λ c i. absurd i;
  choice = inl refl;
}
choose-IsBestFit size (c ∷ cs) best small = elim (consider_cases size c best small) [
  | inl (e, fits, better) ↦ rw e (took (choose-IsBestFit size cs c small) fits better)
  | inr (e, worse) ↦ rw e (kept (choose-IsBestFit size cs best small) worse)
]
  where
    took :
        {r : Place}
        → IsBestFit size cs c r
        → size + 12 ≤ c.size
        → c.size < best.size
        → IsBestFit size (c ∷ cs) best r
    took {r} h fits better = record {
      no_worse = omega (arith, h.no_worse);
      least = λ d i f. elim i [ inl e ↦ rw e h.no_worse | inr j ↦ h.least d j f ];
      choice = inr (elim h.choice [
        | inl e ↦ (inl e, rw e fits, rw e better)
        | inr (i, f, b) ↦ (inr i, f, omega arith)
      ]);
    }

    kept :
        {r : Place}
        → IsBestFit size cs best r
        → (size + 12 ≤ c.size → best.size ≤ c.size)
        → IsBestFit size (c ∷ cs) best r
    kept {r} h worse = record {
      no_worse = h.no_worse;
      least = λ d i f. elim i [
        | inl e ↦ rw e (omega (arith, h.no_worse, worse (rw e at f)))
        | inr j ↦ h.least d j f
      ];
      choice = elim h.choice [ inl e ↦ inl e | inr (i, f, b) ↦ inr (inr i, f, b) ];
    }
