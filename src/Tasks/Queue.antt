-- ===== src/Tasks/Queue.antt =====
-- The ready queue as a list of structures that do not overlap.
use mush_os.Base.{ℕ, ◌+◌, ◌≤◌, ◌<◌, ◌≡◌, refl, ◌∙◌, ◌⊎◌, inl, inr, List, [], ◌∷◌, ◌++◌, arith}
use mush_os.Machine.{Mem, store32}
use mush_os.Machine.Words.{load32-store32_ne}
use mush_os.Tasks.{next_task_at, save_task}

-- The structure at `t` does not overlap with those of the list.
abbrev pub Apart : ℕ → List ℕ → Type 0
Apart t [] = Unit
Apart t (u ∷ us) = ((t + 24 ≤ u) ⊎ (u + 24 ≤ t)) × Apart t us

-- From `t` on, the memory links exactly the tasks of the list.
abbrev pub IsQueue : Mem → ℕ → List ℕ → Type 0
IsQueue m t [] = t ≡ 0
IsQueue m t (u ∷ us) = (t ≡ u) × (0 < u) × Apart u us × IsQueue m (next_task_at m u) us

-- Each task of the list is `t` itself or apart from it.
abbrev pub Around : ℕ → List ℕ → Type 0
Around t [] = Unit
Around t (u ∷ us) = ((u ≡ t) ⊎ ((t + 24 ≤ u) ⊎ (u + 24 ≤ t))) × Around t us

Around-of_Apart : (t : ℕ) (us : List ℕ) → Apart t us → Around t us
Around-of_Apart t [] h = tt
Around-of_Apart t (u ∷ us) (h, hs) = (inr h, Around-of_Apart t us hs)

Apart-append :
    (t c : ℕ) (pre post : List ℕ) → Apart t (pre ++ c ∷ post) → (t + 24 ≤ c) ⊎ (c + 24 ≤ t)
Apart-append t c [] post (h, hs) = h
Apart-append t c (u ∷ pre) post (h, hs) = Apart-append t c pre post hs

pub Around-of_IsQueue :
    (m : Mem) (t c : ℕ) (pre post : List ℕ)
    → IsQueue m t (pre ++ c ∷ post)
    → Around c (pre ++ c ∷ post)
Around-of_IsQueue m t c [] post (e, p, a, q) = (inl refl, Around-of_Apart c post a)
Around-of_IsQueue m t c (u ∷ pre) post (e, p, a, q) =
    (inr (swap (Apart-append u c pre post a)), Around-of_IsQueue m (next_task_at m u) c pre post q)
  where
    swap : (u + 24 ≤ c) ⊎ (c + 24 ≤ u) → (c + 24 ≤ u) ⊎ (u + 24 ≤ c)
    swap (inl h) = inr h
    swap (inr h) = inl h

-- The tasks behind one of the queue.
pub IsQueue-behind :
    (m : Mem) (t c : ℕ) (pre post : List ℕ)
    → IsQueue m t (pre ++ c ∷ post)
    → IsQueue m (next_task_at m c) post × (0 < c)
IsQueue-behind m t c [] post (e, p, a, q) = (q, p)
IsQueue-behind m t c (u ∷ pre) post (e, p, a, q) = IsQueue-behind m (next_task_at m u) c pre post q

-- Saving a task's registers keeps all links.
next_task_at-save_task :
    (m : Mem) (t esp ebp eip u : ℕ)
    → (u ≡ t) ⊎ ((t + 24 ≤ u) ⊎ (u + 24 ≤ t))
    → next_task_at (save_task t esp ebp eip m) u ≡ next_task_at m u
unfolding save_task
next_task_at-save_task m t esp ebp eip u h =
    load32-store32_ne (store32 (store32 m (t + 12) eip) (t + 4) esp) (t + 8) ebp (u + 20)
      (grind arith)
    ∙ load32-store32_ne (store32 m (t + 12) eip) (t + 4) esp (u + 20) (grind arith)
    ∙ load32-store32_ne m (t + 12) eip (u + 20) (grind arith)

pub IsQueue-save_task :
    (m : Mem) (t esp ebp eip first : ℕ) (us : List ℕ)
    → Around t us
    → IsQueue m first us
    → IsQueue (save_task t esp ebp eip m) first us
IsQueue-save_task m t esp ebp eip first [] h q = q
IsQueue-save_task m t esp ebp eip first (u ∷ us) (h, hs) (e, p, a, q) = (
  e,
  p,
  a,
  rw (next_task_at-save_task m t esp ebp eip u h)
      (IsQueue-save_task m t esp ebp eip (next_task_at m u) us hs q),
)
