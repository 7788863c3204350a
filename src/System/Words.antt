-- ===== src/System/Words.antt =====
-- The words that a system call moves: to a block, and from it to the stack.
use mush_os.Base.{
  ℕ, zero, suc, ◌+◌, ◌-◌, ◌*◌, ◌%◌, ◌^◌, ◌≤◌, ◌<◌, ◌≡◌, refl, sym, ◌∙◌, ap, ◌⊎◌, inl, inr, List, [],
  ◌∷◌, length, arith, lt_or_le,
}
use mush_os.Machine.{Mem, sub32, load32, store32}
use mush_os.Machine.Words.{
  load8-store32_ne, load32-store32_ne, load32-store32_self, load32-lt, load32_of_Same,
}
use mush_os.Heap.Payload.{Within}
use mush_os.System.{extract_args, place_words, push_registers, push_args, system_get_arg}

-- The memory holds the words from an address on.
abbrev pub IsWords : Mem → ℕ → List ℕ → Type 0
IsWords m a [] = Unit
IsWords m a (v ∷ vs) = (load32 m a ≡ v) × IsWords m (a + 4) vs

-- The words fit 32 bits.
abbrev pub Fits : List ℕ → Type 0
Fits [] = Unit
Fits (v ∷ vs) = (v < 2 ^ 32) × Fits vs

-- A handler with this base pointer reads the words as arguments from number `k` on.
abbrev pub Passes : Mem → (stack_base k : ℕ) → List ℕ → Type 0
Passes m stack_base k [] = Unit
Passes m stack_base k (v ∷ vs) =
    (system_get_arg stack_base k m ≡ v) × Passes m stack_base (suc k) vs

pub Passes-words :
    (m : Mem) (base k : ℕ) (vs : List ℕ) → IsWords m (base + 4 + k * 4) vs → Passes m base k vs
unfolding system_get_arg
Passes-words m base k [] w = tt
Passes-words m base k (v ∷ vs) (e, w) = (e, Passes-words m base (suc k) vs (rw (next) at w))
  where
    next : base + 4 + k * 4 + 4 ≡ base + 4 + suc k * 4
    next = omega arith

-- Words that are the same at another place.
pub IsWords-copy :
    (m g : Mem) (a b : ℕ) (vs : List ℕ)
    → ((k : ℕ) → k < length vs → load32 g (b + 4 * k) ≡ load32 m (a + 4 * k))
    → IsWords m a vs
    → IsWords g b vs
IsWords-copy m g a b [] same w = tt
IsWords-copy m g a b (v ∷ vs) same (e, w) = (
  rw (start a, start b) at (same 0 (omega arith)) ∙ e,
  IsWords-copy m g (a + 4) (b + 4) vs (λ k l. rw (next a k, next b k) (same (k + 1) (omega arith)))
      w,
)
  where
    start : (x : ℕ) → x + 4 * 0 ≡ x
    start x = omega arith

    next : (x k : ℕ) → x + 4 + 4 * k ≡ x + 4 * (k + 1)
    next x k = omega arith

pub place_words-Within :
    (vs : List ℕ) (a : ℕ) (m : Mem) → Within a (4 * length vs) m (place_words vs a m)
unfolding place_words
place_words-Within [] a m x o = refl
place_words-Within (v ∷ vs) a m x o =
    place_words-Within vs (a + 4) (store32 m a v) x (omega arith)
    ∙ load8-store32_ne m a v x (omega arith)

pub place_words-IsWords :
    (vs : List ℕ) (a : ℕ) (m : Mem) → Fits vs → IsWords (place_words vs a m) a vs
unfolding place_words
place_words-IsWords [] a m f = tt
place_words-IsWords (v ∷ vs) a m (f, fs) = (
  load32_of_Same (store32 m a v) (place_words vs (a + 4) (store32 m a v)) a (a + 4) a
        (λ x l u. place_words-Within vs (a + 4) (store32 m a v) x (omega arith)) (omega arith)
        (omega arith)
      ∙ load32-store32_self m a v
      ∙ omega (arith, f),
  place_words-IsWords vs (a + 4) (store32 m a v) fs,
)

-- `left` words below `top`.
pub push_registers-Within :
    (left : ℕ) (registers : ℕ → ℕ) (esp top : ℕ) (m : Mem)
    → esp + 4 * left ≡ top
    → top < 2 ^ 32
    → Within esp (4 * left) m (push_registers left registers top m)
unfolding push_registers
push_registers-Within zero registers esp top m e u x o = refl
push_registers-Within (suc left) registers esp top m e u x o = rw (next) (
    push_registers-Within left registers esp (top - 4) (store32 m (top - 4) (registers left))
      (omega arith) (omega arith) x (omega arith)
    ∙ load8-store32_ne m (top - 4) (registers left) x (omega arith))
  where
    next : sub32 top 4 ≡ top - 4
    next = omega arith

module _ (args ebp : ℕ) where
  pub extract_args-Within :
      (left i : ℕ) (m : Mem) → Within (args + 4 * i) (4 * left) m (extract_args left args ebp i m)
  unfolding extract_args
  extract_args-Within zero i m x o = refl
  extract_args-Within (suc left) i m x o =
      extract_args-Within left (i + 1) _ x (omega arith)
      ∙ load8-store32_ne m (args + 4 * i) (load32 m (ebp + 8 + 4 * (i + 1))) x (omega arith)

  -- Each word is copied, if the block and the arguments do not overlap.
  pub extract_args-word :
      (left i : ℕ) (m : Mem)
      → (args + 4 * (i + left) ≤ ebp + 12) ⊎ (ebp + 12 + 4 * (i + left) ≤ args)
      → (k : ℕ) → i ≤ k
      → k < i + left
      → load32 (extract_args left args ebp i m) (args + 4 * k) ≡ load32 m (ebp + 12 + 4 * k)
  unfolding extract_args
  extract_args-word zero i m apart k l u = absurd (omega arith)
  extract_args-word (suc left) i m apart k l u = elim (lt_or_le i k) [
    | inl later ↦
        extract_args-word left (i + 1) stored (omega arith) k (omega arith) (omega arith)
        ∙ load32-store32_ne m (args + 4 * i) word (ebp + 12 + 4 * k) (omega arith)
    | inr first ↦
        load32_of_Same stored (extract_args left args ebp (i + 1) stored) (args + 4 * k)
          (args + 4 * k + 4) (args + 4 * k)
          (λ x p q. extract_args-Within left (i + 1) stored x (omega arith)) (omega arith)
          (omega arith)
        ∙ stored_word k (omega arith)
  ]
    where
      word : ℕ
      word = load32 m (ebp + 8 + 4 * (i + 1))

      stored : Mem
      stored = store32 m (args + 4 * i) word

      same : (j : ℕ) → j ≡ i → args + 4 * j ≡ args + 4 * i
      same j e = omega (arith, e)

      source : (j : ℕ) → j ≡ i → ebp + 8 + 4 * (i + 1) ≡ ebp + 12 + 4 * j
      source j e = omega (arith, e)

      fits : word % 2 ^ 32 ≡ word
      fits = omega (arith, load32-lt m (ebp + 8 + 4 * (i + 1)))

      stored_word : (j : ℕ) → j ≡ i → load32 stored (args + 4 * j) ≡ load32 m (ebp + 12 + 4 * j)
      stored_word j e =
          ap (load32 stored) (same j e)
          ∙ load32-store32_self m (args + 4 * i) word
          ∙ fits
          ∙ ap (load32 m) (source j e)

-- `left` words are pushed from a block that is clear of the stack.
module _ (args base : ℕ) where
  pub push_args-Within :
      (left : ℕ) (m : Mem)
      → base + 4 * left < 2 ^ 32
      → Within base (4 * left) m (push_args left args (base + 4 * left) m)
  unfolding push_args
  push_args-Within zero m u x o = refl
  push_args-Within (suc left) m u x o = rw (next) (
      push_args-Within left (store32 m (base + 4 * left) (load32 m (args + 4 * left))) (omega arith)
        x (omega arith)
      ∙ load8-store32_ne m (base + 4 * left) (load32 m (args + 4 * left)) x (omega arith))
    where
      next : sub32 (base + 4 * suc left) 4 ≡ base + 4 * left
      next = omega arith

  pub push_args-word :
      (left : ℕ) (m : Mem)
      → base + 4 * left < 2 ^ 32
      → (args + 4 * left ≤ base) ⊎ (base + 4 * left ≤ args)
      → (k : ℕ) → k < left
      → load32 (push_args left args (base + 4 * left) m) (base + 4 * k) ≡ load32 m (args + 4 * k)
  unfolding push_args
  push_args-word zero m u apart k l = absurd (omega arith)
  push_args-word (suc left) m u apart k l = rw (next) (elim (lt_or_le k left) [
    | inl before ↦
        push_args-word left stored (omega arith) (omega arith) k before
        ∙ load32-store32_ne m (base + 4 * left) (load32 m (args + 4 * left)) (args + 4 * k)
            (omega arith)
    | inr last ↦
        load32_of_Same stored (push_args left args (base + 4 * left) stored) (base + 4 * k)
          (base + 4 * k + 4) (base + 4 * k)
          (λ x p q. push_args-Within left stored (omega arith) x (omega arith)) (omega arith)
          (omega arith)
        ∙ stored_word k (omega arith)
  ])
    where
      next : sub32 (base + 4 * suc left) 4 ≡ base + 4 * left
      next = omega arith

      stored : Mem
      stored = store32 m (base + 4 * left) (load32 m (args + 4 * left))

      same : (a j : ℕ) → j ≡ left → a + 4 * j ≡ a + 4 * left
      same a j e = omega (arith, e)

      fits : load32 m (args + 4 * left) % 2 ^ 32 ≡ load32 m (args + 4 * left)
      fits = omega (arith, load32-lt m (args + 4 * left))

      stored_word : (j : ℕ) → j ≡ left → load32 stored (base + 4 * j) ≡ load32 m (args + 4 * j)
      stored_word j e =
          ap (load32 stored) (same base j e)
          ∙ load32-store32_self m (base + 4 * left) (load32 m (args + 4 * left))
          ∙ fits
          ∙ sym (ap (load32 m) (same args j e))
