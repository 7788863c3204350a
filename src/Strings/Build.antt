-- ===== src/Strings/Build.antt =====
-- Texts that are left alone, and texts that are built from others.
use mush_os.Base.{
  ℕ, zero, suc, ◌+◌, ◌-◌, ◌≤◌, ◌<◌, ◌≡◌, refl, ap, ◌∙◌, ◌⊎◌, List, [], ◌∷◌, ◌++◌, length, ◌&&◌, leb,
  ltb, if◌then◌else◌, arith,
}
use mush_os.Machine.{Mem, load8, store8}
use mush_os.Memory.{copy_loop}
use mush_os.Memory.Copy.{copy_loop-load8}
use mush_os.Strings.{copy_chars}
use mush_os.Strings.Text.{IsText}

-- A text depends on its bytes alone.
pub IsText-frame :
    (m g : Mem) (a : ℕ) (xs : List ℕ)
    → ((x : ℕ) → a ≤ x → x ≤ a + length xs → load8 g x ≡ load8 m x)
    → IsText m a xs
    → IsText g a xs
IsText-frame m g a [] same h = same a (omega arith) (omega arith) ∙ h
IsText-frame m g a (x ∷ xs) same (e, p, h) = (
  same a (omega arith) (omega arith) ∙ e,
  p,
  IsText-frame m g (a + 1) xs (λ y l u. same y (omega arith) (omega arith)) h,
)

-- A text whose bytes are copied in front of another text.
pub IsText-append :
    (m g : Mem) (a str : ℕ) (xs ys : List ℕ)
    → ((j : ℕ) → j < length xs → load8 g (a + j) ≡ load8 m (str + j))
    → IsText m str xs
    → IsText g (a + length xs) ys
    → IsText g a (xs ++ ys)
IsText-append m g a str [] ys same h t = rw (start) at t
  where
    start : a + 0 ≡ a
    start = omega arith
IsText-append m g a str (x ∷ xs) ys same (e, p, h) t = (
  rw (start a, start str) at (same 0 (omega arith)) ∙ e,
  p,
  IsText-append m g (a + 1) (str + 1) xs ys
      (λ j l. rw (next a j, next str j) (same (j + 1) (omega arith))) h (rw (rest) at t),
)
  where
    start : (k : ℕ) → k + 0 ≡ k
    start k = omega arith

    next : (k j : ℕ) → k + 1 + j ≡ k + (j + 1)
    next k j = omega arith

    rest : a + suc (length xs) ≡ a + 1 + length xs
    rest = omega arith

-- What is left of a text behind its first part.
pub IsText-suffix :
    (m : Mem) (a : ℕ) (xs ys : List ℕ) → IsText m a (xs ++ ys) → IsText m (a + length xs) ys
IsText-suffix m a [] ys h = rw (start) h
  where
    start : a + 0 ≡ a
    start = omega arith
IsText-suffix m a (x ∷ xs) ys (e, p, h) = rw (next) (IsText-suffix m (a + 1) xs ys h)
  where
    next : a + suc (length xs) ≡ a + 1 + length xs
    next = omega arith

copy_chars-copy_loop :
    (left result str i : ℕ) (m : Mem)
    → copy_chars left result str i m ≡ copy_loop left i str result m
unfolding copy_chars copy_loop
copy_chars-copy_loop zero result str i m = refl
copy_chars-copy_loop (suc left) result str i m =
    copy_chars-copy_loop left result str (i + 1) (store8 m (result + i) (load8 m (str + i)))

-- The characters that are copied, and the bytes that are not written.
pub load8-copy_chars :
    (n result str : ℕ) (m : Mem)
    → (result ≤ str) ⊎ (str + n ≤ result)
    → (x : ℕ)
    → load8 (copy_chars n result str 0 m) x
      ≡ (if leb result x && ltb x (result + n) then load8 m (str + (x - result)) else load8 m x)
load8-copy_chars n result str m h x =
    rw (copy_chars-copy_loop n result str 0 m)
      (ground (arith, copy_loop-load8 n 0 str result m (omega arith) x))

module _ (n result str : ℕ) (m : Mem) (apart : (result ≤ str) ⊎ (str + n ≤ result)) where
  pub copy_chars-inside :
      (j : ℕ) → j < n → load8 (copy_chars n result str 0 m) (result + j) ≡ load8 m (str + j)
  copy_chars-inside j l =
      ground (arith, load8-copy_chars n result str m apart (result + j), ap (load8 m) index)
    where
      index : str + (result + j - result) ≡ str + j
      index = omega arith

  pub copy_chars-outside :
      (x : ℕ) → (x < result) ⊎ (result + n ≤ x) → load8 (copy_chars n result str 0 m) x ≡ load8 m x
  copy_chars-outside x o = ground (arith, load8-copy_chars n result str m apart x)
