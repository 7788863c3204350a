-- ===== src/Machine/Words.antt =====
-- What a read sees after a write, for bytes and for words.
use mush_os.Base.{ℕ, ◌+◌, ◌%◌, ◌^◌, ◌≤◌, ◌<◌, ◌≡◌, ◌⊎◌, arith, ◌==◌, if◌then◌else◌}
use mush_os.Machine.{Mem, load8, store8, load32, store32}

pub load8-lt : (m : Mem) (a : ℕ) → load8 m a < 256
unfolding load8
load8-lt m a = omega arith

pub load8-store8 :
    (m : Mem) (a v x : ℕ) → load8 (store8 m a v) x ≡ (if x == a then v % 256 else load8 m x)
unfolding load8 store8
load8-store8 m a v x = ground arith

pub load32-lt : (m : Mem) (a : ℕ) → load32 m a < 2 ^ 32
unfolding load32
load32-lt m a = omega arith

pub load8-store32_ne :
    (m : Mem) (a v x : ℕ) → (x < a) ⊎ (a + 4 ≤ x) → load8 (store32 m a v) x ≡ load8 m x
unfolding load8 store32
load8-store32_ne m a v x h = ground arith

pub load32-store32_self : (m : Mem) (a v : ℕ) → load32 (store32 m a v) a ≡ v % 2 ^ 32
unfolding load32 store32
load32-store32_self m a v = ground arith

pub load32_ext :
    (m g : Mem) (a : ℕ)
    → load8 g a ≡ load8 m a
    → load8 g (a + 1) ≡ load8 m (a + 1)
    → load8 g (a + 2) ≡ load8 m (a + 2)
    → load8 g (a + 3) ≡ load8 m (a + 3)
    → load32 g a ≡ load32 m a
unfolding load32
load32_ext m g a h₀ h₁ h₂ h₃ = rw (h₀, h₁, h₂, h₃)

pub load32-store32_ne :
    (m : Mem) (a v b : ℕ) → (b + 4 ≤ a) ⊎ (a + 4 ≤ b) → load32 (store32 m a v) b ≡ load32 m b
load32-store32_ne m a v b h =
    load32_ext m (store32 m a v) b (load8-store32_ne m a v b (omega arith))
      (load8-store32_ne m a v (b + 1) (omega arith)) (load8-store32_ne m a v (b + 2) (omega arith))
      (load8-store32_ne m a v (b + 3) (omega arith))

-- `g` holds the bytes of `m` from `lo` up to `hi`.
abbrev pub Same : Mem → Mem → ℕ → ℕ → Type 0
Same m g lo hi = (x : ℕ) → lo ≤ x → x < hi → load8 g x ≡ load8 m x

pub load32_of_Same :
    (m g : Mem) (lo hi a : ℕ) → Same m g lo hi → lo ≤ a → a + 4 ≤ hi → load32 g a ≡ load32 m a
load32_of_Same m g lo hi a h p q =
    load32_ext m g a (h a (omega arith) (omega arith)) (h (a + 1) (omega arith) (omega arith))
      (h (a + 2) (omega arith) (omega arith)) (h (a + 3) (omega arith) (omega arith))
