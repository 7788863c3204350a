-- ===== src/PageTables/Folders.antt =====
-- A pool from which folders are taken in order, as it is while the paging starts.
use native.Mathlib.Decide.{ℕ_discrete}
use mush_os.Base.{
  ℕ, ◌+◌, ◌*◌, ◌/◌, ◌≤◌, ◌<◌, ◌≡◌, refl, ◌∙◌, ap, ◌⊎◌, inl, inr, Option, some, arith, ◌==◌, ==-true,
  ==-false, lt_or_le, if◌then◌else◌, le→leb, lt→leb-false, lt→ltb, le→ltb-false,
}
use mush_os.Machine.{Mem, load8}
use mush_os.Memory.{memory_clear}
use mush_os.Memory.Fill.{load8-memory_clear}
use mush_os.Pages.{page_size, paging_pool_start, allocate_page_folder, clear_folder, take_frame}
use mush_os.Pages.Frames.{taken, full, IsTaken, take_frame-IsTaken, frame_bit}

-- The first `count` folders of the pool are taken, and no other.
pub record IsPooled (pool size count : ℕ) (m : Mem) : Type 0 where
  pub below : (j : ℕ) → j < count → frame_bit m pool j ≡ 1
  pub above : (j : ℕ) → count ≤ j → j < size * 8 → frame_bit m pool j ≡ 0

pub IsPooled-frame :
    (pool size count : ℕ) (m g : Mem)
    → count ≤ size * 8
    → ((x : ℕ) → pool ≤ x → x < pool + size → load8 g x ≡ load8 m x)
    → IsPooled pool size count m
    → IsPooled pool size count g
IsPooled-frame pool size count m g fits same p = record {
  below = λ j l. rw (same (pool + j / 8) (omega arith) (omega arith)) (p.below j l);
  above = λ j l u. rw (same (pool + j / 8) (omega arith) (omega arith)) (p.above j l u);
}

-- What is allocated next: the folder `count`, cleared. Other bytes of the folders' region and below
-- it are as they were, but for the pool's own.
pub record IsNext (pool size count : ℕ) (m : Mem) (r : Option ℕ × Mem) : Type 0 where
  pub address : r.0 ≡ some (paging_pool_start + count * page_size)
  pub pooled : IsPooled pool size (count + 1) r.1
  pub cleared :
      (x : ℕ)
      → paging_pool_start + count * page_size ≤ x
      → x < paging_pool_start + (count + 1) * page_size
      → load8 r.1 x ≡ 0
  pub kept :
      (x : ℕ)
      → paging_pool_start ≤ x
      → (x < paging_pool_start + count * page_size)
        ⊎ (paging_pool_start + (count + 1) * page_size ≤ x)
      → load8 r.1 x ≡ load8 m x
  pub outside :
      (x : ℕ) → x < paging_pool_start → (x < pool) ⊎ (pool + size ≤ x) → load8 r.1 x ≡ load8 m x

module _ (pool size count : ℕ) (m : Mem) (low : pool + size ≤ paging_pool_start)
    (free : count < size * 8) (p : IsPooled pool size count m) where
  clear_folder-IsNext :
      (r : Option ℕ × Mem)
      → IsTaken pool paging_pool_start 0 ((0 + size) * 8) m r
      → IsNext pool size count m (clear_folder (r.0) (r.1))
  unfolding clear_folder
  clear_folder-IsNext r (full b) =
      absurd (omega (arith, b count (omega arith) (omega arith), p.above count (omega arith) free))
  clear_folder-IsNext r (taken k g l u c b s o) = record {
    address = ap (λ (k : ℕ). some (paging_pool_start + k * page_size)) here;
    pooled =
        IsPooled-frame pool size (count + 1) g (memory_clear start page_size 0 g) (omega arith)
          (λ x l u. beside x (inl (omega arith)))
          (record {
            below = λ j l. s j ∙ marked j (omega arith);
            above =
                λ j l u. s j ∙ rw (==-false j k (omega (arith, here))) (p.above j (omega arith) u);
          });
    cleared = λ x l u.
        load8-memory_clear start page_size 0 g x
        ∙ rw
            (
              le→leb start x (omega (arith, here)),
              lt→ltb x (start + page_size) (omega (arith, here)),
            )
            refl;
    kept = λ x l e. beside x (omega (arith, here)) ∙ o x (omega arith);
    outside = λ x l e. beside x (inl (omega arith)) ∙ o x (omega arith);
  }
    where
      here : k ≡ count
      here = elim (lt_or_le k count) [
        | inl h ↦ absurd (omega (arith, c, p.below k h))
        | inr h ↦ elim (lt_or_le count k) [
          | inl h' ↦
              absurd (omega (arith, b count (omega arith) h', p.above count (omega arith) free))
          | inr h' ↦ omega arith
        ]
      ]

      start : ℕ
      start = paging_pool_start + k * page_size

      marked : (j : ℕ) → j < count + 1 → (if j == k then 1 else frame_bit m pool j) ≡ 1
      marked j l = elim (ℕ_discrete j k) [
        | yes e ↦ rw (==-true j k e) refl
        | no ne ↦ rw (==-false j k ne) (p.below j (omega (arith, here)))
      ]

      beside :
          (x : ℕ)
          → (x < start) ⊎ (start + page_size ≤ x)
          → load8 (memory_clear start page_size 0 g) x ≡ load8 g x
      beside x (inl l) = load8-memory_clear start page_size 0 g x ∙ rw (lt→leb-false start x l) refl
      beside x (inr l) =
          load8-memory_clear start page_size 0 g x
          ∙ rw (le→leb start x (omega arith), le→ltb-false x (start + page_size) l) refl

  pub allocate_page_folder-IsNext : IsNext pool size count m (allocate_page_folder pool size m)
  unfolding allocate_page_folder
  allocate_page_folder-IsNext =
      clear_folder-IsNext (take_frame size 0 pool paging_pool_start m)
        (take_frame-IsTaken pool m size 0 paging_pool_start)
