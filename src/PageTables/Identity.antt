-- ===== src/PageTables/Identity.antt =====
-- The kernel's directory as the start of the paging fills it: four tables behind each other, whose
-- entries lead every page below user space to itself.
use mush_os.Base.{
  ℕ, ◌+◌, ◌*◌, ◌/◌, ◌%◌, ◌^◌, ◌≤◌, ◌<◌, ◌≡◌, ◌≢◌, refl, ◌∙◌, ◌⊎◌, inl, inr, true, not, Option,
  arith, lt_or_le,
}
use mush_os.Machine.{Mem, load8, load32, store32}
use mush_os.Machine.Words.{load8-store32_ne, load32-store32_ne, load32-store32_self, load32_of_Same}
use mush_os.Pages.{page_size, paging_pool_start, allocate_page_folder}
use mush_os.PageTables.{get_contents, contents_at, create_page_entry}
use mush_os.PageTables.Lookup.{
  frame-create_page_entry, create_page_entry-lt, table_idx, entry_in, made,
}
use mush_os.PageTables.Folders.{IsPooled, IsPooled-frame, IsNext, allocate_page_folder-IsNext}
use mush_os.PageTables.Start.{paging_pool_size, Stack, in_stack}

abbrev pub directory : ℕ
directory = paging_pool_start

abbrev pub tables_start : ℕ
tables_start = paging_pool_start + page_size

-- The entry that a page gets.
abbrev pub kernel_entry : ℕ → Stack → ℕ → ℕ
kernel_entry unset s i = create_page_entry unset i (not (in_stack s i)) (in_stack s i)

module _ (pool unset : ℕ) (s : Stack) (before : Mem) where
  -- The first `k` pages have their entries, in `t` tables. Below the folders only the pool has
  -- changed.
  pub record IsMapped (k t : ℕ) (m : Mem) : Type 0 where
    pub pooled : IsPooled pool paging_pool_size (1 + t) m
    pub enough : k ≤ t * 1024
    pub needed : t * 1024 ≤ k + 1024
    pub tables :
        (i : ℕ)
        → i < t
        → contents_at m directory i
          ≡ create_page_entry unset (tables_start + i * page_size) true true
    pub no_tables : (i : ℕ) → t ≤ i → i < 1024 → contents_at m directory i ≡ 0
    pub entries :
        (j : ℕ) → j < k → load32 m (tables_start + j * 4) ≡ kernel_entry unset s (j * page_size)
    pub outside :
        (x : ℕ)
        → x < paging_pool_start
        → (x < pool) ⊎ (pool + paging_pool_size ≤ x)
        → load8 m x ≡ load8 before x

  module _ (low : pool + paging_pool_size ≤ paging_pool_start) where
    pub entry_in-IsMapped :
        (k t a : ℕ) (m other : Mem) (inside : a ≤ 0x10000000)
        → IsMapped k t m
        → t ≤ 5
        → a / page_size < t * 1024
        → (get_contents (contents_at m directory (a / page_size / 1024)) ≢ 0)
          × (entry_in pool paging_pool_size unset a directory other inside m
              ≡ tables_start + a / page_size * 4)
    unfolding entry_in table_idx
    entry_in-IsMapped k t a m other inside p few l =
        rw
          (
            p.tables (a / page_size / 1024) (omega arith),
            frame-create_page_entry unset (tables_start + a / page_size / 1024 * page_size) true
                true,
          )
          ((λ e. absurd (omega arith)), omega arith)

    pub store-IsMapped :
        (k t : ℕ) (m : Mem)
        → IsMapped k t m
        → t ≤ 4
        → k < t * 1024
        → IsMapped
            (k + 1)
            t
            (store32 m (tables_start + k * 4) (kernel_entry unset s (k * page_size)))
    store-IsMapped k t m p few l = record {
      pooled =
          IsPooled-frame pool paging_pool_size (1 + t) m g (omega arith)
            (λ x b u. load8-store32_ne m (tables_start + k * 4) v x (inl (omega arith))) p.pooled;
      enough = omega arith;
      needed = omega (arith, p.needed);
      outside = λ x b o.
          load8-store32_ne m (tables_start + k * 4) v x (inl (omega arith)) ∙ p.outside x b o;
      tables = λ i b. other (directory + i * 4) (omega arith) ∙ p.tables i b;
      no_tables = λ i b u. other (directory + i * 4) (omega arith) ∙ p.no_tables i b u;
      entries = λ j b. elim (lt_or_le j k) [
        | inl h ↦ other (tables_start + j * 4) (omega arith) ∙ p.entries j h
        | inr h ↦ rw (last j b h) (
            load32-store32_self m (tables_start + k * 4) v
            ∙ small (
                create_page_entry-lt unset (k * page_size) (not (in_stack s (k * page_size)))
                  (in_stack s (k * page_size))))
      ];
    }
      where
        v : ℕ
        v = kernel_entry unset s (k * page_size)

        g : Mem
        g = store32 m (tables_start + k * 4) v

        other : (x : ℕ) → x + 4 ≤ tables_start + k * 4 → load32 g x ≡ load32 m x
        other x b = load32-store32_ne m (tables_start + k * 4) v x (inl b)

        last : (j : ℕ) → j < k + 1 → k ≤ j → j ≡ k
        last j b h = omega arith

        small : v < 2 ^ 32 → v % 2 ^ 32 ≡ v
        small h = omega arith

    -- A table is added in front of the first page that needs it.
    grow-IsMapped :
        (t : ℕ) (m : Mem) (r : Option ℕ × Mem)
        → IsMapped (t * 1024) t m
        → t < 4
        → IsNext pool paging_pool_size (1 + t) m r
        → IsMapped (t * 1024) (t + 1) (
            store32 r.1
              (directory + t * 4)
              (create_page_entry unset (tables_start + t * page_size) true true))
    grow-IsMapped t m r p few q = record {
      pooled =
          IsPooled-frame pool paging_pool_size (1 + (t + 1)) r.1 g (omega arith)
            (λ x b u. load8-store32_ne r.1 (directory + t * 4) v x (inl (omega arith)))
            (rw (count) q.pooled);
      enough = omega arith;
      needed = omega arith;
      outside = λ x b o.
          load8-store32_ne r.1 (directory + t * 4) v x (inl (omega arith))
          ∙ q.outside x b o
          ∙ p.outside x b o;
      tables = λ i b. elim (lt_or_le i t) [
        | inl h ↦
            other (directory + i * 4) (omega arith) (inl (omega arith)) (inl (omega arith))
            ∙ p.tables i h
        | inr h ↦ rw (last i b h) (
            load32-store32_self r.1 (directory + t * 4) v
            ∙ small (create_page_entry-lt unset (tables_start + t * page_size) true true))
      ];
      no_tables = λ i b u.
          other (directory + i * 4) (omega arith) (inl (omega arith)) (inr (omega arith))
          ∙ p.no_tables i (omega arith) u;
      entries = λ j b.
          other (tables_start + j * 4) (omega arith) (inl (omega arith)) (inr (omega arith))
          ∙ p.entries j b;
    }
      where
        v : ℕ
        v = create_page_entry unset (tables_start + t * page_size) true true

        g : Mem
        g = store32 r.1 (directory + t * 4) v

        count : 1 + (t + 1) ≡ 1 + t + 1
        count = omega arith

        other :
            (x : ℕ)
            → directory ≤ x
            → (x + 4 ≤ tables_start + t * page_size) ⊎ (tables_start + (t + 1) * page_size ≤ x)
            → (x + 4 ≤ directory + t * 4) ⊎ (directory + t * 4 + 4 ≤ x)
            → load32 g x ≡ load32 m x
        other x b e o =
            load32-store32_ne r.1 (directory + t * 4) v x o
            ∙ load32_of_Same m r.1 x (x + 4) x (λ y l u. q.kept y (omega arith) (omega arith))
                (omega arith) (omega arith)

        last : (i : ℕ) → i < t + 1 → t ≤ i → i ≡ t
        last i b h = omega arith

        small : v < 2 ^ 32 → v % 2 ^ 32 ≡ v
        small h = omega arith

    pub made-IsMapped :
        (t : ℕ) (m : Mem) (inside : t * 1024 * page_size ≤ 0x10000000)
        → IsMapped (t * 1024) t m
        → t < 4
        → (get_contents (contents_at m directory (t * 1024 * page_size / page_size / 1024)) ≡ 0)
          × IsMapped
              (t * 1024)
              (t + 1)
              (made pool paging_pool_size unset (t * 1024 * page_size) directory m inside)
    unfolding made table_idx
    made-IsMapped t m inside p few =
        rw (place, next.address, start, p.no_tables t (omega arith) (omega arith))
          (refl, grow-IsMapped t m (allocate_page_folder pool paging_pool_size m) p few next)
      where
        next : IsNext pool paging_pool_size (1 + t) m (allocate_page_folder pool paging_pool_size m)
        next =
            allocate_page_folder-IsNext pool paging_pool_size (1 + t) m low (omega arith) p.pooled

        place : t * 1024 * page_size / page_size / 1024 ≡ t
        place = omega arith

        start : paging_pool_start + (1 + t) * page_size ≡ tables_start + t * page_size
        start = omega arith
