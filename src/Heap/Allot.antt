-- ===== src/Heap/Allot.antt =====
-- `allocate_space` returns the payload behind the new header, and writes what an allocation writes.
use mush_os.Base.{
  ℕ, ◌+◌, ◌-◌, ◌^◌, ◌≤◌, ◌<◌, ◌≡◌, ◌∙◌, ◌≢◌, ◌⊎◌, inl, inr, arith, ◌==◌, ==-false, ==-true,
  Bool-cases,
}
use mush_os.Machine.{Mem, add32, load8, load32, store32}
use mush_os.Machine.Run.{ok}
use mush_os.Machine.Words.{load32-store32_ne, load32-store32_self, load8-store32_ne}
use mush_os.Heap.{Place, allocate_space}
use mush_os.Heap.Insert.{Spared, IsPlaced}
use mush_os.Heap.Links.{
  IsRegion, Linkable, write_below, IsRegion-store32, IsRegion-write_below, link_next-ok,
  link_previous-ok,
}

-- The three words of the new header, and then the links to it.
abbrev headed : Mem → ℕ → Place → Mem
headed m size q =
    store32 (store32 (store32 m q.address size) (q.address + 4) q.previous) (q.address + 8) q.next

unfoldable pub placed : Mem → ℕ → Place → Mem
placed m size q =
    write_below 8 q.next (q.address + 12)
      (write_below 4 q.previous (q.address + 12) (headed m size q))

pub load8-write_below :
    (k s v x : ℕ) (m : Mem)
    → (k ≤ s) ⊎ (s ≡ 0)
    → (x + k < s) ⊎ (s + 4 ≤ x + k)
    → load8 (write_below k s v m) x ≡ load8 m x
load8-write_below k s v x m h d = elim (Bool-cases (s == 0)) [
  | inl e ↦ rw e
  | inr e ↦ rw e (load8-store32_ne m (s - k) v x (ground arith))
]

pub load32-write_below :
    (k s v x : ℕ) (m : Mem)
    → (s ≡ 0) ⊎ ((k ≤ s) × ((x + 4 + k ≤ s) ⊎ (s + 4 ≤ x + k)))
    → load32 (write_below k s v m) x ≡ load32 m x
load32-write_below k s v x m (inl e) = rw (==-true s 0 e)
load32-write_below k s v x m (inr (h, d)) = elim (Bool-cases (s == 0)) [
  | inl e ↦ rw e
  | inr e ↦ rw e (load32-store32_ne m (s - k) v x (omega arith))
]

-- Where the new header may lie: it and the headers on both sides do not overlap.
pub record IsClear (q : Place) : Type 0 where
  pub behind : (q.previous ≡ 0) ⊎ ((12 ≤ q.previous) × (q.previous ≤ q.address))
  pub before : (q.next ≡ 0) ⊎ (q.address + 24 ≤ q.next)
  pub low : q.previous < 2 ^ 32
  pub high : q.next < 2 ^ 32
  pub fits : q.address + 12 < 2 ^ 32

module _ (m : Mem) (size : ℕ) (q : Place) (c : IsClear q) where
  abbrev linked : Mem
  linked = write_below 4 q.previous (q.address + 12) (headed m size q)

  -- The three words of the header survive the links.
  header_word :
      (x : ℕ)
      → q.address ≤ x
      → x ≤ q.address + 8
      → load32 (placed m size q) x ≡ load32 (headed m size q) x
  unfolding placed
  header_word x l u =
      load32-write_below 8 q.next (q.address + 12) x linked (omega (arith, c.before))
      ∙ load32-write_below 4 q.previous (q.address + 12) x (headed m size q)
          (omega (arith, c.behind))

  placed-other : (x : ℕ) → Spared q x → load8 (placed m size q) x ≡ load8 m x
  unfolding placed
  placed-other x s =
      load8-write_below 8 q.next (q.address + 12) x linked (omega (arith, c.before)) (omega arith)
      ∙ load8-write_below 4 q.previous (q.address + 12) x (headed m size q)
          (omega (arith, c.behind)) (omega arith)
      ∙ load8-store32_ne _ (q.address + 8) q.next x (omega arith)
      ∙ load8-store32_ne _ (q.address + 4) q.previous x (omega arith)
      ∙ load8-store32_ne m q.address size x (omega arith)

  placed-behind : q.previous ≢ 0 → load32 (placed m size q) (q.previous - 4) ≡ q.address + 12
  unfolding placed
  placed-behind h =
      load32-write_below 8 q.next (q.address + 12) (q.previous - 4) linked
        (omega (arith, c.before, c.behind, h))
      ∙ rw (==-false q.previous 0 h)
          (load32-store32_self _ (q.previous - 4) (q.address + 12) ∙ omega (arith, c.fits))

  placed-before : q.next ≢ 0 → load32 (placed m size q) (q.next - 8) ≡ q.address + 12
  unfolding placed
  placed-before h =
      rw (==-false q.next 0 h)
        (load32-store32_self linked (q.next - 8) (q.address + 12) ∙ omega (arith, c.fits))

  pub placed-IsPlaced : size < 2 ^ 32 → IsPlaced m (placed m size q) size q
  placed-IsPlaced small = record {
    other = placed-other;
    sized =
        header_word q.address (omega arith) (omega arith)
        ∙ load32-store32_ne _ (q.address + 8) q.next q.address (omega arith)
        ∙ load32-store32_ne _ (q.address + 4) q.previous q.address (omega arith)
        ∙ load32-store32_self m q.address size
        ∙ omega arith;
    back =
        header_word (q.address + 4) (omega arith) (omega arith)
        ∙ load32-store32_ne _ (q.address + 8) q.next (q.address + 4) (omega arith)
        ∙ load32-store32_self _ (q.address + 4) q.previous
        ∙ omega (arith, c.low);
    forth =
        header_word (q.address + 8) (omega arith) (omega arith)
        ∙ load32-store32_self _ (q.address + 8) q.next
        ∙ omega (arith, c.high);
    behind = placed-behind;
    before = placed-before;
  }

module _ (header hi : ℕ) (m : Mem) (size : ℕ) (q : Place) (r : IsRegion header m hi) where
  IsRegion-headed : header + 12 ≤ q.address → IsRegion header (headed m size q) hi
  IsRegion-headed h =
      IsRegion-store32 header hi _
        (IsRegion-store32 header hi _ (IsRegion-store32 header hi m r q.address size h)
          (q.address + 4) q.previous (omega arith))
        (q.address + 8) q.next (omega arith)

  -- In place and with links that are null or inside the region, `allocate_space` succeeds.
  pub allocate_space-ok :
      header + 12 ≤ q.address
      → q.address + 12 < 2 ^ 32
      → Linkable header hi q.previous
      → Linkable header hi q.next
      → allocate_space header q.address size q.previous q.next m
        ≡ ok (q.address + 12) (placed m size q)
  unfolding allocate_space placed
  allocate_space-ok l u p n = rw (
    four,
    eight,
    twelve,
    link_next-ok header hi (headed m size q) (IsRegion-headed l) q.previous (q.address + 12) p,
    link_previous-ok header hi _ region q.next (q.address + 12) n,
  )
    where
      four : add32 q.address 4 ≡ q.address + 4
      four = omega arith

      eight : add32 q.address 8 ≡ q.address + 8
      eight = omega arith

      twelve : add32 q.address 12 ≡ q.address + 12
      twelve = omega arith

      region : IsRegion header (write_below 4 q.previous (q.address + 12) (headed m size q)) hi
      region =
          IsRegion-write_below header hi (headed m size q) (IsRegion-headed l) 4 q.previous
            (q.address + 12) (omega arith) p

  pub IsRegion-placed :
      header + 12 ≤ q.address
      → Linkable header hi q.previous
      → Linkable header hi q.next
      → IsRegion header (placed m size q) hi
  unfolding placed
  IsRegion-placed l p n =
      IsRegion-write_below header hi _
        (IsRegion-write_below header hi (headed m size q) (IsRegion-headed l) 4 q.previous
          (q.address + 12) (omega arith) p)
        8 q.next (q.address + 12) (omega arith) n
