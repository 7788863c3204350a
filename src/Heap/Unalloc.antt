-- ===== src/Heap/Unalloc.antt =====
-- `unalloc` takes a block out of the heap and touches no payload.
use mush_os.Base.{
  ℕ, ◌+◌, ◌-◌, ◌^◌, ◌≤◌, ◌<◌, ◌≡◌, sym, ◌∙◌, ◌⊎◌, inl, inr, List, arith, ◌==◌, ==-false, ==-true,
  Bool-cases, if◌then◌else◌,
}
use native.Mathlib.Decide.{ℕ_discrete}
use mush_os.Machine.{Mem, add32, load8, load32, store32}
use mush_os.Machine.Run.{ok, pure}
use mush_os.Machine.Words.{load32-lt, load32-store32_ne, load32-store32_self, load8-store32_ne}
use mush_os.Heap.{unalloc, set, heap_end, first_address}
use mush_os.Heap.Chain.{Block, IsHeap, get_header-ok}
use mush_os.Heap.Links.{
  IsRegion, Linkable, write_below, IsRegion-write_below, link_next-ok, link_previous-ok,
}
use mush_os.Heap.Allot.{load8-write_below, load32-write_below}
use mush_os.Heap.Room.{Stays, InPayload-above}
use mush_os.Heap.Ralloc.{IsHeap_of_region}
use mush_os.Heap.Remove.{
  remove, HasBlock, IsAt, IsAt-Chain, IsBridged, Untouched, Untouched-InPayload, remove-Chain,
}

-- A successful `unalloc`: a heap without the block, and every byte of the blocks and outside of
-- the heap as before.
pub record IsFreed (header : ℕ) (m g : Mem) (a : ℕ) (bs : List Block) : Type 0 where
  pub heap : IsHeap header g (remove a bs)
  pub kept : (x : ℕ) → Stays header (heap_end header m) x bs → load8 g x ≡ load8 m x
  pub end : heap_end header g ≡ heap_end header m

module _ (header : ℕ) (m : Mem) (a : ℕ) (bs : List Block) (h : IsHeap header m bs)
    (live : HasBlock a bs) where
  abbrev top : ℕ
  top = heap_end header m

  abbrev next : ℕ
  next = load32 m (a - 4)

  abbrev previous : ℕ
  previous = load32 m (a - 8)

  at : IsAt m top (header + 12) 0 (first_address header m) a
  at = IsAt-Chain m top a (header + 12) 0 (first_address header m) bs h.chain live

  top-lt : top < 2 ^ 32
  top-lt = load32-lt m (header + 8)

  -- The memory after each of the three statements.
  abbrev unheaded : Mem
  unheaded = if a == first_address header m then store32 m header next else m

  abbrev unlinked : Mem
  unlinked = write_below 8 next previous unheaded

  pub freed : Mem
  freed = write_below 4 previous next unlinked

  unheaded-word : (x : ℕ) → header + 4 ≤ x → load32 unheaded x ≡ load32 m x
  unheaded-word x l = elim (Bool-cases (a == first_address header m)) [
    | inl e ↦ rw e (load32-store32_ne m header next x (omega arith))
    | inr e ↦ rw e
  ]

  unheaded-byte : (x : ℕ) → header + 4 ≤ x → load8 unheaded x ≡ load8 m x
  unheaded-byte x l = elim (Bool-cases (a == first_address header m)) [
    | inl e ↦ rw e (load8-store32_ne m header next x (omega arith))
    | inr e ↦ rw e
  ]

  IsRegion-unheaded : IsRegion header unheaded top
  IsRegion-unheaded = record {
    start = unheaded-word (header + 4) (omega arith) ∙ h.start;
    stop = unheaded-word (header + 8) (omega arith);
  }

  to_next : Linkable header top next
  to_next = omega (arith, at.forth, at.low)

  to_previous : Linkable header top previous
  to_previous = omega (arith, at.back, at.low, at.inside)

  -- The block's own header is not written.
  own_word : (x : ℕ) → a ≤ x + 12 → x + 4 ≤ a → load32 unlinked x ≡ load32 m x
  own_word x l u =
      load32-write_below 8 next previous x unheaded (omega (arith, at.forth, at.low))
      ∙ unheaded-word x (omega (arith, at.low))

  first_statement :
      (v : ℕ)
      → (if a == first_address header m then set header v else pure tt) m
        ≡ ok tt (if a == first_address header m then store32 m header v else m)
  first_statement v = elim (Bool-cases (a == first_address header m)) [
    | inl e ↦ rw e
    | inr e ↦ rw e
  ]

  -- The three statements run as written.
  pub unalloc-freed : unalloc header a m ≡ ok tt freed
  unfolding unalloc freed
  unalloc-freed = rw (
    get_header-ok header m a (omega (arith, at.low, h.start)) at.inside (omega (arith, at.low)),
    eight,
    four,
    first_statement next,
    unheaded-word (a - 4) (omega (arith, at.low)),
    unheaded-word (a - 8) (omega (arith, at.low)),
    link_previous-ok header top unheaded IsRegion-unheaded next previous to_next,
    own_word (a - 4) (omega arith) (omega (arith, at.low)),
    own_word (a - 8) (omega arith) (omega (arith, at.low)),
    link_next-ok header top unlinked region previous next to_previous,
  )
    where
      eight : add32 (a - 12) 8 ≡ a - 4
      eight = omega (arith, at.low, at.inside, top-lt)

      four : add32 (a - 12) 4 ≡ a - 8
      four = omega (arith, at.low, at.inside, top-lt)

      region : IsRegion header unlinked top
      region =
          IsRegion-write_below header top unheaded IsRegion-unheaded 8 next previous (omega arith)
            to_next

  freed-word :
      (x : ℕ)
      → ((previous ≡ 0) ⊎ ((x + 8 ≤ previous) ⊎ (previous ≤ x)))
      → ((next ≡ 0) ⊎ ((x + 12 ≤ next) ⊎ (next ≤ x + 4)))
      → load32 freed x ≡ load32 unheaded x
  unfolding freed
  freed-word x p n =
      load32-write_below 4 previous next x unlinked (omega (arith, at.back, at.low))
      ∙ load32-write_below 8 next previous x unheaded (omega (arith, at.forth, at.low))

  freed-byte : (x : ℕ) → header + 4 ≤ x → Untouched previous next x → load8 freed x ≡ load8 m x
  unfolding freed
  freed-byte x l u =
      load8-write_below 4 previous next x unlinked (omega (arith, at.back, at.low)) (omega arith)
      ∙ load8-write_below 8 next previous x unheaded (omega (arith, at.forth, at.low)) (omega arith)
      ∙ unheaded-byte x l

  freed-IsBridged : IsBridged m freed (header + 12) previous next
  unfolding freed
  freed-IsBridged = record {
    other = λ x l u. freed-byte x (omega arith) u;
    behind = λ ne.
        rw (==-false previous 0 ne)
          (load32-store32_self unlinked (previous - 4) next ∙ omega (arith, load32-lt m (a - 4)));
    before = λ ne.
        load32-write_below 4 previous next (next - 8) unlinked
          (omega (arith, at.back, at.forth, at.low, ne))
        ∙ rw (==-false next 0 ne)
            (load32-store32_self unheaded (next - 8) previous ∙ omega (arith, load32-lt m (a - 8)));
  }

  IsRegion-freed : IsRegion header freed top
  IsRegion-freed = record {
    start =
        freed-word (header + 4) (omega (arith, at.back, at.low)) (omega (arith, at.forth, at.low))
        ∙ IsRegion-unheaded.start;
    stop =
        freed-word (header + 8) (omega (arith, at.back, at.low)) (omega (arith, at.forth, at.low))
        ∙ IsRegion-unheaded.stop;
  }

  first-freed :
      first_address header freed
      ≡ (if first_address header m == a then next else first_address header m)
  first-freed =
      freed-word header (omega (arith, at.back, at.low)) (omega (arith, at.forth, at.low)) ∙ split
    where
      split :
          first_address header unheaded
          ≡ (if first_address header m == a then next else first_address header m)
      split = elim (ℕ_discrete a (first_address header m)) [
        | yes e ↦
            rw (==-true a (first_address header m) e, ==-true (first_address header m) a (sym e))
              (load32-store32_self m header next ∙ omega (arith, load32-lt m (a - 4)))
        | no e ↦ rw (
          ==-false a (first_address header m) e,
          ==-false (first_address header m) a (λ f. e (sym f)),
        )
      ]

  freed-outside : (x : ℕ) → (x < header) ⊎ (top ≤ x) → load8 freed x ≡ load8 m x
  unfolding freed
  freed-outside x o =
      load8-write_below 4 previous next x unlinked (omega (arith, at.back, at.low))
        (omega (arith, at.back, at.low, at.inside))
      ∙ load8-write_below 8 next previous x unheaded (omega (arith, at.forth, at.low))
          (omega (arith, at.forth, at.low))
      ∙ unheaded-outside
    where
      unheaded-outside : load8 unheaded x ≡ load8 m x
      unheaded-outside = elim (Bool-cases (a == first_address header m)) [
        | inl e ↦ rw e (load8-store32_ne m header next x (omega (arith, h.above)))
        | inr e ↦ rw e
      ]

  freed-kept : (x : ℕ) → Stays header top x bs → load8 freed x ≡ load8 m x
  freed-kept x (inl p) =
      freed-byte x
        (omega
          (arith, InPayload-above m top (header + 12) 0 (first_address header m) bs h.chain x p))
        (Untouched-InPayload m top a (header + 12) 0 (first_address header m) x bs (omega arith)
          h.chain live p)
  freed-kept x (inr o) = freed-outside x o

  -- `unalloc` of a block of a well-formed heap succeeds; what is left is a well-formed heap of
  -- the other blocks, with the same end, and no byte of any block, the freed one's included, or
  -- outside of the heap has changed.
  pub unalloc-IsFreed : (unalloc header a m ≡ ok tt freed) × IsFreed header m freed a bs
  unalloc-IsFreed = (
    unalloc-freed,
    record {
      heap = IsHeap_of_region header top freed (remove a bs) IsRegion-freed h.above (
          rw first-freed (
            remove-Chain m freed top (header + 12) a freed-IsBridged (header + 12) 0
              (first_address header m) bs (omega arith) (omega arith) h.chain live));
      end = IsRegion-freed.stop;
      kept = freed-kept;
    },
  )
