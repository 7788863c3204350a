-- ===== src/Heap/Ralloc.antt =====
-- `ralloc` on a heap with blocks: a best fit, or an exception, both by the code's count of the free
-- spaces.
use mush_os.Base.{
  ℕ, ◌+◌, ◌-◌, ◌^◌, ◌≤◌, ◌<◌, ◌≡◌, refl, ◌∙◌, ap, ◌≢◌, inl, inr, List, arith, ◌==◌, ==-false,
  ==-true, Bool-cases, if◌then◌else◌,
}
use mush_os.Machine.{Mem, load8, load32, store32}
use mush_os.Machine.Run.{Run, ok, thrown}
use mush_os.Machine.Words.{
  load32-lt, load32-store32_ne, load32-store32_self, load8-store32_ne, load32_of_Same,
}
use mush_os.Heap.{
  Place, place, ralloc, take_place, heap_end, first_address, allocation_exception_id,
}
use mush_os.Heap.Room.{Stays, InPayload-above, IsFull, IsFull-of_least, Spared-InPayload}
use mush_os.Heap.Chain.{Block, Chain, Chain-frame, IsHeap}
use mush_os.Heap.Search.{spaces, choose, find_place-choose}
use mush_os.Heap.Choice.{IsIn, IsBestFit, choose-IsBestFit}
use mush_os.Heap.Spot.{IsSpot, IsSpot-spaces}
use mush_os.Heap.Insert.{IsPlaced, insert, insert-Chain}
use mush_os.Heap.Links.{IsRegion, Linkable}
use mush_os.Heap.Allot.{IsClear, placed, placed-IsPlaced, allocate_space-ok, IsRegion-placed}

-- The free spaces of a heap.
abbrev pub free_spaces : ℕ → Mem → List Block → List Place
free_spaces header m bs = spaces (heap_end header m) (header + 12) 0 bs

-- What `ralloc` may answer, with the sizes of `free_spaces`, which are exact but for the last one,
-- that is a header too small: the block behind a header at the smallest free space that holds the
-- request, on a heap with that block more and every other byte of a block, and every one outside of
-- the heap, unchanged; or the exception on an unchanged heap, if there is no such space.
pub data IsAllocation (header : ℕ) (m : Mem) (bs : List Block) (size : ℕ) : Run ℕ → Type 0 where
  allocated :
      (q : Place) (g : Mem)
      → IsIn q (free_spaces header m bs)
      → size + 12 ≤ q.size
      → ((c : Place) → IsIn c (free_spaces header m bs) → size + 12 ≤ c.size → q.size ≤ c.size)
      → IsHeap header g (insert (q.address + 12, size) bs)
      → ((x : ℕ) → Stays header (heap_end header m) x bs → load8 g x ≡ load8 m x)
      → heap_end header g ≡ heap_end header m
      → IsAllocation header m bs size (ok (q.address + 12) g)
  exhausted :
      IsFull size (heap_end header m) (header + 12) bs
      → IsAllocation header m bs size (thrown allocation_exception_id m)

pub IsHeap_of_region :
    (header hi : ℕ) (g : Mem) (bs : List Block)
    → IsRegion header g hi
    → header + 12 ≤ hi
    → Chain g hi (header + 12) 0 (first_address header g) bs
    → IsHeap header g bs
IsHeap_of_region header hi g bs r h c = record {
  start = r.start;
  above = rw (r.stop) h;
  chain = rw (r.stop) c;
}

module _ (header : ℕ) (m : Mem) (bs : List Block) (size : ℕ) (h : IsHeap header m bs) where
  abbrev pub top : ℕ
  top = heap_end header m

  top-lt : top < 2 ^ 32
  top-lt = load32-lt m (header + 8)

  region : IsRegion header m top
  region = record { start = h.start; stop = refl }

  -- `first_address` of the new block, when it is the first one.
  pub IsHeap-first :
      (g : Mem) (a : ℕ) (cs : List Block)
      → a < 2 ^ 32
      → IsRegion header g top
      → Chain g top (header + 12) 0 a cs
      → IsHeap header (store32 g header a) cs
  IsHeap-first g a cs u r c =
      IsHeap_of_region header top (store32 g header a) cs
        (record {
          start = load32-store32_ne g header a (header + 4) (omega arith) ∙ r.start;
          stop = load32-store32_ne g header a (header + 8) (omega arith) ∙ r.stop;
        })
        h.above
        (rw first (
          Chain-frame g (store32 g header a) top (header + 12) 0 a cs
            (λ x l _. load8-store32_ne g header a x (omega arith)) c))
    where
      first : load32 (store32 g header a) header ≡ a
      first = load32-store32_self g header a ∙ omega arith

  module _ (q : Place) (i : IsIn q (free_spaces header m bs)) (fits : size + 12 ≤ q.size)
      (small : q.size < top - (header + 12)) where
    spot : IsSpot size top (header + 12) 0 q
    spot =
        IsSpot-spaces m size top q fits (omega arith) top-lt (header + 12) 0
          (first_address header m) bs h.above h.chain i

    behind : Linkable header top q.previous
    behind = omega (arith, spot.behind, spot.before)

    before : Linkable header top q.next
    before = omega (arith, spot.low, spot.before)

    clear : IsClear q
    clear = record {
      behind = omega (arith, spot.behind);
      before = omega (arith, spot.before);
      low = omega (arith, spot.behind, spot.before, top-lt);
      high = omega (arith, spot.before, top-lt);
      fits = omega (arith, spot.before, top-lt);
    }

    abbrev g : Mem
    g = placed m size q

    w : IsPlaced m g size q
    w = placed-IsPlaced m size q clear (omega (arith, top-lt))

    r : IsRegion header g top
    r = IsRegion-placed header top m size q region spot.low behind before

    chained :
        Chain g top
          (header + 12)
          0
          (if q.address == header + 12 then q.address + 12 else first_address header m)
          (insert (q.address + 12, size) bs)
    chained =
        insert-Chain m g size top q w fits (omega arith) top-lt (header + 12) 0
          (first_address header m) bs h.above (omega arith) h.chain i

    kept : (x : ℕ) → Stays header top x bs → load8 g x ≡ load8 m x
    kept x (inr o) = w.other x (omega (arith, spot.low, spot.behind, spot.before, fits))
    kept x (inl p) = w.other x (
        Spared-InPayload m size top q fits (omega arith) top-lt (header + 12) 0
          (first_address header m) bs h.above (omega arith) h.chain i x p)

    -- With a place chosen, `take_place` allocates there.
    take_place-IsAllocation :
        ((c : Place) → IsIn c (free_spaces header m bs) → size + 12 ≤ c.size → q.size ≤ c.size)
        → IsAllocation header m bs size (take_place header size q m)
    unfolding take_place
    take_place-IsAllocation least =
        rw
          (
            ==-false q.address 0 (omega (arith, spot.low)),
            allocate_space-ok header top m size q region spot.low (omega (arith, clear.fits)) behind
                before,
            h.start,
          )
          (elim (Bool-cases (q.address == header + 12)) [
            | inl e ↦ rw e (
                allocated q (store32 g header (q.address + 12)) i fits least
                  (IsHeap-first g (q.address + 12) (insert (q.address + 12, size) bs)
                    (omega (arith, clear.fits)) r (rw e at chained))
                  kept_first
                  (load32-store32_ne g header (q.address + 12) (header + 8) (omega arith) ∙ r.stop))
            | inr e ↦ rw e (
                allocated q g i fits least
                  (IsHeap_of_region header top g (insert (q.address + 12, size) bs) r h.above
                    (first (rw e at chained)))
                  kept r.stop)
          ])
      where
        kept_first :
            (x : ℕ)
            → Stays header top x bs
            → load8 (store32 g header (q.address + 12)) x ≡ load8 m x
        kept_first x (inr o) =
            load8-store32_ne g header (q.address + 12) x (omega (arith, h.above)) ∙ kept x (inr o)
        kept_first x (inl p) =
            load8-store32_ne g header (q.address + 12) x (
              omega (
                arith,
                InPayload-above m top (header + 12) 0 (first_address header m) bs h.chain x p,
              ))
            ∙ kept x (inl p)

        first :
            Chain g top (header + 12) 0 (first_address header m) (insert (q.address + 12, size) bs)
            → Chain g top
                (header + 12)
                0
                (first_address header g)
                (insert (q.address + 12, size) bs)
        first c = rw word c
          where
            word : first_address header g ≡ first_address header m
            word =
                load32_of_Same m g header (header + 4) header
                  (λ x l u. w.other x (omega (arith, spot.low, spot.behind, spot.before)))
                  (omega arith) (omega arith)

  take_place-null :
      (q : Place) → q.address ≡ 0 → take_place header size q m ≡ thrown allocation_exception_id m
  unfolding take_place
  take_place-null q e = rw (==-true q.address 0 e)

  -- On a well-formed heap with blocks, and for a request whose size does not overflow with its
  -- header: `ralloc` counts the free spaces between blocks with their sizes, but the one behind the
  -- last block with 12 bytes, a header, less than it has. It allocates at the smallest space that by
  -- this count takes a header and the request, and leaves a well-formed heap with the new block and
  -- the same end, with the other blocks' bytes and those outside of the heap as they were; or by
  -- this count no free space is large enough, and it throws the allocation exception on an unchanged
  -- memory.
  pub ralloc-IsAllocation :
      first_address header m ≢ 0
      → size + 12 < 2 ^ 32
      → IsAllocation header m bs size (ralloc header size m)
  unfolding ralloc
  ralloc-IsAllocation used small =
      rw (==-false (first_address header m) 0 used, find_place-choose header m size h used)
        (elim fit.choice [
          | inl e ↦ rw (take_place-null chosen (ap (λ (x : Place). x.address) e)) (
              exhausted (
                IsFull-of_least m size top (header + 12) (top - (header + 12))
                  (omega (arith, h.above)) top-lt (header + 12) 0 (first_address header m) bs
                  (omega arith) h.above
                  (λ c i f. omega (arith, fit.least c i f, ap (λ (x : Place). x.size) e)) h.chain))
          | inr (i, f, b) ↦ take_place-IsAllocation chosen i f b fit.least
        ])
    where
      nothing : Place
      nothing = place (top - (header + 12)) 0 0 0

      chosen : Place
      chosen = choose size (free_spaces header m bs) nothing

      fit : IsBestFit size (free_spaces header m bs) nothing chosen
      fit = choose-IsBestFit size (free_spaces header m bs) nothing small
