-- ===== src/Heap/RoundTrip.antt =====
-- Giving back what was just allocated restores the heap.
use mush_os.Base.{ℕ, ◌+◌, ◌^◌, ◌<◌, ◌≡◌, ◌∙◌, ◌≢◌, inl, List, subst}
use mush_os.Machine.{Mem, load8}
use mush_os.Machine.Run.{Run, ok, ok-injective}
use mush_os.Heap.{ralloc, unalloc, first_address}
use mush_os.Heap.Chain.{Block, IsHeap}
use mush_os.Heap.Room.{InPayload}
use mush_os.Heap.Insert.{insert}
use mush_os.Heap.Ralloc.{IsAllocation, allocated, exhausted, ralloc-IsAllocation}
use mush_os.Heap.GiveBack.{IsBack, InPayload-insert, unalloc-insert}

-- What is known of an allocation that succeeds.
record IsGrown (header : ℕ) (m g : Mem) (a size : ℕ) (bs : List Block) : Type 0 where
  heap : IsHeap header g (insert (a, size) bs)
  kept : (x : ℕ) → InPayload x bs → load8 g x ≡ load8 m x

IsGrown-of_allocation :
    (header : ℕ) (m : Mem) (bs : List Block) (size : ℕ) {r : Run ℕ}
    → IsAllocation header m bs size r
    → (a : ℕ) (g : Mem) → r ≡ ok a g
    → IsGrown header m g a size bs
IsGrown-of_allocation header m bs size (allocated q g' i f l h kept end) a g e =
    subst (λ b. IsGrown header m g b size bs) (ok-injective e).0
      (subst (λ k. IsGrown header m k (q.address + 12) size bs) (ok-injective e).1
        (record { heap = h; kept = λ x p. kept x (inl p) }))
IsGrown-of_allocation header m bs size (exhausted f) a g e = cc

-- A block that `ralloc` has just returned can be given back: `unalloc` succeeds, and the heap has
-- the blocks that it had before, with the same bytes.
pub unalloc-ralloc :
    (header : ℕ) (m : Mem) (bs : List Block) (size : ℕ)
    → IsHeap header m bs
    → first_address header m ≢ 0
    → size + 12 < 2 ^ 32
    → (a : ℕ) (g : Mem) → ralloc header size m ≡ ok a g
    → (g' : Mem) × (unalloc header a g ≡ ok tt g')
      × IsHeap header g' bs
      × ((x : ℕ) → InPayload x bs → load8 g' x ≡ load8 m x)
unalloc-ralloc header m bs size h used small a g e = (
  back.0,
  back.1.done,
  back.1.heap,
  λ x p. back.1.kept x (inl (InPayload-insert x a size bs p)) ∙ grown.kept x p,
)
  where
    grown : IsGrown header m g a size bs
    grown =
        IsGrown-of_allocation header m bs size (ralloc-IsAllocation header m bs size h used small) a
          g e

    back : (g' : Mem) × IsBack header g a size bs g'
    back = unalloc-insert header g a size bs (grown.heap)
