-- ===== src/Strings/OnHeap.antt =====
-- Functions that build a text on the heap: what they return, and what they leave of the heap.
use mush_os.Base.{ℕ, ◌+◌, ◌^◌, ◌≤◌, ◌<◌, ◌≡◌, ◌≢◌, refl, ◌∙◌, ◌⊎◌, inl, List, length, arith}
use mush_os.Machine.{Mem, load8}
use mush_os.Machine.Words.{load32_of_Same, load32-lt}
use mush_os.Machine.Run.{Run, ok, thrown, Cmd, and_then}
use mush_os.Heap.{ralloc, allocation_exception_id, first_address, heap_end}
use mush_os.Heap.Chain.{Block, IsHeap}
use mush_os.Heap.Insert.{insert}
use mush_os.Heap.Room.{Stays, IsFull}
use mush_os.Heap.Ralloc.{IsAllocation, allocated, exhausted, ralloc-IsAllocation}
use mush_os.Heap.Payload.{Within, Owns-insert, IsHeap-payload, Owns-bounds, Stays-insert_apart}
use mush_os.Strings.Text.{IsText}

-- A text that allocations leave alone, in the blocks of a heap or outside of it, its zero included.
pub record IsStored (header : ℕ) (m : Mem) (bs : List Block) (str : ℕ) (xs : List ℕ) : Type 0 where
  pub text : IsText m str xs
  pub inside : (x : ℕ) → str ≤ x → x ≤ str + length xs → Stays header (heap_end header m) x bs

-- What a function that makes a text may answer on a heap: a new block that is as large as the text
-- and holds it, on a well-formed heap with the other blocks and the memory outside as they were; or the exception on an
-- unchanged heap, when by `ralloc`'s count no free space is large enough.
pub data IsBuilt (header : ℕ) (m : Mem) (bs : List Block) (text : List ℕ) : Run ℕ → Type 0 where
  built :
      (a : ℕ) (g : Mem)
      → IsHeap header g (insert (a, length text + 1) bs)
      → IsText g a text
      → ((x : ℕ) → Stays header (heap_end header m) x bs → load8 g x ≡ load8 m x)
      → heap_end header g ≡ heap_end header m
      → IsBuilt header m bs text (ok a g)
  no_room :
      IsFull (length text + 1) (heap_end header m) (header + 12) bs
      → IsBuilt header m bs text (thrown allocation_exception_id m)

-- What is done with a new block: it writes the text there and nothing anywhere else.
pub data IsFilled (m : Mem) (a : ℕ) (text : List ℕ) : Run ℕ → Type 0 where
  filled : (g : Mem) → IsText g a text → Within a (length text + 1) m g → IsFilled m a text (ok a g)

-- Writes behind the heap's header leave its end.
payload_end :
    (m g : Mem) (a n header : ℕ)
    → Within a n m g
    → header + 12 + 12 ≤ a
    → heap_end header g ≡ heap_end header m
payload_end m g a n header within l =
    load32_of_Same m g (header + 8) (header + 12) (header + 8)
      (λ x p u. within x (inl (omega arith))) (omega arith) (omega arith)

module _ (header : ℕ) (m : Mem) (bs : List Block) (text : List ℕ) (h : IsHeap header m bs) where
  new-bounds :
      (a : ℕ) (g : Mem)
      → IsHeap header g (insert (a, length text + 1) bs)
      → (header + 12 + 12 ≤ a) × (a + (length text + 1) ≤ heap_end header g)
  new-bounds a g grown =
      Owns-bounds g (heap_end header g) (header + 12) 0 (first_address header g) a (length text + 1)
        (insert (a, length text + 1) bs) grown.chain (Owns-insert a (length text + 1) bs)

  -- The block's content in place of what the allocation left.
  filled-IsBuilt :
      (a : ℕ) (g : Mem) {r : Run ℕ}
      → IsHeap header g (insert (a, length text + 1) bs)
      → ((x : ℕ) → Stays header (heap_end header m) x bs → load8 g x ≡ load8 m x)
      → heap_end header g ≡ heap_end header m
      → IsFilled g a text r
      → IsBuilt header m bs text r
  filled-IsBuilt a g grown kept end (filled g' t within) =
      built a g'
        (IsHeap-payload g g' (heap_end header g) a (length text + 1) within header
          (insert (a, length text + 1) bs) refl grown (Owns-insert a (length text + 1) bs))
        t (λ x p. within x (apart x p) ∙ kept x p)
        (payload_end g g' a (length text + 1) header within (new-bounds a g grown).0 ∙ end)
    where
      apart :
          (x : ℕ) → Stays header (heap_end header m) x bs → (x < a) ⊎ (a + (length text + 1) ≤ x)
      apart x p = Stays-insert_apart header g a (length text + 1) bs grown x (rw (end) p)

  -- An allocation for the text, and then the writes.
  allocation-IsBuilt :
      (k : ℕ → Cmd ℕ) {r : Run ℕ}
      → ((a : ℕ) (g : Mem)
          → a + length text < 2 ^ 32
          → ((x : ℕ) → Stays header (heap_end header m) x bs → load8 g x ≡ load8 m x)
          → ((x : ℕ)
              → Stays header (heap_end header m) x bs
              → (x < a) ⊎ (a + (length text + 1) ≤ x))
          → IsFilled g a text (k a g))
      → IsAllocation header m bs (length text + 1) r
      → IsBuilt header m bs text (and_then r k)
  allocation-IsBuilt k fill (allocated q g i fits least grown kept end) =
      filled-IsBuilt (q.address + 12) g grown kept end (
        fill (q.address + 12) g
          (omega (arith, new-bounds (q.address + 12) g grown, load32-lt g (header + 8))) kept
          (λ x p.
            Stays-insert_apart header g (q.address + 12) (length text + 1) bs grown x (rw (end) p)))
  allocation-IsBuilt k fill (exhausted f) = no_room f

  pub ralloc-IsBuilt :
      (k : ℕ → Cmd ℕ)
      → first_address header m ≢ 0
      → length text + 13 < 2 ^ 32
      → ((a : ℕ) (g : Mem)
          → a + length text < 2 ^ 32
          → ((x : ℕ) → Stays header (heap_end header m) x bs → load8 g x ≡ load8 m x)
          → ((x : ℕ)
              → Stays header (heap_end header m) x bs
              → (x < a) ⊎ (a + (length text + 1) ≤ x))
          → IsFilled g a text (k a g))
      → IsBuilt header m bs text (and_then (ralloc header (length text + 1) m) k)
  ralloc-IsBuilt k used small fill =
      allocation-IsBuilt k fill
        (ralloc-IsAllocation header m bs (length text + 1) h used (omega arith))
