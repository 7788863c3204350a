-- ===== src/Strings/Made.antt =====
-- Commands that leave one new text on a heap, and how they are composed.
use mush_os.Base.{
  ℕ, ◌+◌, ◌≤◌, ◌<◌, ◌≡◌, ◌≢◌, ◌⊎◌, refl, ◌∙◌, subst, inl, List, ◌∷◌, [], length, arith,
}
use mush_os.Machine.{Mem, load8}
use mush_os.Machine.Run.{Run, ok, thrown, Cmd, and_then}
use mush_os.Heap.{unalloc, first_address, heap_end, allocation_exception_id}
use mush_os.Heap.Chain.{Block, Chain, IsHeap}
use mush_os.Heap.Insert.{insert}
use mush_os.Heap.Room.{Stays, IsFull}
use mush_os.Heap.Payload.{Owns, Owns-insert, InPayload-insert_apart}
use mush_os.Heap.Owners.{InPayload-Owns}
use mush_os.Heap.GiveBack.{Stays-insert, insert_comm, IsBack, unalloc-insert}
use mush_os.Strings.Text.{IsText}
use mush_os.Strings.Build.{IsText-frame}
use mush_os.Strings.OnHeap.{IsStored, IsBuilt, built, no_room}

-- The memories agree on a heap's blocks and outside of the heap, which ends at the same address.
pub record IsKept (header : ℕ) (m : Mem) (bs : List Block) (g : Mem) : Type 0 where
  pub same : (x : ℕ) → Stays header (heap_end header m) x bs → load8 g x ≡ load8 m x
  pub end : heap_end header g ≡ heap_end header m

-- The heap has the blocks `bs` of the memory `m`, as they were, and besides them one with a text.
pub record IsMade (header : ℕ) (m : Mem) (bs : List Block) (text : List ℕ) (a : ℕ) (g : Mem)
    : Type 0 where
  pub heap : IsHeap header g (insert (a, length text + 1) bs)
  pub holds : IsText g a text
  pub kept : IsKept header m bs g

-- What a command that makes a text may answer: the text, and nothing else that is new; or the
-- exception, because by `ralloc`'s count no free space takes a request that is at most as large as
-- the text.
pub data IsPrinted (header : ℕ) (m : Mem) (bs : List Block) (text : List ℕ) : Run ℕ → Type 0 where
  printed : (a : ℕ) (g : Mem) → IsMade header m bs text a g → IsPrinted header m bs text (ok a g)
  failed :
      (g : Mem) (cs : List Block) (size : ℕ)
      → size ≤ length text + 1
      → IsHeap header g cs
      → IsFull size (heap_end header g) (header + 12) cs
      → IsPrinted header m bs text (thrown allocation_exception_id g)

pub IsPrinted-of_built :
    (header : ℕ) (m : Mem) (bs : List Block) (text : List ℕ) {r : Run ℕ}
    → IsHeap header m bs
    → IsBuilt header m bs text r
    → IsPrinted header m bs text r
IsPrinted-of_built header m bs text h (built a g grown t kept end) =
    printed a g (record { heap = grown; holds = t; kept = record { same = kept; end = end } })
IsPrinted-of_built header m bs text h (no_room f) = failed m bs (length text + 1) (omega arith) h f

pub IsPrinted-and_then :
    (header : ℕ) (m g : Mem) (bs cs : List Block) (text whole : List ℕ) (k : ℕ → Cmd ℕ) {r : Run ℕ}
    → IsPrinted header g cs text r
    → length text ≤ length whole
    → ((a : ℕ) (g' : Mem) → IsMade header g cs text a g' → IsPrinted header m bs whole (k a g'))
    → IsPrinted header m bs whole (and_then r k)
IsPrinted-and_then header m g bs cs text whole k (printed a g' made) l next = next a g' made
IsPrinted-and_then header m g bs cs text whole k (failed g' ds size small h f) l next =
    failed g' ds size (omega arith) h f

-- A text that is kept.
pub IsStored-kept :
    (header : ℕ) (m g : Mem) (bs : List Block) (str : ℕ) (xs : List ℕ)
    → IsKept header m bs g
    → IsStored header m bs str xs
    → IsStored header g bs str xs
IsStored-kept header m g bs str xs kept s = record {
  text = IsText-frame m g str xs (λ x l u. kept.same x (s.inside x l u)) s.text;
  inside = λ x l u. subst (λ hi. Stays header hi x bs) (sym_end (kept.end)) (s.inside x l u);
}
  where
    sym_end : heap_end header g ≡ heap_end header m → heap_end header m ≡ heap_end header g
    sym_end e = omega (arith, e)

pub IsStored-insert :
    (header : ℕ) (m : Mem) (bs : List Block) (str : ℕ) (xs : List ℕ) (a n : ℕ)
    → IsStored header m bs str xs
    → IsStored header m (insert (a, n) bs) str xs
IsStored-insert header m bs str xs a n s = record {
  text = s.text;
  inside = λ x l u. Stays-insert header (heap_end header m) x a n bs (s.inside x l u);
}

module _ (header : ℕ) where
  pub IsKept-refl : (m : Mem) (bs : List Block) → IsKept header m bs m
  IsKept-refl m bs = record { same = λ x p. refl; end = refl }

  pub IsKept-trans :
      (m g g' : Mem) (bs : List Block)
      → IsKept header m bs g
      → IsKept header g bs g'
      → IsKept header m bs g'
  IsKept-trans m g g' bs one two = record {
    same = λ x p.
        two.same x (subst (λ hi. Stays header hi x bs) (omega (arith, one.end)) p) ∙ one.same x p;
    end = two.end ∙ one.end;
  }

  pub IsKept-insert :
      (m g : Mem) (a n : ℕ) (bs : List Block)
      → IsKept header m (insert (a, n) bs) g
      → IsKept header m bs g
  IsKept-insert m g a n bs kept = record {
    same = λ x p. kept.same x (Stays-insert header (heap_end header m) x a n bs p);
    end = kept.end;
  }

  -- The same text, seen from an earlier memory.
  pub IsMade-earlier :
      (m g g' : Mem) (bs : List Block) (text : List ℕ) (a : ℕ)
      → IsKept header m bs g
      → IsMade header g bs text a g'
      → IsMade header m bs text a g'
  IsMade-earlier m g g' bs text a kept made = record {
    heap = made.heap;
    holds = made.holds;
    kept = IsKept-trans m g g' bs kept made.kept;
  }

  -- A heap with a block besides others has a first block.
  pub first_address-insert :
      (g : Mem) (a n : ℕ) (bs : List Block)
      → IsHeap header g (insert (a, n) bs)
      → first_address header g ≢ 0
  first_address-insert g a n bs h =
      used (insert (a, n) bs) (first_address header g) (h.chain) (Owns-insert a n bs)
    where
      used :
          (cs : List Block) (p : ℕ)
          → Chain g (heap_end header g) (header + 12) 0 p cs
          → Owns a n cs
          → p ≢ 0
      used [] p c o e = o
      used ((b, k) ∷ cs) p (f, i, c) o e = omega (arith, e, f, i.above)

  pub IsStored-made :
      (m g : Mem) (bs : List Block) (text : List ℕ) (a : ℕ)
      → IsMade header m bs text a g
      → IsStored header g (insert (a, length text + 1) bs) a text
  IsStored-made m g bs text a made = record {
    text = made.holds;
    inside = λ x l u. inl (
        InPayload-Owns a (length text + 1) x (insert (a, length text + 1) bs)
          (Owns-insert a (length text + 1) bs) l (omega arith));
  }

  -- Two blocks lie at different addresses.
  pub insert_apart :
      (g : Mem) (a n q k : ℕ) (bs : List Block)
      → 0 < n
      → 0 < k
      → IsHeap header g (insert (a, n) (insert (q, k) bs))
      → a ≢ q
  insert_apart g a n q k bs pos p h e = omega (arith, e, p, other, pos)
    where
      other : (q < a) ⊎ (a + n ≤ q)
      other =
          InPayload-insert_apart g (heap_end header g) (header + 12) 0 (first_address header g) a n
            (insert (q, k) bs) (h.chain) q
            (InPayload-Owns q k q (insert (q, k) bs) (Owns-insert q k bs) (omega arith)
              (omega arith))

  -- The older of two blocks is given back.
  pub unalloc-IsMade :
      (m g : Mem) (bs : List Block) (text : List ℕ) (a q k : ℕ)
      → 0 < k
      → IsMade header m (insert (q, k) bs) text a g
      → (g' : Mem) × (unalloc header q g ≡ ok tt g') × IsMade header m bs text a g'
  unalloc-IsMade m g bs text a q k p made = (
    back.0,
    back.1.done,
    record {
      heap = back.1.heap;
      holds =
          IsText-frame g (back.0) a text
            (λ x l u.
              back.1.kept x
                (Stays-insert header (heap_end header g) x q k (insert (a, size) bs) (own x l u)))
            made.holds;
      kept = record {
        same = λ x o.
            back.1.kept x (
              subst (λ hi. Stays header hi x (insert (q, k) (insert (a, size) bs)))
                (omega (arith, made.kept.end))
                (Stays-insert header (heap_end header m) x q k (insert (a, size) bs)
                  (Stays-insert header (heap_end header m) x a size bs o)))
            ∙ made.kept.same x (Stays-insert header (heap_end header m) x q k bs o);
        end = back.1.end ∙ made.kept.end;
      };
    },
  )
    where
      size : ℕ
      size = length text + 1

      own :
          (x : ℕ)
          → a ≤ x
          → x ≤ a + length text
          → Stays header (heap_end header g) x (insert (a, size) bs)
      own x l u =
          inl
            (InPayload-Owns a size x (insert (a, size) bs) (Owns-insert a size bs) l (omega arith))

      back : (g' : Mem) × IsBack header g q k (insert (a, size) bs) g'
      back = unalloc-insert header g q k (insert (a, size) bs) (
          rw (insert_comm a size q k bs (insert_apart g a size q k bs (omega arith) p (made.heap)))
            at (made.heap))
