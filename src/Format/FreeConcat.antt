-- ===== src/Format/FreeConcat.antt =====
-- `free_concat` replaces two texts by the text of both.
use mush_os.Base.{ℕ, ◌+◌, ◌^◌, ◌≤◌, ◌<◌, ◌≡◌, ◌≢◌, ◌∙◌, inl, List, ◌++◌, length, arith}
use mush_os.Machine.{Mem, load8}
use mush_os.Machine.Run.{Run, ok, thrown, pure, and_then, ◌>>◌}
use mush_os.Heap.{unalloc, first_address, heap_end, allocation_exception_id}
use mush_os.Heap.Chain.{Block, IsHeap}
use mush_os.Heap.Insert.{insert}
use mush_os.Heap.Remove.{remove, HasBlock}
use mush_os.Heap.Room.{IsFull}
use mush_os.Heap.Unalloc.{freed, IsFreed, unalloc-IsFreed}
use mush_os.Heap.Payload.{Owns, Owns-insert, InPayload-insert_apart}
use mush_os.Heap.Owners.{Owns-HasBlock, InPayload-Owns, Owns-insert_other, Owns-remove}
use mush_os.Strings.Text.{IsText}
use mush_os.Strings.Build.{IsText-frame}
use mush_os.Strings.OnHeap.{IsBuilt, built, no_room}
use mush_os.Strings.Concatenate.{concatenate-IsBuilt}
use mush_os.Format.{free_concat}

-- What `free_concat` may answer: a new block with the text, on a well-formed heap without the
-- blocks of the two texts and with the other ones as they were; or the exception on an unchanged
-- heap, when by `ralloc`'s count no free space is large enough.
pub data IsReplaced (header : ℕ) (m : Mem) (bs : List Block) (str1 str2 : ℕ) (text : List ℕ)
    : Run ℕ → Type 0 where
  replaced :
      (a : ℕ) (g : Mem)
      → IsHeap header g (remove str2 (remove str1 (insert (a, length text + 1) bs)))
      → IsText g a text
      → ((c k x : ℕ)
          → Owns c k bs
          → c ≢ str1
          → c ≢ str2
          → c ≤ x
          → x < c + k
          → load8 g x ≡ load8 m x)
      → IsReplaced header m bs str1 str2 text (ok a g)
  kept_full :
      IsFull (length text + 1) (heap_end header m) (header + 12) bs
      → IsReplaced header m bs str1 str2 text (thrown allocation_exception_id m)

module _ (header : ℕ) (m : Mem) (bs : List Block) (str1 str2 n1 n2 : ℕ) (text : List ℕ)
    (own1 : Owns str1 n1 bs) (own2 : Owns str2 n2 bs) (some1 : 0 < n1) (some2 : 0 < n2)
    (ne : str2 ≢ str1) where
  -- The two blocks are given back.
  freed-IsReplaced :
      {r : Run ℕ}
      → IsBuilt header m bs text r
      → IsReplaced header m bs str1 str2 text
          (and_then r (λ result. unalloc header str1 >> (unalloc header str2 >> pure result)))
  freed-IsReplaced (no_room f) = kept_full f
  freed-IsReplaced (built a g h t kept end) =
      rw (one.0, two.0)
        (replaced a (freed header g1 str2 cs1 (one.1.heap) live2) (two.1.heap)
          (IsText-frame g _ a text
            (λ x l u.
              same a (length text + 1) x (Owns-insert a (length text + 1) bs)
                (apart str1 n1 own1 some1) (apart str2 n2 own2 some2) l (omega arith))
            t)
          (λ c k x o p q l u.
            same c k x (Owns-insert_other c k a (length text + 1) bs o) p q l u
            ∙ kept x (inl (InPayload-Owns c k x bs o l u))))
    where
      cs : List Block
      cs = insert (a, length text + 1) bs

      live1 : HasBlock str1 cs
      live1 = Owns-HasBlock str1 n1 cs (Owns-insert_other str1 n1 a (length text + 1) bs own1)

      g1 : Mem
      g1 = freed header g str1 cs h live1

      one : (unalloc header str1 g ≡ ok tt g1) × IsFreed header g g1 str1 cs
      one = unalloc-IsFreed header g str1 cs h live1

      cs1 : List Block
      cs1 = remove str1 cs

      live2 : HasBlock str2 cs1
      live2 =
          Owns-HasBlock str2 n2 cs1
            (Owns-remove str2 n2 str1 cs (Owns-insert_other str2 n2 a (length text + 1) bs own2) ne)

      two :
          (unalloc header str2 g1 ≡ ok tt (freed header g1 str2 cs1 (one.1.heap) live2))
          × IsFreed header g1 (freed header g1 str2 cs1 (one.1.heap) live2) str2 cs1
      two = unalloc-IsFreed header g1 str2 cs1 (one.1.heap) live2

      same :
          (c k x : ℕ)
          → Owns c k cs
          → c ≢ str1
          → c ≢ str2
          → c ≤ x
          → x < c + k
          → load8 (freed header g1 str2 cs1 (one.1.heap) live2) x ≡ load8 g x
      same c k x o p q l u =
          two.1.kept x (inl (InPayload-Owns c k x cs1 (Owns-remove c k str1 cs o p) l u))
          ∙ one.1.kept x (inl (InPayload-Owns c k x cs o l u))

      apart : (s n : ℕ) → Owns s n bs → 0 < n → a ≢ s
      apart s n o p e = absurd (
          omega (
            arith,
            e,
            InPayload-insert_apart g (heap_end header g) (header + 12) 0 (first_address header g) a
                (length text + 1) bs (h.chain) s
                (InPayload-Owns s n s bs o (omega arith) (omega arith)),
          ))

-- On a well-formed heap with blocks, `free_concat` of two texts that are stored in two blocks of
-- their own, of fewer than 2^31 characters each and together fitting a 32-bit size with a header,
-- builds the text of both in a new block and gives the two blocks back, or throws, because by
-- `ralloc`'s count no free space is large enough.
pub free_concat-IsReplaced :
    (header : ℕ) (m : Mem) (bs : List Block) (str1 str2 n1 n2 : ℕ) (xs ys : List ℕ)
    → IsHeap header m bs
    → first_address header m ≢ 0
    → Owns str1 n1 bs
    → Owns str2 n2 bs
    → str2 ≢ str1
    → IsText m str1 xs
    → IsText m str2 ys
    → length xs < n1
    → length ys < n2
    → length xs + length ys + 13 < 2 ^ 32
    → length xs < 2 ^ 31
    → length ys < 2 ^ 31
    → IsReplaced header m bs str1 str2 (xs ++ ys) (free_concat header str1 str2 m)
unfolding free_concat
free_concat-IsReplaced header m bs str1 str2 n1 n2 xs ys h used own1 own2 ne t1 t2 fit1 fit2 small
      s1 s2 =
    freed-IsReplaced header m bs str1 str2 n1 n2 (xs ++ ys) own1 own2 (omega arith) (omega arith) ne
      (concatenate-IsBuilt header m bs str1 str2 xs ys h used
        (record {
          text = t1;
          inside = λ x l u. inl (InPayload-Owns str1 n1 x bs own1 l (omega arith));
        })
        (record {
          text = t2;
          inside = λ x l u. inl (InPayload-Owns str2 n2 x bs own2 l (omega arith));
        })
        small s1 s2)
