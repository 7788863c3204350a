-- ===== src/System/Calls.antt =====
-- A system call over the heap and the stack.
use mush_os.Base.{
  ℕ, ◌+◌, ◌-◌, ◌*◌, ◌%◌, ◌^◌, ◌≤◌, ◌<◌, ◌≡◌, ◌≢◌, refl, sym, subst, ◌∙◌, ◌⊎◌, inr, List, ◌∷◌,
  length, arith,
}
use mush_os.Machine.{Mem, sub32, load8, load32, store32}
use mush_os.Machine.Words.{load32_of_Same, load8-store32_ne}
use mush_os.Machine.Run.{Run, ok, thrown, and_then}
use mush_os.Heap.{unalloc, first_address, heap_end, allocation_exception_id}
use mush_os.Heap.Chain.{Block, IsHeap}
use mush_os.Heap.Insert.{insert}
use mush_os.Heap.Room.{Stays, IsFull}
use mush_os.Heap.Ralloc.{IsAllocation, allocated, exhausted, ralloc-IsAllocation}
use mush_os.Heap.Payload.{
  Within, Owns-insert, Owns-bounds, IsHeap-payload, IsHeap-Same, Stays-insert_apart,
}
use mush_os.Heap.GiveBack.{IsBack, unalloc-insert, Stays-insert}
use mush_os.System.{
  push_registers, place_words, extract_args, extract_dword_args, push_args, call_frame,
  prepare_call,
}
use mush_os.System.Words.{
  IsWords, Fits, Passes, Passes-words, IsWords-copy, place_words-Within, place_words-IsWords,
  push_registers-Within, extract_args-Within, extract_args-word, push_args-Within, push_args-word,
}

-- The bytes of the stack that a call with `n` arguments may write.
abbrev pub depth : ℕ → ℕ
depth n = 44 + 4 * n

-- The stack has room for the call, apart from the heap.
pub record IsRoom (header : ℕ) (m : Mem) (esp n : ℕ) : Type 0 where
  pub room : depth n ≤ esp
  pub bound : esp < 2 ^ 32
  pub apart : (esp ≤ header) ⊎ (heap_end header m + depth n ≤ esp)

-- What the handler finds: the arguments behind its base pointer, and the heap with the blocks that
-- it had, with their bytes and those outside of the heap and the stack as they were; or the
-- exception, because by `ralloc`'s count no free space takes the copy of the arguments.
pub data IsPrepared (header : ℕ) (m : Mem) (bs : List Block) (arguments : List ℕ) (esp : ℕ)
    : Run ℕ → Type 0 where
  prepared :
      (base : ℕ) (g : Mem)
      → IsHeap header g bs
      → heap_end header g ≡ heap_end header m
      → Passes g base 0 arguments
      → ((x : ℕ)
          → (x + depth (length arguments) < esp) ⊎ (esp ≤ x)
          → Stays header (heap_end header m) x bs
          → load8 g x ≡ load8 m x)
      → base + depth (length arguments) ≡ esp + 8
      → IsPrepared header m bs arguments esp (ok base g)
  unprepared :
      (g : Mem)
      → IsHeap header g bs
      → IsFull (4 * length arguments) (heap_end header g) (header + 12) bs
      → IsPrepared header m bs arguments esp (thrown allocation_exception_id g)

module _ (header : ℕ) (registers : ℕ → ℕ) (m : Mem) (bs : List Block) (arguments : List ℕ)
    (esp ebp : ℕ) (h : IsHeap header m bs) (used : first_address header m ≢ 0)
    (fits : Fits arguments) (r : IsRoom header m esp (length arguments)) where
  low : ℕ
  low = esp - depth (length arguments)

  base : ℕ
  base = esp - 32 - 4 * length arguments

  m1 : Mem
  m1 = push_registers 8 registers esp m

  m2 : Mem
  m2 = place_words (length arguments ∷ arguments) (low + 8) m1

  -- The stack before the copy.
  m2-Within : Within low (depth (length arguments)) m m2
  unfolding m2 m1 low
  m2-Within x o =
      place_words-Within (length arguments ∷ arguments) (low + 8) m1 x (omega (arith, o, r.room))
      ∙ push_registers-Within 8 registers (esp - 32) esp m (omega (arith, r.room)) (r.bound) x
          (omega (arith, o, r.room))

  m2-IsWords : IsWords m2 (low + 12) arguments
  unfolding m2
  m2-IsWords =
      subst (λ a. IsWords m2 a arguments) (omega arith)
        ((place_words-IsWords (length arguments ∷ arguments) (low + 8) m1
          (omega (arith, r.room, r.bound), fits)).1)

  m2-IsHeap : IsHeap header m2 bs × (heap_end header m2 ≡ heap_end header m)
  unfolding low
  m2-IsHeap =
      IsHeap-Same header m m2 bs (λ x l u. m2-Within x (omega (arith, r.room, r.apart, l, u))) h

  -- Once the block for the copy is there.
  module _ (a : ℕ) (g : Mem) (grown : IsHeap header g (insert (a, 4 * length arguments) bs))
      (kept : (x : ℕ) → Stays header (heap_end header m2) x bs → load8 g x ≡ load8 m2 x)
      (end : heap_end header g ≡ heap_end header m2) where
    bounds : (header + 12 + 12 ≤ a) × (a + 4 * length arguments ≤ heap_end header g)
    bounds =
        Owns-bounds g (heap_end header g) (header + 12) 0 (first_address header g) a
          (4 * length arguments) (insert (a, 4 * length arguments) bs) (grown.chain)
          (Owns-insert a (4 * length arguments) bs)

    stop : heap_end header g ≡ heap_end header m
    stop = end ∙ m2-IsHeap.1

    g1 : Mem
    g1 = extract_args (length arguments) a low 0 g

    g1-Within : Within a (4 * length arguments) g g1
    unfolding g1
    g1-Within x o = extract_args-Within a low (length arguments) 0 g x (omega arith)

    g1-IsHeap : IsHeap header g1 (insert (a, 4 * length arguments) bs)
    g1-IsHeap =
        IsHeap-payload g g1 (heap_end header g) a (4 * length arguments) g1-Within header
          (insert (a, 4 * length arguments) bs) refl grown (Owns-insert a (4 * length arguments) bs)

    g1-stop : heap_end header g1 ≡ heap_end header m
    g1-stop =
        load32_of_Same g g1 (header + 8) (header + 12) (header + 8)
          (λ x l u. g1-Within x (omega (arith, u, bounds))) (omega arith) (omega arith)
        ∙ stop

    g2 : Mem
    g2 = push_args (length arguments) a (base + 4 * length arguments) g1

    g2-Within : Within base (4 * length arguments) g1 g2
    unfolding g2 base
    g2-Within = push_args-Within a base (length arguments) g1 (omega (arith, r.room, r.bound))

    g2-IsHeap :
        IsHeap header g2 (insert (a, 4 * length arguments) bs)
        × (heap_end header g2 ≡ heap_end header g1)
    unfolding base
    g2-IsHeap =
        IsHeap-Same header g1 g2 (insert (a, 4 * length arguments) bs)
          (λ x l u. g2-Within x (omega (arith, r.room, r.apart, l, u, g1-stop))) g1-IsHeap

    back : (g' : Mem) × IsBack header g2 a (4 * length arguments) bs g'
    back = unalloc-insert header g2 a (4 * length arguments) bs (g2-IsHeap.0)

    g3 : Mem
    g3 = back.0

    g3-stop : heap_end header g3 ≡ heap_end header m
    unfolding g3
    g3-stop = back.1.end ∙ g2-IsHeap.1 ∙ g1-stop

    g4 : Mem
    g4 = store32 g3 (base - 4) ebp

    g4-Within : Within (base - 4) 4 g3 g4
    unfolding g4
    g4-Within x o = load8-store32_ne g3 (base - 4) ebp x o

    g4-IsHeap : IsHeap header g4 bs × (heap_end header g4 ≡ heap_end header g3)
    unfolding g3 base
    g4-IsHeap =
        IsHeap-Same header g3 g4 bs
          (λ x l u. g4-Within x (omega (arith, r.room, r.apart, l, u, g3-stop))) (back.1.heap)

    -- A word of the stack goes from the call's arguments to the block and back.
    moved : (k : ℕ) → k < length arguments → load32 g4 (base + 4 * k) ≡ load32 m2 (low + 12 + 4 * k)
    unfolding g2 g1 g3 base low
    moved k l =
        load32_of_Same g3 g4 (base + 4 * k) (base + 4 * k + 4) (base + 4 * k)
          (λ x p q. g4-Within x (omega (arith, p))) (omega arith) (omega arith)
        ∙ load32_of_Same g2 g3 (base + 4 * k) (base + 4 * k + 4) (base + 4 * k)
            (λ x p q.
              back.1.kept x (inr (omega (arith, p, q, l, r.room, r.apart, g2-IsHeap.1, g1-stop))))
            (omega arith) (omega arith)
        ∙ push_args-word a base (length arguments) g1 (omega (arith, r.room, r.bound))
            (omega (arith, r.room, r.apart, bounds, stop)) k l
        ∙ extract_args-word a low (length arguments) 0 g
            (omega (arith, r.room, r.apart, bounds, stop)) k (omega arith) (omega (arith, l))
        ∙ load32_of_Same m2 g (low + 12 + 4 * k) (low + 12 + 4 * k + 4) (low + 12 + 4 * k)
            (λ x p q. kept x (inr (omega (arith, p, q, l, r.room, r.apart, end, stop))))
            (omega arith) (omega arith)

    g4-same :
        (x : ℕ)
        → (x + depth (length arguments) < esp) ⊎ (esp ≤ x)
        → Stays header (heap_end header m) x bs
        → load8 g4 x ≡ load8 m x
    unfolding g3 base low
    g4-same x o p =
        g4-Within x (omega (arith, o, r.room))
        ∙ back.1.kept x (
            Stays-insert header (heap_end header g2) x a (4 * length arguments) bs
              (at_end (heap_end header g2) (g2-IsHeap.1 ∙ g1-stop)))
        ∙ g2-Within x (omega (arith, o, r.room))
        ∙ g1-Within x (
            Stays-insert_apart header g a (4 * length arguments) bs grown x
              (at_end (heap_end header g) stop))
        ∙ kept x (at_end (heap_end header m2) (m2-IsHeap.1))
        ∙ m2-Within x (omega (arith, o, r.room))
      where
        at_end : (hi : ℕ) → hi ≡ heap_end header m → Stays header hi x bs
        at_end hi e = subst (λ k. Stays header k x bs) (sym e) p

    finished : IsPrepared header m bs arguments esp (ok (base - 4) g4)
    unfolding base low
    finished =
        prepared (base - 4) g4 (g4-IsHeap.0) (g4-IsHeap.1 ∙ g3-stop)
          (Passes-words g4 (base - 4) 0 arguments (
            subst (λ b. IsWords g4 b arguments) (omega (arith, r.room))
              (IsWords-copy m2 g4 (low + 12) base arguments moved m2-IsWords)))
          g4-same (omega (arith, r.room))

  copied-IsPrepared :
      {run : Run ℕ}
      → IsAllocation header m2 bs (4 * length arguments) run
      → IsPrepared header m bs arguments esp (
          and_then (and_then run (λ a g. ok a (extract_args (length arguments) a low 0 g))) (λ a g.
            and_then
              (unalloc header a (push_args (length arguments) a (base + 4 * length arguments) g))
              (λ _ g'. ok (base - 4) (store32 g' (base - 4) ebp))))
  unfolding g4 g3 g2 g1
  copied-IsPrepared (allocated q g i enough least grown kept end) =
      rw ((back (q.address + 12) g grown kept end).1.done)
        (finished (q.address + 12) g grown kept end)
  copied-IsPrepared (exhausted f) = unprepared m2 (m2-IsHeap.0) f

  first_address-m2 : first_address header m2 ≡ first_address header m
  unfolding low
  first_address-m2 =
      load32_of_Same m m2 header (header + 4) header
        (λ x l u. m2-Within x (omega (arith, r.room, r.apart, l, u, h.above))) (omega arith)
        (omega arith)

  -- On a well-formed heap with blocks, with room on a stack apart from it, and for arguments of 32
  -- bits: a system call gets to its handler with a base pointer behind which the handler reads these
  -- arguments, and the heap has the blocks that it had, with their bytes and those outside of the
  -- heap and of the stack's room as they were; or it throws the allocation exception, because by
  -- `ralloc`'s count no free space takes the copy of the arguments.
  pub prepare_call-IsPrepared :
      IsPrepared header m bs arguments esp (prepare_call header registers arguments esp ebp m)
  unfolding prepare_call extract_dword_args m2 m1 base low
  prepare_call-IsPrepared =
      rw (frame, last, top, size)
        (copied-IsPrepared (
          ralloc-IsAllocation header m2 bs (4 * length arguments) (m2-IsHeap.0)
            (λ e. used (sym first_address-m2 ∙ e)) (omega (arith, r.room, r.bound))))
    where
      frame : call_frame (sub32 esp 32) (length arguments) ≡ esp - depth (length arguments)
      frame = omega (arith, r.room, r.bound)

      last : sub32 (sub32 esp 32) (4 * length arguments + 4) ≡ base - 4
      last = omega (arith, r.room, r.bound)

      top : sub32 esp 32 ≡ base + 4 * length arguments
      top = omega (arith, r.room, r.bound)

      size : length arguments * 4 % 2 ^ 32 ≡ 4 * length arguments
      size = omega (arith, r.room, r.bound)
