-- ===== src/System/Answers.antt =====
-- What `call_system_ret` returns, for a handler that answers by `system_push`.
use mush_os.Base.{
  ℕ, suc, ◌+◌, ◌*◌, ◌^◌, ◌≤◌, ◌<◌, ◌≡◌, ◌≢◌, refl, ap, subst, ◌∙◌, inr, List, [], ◌∷◌, length,
  arith,
}
use mush_os.Machine.{Mem, store32}
use mush_os.Machine.Words.{load32-store32_ne, load32-store32_self}
use mush_os.Machine.Run.{Run, ok, thrown, and_then}
use mush_os.Heap.{first_address, heap_end, allocation_exception_id}
use mush_os.Heap.Chain.{Block, IsHeap}
use mush_os.Heap.Room.{IsFull}
use mush_os.System.{system_get_arg, system_push, pop_args, call_system_ret}
use mush_os.System.Words.{IsWords, Fits, Passes}
use mush_os.System.Calls.{IsRoom, IsPrepared, prepared, unprepared, prepare_call-IsPrepared}

-- The last word of a list, or another value.
abbrev pub last_or : ℕ → List ℕ → ℕ
last_or v [] = v
last_or v (w ∷ ws) = last_or w ws

-- The value of the last of the words that a call takes from the stack, when the handler has put its
-- answer in the first one's place: the answer for one argument, the last argument for more.
abbrev pub answer_or_last : (ret_value answer : ℕ) → List ℕ → ℕ
answer_or_last ret_value answer [] = ret_value
answer_or_last ret_value answer (v ∷ vs) = last_or answer vs

-- The value is returned, or by `ralloc`'s count no free space of the heap takes `size` bytes.
pub data IsReturned (header : ℕ) (bs : List Block) (size value : ℕ) : Run ℕ → Type 0 where
  returned : (g : Mem) → IsReturned header bs size value (ok value g)
  unsent :
      (g : Mem)
      → IsHeap header g bs
      → IsFull size (heap_end header g) (header + 12) bs
      → IsReturned header bs size value (thrown allocation_exception_id g)

IsWords-Passes :
    (m : Mem) (base k : ℕ) (vs : List ℕ) → Passes m base k vs → IsWords m (base + 4 + k * 4) vs
unfolding system_get_arg
IsWords-Passes m base k [] w = tt
IsWords-Passes m base k (v ∷ vs) (e, w) = (e, rw (next) at (IsWords-Passes m base (suc k) vs w))
  where
    next : base + 4 + suc k * 4 ≡ base + 4 + k * 4 + 4
    next = omega arith

IsWords-store32 :
    (m : Mem) (a b v : ℕ) (vs : List ℕ) → a + 4 ≤ b → IsWords m b vs → IsWords (store32 m a v) b vs
IsWords-store32 m a b v [] l w = tt
IsWords-store32 m a b v (x ∷ vs) l (e, w) =
    (load32-store32_ne m a v b (inr l) ∙ e, IsWords-store32 m a (b + 4) v vs (omega arith) w)

pop_args-IsWords :
    (m : Mem) (a popped : ℕ) (vs : List ℕ)
    → IsWords m a vs
    → pop_args (length vs) a popped m ≡ last_or popped vs
unfolding pop_args
pop_args-IsWords m a popped [] w = refl
pop_args-IsWords m a popped (v ∷ vs) (e, w) =
    ap (λ x. pop_args (length vs) (a + 4) x m) e ∙ pop_args-IsWords m (a + 4) v vs w

module _ (header : ℕ) (m : Mem) (bs : List Block) (esp answer ret_value : ℕ)
    (fits : answer < 2 ^ 32) where
  popped :
      (base : ℕ) (g : Mem) (arguments : List ℕ)
      → Passes g base 0 arguments
      → pop_args (length arguments) (base + 4) ret_value (system_push base answer g)
        ≡ answer_or_last ret_value answer arguments
  unfolding system_push pop_args
  popped base g [] passes = refl
  popped base g (v ∷ vs) passes =
      ap (λ w. pop_args (length vs) (base + 4 + 4) w (store32 g (base + 4) answer))
        (load32-store32_self g (base + 4) answer ∙ omega (arith, fits))
      ∙ pop_args-IsWords (store32 g (base + 4) answer) (base + 4 + 4) answer vs (
          IsWords-store32 g (base + 4) (base + 4 + 4) answer vs (omega arith) (
            subst (λ a. IsWords g a vs) (omega arith)
              ((IsWords-Passes g base 0 (v ∷ vs) passes).1)))

  popped-IsReturned :
      (arguments : List ℕ) {run : Run ℕ}
      → IsPrepared header m bs arguments esp run
      → IsReturned header bs (4 * length arguments) (answer_or_last ret_value answer arguments) (
          and_then run (λ base g.
            ok
              (pop_args (length arguments) (base + 4) ret_value (system_push base answer g))
              (system_push base answer g)))
  popped-IsReturned arguments (unprepared g h f) = unsent g h f
  popped-IsReturned arguments (prepared base g h stop passes same at) =
      rw (popped base g arguments passes) (returned (system_push base answer g))

-- On a well-formed heap with blocks, with room on a stack apart from it, for arguments and an
-- answer of 32 bits: of a handler that answers by `system_push`, `call_system_ret` returns the
-- answer if the call has one argument, and the last argument if it has more, unless by
-- `ralloc`'s count no free space takes the copy of the arguments.
pub call_system_ret-IsReturned :
    (header : ℕ) (registers : ℕ → ℕ) (m : Mem) (bs : List Block) (arguments : List ℕ)
    (esp ebp answer ret_value : ℕ)
    → IsHeap header m bs
    → first_address header m ≢ 0
    → Fits arguments
    → IsRoom header m esp (length arguments)
    → answer < 2 ^ 32
    → IsReturned header bs (4 * length arguments) (answer_or_last ret_value answer arguments) (
        call_system_ret header registers
          (λ base g. ok tt (system_push base answer g))
          arguments
          esp
          ebp
          ret_value
          m)
unfolding call_system_ret
call_system_ret-IsReturned header registers m bs arguments esp ebp answer ret_value h used fits room
      small =
    popped-IsReturned header m bs esp answer ret_value small arguments
      (prepare_call-IsPrepared header registers m bs arguments esp ebp h used fits room)
