-- ===== src/System/Tests.antt =====
-- Calls on the heap of the sample, with the stack at 1000.
use mush_os.Base.{ℕ, inr, [], ◌∷◌, arith}
use mush_os.Machine.Run.{ok}
use mush_os.Format.Sample.{memory, used_blocks, memory-IsHeap, memory-used, memory-end}
use mush_os.System.{prepare_call, call_system_ret, system_push}
use mush_os.System.Calls.{IsRoom, IsPrepared, prepare_call-IsPrepared}
use mush_os.System.Answers.{IsReturned, call_system_ret-IsReturned}

abbrev no_registers : ℕ → ℕ
no_registers i = 0

room-two : IsRoom 100 memory 1000 2
room-two = record {
  room = omega arith;
  bound = omega arith;
  apart = inr (omega (arith, memory-end));
}

prepare_call-IsPrepared_example :
    IsPrepared 100 memory used_blocks
      (4 ∷ 160 ∷ [])
      1000
      (prepare_call 100 no_registers (4 ∷ 160 ∷ []) 1000 1100 memory)
prepare_call-IsPrepared_example =
    prepare_call-IsPrepared 100 no_registers memory used_blocks (4 ∷ 160 ∷ []) 1000 1100
      memory-IsHeap memory-used (omega arith, (omega arith, tt)) room-two

call_system_ret-IsReturned_example : IsReturned 100 used_blocks 8 160 (
    call_system_ret 100 no_registers
      (λ base g. ok tt (system_push base 7 g))
      (4 ∷ 160 ∷ [])
      1000
      1100
      0
      memory)
call_system_ret-IsReturned_example =
    call_system_ret-IsReturned 100 no_registers memory used_blocks (4 ∷ 160 ∷ []) 1000 1100 7 0
      memory-IsHeap memory-used (omega arith, (omega arith, tt)) room-two (omega arith)
