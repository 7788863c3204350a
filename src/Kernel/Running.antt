-- ===== src/Kernel/Running.antt =====
-- The start of the kernel up to its first task.
use mathlib.Core.Option
use mush_os.Base.{
  ℕ, ◌+◌, ◌%◌, ◌^◌, ◌≤◌, ◌<◌, ◌≡◌, ◌≢◌, refl, inl, inr, List, [], ◌∷◌, Option, some, arith, ltb,
  Bool-cases,
}
use mush_os.Machine.{Mem}
use mush_os.Machine.Run.{Run, ok, and_then}
use mush_os.Ports.{Ports}
use mush_os.Heap.{heap_end, first_address}
use mush_os.Heap.Chain.{Block, Chain, IsHeap}
use mush_os.Heap.Insert.{insert}
use mush_os.Heap.Room.{IsFull}
use mush_os.Heap.Payload.{Owns, Owns-insert, IsHeap-payload}
use mush_os.Heap.Ralloc.{IsAllocation, allocated, exhausted, ralloc-IsAllocation}
use mush_os.Interruptions.{Message, Handlers}
use mush_os.PageTables.Clone.{Pools}
use mush_os.PageTables.Start.{Stack, paging_pool_size, user_space_pool_size}
use mush_os.PageTables.Paging.{IsPaged, paged, initialise_paging-IsPaged}
use mush_os.Tasks.{Scheduler, task_size, id_at, page_directory_at, initialise_tasking, make_task}
use mush_os.Tasks.Queue.{IsQueue}
use mush_os.Tasks.Fork.{make_task-next, make_task-fields, make_task-outside}
use mush_os.Kernel.{Parts, Boot, start_tasks, start_processes, start_kernel, kernel_heap_start}
use mush_os.Kernel.Start.{IsStarted, started, start_drivers-IsStarted}

-- The blocks of the two pools.
abbrev pub pool_blocks : Pools → List Block
pool_blocks pools =
    insert (pools.user_space_pool, user_space_pool_size)
      ((pools.paging_pool, paging_pool_size) ∷ [])

-- One task, numbered 0, is current and alone in the queue; the heap is well formed, with its
-- structure and the two pools.
pub data IsRunning (header : ℕ) : Run (Pools × Scheduler) → Type 0 where
  running :
      (pools : Pools) (s : Scheduler)
      → IsQueue s.memory s.ready_queue (s.current_task ∷ [])
      → id_at s.memory s.current_task ≡ 0
      → page_directory_at s.memory s.current_task ≡ s.current_directory % 2 ^ 32
      → s.next_pid ≡ 1
      → IsHeap header s.memory (insert (s.current_task, task_size) (pool_blocks pools))
      → IsRunning header (ok (pools, s) s.memory)

-- A chain with a block begins with one.
Chain-used :
    (m : Mem) (hi lo prev p a n : ℕ) (bs : List Block)
    → Chain m hi lo prev p bs
    → Owns a n bs
    → p ≢ 0
Chain-used m hi lo prev p a n [] c o = absurd o
Chain-used m hi lo prev p a n ((b, k) ∷ bs) (e, i, c) o = omega (arith, e, i.above)

-- The pools leave room on the heap.
pools_leave_room :
    (hi header : ℕ) (pools : Pools)
    → header + 9000 ≤ hi
    → ¬ IsFull task_size hi (header + 12) (pool_blocks pools)
unfolding insert
pools_leave_room hi header pools l f =
    elim (Bool-cases (ltb pools.user_space_pool pools.paging_pool)) [
      | inl e ↦ absurd (omega (arith, rw (e) at f))
      | inr e ↦ absurd (omega (arith, rw (e) at f))
    ]

module _ (header hi unset : ℕ) (s : Stack) (room : header + 9000 ≤ hi) where
  tasking-IsRunning :
      (pools : Pools) (directory : ℕ) (m : Mem) {r : Run ℕ}
      → heap_end header m ≡ hi
      → IsAllocation header m (pool_blocks pools) task_size r
      → IsRunning header (
          and_then
            (and_then r (λ t m.
              let s' = initialise_tasking t (record {
                memory = m;
                current_task = 0;
                ready_queue = 0;
                next_pid = 0;
                current_directory = directory;
              }) in
              ok s' s'.memory))
            (λ tasks m. ok (pools, tasks) m))
  unfolding initialise_tasking
  tasking-IsRunning pools directory m e (exhausted f) =
      absurd (pools_leave_room (heap_end header m) header pools (omega (arith, e)) f)
  tasking-IsRunning pools directory m e (allocated q g i fits least grown kept end) =
      running pools _ (refl, omega arith, tt, make_task-next t 0 directory g)
        (make_task-fields t 0 directory g).0 (make_task-fields t 0 directory g).1 refl
        (IsHeap-payload g (make_task t 0 directory g) (heap_end header g) t task_size
          (make_task-outside t 0 directory g) header (insert (t, task_size) (pool_blocks pools))
          refl grown (Owns-insert t task_size (pool_blocks pools)))
    where
      t : ℕ
      t = q.address + 12

  paged-IsRunning :
      {r : Run (Pools × ℕ)}
      → IsPaged header hi unset s r
      → IsRunning header (
          and_then r (λ paging m.
            and_then
              (start_tasks header (record {
                memory = m;
                current_task = 0;
                ready_queue = 0;
                next_pid = 0;
                current_directory = paging.1;
              }))
              (λ tasks m. ok (paging.0, tasks) m)))
  unfolding start_tasks
  paged-IsRunning (paged pools directory g identity heap end) =
      tasking-IsRunning pools directory g end (
        ralloc-IsAllocation header g (pool_blocks pools) task_size heap
          (Chain-used g (heap_end header g) (header + 12) 0 (first_address header g)
            pools.user_space_pool user_space_pool_size (pool_blocks pools) heap.chain
            (Owns-insert pools.user_space_pool user_space_pool_size
              ((pools.paging_pool, paging_pool_size) ∷ [])))
          (omega arith))

module _ (p : Ports) {S : Type 0} (show : Message → S → S) (isr irq : ℕ → ℕ) (parts : Parts p show)
    (greet : S → S) (unset : ℕ) (s : Stack) where
  IsStarted-IsRunning :
      (before : Handlers show) {o : Option (Boot p show)}
      → IsStarted p show isr irq parts before o
      → (r : Run (Pools × Scheduler)) × (Option.map
            (λ (b : Boot p show). start_processes b.library.header unset s b.library.memory)
            o
          ≡ some r)
        × IsRunning kernel_heap_start r
  unfolding start_processes
  IsStarted-IsRunning before (started b e heap end exc gates table) = (
    start_processes b.library.header unset s b.library.memory,
    refl,
    rw (e) (
        paged-IsRunning kernel_heap_start (heap_end kernel_heap_start b.library.memory) unset s
          (omega (arith, end))
          (initialise_paging-IsPaged kernel_heap_start unset s b.library.memory heap
            (omega (arith, end)) (omega (arith, end)))),
  )

  -- Whatever the memory, the device and the table of handlers were, and for stubs at 32-bit
  -- addresses, the start of the kernel succeeds up to the first `fork`: one task, numbered 0, in
  -- the current directory, is current and alone in the queue, the next number is 1, and the heap
  -- is well formed with this task's structure and the two pools, and no other block.
  pub start_kernel-IsRunning :
      (b : Boot p show)
      → ((k : ℕ) → isr k < 2 ^ 32)
      → ((k : ℕ) → irq k < 2 ^ 32)
      → (r : Run (Pools × Scheduler)) × (start_kernel p show isr irq parts greet unset s b ≡ some r)
        × IsRunning kernel_heap_start r
  unfolding start_kernel
  start_kernel-IsRunning b isr-lt irq-lt =
      IsStarted-IsRunning b.handlers
        (start_drivers-IsStarted p show isr irq parts greet b isr-lt irq-lt)
