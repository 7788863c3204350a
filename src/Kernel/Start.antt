-- ===== src/Kernel/Start.antt =====
-- What the kernel has set up before it starts paging.
use mathlib.Core.Option
use mush_os.Base.{
  ℕ, ◌+◌, ◌^◌, ◌≤◌, ◌<◌, ◌≡◌, refl, ap, ◌∙◌, [], ◌∷◌, Option, some, arith, ◌==◌, if◌then◌else◌,
}
use mush_os.Machine.{Mem, load8, load32}
use mush_os.Machine.Words.{load32_of_Same}
use mush_os.Ports.{Ports}
use mush_os.Heap.{heap_end, allocation_exception_id}
use mush_os.Heap.Chain.{IsHeap}
use mush_os.Heap.Blocks.{Library, initialize_heap}
use mush_os.Heap.Start.{initialize_heap-IsHeap}
use mush_os.Exceptions
use mush_os.Exceptions.{
  Exception, Event, heap_exhausted, halt, throw_exception, kernel_allocation, handle_exceptions,
  run_handler,
}
use mush_os.Exceptions.Laws.{throw_exception-handle_exceptions}
use mush_os.Interruptions.{
  Message, Handlers, silent_interrupt_handler, put_handler, set_interrupt_handler,
  silence_interrupt, init_interruptions,
}
use mush_os.Interruptions.Gates.{IsGate, stub_of, init_interruptions-IsGate}
use mush_os.Interruptions.Kept.{init_interruptions-kept}
use mush_os.Timer.{init_timer}
use mush_os.Kernel.{
  kernel_heap_start, kernel_heap_size, kernel_timer_step, initialize_kernel_heap_handler, Parts,
  Boot, register, silence, set_up, open_drivers, start_drivers,
}

-- The table of handlers with those of the parts, for whatever the table was before.
abbrev pub started_handlers :
    {p : Ports} {S : Type 0} (show : Message → S → S) → Parts p show → Handlers show → Handlers show
started_handlers show parts before n =
    if n == 46
    then some (silent_interrupt_handler show)
    else if n == 33
    then some parts.keyboard
    else if n == 49
    then some parts.debug
    else if n == 48
    then some parts.screen
    else if n == 32
    then some parts.timer
    else before n

-- The state from which paging is started.
pub data IsStarted (p : Ports) {S : Type 0} (show : Message → S → S) (isr irq : ℕ → ℕ)
    (parts : Parts p show) (before : Handlers show) : Option (Boot p show) → Type 0 where
  started :
      (b : Boot p show)
      → b.library.header ≡ kernel_heap_start
      → IsHeap kernel_heap_start b.library.memory []
      → heap_end kernel_heap_start b.library.memory ≡ kernel_heap_start + kernel_heap_size
      → ((exc : Exception)
          → exc.id ≡ allocation_exception_id
          → throw_exception b.library.handlers exc ≡ heap_exhausted ∷ halt ∷ [])
      → ((n : ℕ) → n < 256 → IsGate b.library.memory n (stub_of isr irq n))
      → ((n : ℕ) → b.handlers n ≡ started_handlers show parts before n)
      → IsStarted p show isr irq parts before (some b)

-- A heap without blocks depends on its header alone.
IsHeap-header :
    (header : ℕ) (m g : Mem)
    → ((x : ℕ) → header ≤ x → load8 g x ≡ load8 m x)
    → IsHeap header m []
    → IsHeap header g [] × (heap_end header g ≡ heap_end header m)
IsHeap-header header m g same h = (
  record {
    start = word (header + 4) (omega arith) ∙ h.start;
    above = rw (word (header + 8) (omega arith)) h.above;
    chain = word header (omega arith) ∙ h.chain;
  },
  word (header + 8) (omega arith),
)
  where
    word : (x : ℕ) → header ≤ x → load32 g x ≡ load32 m x
    word x l =
        load32_of_Same m g x (x + 4) x (λ y p q. same y (omega arith)) (omega arith) (omega arith)

-- An exhausted heap is answered by the kernel's handler.
exhausted :
    (handlers : Exceptions.Handlers) (exc : Exception)
    → exc.id ≡ allocation_exception_id
    → throw_exception (handle_exceptions allocation_exception_id kernel_allocation handlers) exc
      ≡ heap_exhausted ∷ halt ∷ []
unfolding run_handler
exhausted handlers exc e =
    (throw_exception-handle_exceptions allocation_exception_id kernel_allocation handlers exc
        (omega arith)).0
      e

-- The step of the timer is not 0.
init_timer-some :
    (p : Ports) (d : p.Device) → (e : p.Device) × (init_timer p kernel_timer_step d ≡ some e)
unfolding init_timer
init_timer-some p d = (_, refl)

module _ (p : Ports) {S : Type 0} (show : Message → S → S) (isr irq : ℕ → ℕ) (parts : Parts p show)
    (greet : S → S) (b : Boot p show) where
  fresh : Library
  fresh = initialize_heap kernel_heap_start kernel_heap_size b.library

  ready : Boot p show
  ready = set_up p show isr irq parts b

  ready_memory : ready.library.memory ≡ (init_interruptions p isr irq (fresh.memory, b.device)).0.0
  unfolding ready set_up register set_interrupt_handler initialize_kernel_heap_handler fresh
  ready_memory = refl

  ready_handlers :
      ready.library.handlers
      ≡ handle_exceptions allocation_exception_id kernel_allocation fresh.handlers
  unfolding ready set_up register set_interrupt_handler initialize_kernel_heap_handler fresh
  ready_handlers = refl

  ready_header : ready.library.header ≡ kernel_heap_start
  unfolding ready set_up register set_interrupt_handler initialize_kernel_heap_handler
      initialize_heap
  ready_header = refl

  made :
      IsHeap kernel_heap_start fresh.memory []
      × (heap_end kernel_heap_start fresh.memory ≡ kernel_heap_start + kernel_heap_size)
  unfolding fresh initialize_heap
  made =
      initialize_heap-IsHeap kernel_heap_start kernel_heap_size b.library (omega arith)
        (omega arith)

  ready_heap :
      IsHeap ready.library.header ready.library.memory []
      × (heap_end ready.library.header ready.library.memory ≡ kernel_heap_start + kernel_heap_size)
  ready_heap = rw (ready_header, ready_memory) (carried.0, carried.1 ∙ made.1)
    where
      table : Mem
      table = (init_interruptions p isr irq (fresh.memory, b.device)).0.0

      carried :
          IsHeap kernel_heap_start table []
          × (heap_end kernel_heap_start table ≡ heap_end kernel_heap_start fresh.memory)
      carried =
          IsHeap-header kernel_heap_start fresh.memory table
            (λ x l. init_interruptions-kept p isr irq fresh.memory b.device x (omega arith)) made.0

  ready_gates :
      ((k : ℕ) → isr k < 2 ^ 32)
      → ((k : ℕ) → irq k < 2 ^ 32)
      → (n : ℕ) → n < 256
      → IsGate ready.library.memory n (stub_of isr irq n)
  ready_gates isr-lt irq-lt n l =
      rw (ready_memory)
        (init_interruptions-IsGate p isr irq fresh.memory b.device isr-lt irq-lt n l)

  timer_set : p.Device
  timer_set = (init_timer-some p ready.device).0

  module _ (device : p.Device) where
    opened : Boot p show
    opened = open_drivers p show parts greet (record ready { device = device })

    opened_library : opened.library ≡ ready.library
    unfolding opened open_drivers register silence set_interrupt_handler silence_interrupt
    opened_library = refl

    opened_handlers : (n : ℕ) → opened.handlers n ≡ started_handlers show parts b.handlers n
    unfolding opened ready set_up open_drivers register silence set_interrupt_handler
        silence_interrupt put_handler
    opened_handlers n = refl

  start_drivers-opened : start_drivers p show isr irq parts greet b ≡ some (opened timer_set)
  unfolding start_drivers opened ready timer_set
  start_drivers-opened =
      ap
        (Option.map (λ (device : p.Device).
          open_drivers p show parts greet (record ready { device = device })))
        (init_timer-some p ready.device).1

  -- Whatever the memory, the device and the table of handlers were, and for stubs at 32-bit
  -- addresses, the first half of the start succeeds: the kernel's heap is well formed, without a
  -- block, in its region, and the interruptions' table, written after it, has not touched it; each
  -- of the 256 gates leads to its stub; an exhausted heap prints and stops the kernel; the timer, the
  -- screen, the debugger and the keyboard have their handlers, request 14 is silenced, and no other
  -- handler has changed.
  pub start_drivers-IsStarted :
      ((k : ℕ) → isr k < 2 ^ 32)
      → ((k : ℕ) → irq k < 2 ^ 32)
      → IsStarted p show isr irq parts b.handlers (start_drivers p show isr irq parts greet b)
  start_drivers-IsStarted isr-lt irq-lt = rw (start_drivers-opened) (
      started (opened timer_set) (rw (opened_library timer_set) ready_header)
        (rw (opened_library timer_set) (rw (ready_header) at (ready_heap.0)))
        (rw (opened_library timer_set) (rw (ready_header) at (ready_heap.1)))
        (λ exc e. rw (opened_library timer_set, ready_handlers) (exhausted fresh.handlers exc e))
        (rw (opened_library timer_set) (ready_gates isr-lt irq-lt)) (opened_handlers timer_set))
