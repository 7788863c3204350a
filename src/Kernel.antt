-- ===== src/Kernel.antt =====
-- core/kernel/kernel.c, the start of the kernel, and the parts that it starts in a line or two:
-- core/kernel/heap.c, core/drivers/keyboard.c and core/kernel/modules.c; and the functions of
-- core/kernel/task.c over the heap and the page directories.
pub mod Start
pub mod Paging
pub mod Running
mod Tests
use mush_os.Base.{ℕ, zero, suc, ◌+◌, ◌*◌, ◌/◌, ◌%◌, ◌^◌, Bool, false, Option, none, some}
use mathlib.Core.Option
use mush_os.Machine.{Mem, load32, store32}
use mush_os.Machine.Run.{Run, ok, thrown, stuck, Cmd, pure, and_then, ◌>>=◌, ◌>>◌}
use mush_os.Ports.{Ports}
use mush_os.Heap.{ralloc, get, allocation_exception_id}
use mush_os.Heap.Blocks.{Library, initialize_heap, apply}
use mush_os.Exceptions.{kernel_allocation, handle_exceptions}
use mush_os.Interruptions.{
  irq_number, Message, Handler, Handlers, set_interrupt_handler, silence_interrupt,
  init_interruptions,
}
use mush_os.Timer.{init_timer}
use mush_os.PageTables.Clone.{Pools, clone_directory}
use mush_os.PageTables.Start.{Stack, initialise_paging}
use mush_os.Tasks.{Scheduler, task_size, initialise_tasking, queue_task}

abbrev pub kernel_heap_start : ℕ
kernel_heap_start = 0x50000

abbrev pub kernel_heap_size : ℕ
kernel_heap_size = 0x80000

abbrev pub kernel_timer_step : ℕ
kernel_timer_step = 100

-- `initialize_kernel_heap_handler` of core/kernel/heap.c.
unfoldable pub initialize_kernel_heap_handler : Library → Library
initialize_kernel_heap_handler lib = record lib {
  handlers = handle_exceptions allocation_exception_id kernel_allocation lib.handlers;
}

-- `modules_placement` before and after, and the address between.
unfoldable pub place_module : (size modules_placement : ℕ) → ℕ × ℕ
place_module size modules_placement = (modules_placement, (modules_placement + size) % 2 ^ 32)

-- The routine of the disk, in assembly, as an argument: sector, drive, length, offset, buffer.
unfoldable pub load_module :
    (header : ℕ) (read_disk : ℕ → Bool → ℕ → ℕ → ℕ → Mem → Mem) (offset length : ℕ) → Cmd ℕ
load_module header read_disk offset length = do
  place ← ralloc header length
  apply (read_disk (offset / 512) false length offset place)
  pure place

-- The scan code is read, so that the keyboard sends the next one, and then dropped.
unfoldable pub keyboard_callback : (p : Ports) → p.Device → p.Device
keyboard_callback p d = (p.port_byte_in 0x60 d).1

module _ (p : Ports) {S : Type 0} (show : Message → S → S) where
  -- The handlers that the parts register, by the parts.
  pub record Parts : Type 0 where
    pub timer : Handler show
    pub screen : Handler show
    pub debug : Handler show
    pub keyboard : Handler show

  -- What the first half of the start changes: the library, the memory in it, the device behind the
  -- ports, the table of handlers, and the rest of the kernel with its messages.
  pub record Boot : Type 0 where
    pub library : Library
    pub device : p.Device
    pub handlers : Handlers show
    pub rest : S

  unfoldable pub register : ℕ → Handler show → Boot → Boot
  register n handler b =
      let (handlers, rest) = set_interrupt_handler show n handler b.handlers b.rest in
      record b { handlers = handlers; rest = rest }

  unfoldable pub silence : ℕ → Boot → Boot
  silence n b =
      let (handlers, rest) = silence_interrupt show n b.handlers b.rest in
      record b { handlers = handlers; rest = rest }

  -- The registrations of the drivers.
  abbrev pub init_screen_io : Parts → Boot → Boot
  init_screen_io parts b = register 48 parts.screen b

  abbrev pub init_debug_handler : Parts → Boot → Boot
  init_debug_handler parts b = register 49 parts.debug b

  abbrev pub init_keyboard : Parts → Boot → Boot
  init_keyboard parts b = register (irq_number 1) parts.keyboard b

  abbrev pub init_module_loading_driver : Boot → Boot
  init_module_loading_driver b = silence 46 b

  -- Up to `init_timer`, whose handler is registered before the timer is set.
  unfoldable pub set_up : (isr irq : ℕ → ℕ) (parts : Parts) → Boot → Boot
  unfolding initialize_kernel_heap_handler register
  set_up isr irq parts b =
      let library =
        initialize_kernel_heap_handler
          (initialize_heap kernel_heap_start kernel_heap_size b.library) in
      let ((memory, device), idt) = init_interruptions p isr irq (library.memory, b.device) in
      register (irq_number 0) parts.timer
        (record b { library = record library { memory = memory }; device = device })

  -- From the screen to the modules. `greet` is the message of the build.
  unfoldable pub open_drivers : (parts : Parts) (greet : S → S) → Boot → Boot
  unfolding register silence
  open_drivers parts greet b =
      let debugged = init_debug_handler parts (init_screen_io parts b) in
      let greeted = record debugged { rest = greet debugged.rest } in
      init_module_loading_driver (init_keyboard parts greeted)

  -- `_start` up to `initialise_paging`; `none` is a fault.
  unfoldable pub start_drivers :
      (isr irq : ℕ → ℕ) (parts : Parts) (greet : S → S) → Boot → Option Boot
  unfolding set_up open_drivers
  start_drivers isr irq parts greet b =
      let ready = set_up isr irq parts b in
      Option.map
        (λ (device : p.Device). open_drivers parts greet (record ready { device = device }))
        (init_timer p kernel_timer_step ready.device)

-- `_start` up to the page fault's handler: the pools and the kernel's directory, if there is no
-- fault. `unset` is what the locals hold that are not assigned.
unfoldable pub start_paging :
    (p : Ports) {S : Type 0} (show : Message → S → S) (isr irq : ℕ → ℕ) (parts : Parts p show)
    (greet : S → S) (unset : ℕ) (s : Stack)
    → Boot p show
    → Option (Run (Pools × ℕ))
start_paging p show isr irq parts greet unset s b =
    Option.map (λ (b : Boot p show). initialise_paging b.library.header unset s b.library.memory)
      (start_drivers p show isr irq parts greet b)

-- `fork` in the parent over the heap and the page directories.
unfoldable pub fork_task :
    (header fuel : ℕ) (pools : Pools) (copy : ℕ → ℕ → Mem → Mem) → Scheduler → Run Scheduler
fork_task header fuel pools copy s =
    let (directory, m) = clone_directory pools copy s.current_directory s.memory in
    and_then (ralloc header task_size m) (λ t m.
      elim (queue_task fuel t directory (record s { memory = m })) [
        | none ↦ stuck
        | some s' ↦ ok s' s'.memory
      ])

-- `initialise_tasking` over the heap.
unfoldable pub start_tasks : (header : ℕ) → Scheduler → Run Scheduler
start_tasks header s =
    and_then (ralloc header task_size s.memory)
      (λ t m. let s' = initialise_tasking t (record s { memory = m }) in ok s' s'.memory)

-- The paging and the first task, over the heap that the drivers leave. The variables of the tasks
-- are 0 at first.
unfoldable pub start_processes : (header unset : ℕ) → Stack → Cmd (Pools × Scheduler)
start_processes header unset s m = and_then (initialise_paging header unset s m) (λ paging m.
    and_then
      (start_tasks header (record {
        memory = m;
        current_task = 0;
        ready_queue = 0;
        next_pid = 0;
        current_directory = paging.1;
      }))
      (λ tasks m. ok (paging.0, tasks) m))

-- `_start` up to `fork`, without the registration of the page fault's handler.
unfoldable pub start_kernel :
    (p : Ports) {S : Type 0} (show : Message → S → S) (isr irq : ℕ → ℕ) (parts : Parts p show)
    (greet : S → S) (unset : ℕ) (s : Stack)
    → Boot p show
    → Option (Run (Pools × Scheduler))
start_kernel p show isr irq parts greet unset s b =
    Option.map (λ (b : Boot p show). start_processes b.library.header unset s b.library.memory)
      (start_drivers p show isr irq parts greet b)
