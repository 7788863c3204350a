-- ===== src/Kernel/Tests.antt =====
-- The start at a concrete machine, which records the bytes sent to the ports and the messages.
use mush_os.Base.{ℕ, ◌+◌, ◌*◌, ◌%◌, ◌^◌, List, [], ◌∷◌, none, some, ◌≡◌, arith}
use mush_os.Ports.{Ports}
use mush_os.Exceptions.{no_handlers}
use mush_os.Interruptions.{Message, Handler, returned}
use mush_os.Kernel.{
  kernel_heap_start, kernel_heap_size, Parts, Boot, start_drivers, start_paging, start_kernel,
}
use mush_os.Kernel.Running.{IsRunning, start_kernel-IsRunning}
use mush_os.Tasks.{Scheduler}
use mush_os.Kernel.Paging.{start_paging-IsPaged}
use mush_os.PageTables.Clone.{Pools}
use mush_os.PageTables.Start.{Stack}
use mush_os.PageTables.Paging.{IsPaged}
use mush_os.Machine.Run.{Run}
use mush_os.Kernel.Start.{IsStarted, start_drivers-IsStarted}

abbrev log_ports : Ports
log_ports = record {
  Device = List (ℕ × ℕ);
  port_byte_in = λ port d. (0xff, d);
  port_byte_out = λ port v d. (port, v) ∷ d;
}

abbrev show : Message → List Message → List Message
show message s = message ∷ s

abbrev count_call : Handler show
count_call regs s = returned s

abbrev parts : Parts log_ports show
parts = record {
  timer = count_call;
  screen = count_call;
  debug = count_call;
  keyboard = count_call;
}

abbrev off : Boot log_ports show
off = record {
  library = record { memory = λ x. 0xaa; header = 0; handlers = no_handlers };
  device = [];
  handlers = λ n. none;
  rest = [];
}

abbrev stub_at : ℕ → ℕ → ℕ
stub_at base n = (base + n * 16) % 2 ^ 32

start_drivers-IsStarted_example :
    IsStarted log_ports show
      (stub_at 0x10000)
      (stub_at 0x20000)
      parts
      (λ n. none)
      (start_drivers log_ports show (stub_at 0x10000) (stub_at 0x20000) parts (λ s. s) off)
start_drivers-IsStarted_example =
    start_drivers-IsStarted log_ports show (stub_at 0x10000) (stub_at 0x20000) parts (λ s. s) off
      (λ k. omega arith) (λ k. omega arith)

abbrev stack : Stack
stack = record { stack_pointer = 0x7000; stack_size = 0x5000 }

start_paging-IsPaged_example :
    (r : Run (Pools × ℕ)) × (start_paging log_ports show
        (stub_at 0x10000)
        (stub_at 0x20000)
        parts
        (λ s. s)
        7
        stack
        off
      ≡ some r)
    × IsPaged kernel_heap_start (kernel_heap_start + kernel_heap_size) 7 stack r
start_paging-IsPaged_example =
    start_paging-IsPaged log_ports show (stub_at 0x10000) (stub_at 0x20000) parts (λ s. s) 7 stack
      off (λ k. omega arith) (λ k. omega arith)

start_kernel-IsRunning_example :
    (r : Run (Pools × Scheduler)) × (start_kernel log_ports show
        (stub_at 0x10000)
        (stub_at 0x20000)
        parts
        (λ s. s)
        7
        stack
        off
      ≡ some r)
    × IsRunning kernel_heap_start r
start_kernel-IsRunning_example =
    start_kernel-IsRunning log_ports show (stub_at 0x10000) (stub_at 0x20000) parts (λ s. s) 7 stack
      off (λ k. omega arith) (λ k. omega arith)
