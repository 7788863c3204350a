-- ===== src/Kernel/Paging.antt =====
-- The start of the kernel up to the paging, as a whole.
use mathlib.Core.Option
use mush_os.Base.{ℕ, ◌+◌, ◌^◌, ◌<◌, ◌≡◌, refl, Option, some, arith}
use mush_os.Machine.Run.{Run}
use mush_os.Ports.{Ports}
use mush_os.Interruptions.{Message, Handlers}
use mush_os.PageTables.Clone.{Pools}
use mush_os.PageTables.Start.{Stack, initialise_paging}
use mush_os.PageTables.Paging.{IsPaged, initialise_paging-IsPaged}
use mush_os.Kernel.{Parts, Boot, kernel_heap_start, kernel_heap_size, start_paging}
use mush_os.Kernel.Start.{IsStarted, started, start_drivers-IsStarted}

module _ (p : Ports) {S : Type 0} (show : Message → S → S) (isr irq : ℕ → ℕ) (parts : Parts p show)
    (greet : S → S) (unset : ℕ) (s : Stack) where
  -- The heap that the first half leaves is large enough for the pools, and below their frames.
  IsStarted-IsPaged :
      (before : Handlers show) {o : Option (Boot p show)}
      → IsStarted p show isr irq parts before o
      → (r : Run (Pools × ℕ)) × (Option.map
            (λ (b : Boot p show). initialise_paging b.library.header unset s b.library.memory)
            o
          ≡ some r)
        × IsPaged kernel_heap_start (kernel_heap_start + kernel_heap_size) unset s r
  IsStarted-IsPaged before (started b e heap end exc gates table) = (
    initialise_paging b.library.header unset s b.library.memory,
    refl,
    rw (e, ← end)
        (initialise_paging-IsPaged kernel_heap_start unset s b.library.memory heap
          (omega (arith, end)) (omega (arith, end))),
  )

  -- Whatever the memory, the device and the table of handlers were, and for stubs at 32-bit
  -- addresses, the start of the kernel up to the paging succeeds: the heap is well formed with
  -- the blocks of the two pools and ends where it did, and with the directory that is made every address below user space leads to its own page: looking its entry up finds one and
  -- changes nothing, and the entry is present; it is open to users, and may be written, exactly if
  -- the page's first byte is in the kernel's stack.
  pub start_paging-IsPaged :
      (b : Boot p show)
      → ((k : ℕ) → isr k < 2 ^ 32)
      → ((k : ℕ) → irq k < 2 ^ 32)
      → (r : Run (Pools × ℕ)) × (start_paging p show isr irq parts greet unset s b ≡ some r)
        × IsPaged kernel_heap_start (kernel_heap_start + kernel_heap_size) unset s r
  unfolding start_paging
  start_paging-IsPaged b isr-lt irq-lt =
      IsStarted-IsPaged b.handlers
        (start_drivers-IsStarted p show isr irq parts greet b isr-lt irq-lt)
