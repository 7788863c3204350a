-- ===== src/Lib.antt =====
-- A model of MushOS, a 32-bit kernel for one processor and its library, in C, with the theorems
-- that hold of the model.
--
-- The program. lib/base is the library of the kernel and of its programs: a heap in a fixed region
-- of memory, the exceptions that it throws, routines on bytes, and texts. core/drivers holds the
-- drivers of the text screen, the keyboard and the disk, and core/kernel the interruptions, the
-- timer, the paging and the tasks. Interruptions call handlers, which the drivers register; the
-- timer's handler switches tasks, and programs call the screen by interruption 48. Pools of frames,
-- tasks, texts and copied arguments are blocks on the heap.
--
-- The files.
-- - Base: the names of the libraries in use, Boolean tests, lists.
-- - Machine: the memory as bytes at addresses, words of 32 bits in it, the wrap-around of
--   `u_dword`. Machine.Run is a command over the memory: it ends, throws, or gets stuck for
--   want of fuel. A throw ends the command, as with the kernel's handler of allocation exceptions,
--   which stops and which `_start` registers before the first request. The library's own handler returns, since `terminate` is empty, and `ralloc` would
--   then return the null pointer; the model does not follow that path.
-- - Heap: lib/base/heap.c, with `ralloc` in the parts `find_place` and `take_place`. Its children
--   hold the invariant (Heap.Chain: the list of blocks that the headers in memory link), the search
--   as a best fit among the free spaces (Heap.Search, Heap.Choice), the links of a new block
--   (Heap.Spot, Heap.Insert, Heap.Links, Heap.Allot, Heap.Room, Heap.Ralloc), `unalloc`
--   (Heap.Remove, Heap.Unalloc, Heap.GiveBack, Heap.RoundTrip), and the other operations (Heap.Blocks,
--   Heap.Start). Heap.Payload and Heap.Owners say which bytes belong to which block, for the clients
--   of the heap; Heap.Resize and Heap.Overrun are about `challoc` in place. Heap.Short is about the
--   count of the free space behind the last block, which `ralloc` takes for a header too small.
--   Heap.Below is about a heap of which only the part with the blocks is kept.
-- - Exceptions: lib/base/exceptions.c and core/kernel/heap.c. What a throw does is a list of events.
-- - Memory: lib/base/memory.c.
-- - Ports: the interface to the instructions `in` and `out` of core/drivers/ports_io.asm.
-- - Screen: core/drivers/screen.c. The theorems on `print_char_color` are about `print_at`, what it
--   does between reading the cursor and setting it; Screen.Lines is about `print_string_color` and
--   the call of the screen that prints, and Screen.Shown about the macros of System with the screen's
--   handler for their call.
-- - Pages: the pools of frames of core/kernel/pages.c. PageTables: its page tables, with their
--   copy in PageTables.Clone and the start of the paging in PageTables.Start. PageTables.Lookup is
--   about `get_page`; PageTables.Folders, PageTables.Identity, PageTables.MapPages and
--   PageTables.MapKernel follow the loop that fills the kernel's directory; PageTables.KeptHeap and
--   PageTables.Paging put it on the heap; PageTables.Fault is what the page fault reports.
-- - Interruptions: core/kernel/interruption_tables.c.
-- - Timer: core/kernel/timer.c.
-- - Tasks: core/kernel/task.c. `fork` is `queue_task` up to the reading of the instruction pointer
--   and `fork_returns` from there on, which both tasks run. Tasks.Rounds is the abstract view: the
--   list of the tasks and whose turn it is.
-- - Strings: lib/base/string.c and lib/base/math.c. Strings.OnHeap is the interface of those that
--   build texts: a text in a new block, or an
--   exception; Strings.Made composes them: a command that
--   leaves one new text on a heap and gives everything else back. Strings.Build has the frames of
--   texts, Strings.Copies the parts of texts, Strings.Positions the searches for a character, and
--   Strings.Shift `move_string_by`.
-- - Format: lib/base/format.c. Format.Digits relates digits and numbers, Format.Numeral is about the
--   loop that writes them, Format.OnHeap, Format.FreeConcat, Format.Joined and Format.Pieces are
--   about the texts on the heap, Format.Numbers about the conversions of numbers in
--   the bases of `system`. `number_to_string` names any other base by a call of `format`, which is a
--   field of the literals and is given by `base_prefix`; no theorem is about such a base. Format.Rendering
--   is the abstract view of `format`: a relation between a template, its arguments and the text, which
--   has no `%f`;
--   Format.Place and Format.Printing follow the loop, Format.Output is about `format`, and
--   Format.Sample holds data of the tests.
-- - System: lib/base/syscall.h, lib/base/stdio.h and lib/base/vararg.c, system calls with their
--   arguments on the stack and the macros that print. System.Words is about the loops that move
--   words, System.Calls about what the handler finds, System.Answers about what is returned, and
--   System.Console about printing, from the template to the call of a handler that leaves the blocks
--   alone.
-- - Kernel: core/kernel/kernel.c, and the parts of one or two lines: core/kernel/heap.c,
--   core/kernel/modules.c, core/drivers/keyboard.c, and the functions of core/kernel/task.c over the
--   heap and the page directories. Kernel.Start, Kernel.Paging and Kernel.Running are about
--   `_start`.
--
-- The state is passed on explicitly: the memory, the device behind the ports, or a record of both.
-- A pointer is a natural number; sums that the C code computes as `u_dword` or on pointers of the
-- heap wrap at 2^32. The variables `header` and `user_space_pool` are arguments.
--
-- Fuel. A loop over the blocks of the heap gets as much fuel as the heap's end is high; each block
-- takes twelve bytes, so it suffices, and the theorems say that the commands end. The loop that
-- prints up to a zero gets 2^31, the range of its `int`, and so do the loops on texts and the one
-- of `format`; the two loops on digits get 33, one more than the digits of 32 bits; the walk to the
-- end of the ready queue gets fuel as an argument, and its theorem says how much. Other loops recur
-- on their bounds.
--
-- Not modelled: the assembly, whose ports are an interface, whose stubs are addresses, and whose
-- routines that copy a frame and read the disk are arguments; the registration of the page fault's
-- handler and the processor's switch to paging; what `debug` prints; the messages of the kernel,
-- which are recorded as values or left out; floating point, whose operations are a parameter; what
-- the local variables of `create_page_entry` hold before their first assignment, for which one value
-- stands in all its calls; the return of a throw; the file system, whose functions have no bodies. The stack is modelled where a system call puts its
-- arguments, and not for the calls of C functions otherwise.
mod Base
pub mod Machine
pub mod Heap
pub mod Exceptions
pub mod Memory
pub mod Ports
pub mod Screen
pub mod Pages
pub mod PageTables
pub mod Interruptions
pub mod Timer
pub mod Tasks
pub mod Strings
pub mod Format
pub mod Kernel
pub mod System
