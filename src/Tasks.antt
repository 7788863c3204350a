-- ===== src/Tasks.antt =====
-- core/kernel/task.c: the ready queue, a list of `task` structures that memory links, and the
-- switch from one task to the next. What the processor does is the outcome of a switch.
pub mod Queue
pub mod Switch
pub mod Fork
pub mod Rounds
mod Tests
use mush_os.Base.{ℕ, zero, suc, ◌+◌, ◌%◌, ◌^◌, Option, none, some, ◌==◌, if◌then◌else◌}
use mush_os.Machine.{Mem, load32, store32}

-- The size of a `task`, whose fields are words: `id`, `esp`, `ebp`, `eip`, `page_directory` and
-- `next`, in this order.
abbrev pub task_size : ℕ
task_size = 24

abbrev pub id_at : Mem → ℕ → ℕ
id_at m t = load32 m t

abbrev pub esp_at : Mem → ℕ → ℕ
esp_at m t = load32 m (t + 4)

abbrev pub ebp_at : Mem → ℕ → ℕ
ebp_at m t = load32 m (t + 8)

abbrev pub eip_at : Mem → ℕ → ℕ
eip_at m t = load32 m (t + 12)

abbrev pub page_directory_at : Mem → ℕ → ℕ
page_directory_at m t = load32 m (t + 16)

abbrev pub next_task_at : Mem → ℕ → ℕ
next_task_at m t = load32 m (t + 20)

-- The variables of the file, `current_directory` of pages.c, and the memory.
pub record Scheduler : Type 0 where
  pub memory : Mem
  pub current_task : ℕ
  pub ready_queue : ℕ
  pub next_pid : ℕ
  pub current_directory : ℕ

-- The assignments to a structure that was allocated at `t`.
unfoldable pub make_task : (t id page_directory : ℕ) → Mem → Mem
make_task t id page_directory m =
    let m = store32 m t id in
    let m = store32 m (t + 8) 0 in
    let m = store32 m (t + 4) 0 in
    let m = store32 m (t + 12) 0 in
    let m = store32 m (t + 16) page_directory in store32 m (t + 20) 0

-- `initialise_tasking` with the address that `ralloc` returned.
unfoldable pub initialise_tasking : ℕ → Scheduler → Scheduler
unfolding make_task
initialise_tasking t s = record {
  memory = make_task t s.next_pid s.current_directory s.memory;
  current_task = t;
  ready_queue = t;
  next_pid = (s.next_pid + 1) % 2 ^ 32;
  current_directory = s.current_directory;
}

-- `while (tmp_task->next) tmp_task = tmp_task->next`; `none` if the fuel runs out.
unfoldable pub last_task : ℕ → ℕ → Mem → Option ℕ
last_task zero t m = none
last_task (suc fuel) t m =
    let rest = last_task fuel (next_task_at m t) m in if next_task_at m t == 0 then some t else rest

-- The assignment to the last task's link, and the next number.
unfoldable pub link_task : (t : ℕ) → Scheduler → Option ℕ → Option Scheduler
link_task t s none = none
link_task t s (some last) =
    some
      (record s { memory = store32 s.memory (last + 20) t; next_pid = (s.next_pid + 1) % 2 ^ 32 })

-- `fork` in the parent, up to the reading of the instruction pointer: `t` is what `ralloc`
-- returned, `directory` what `clone_directory` did.
unfoldable pub queue_task : ℕ → (t directory : ℕ) → Scheduler → Option Scheduler
unfolding make_task link_task
queue_task fuel t directory s =
    let made = make_task t s.next_pid directory s.memory in
    link_task t (record s { memory = made }) (last_task fuel s.ready_queue made)

-- The rest of `fork`, which runs in the parent and again in the child: the parent saves where the
-- child starts and returns its number, the child returns 0.
unfoldable pub fork_returns : (parent t esp ebp eip : ℕ) → Scheduler → ℕ × Scheduler
fork_returns parent t esp ebp eip s =
    if s.current_task == parent
    then (let m = store32 s.memory (t + 4) esp in
        let m = store32 m (t + 8) ebp in
        let m = store32 m (t + 12) eip in (id_at m t, record s { memory = m }))
    else (0, s)

-- How `switch_task` ends: there is no task, it was just switched to, or the processor goes on at
-- `eip` with the given registers, in the given directory.
pub data Outcome : Type 0 where
  idle : Outcome
  resumed : Outcome
  jump : (eip esp ebp directory : ℕ) → Outcome

-- The assignments to the task that is left.
unfoldable pub save_task : (t esp ebp eip : ℕ) → Mem → Mem
save_task t esp ebp eip m = store32 (store32 (store32 m (t + 12) eip) (t + 4) esp) (t + 8) ebp

-- The registers, and what `get_instruction_pointer` returns, are arguments.
unfoldable pub switch_task : (esp ebp eip : ℕ) → Scheduler → Outcome × Scheduler
unfolding save_task
switch_task esp ebp eip s =
    let m = save_task s.current_task esp ebp eip s.memory in
    let next = next_task_at m s.current_task in
    let current = if next == 0 then s.ready_queue else next in
    let directory = page_directory_at m current in
    if s.current_task == 0 then (idle, s) else if eip == 0xdeadbaba then (resumed, s) else (
      jump (eip_at m current) (esp_at m current) (ebp_at m current) directory,
      record s { memory = m; current_task = current; current_directory = directory },
    )

-- The task's number, of the current task.
unfoldable pub getpid : Scheduler → ℕ
getpid s = id_at s.memory s.current_task
