-- ===== src/Tasks/Tests.antt =====
-- A queue of two tasks.
use mush_os.Base.{◌+◌, ◌-◌, ◌%◌, ◌<◌, ◌≡◌, refl, inl, inr, [], ◌∷◌, arith, ◌==◌, if◌then◌else◌}
use mush_os.Machine.{Mem, load32}
use mush_os.Tasks.{Scheduler, switch_task, queue_task}
use mush_os.Tasks.Fork.{IsForked, queue_task-IsForked}
use mush_os.Tasks.Queue.{IsQueue}
use mush_os.Tasks.Rounds.{IsRound, switched, done, switch_task-IsRound, Schedule-turn}
use mush_os.Tasks.Switch.{IsSwitched, switch_task-IsSwitched}

-- Tasks at 1000 and 2000, the second one running.
abbrev tasks_memory : Mem
tasks_memory x = if x == 1020 then 208 else if x == 1021 then 7 else 0

abbrev two_tasks : Scheduler
two_tasks = record {
  memory = tasks_memory;
  current_task = 2000;
  ready_queue = 1000;
  next_pid = 2;
  current_directory = 0x5000;
}

two_tasks-IsQueue : IsQueue tasks_memory 1000 (1000 ∷ 2000 ∷ [])
two_tasks-IsQueue = (refl, omega arith, (inl (omega arith), tt), (linked, omega arith, tt, last))
  where
    linked : load32 tasks_memory 1020 ≡ 2000
    linked = unfold load32 in refl

    last : load32 tasks_memory 2020 ≡ 0
    last = unfold load32 in refl

switch_task-IsSwitched_example :
    IsSwitched two_tasks 2000 7 8 9 (1000 ∷ 2000 ∷ []) [] (switch_task 7 8 9 two_tasks)
switch_task-IsSwitched_example =
    switch_task-IsSwitched two_tasks 7 8 9 (1000 ∷ []) [] two_tasks-IsQueue (λ e. omega (arith, e))

queue_task-IsForked_example :
    IsForked two_tasks 3000 0x7000 (1000 ∷ 2000 ∷ []) (queue_task 5 3000 0x7000 two_tasks)
queue_task-IsForked_example =
    queue_task-IsForked two_tasks 5 3000 0x7000 1000 (2000 ∷ []) two_tasks-IsQueue
      (inr (omega arith), (inr (omega arith), tt)) (omega arith) (omega arith) (omega arith)

two_tasks-IsRound : IsRound (1000 ∷ 2000 ∷ []) two_tasks 1
two_tasks-IsRound = record { queue = two_tasks-IsQueue; current = refl }

switch_task-IsRound_example :
    IsRound (1000 ∷ 2000 ∷ []) (switch_task 7 8 9 two_tasks).1 ((1 + 1) % 2)
switch_task-IsRound_example =
    switch_task-IsRound (1000 ∷ 2000 ∷ []) two_tasks 1 7 8 9 two_tasks-IsRound
      (λ e. omega (arith, e))

-- One switch brings the turn from the second task to the first.
Schedule-turn_example :
    ((switch_task 7 8 9 two_tasks).1.current_task ≡ 1000) × ((0 + 2 - 1) % 2 < 2)
Schedule-turn_example =
    Schedule-turn (1000 ∷ 2000 ∷ []) 1 0 1000 two_tasks-IsRound refl
      (switched 7 8 9 (λ e. omega (arith, e)) (done refl))
