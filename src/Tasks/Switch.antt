-- ===== src/Tasks/Switch.antt =====
-- What a switch does with the queue, the registers and the current task.
use mush_os.Base.{
  ℕ, ◌+◌, ◌%◌, ◌^◌, ◌≤◌, ◌≡◌, ◌≢◌, refl, ◌∙◌, ◌⊎◌, List, [], ◌∷◌, ◌++◌, arith, ◌==◌, ==-true,
  ==-false, if◌then◌else◌,
}
use mush_os.Machine.{Mem, load32, store32}
use mush_os.Machine.Words.{load32-store32_ne, load32-store32_self}
use mush_os.Tasks.{
  Scheduler, Outcome, jump, next_task_at, eip_at, esp_at, ebp_at, page_directory_at, save_task,
  switch_task,
}
use mush_os.Tasks.Queue.{IsQueue, Around-of_IsQueue, IsQueue-behind, IsQueue-save_task}

-- The task whose turn comes after one with the given tasks behind it.
abbrev pub turn_after : ℕ → List ℕ → ℕ
turn_after first [] = first
turn_after first (u ∷ us) = u

-- The processor goes on with what `m` holds of task `t`.
abbrev pub resume_at : Mem → ℕ → Outcome
resume_at m t = jump (eip_at m t) (esp_at m t) (ebp_at m t) (page_directory_at m t)

-- A switch away from `t`, with `post` behind it in the queue `us`, when the registers were as
-- given.
pub record IsSwitched (s : Scheduler) (t esp ebp eip : ℕ) (us post : List ℕ)
    (r : Outcome × Scheduler) : Type 0 where
  pub current : r.1.current_task ≡ turn_after s.ready_queue post
  pub queue : IsQueue r.1.memory r.1.ready_queue us
  pub outcome : r.0 ≡ resume_at r.1.memory r.1.current_task
  pub directory : r.1.current_directory ≡ page_directory_at r.1.memory r.1.current_task
  pub saved :
      (eip_at r.1.memory t ≡ eip % 2 ^ 32)
      × (esp_at r.1.memory t ≡ esp % 2 ^ 32)
      × (ebp_at r.1.memory t ≡ ebp % 2 ^ 32)
  pub kept : (a : ℕ) → (a + 4 ≤ t + 4) ⊎ (t + 16 ≤ a) → load32 r.1.memory a ≡ load32 s.memory a

module _ (m : Mem) (t esp ebp eip : ℕ) where
  save_task-kept :
      (a : ℕ) → (a + 4 ≤ t + 4) ⊎ (t + 16 ≤ a) → load32 (save_task t esp ebp eip m) a ≡ load32 m a
  unfolding save_task
  save_task-kept a h =
      load32-store32_ne (store32 (store32 m (t + 12) eip) (t + 4) esp) (t + 8) ebp a (grind arith)
      ∙ load32-store32_ne (store32 m (t + 12) eip) (t + 4) esp a (grind arith)
      ∙ load32-store32_ne m (t + 12) eip a (grind arith)

  save_task-saved :
      (eip_at (save_task t esp ebp eip m) t ≡ eip % 2 ^ 32)
      × (esp_at (save_task t esp ebp eip m) t ≡ esp % 2 ^ 32)
      × (ebp_at (save_task t esp ebp eip m) t ≡ ebp % 2 ^ 32)
  unfolding save_task
  save_task-saved = (
    load32-store32_ne (store32 (store32 m (t + 12) eip) (t + 4) esp) (t + 8) ebp (t + 12)
          (omega arith)
        ∙ load32-store32_ne (store32 m (t + 12) eip) (t + 4) esp (t + 12) (omega arith)
        ∙ load32-store32_self m (t + 12) eip,
    load32-store32_ne (store32 (store32 m (t + 12) eip) (t + 4) esp) (t + 8) ebp (t + 4)
          (omega arith)
        ∙ load32-store32_self (store32 m (t + 12) eip) (t + 4) esp,
    load32-store32_self (store32 (store32 m (t + 12) eip) (t + 4) esp) (t + 8) ebp,
  )

-- The test for the end of the queue finds the next turn.
next_turn :
    (m : Mem) (first next : ℕ) (post : List ℕ)
    → IsQueue m next post
    → (if next == 0 then first else next) ≡ turn_after first post
next_turn m first next [] e = rw (==-true next 0 e) refl
next_turn m first next (u ∷ us) (e, p, a, q) = rw (==-false next 0 (omega (arith, e, p))) e

-- A switch in the middle of a well-formed queue, on registers that do not say that it has just
-- happened, gives the turn to the next task in the queue, and after the last one to the first.
-- The queue is kept; the task that is left holds its registers, every other word of memory is
-- kept; and the processor goes on with the registers and the directory of the new current task.
pub switch_task-IsSwitched :
    (s : Scheduler) (esp ebp eip : ℕ) (pre post : List ℕ)
    → IsQueue s.memory s.ready_queue (pre ++ s.current_task ∷ post)
    → eip ≢ 0xdeadbaba
    → IsSwitched s s.current_task esp ebp eip
        (pre ++ s.current_task ∷ post)
        post
        (switch_task esp ebp eip s)
unfolding switch_task
switch_task-IsSwitched s esp ebp eip pre post queue h =
    rw
      (
        ==-false s.current_task 0 (
            omega (arith, (IsQueue-behind s.memory s.ready_queue s.current_task pre post queue).1)),
        ==-false eip 0xdeadbaba h,
      )
      (record {
        current = next_turn m s.ready_queue (next_task_at m s.current_task) post behind;
        queue = linked;
        outcome = refl;
        directory = refl;
        saved = save_task-saved s.memory s.current_task esp ebp eip;
        kept = save_task-kept s.memory s.current_task esp ebp eip;
      })
  where
    m : Mem
    m = save_task s.current_task esp ebp eip s.memory

    linked : IsQueue m s.ready_queue (pre ++ s.current_task ∷ post)
    linked =
        IsQueue-save_task s.memory s.current_task esp ebp eip s.ready_queue
          (pre ++ s.current_task ∷ post)
          (Around-of_IsQueue s.memory s.ready_queue s.current_task pre post queue) queue

    behind : IsQueue m (next_task_at m s.current_task) post
    behind = (IsQueue-behind m s.ready_queue s.current_task pre post linked).0
