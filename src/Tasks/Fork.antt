-- ===== src/Tasks/Fork.antt =====
-- A new task at the end of the queue.
use mush_os.Base.{
  ℕ, zero, suc, ◌+◌, ◌%◌, ◌^◌, ◌≤◌, ◌<◌, ◌≡◌, refl, ◌∙◌, ◌⊎◌, List, [], ◌∷◌, ◌++◌, length, Option,
  some, arith, ==-true, ==-false,
}
use mush_os.Machine.{Mem, load8, load32, store32}
use mush_os.Machine.Words.{load8-store32_ne, load32-store32_ne, load32-store32_self}
use mush_os.Tasks.{
  Scheduler, next_task_at, id_at, page_directory_at, make_task, last_task, link_task, queue_task,
}
use mush_os.Tasks.Queue.{Apart, IsQueue}

abbrev pub last_of : ℕ → List ℕ → ℕ
last_of u [] = u
last_of u (v ∷ vs) = last_of v vs

make_task-kept :
    (t id d : ℕ) (m : Mem) (a : ℕ)
    → (a + 4 ≤ t) ⊎ (t + 24 ≤ a)
    → load32 (make_task t id d m) a ≡ load32 m a
unfolding make_task
make_task-kept t id d m a h =
    load32-store32_ne _ (t + 20) 0 a (grind arith)
    ∙ load32-store32_ne _ (t + 16) d a (grind arith)
    ∙ load32-store32_ne _ (t + 12) 0 a (grind arith)
    ∙ load32-store32_ne _ (t + 4) 0 a (grind arith)
    ∙ load32-store32_ne _ (t + 8) 0 a (grind arith)
    ∙ load32-store32_ne m t id a (grind arith)

pub make_task-next : (t id d : ℕ) (m : Mem) → next_task_at (make_task t id d m) t ≡ 0
unfolding make_task
make_task-next t id d m = load32-store32_self _ (t + 20) 0

IsQueue-make_task :
    (t id d : ℕ) (m : Mem) (first : ℕ) (us : List ℕ)
    → Apart t us
    → IsQueue m first us
    → IsQueue (make_task t id d m) first us
IsQueue-make_task t id d m first [] h q = q
IsQueue-make_task t id d m first (u ∷ us) (h, hs) (e, p, a, q) = (
  e,
  p,
  a,
  rw (make_task-kept t id d m (u + 20) (grind arith))
      (IsQueue-make_task t id d m (next_task_at m u) us hs q),
)

-- Enough fuel reaches the end of a queue.
last_task_of_IsQueue :
    (fuel : ℕ) (m : Mem) (first u : ℕ) (us : List ℕ)
    → IsQueue m first (u ∷ us)
    → length us < fuel
    → last_task fuel first m ≡ some (last_of u us)
unfolding last_task
last_task_of_IsQueue zero m first u us q f = absurd (omega arith)
last_task_of_IsQueue (suc fuel) m first u [] (e, p, a, q) f =
    rw (e, ==-true (next_task_at m u) 0 q) refl
last_task_of_IsQueue (suc fuel) m first u (v ∷ vs) (e, p, a, (e', p', a', q)) f =
    rw (e, ==-false (next_task_at m u) 0 (omega (arith, e', p')))
      (last_task_of_IsQueue fuel m (next_task_at m u) v vs (e', p', a', q) (omega arith))

Apart-last_of :
    (t u : ℕ) (us : List ℕ) → Apart t (u ∷ us) → (t + 24 ≤ last_of u us) ⊎ (last_of u us + 24 ≤ t)
Apart-last_of t u [] (h, hs) = h
Apart-last_of t u (v ∷ vs) (h, hs) = Apart-last_of t v vs hs

Apart-snoc :
    (u t : ℕ) (us : List ℕ) → Apart u us → (t + 24 ≤ u) ⊎ (u + 24 ≤ t) → Apart u (us ++ t ∷ [])
Apart-snoc u t [] a h = (omega arith, tt)
Apart-snoc u t (v ∷ vs) (a, rest) h = (a, Apart-snoc u t vs rest h)

-- A link from the last task to one that links to nothing.
IsQueue-link :
    (m : Mem) (t first u : ℕ) (us : List ℕ)
    → 0 < t
    → t < 2 ^ 32
    → next_task_at m t ≡ 0
    → Apart t (u ∷ us)
    → IsQueue m first (u ∷ us)
    → IsQueue (store32 m (last_of u us + 20) t) first (u ∷ us ++ t ∷ [])
IsQueue-link m t first u [] pos small end (h, hs) (e, p, a, q) = (
  e,
  p,
  Apart-snoc u t [] tt h,
  (
    load32-store32_self m (u + 20) t ∙ omega arith,
    pos,
    tt,
    load32-store32_ne m (u + 20) t (t + 20) (omega arith) ∙ end,
  ),
)
IsQueue-link m t first u (v ∷ vs) pos small end (h, hs) (e, p, a, q) = (
  e,
  p,
  Apart-snoc u t (v ∷ vs) a h,
  rw (load32-store32_ne m (last_of v vs + 20) t (u + 20) (omega (arith, Apart-last_of u v vs a)))
      (IsQueue-link m t (next_task_at m u) v vs pos small end hs q),
)

-- What `fork` leaves in the parent: the new task is the last of the queue, with the next free
-- number, and the number is taken.
pub data IsForked (s : Scheduler) (t directory : ℕ) (us : List ℕ) : Option Scheduler → Type 0 where
  forked :
      (r : Scheduler)
      → IsQueue r.memory r.ready_queue (us ++ t ∷ [])
      → (id_at r.memory t ≡ s.next_pid % 2 ^ 32)
      → (page_directory_at r.memory t ≡ directory % 2 ^ 32)
      → r.next_pid ≡ (s.next_pid + 1) % 2 ^ 32
      → r.current_task ≡ s.current_task
      → IsForked s t directory us (some r)

-- A new task's structure takes 24 bytes.
pub make_task-outside :
    (t id d : ℕ) (m : Mem) (x : ℕ)
    → (x < t) ⊎ (t + 24 ≤ x)
    → load8 (make_task t id d m) x ≡ load8 m x
unfolding make_task
make_task-outside t id d m x h =
    load8-store32_ne _ (t + 20) 0 x (omega arith)
    ∙ load8-store32_ne _ (t + 16) d x (omega arith)
    ∙ load8-store32_ne _ (t + 12) 0 x (omega arith)
    ∙ load8-store32_ne _ (t + 4) 0 x (omega arith)
    ∙ load8-store32_ne _ (t + 8) 0 x (omega arith)
    ∙ load8-store32_ne m t id x (omega arith)

pub make_task-fields :
    (t id d : ℕ) (m : Mem)
    → (id_at (make_task t id d m) t ≡ id % 2 ^ 32)
      × (page_directory_at (make_task t id d m) t ≡ d % 2 ^ 32)
unfolding make_task
make_task-fields t id d m = (
  load32-store32_ne _ (t + 20) 0 t (omega arith)
      ∙ load32-store32_ne _ (t + 16) d t (omega arith)
      ∙ load32-store32_ne _ (t + 12) 0 t (omega arith)
      ∙ load32-store32_ne _ (t + 4) 0 t (omega arith)
      ∙ load32-store32_ne _ (t + 8) 0 t (omega arith)
      ∙ load32-store32_self m t id,
  load32-store32_ne _ (t + 20) 0 (t + 16) (omega arith) ∙ load32-store32_self _ (t + 16) d,
)

-- With fuel for the tasks of a well-formed queue that is not empty, and for a structure that was
-- allocated apart from those of the queue, `fork` in the parent ends, and leaves a well-formed
-- queue with the new task behind the others, numbered by `next_pid`, in the cloned directory.
pub queue_task-IsForked :
    (s : Scheduler) (fuel t directory u : ℕ) (us : List ℕ)
    → IsQueue s.memory s.ready_queue (u ∷ us)
    → Apart t (u ∷ us)
    → 0 < t
    → t < 2 ^ 32
    → length us < fuel
    → IsForked s t directory (u ∷ us) (queue_task fuel t directory s)
unfolding queue_task link_task
queue_task-IsForked s fuel t directory u us queue apart pos small enough =
    rw (queue_task, last_task_of_IsQueue fuel made s.ready_queue u us there enough)
      (forked _
        (IsQueue-link made t s.ready_queue u us pos small
          (make_task-next t s.next_pid directory s.memory) apart there)
        (load32-store32_ne made (last_of u us + 20) t t (omega (arith, Apart-last_of t u us apart))
          ∙ (make_task-fields t s.next_pid directory s.memory).0)
        (load32-store32_ne made (last_of u us + 20) t (t + 16)
            (omega (arith, Apart-last_of t u us apart))
          ∙ (make_task-fields t s.next_pid directory s.memory).1)
        refl refl)
  where
    made : Mem
    made = make_task t s.next_pid directory s.memory

    there : IsQueue made s.ready_queue (u ∷ us)
    there = IsQueue-make_task t s.next_pid directory s.memory s.ready_queue (u ∷ us) apart queue
