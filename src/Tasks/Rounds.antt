-- ===== src/Tasks/Rounds.antt =====
-- Switches in a row, with other work between them: the tasks take turns.
use mush_os.Base.{
  ℕ, zero, suc, ◌+◌, ◌-◌, ◌%◌, ◌<◌, ◌≡◌, ◌≢◌, refl, sym, ap, ◌∙◌, List, [], ◌∷◌, ◌++◌, length,
  length-append, get_elem?, some, arith,
}
use native.Mathlib.Nat.{mod-add-mod, add-mod-mod, mod-eq_of_lt, mod-lt, mod_self, add-mod_right}
use mush_os.Machine.{Mem}
use mush_os.Tasks.{Scheduler, next_task_at, switch_task}
use mush_os.Tasks.Queue.{IsQueue}
use mush_os.Tasks.Switch.{turn_after, IsSwitched, switch_task-IsSwitched}

-- The abstract scheduler: a list of tasks, and the position of the one whose turn it is.
pub record IsRound (us : List ℕ) (s : Scheduler) (i : ℕ) : Type 0 where
  pub queue : IsQueue s.memory s.ready_queue us
  pub current : get_elem? us i ≡ some s.current_task

-- Work that leaves the links of the tasks alone.
abbrev pub KeepsLinks : List ℕ → Mem → Mem → Type 0
KeepsLinks [] m g = Unit {0}
KeepsLinks (u ∷ us) m g = (next_task_at g u ≡ next_task_at m u) × KeepsLinks us m g

-- What happens while the processor runs: `k` switches from `s` to `t`, with such work before,
-- between and behind them. A switch reads registers that do not say that it has just happened.
pub data Schedule (us : List ℕ) : ℕ → Scheduler → Scheduler → Type 0 where
  done : {s t : Scheduler} → s ≡ t → Schedule us zero s t
  switched :
      {k : ℕ} {s t : Scheduler} (esp ebp eip : ℕ)
      → eip ≢ 0xdeadbaba
      → Schedule us k (switch_task esp ebp eip s).1 t
      → Schedule us (suc k) s t
  worked :
      {k : ℕ} {s t : Scheduler} (g : Mem)
      → KeepsLinks us s.memory g
      → Schedule us k (record s { memory = g }) t
      → Schedule us k s t

IsQueue-KeepsLinks :
    (us : List ℕ) (m g : Mem) (first : ℕ)
    → KeepsLinks us m g
    → IsQueue m first us
    → IsQueue g first us
IsQueue-KeepsLinks [] m g first h q = q
IsQueue-KeepsLinks (u ∷ us) m g first (h, hs) (e, p, a, q) =
    (e, p, a, rw h (IsQueue-KeepsLinks us m g (next_task_at m u) hs q))

-- The list around a position.
record IsSplit (us : List ℕ) (i c : ℕ) : Type 0 where
  pre : List ℕ
  post : List ℕ
  whole : us ≡ pre ++ c ∷ post
  place : length pre ≡ i

IsSplit-at : (us : List ℕ) (i c : ℕ) → get_elem? us i ≡ some c → IsSplit us i c
IsSplit-at [] i c h = cc
IsSplit-at (u ∷ us) zero c h = record { pre = []; post = us; whole = cc; place = refl }
IsSplit-at (u ∷ us) (suc i) c h = deeper (IsSplit-at us i c h)
  where
    deeper : IsSplit us i c → IsSplit (u ∷ us) (suc i) c
    deeper s = record {
      pre = u ∷ s.pre;
      post = s.post;
      whole = ap (λ xs. u ∷ xs) s.whole;
      place = ap suc s.place;
    }

get_elem?-append :
    (pre rest : List ℕ) (i : ℕ) → get_elem? (pre ++ rest) (length pre + i) ≡ get_elem? rest i
get_elem?-append [] rest i = ap (get_elem? rest) (omega arith)
get_elem?-append (u ∷ pre) rest i = rw (shift) (get_elem?-append pre rest i)
  where
    shift : suc (length pre) + i ≡ suc (length pre + i)
    shift = omega arith

get_elem?-first :
    (m : Mem) (first c : ℕ) (pre post : List ℕ)
    → IsQueue m first (pre ++ c ∷ post)
    → get_elem? (pre ++ c ∷ post) 0 ≡ some first
get_elem?-first m first c [] post (e, p, a, q) = ap some (sym e)
get_elem?-first m first c (u ∷ pre) post (e, p, a, q) = ap some (sym e)

-- The next turn is at the next position, and behind the last one at the first.
get_elem?-turn :
    (m : Mem) (first c : ℕ) (pre post : List ℕ)
    → IsQueue m first (pre ++ c ∷ post)
    → get_elem? (pre ++ c ∷ post) ((length pre + 1) % length (pre ++ c ∷ post))
      ≡ some (turn_after first post)
get_elem?-turn m first c pre [] q = rw (wraps) (get_elem?-first m first c pre [] q)
  where
    wraps : (length pre + 1) % length (pre ++ c ∷ []) ≡ 0
    wraps = rw (length-append pre (c ∷ [])) (mod_self (length pre + 1))
get_elem?-turn m first c pre (u ∷ us) q = rw (stays) (get_elem?-append pre (c ∷ u ∷ us) 1)
  where
    stays : (length pre + 1) % length (pre ++ c ∷ u ∷ us) ≡ length pre + 1
    stays = mod-eq_of_lt (omega (arith, length-append pre (c ∷ u ∷ us)))

get_elem?-lt : (us : List ℕ) (i c : ℕ) → get_elem? us i ≡ some c → i < length us
get_elem?-lt [] i c h = cc
get_elem?-lt (u ∷ us) zero c h = omega arith
get_elem?-lt (u ∷ us) (suc i) c h = omega (arith, get_elem?-lt us i c h)

module _ (us : List ℕ) where
  -- A switch of the queue in memory, on registers that do not say that it has just happened, is a
  -- step to the next position of the list, around its end, and keeps the list.
  pub switch_task-IsRound :
      (s : Scheduler) (i esp ebp eip : ℕ)
      → IsRound us s i
      → eip ≢ 0xdeadbaba
      → IsRound us (switch_task esp ebp eip s).1 ((i + 1) % length us)
  switch_task-IsRound s i esp ebp eip r h = turned (IsSplit-at us i s.current_task r.current)
    where
      turned :
          IsSplit us i s.current_task
          → IsRound us (switch_task esp ebp eip s).1 ((i + 1) % length us)
      turned p =
          rw (p.whole, ← p.place)
            (record {
              queue = step.queue;
              current =
                  get_elem?-turn s.memory s.ready_queue s.current_task (p.pre) (p.post) queue
                  ∙ ap some (sym (step.current));
            })
        where
          queue : IsQueue s.memory s.ready_queue (p.pre ++ s.current_task ∷ p.post)
          queue = rw (p.whole) at (r.queue)

          step :
              IsSwitched s s.current_task esp ebp eip
                (p.pre ++ s.current_task ∷ p.post)
                (p.post)
                (switch_task esp ebp eip s)
          step = switch_task-IsSwitched s esp ebp eip (p.pre) (p.post) queue h

  pub Schedule-IsRound :
      {k : ℕ} {s t : Scheduler}
      → Schedule us k s t
      → (i : ℕ) → i < length us
      → IsRound us s i
      → IsRound us t ((i + k) % length us)
  Schedule-IsRound (done e) i u r = rw (← e, here) r
    where
      here : (i + 0) % length us ≡ i
      here = rw (mod-eq_of_lt {n = i + 0} {m = length us} (omega arith)) (omega arith)
  Schedule-IsRound (switched {k} {s} esp ebp eip h rest) i u r = rw (later) at (
      Schedule-IsRound rest ((i + 1) % length us) (mod-lt (i + 1) (omega arith))
        (switch_task-IsRound s i esp ebp eip r h))
    where
      later : ((i + 1) % length us + k) % length us ≡ (i + suc k) % length us
      later = mod-add-mod (i + 1) (length us) k ∙ ap (λ n. n % length us) (omega arith)
  Schedule-IsRound (worked {s} g kept rest) i u r = Schedule-IsRound rest i u (record {
    queue = IsQueue-KeepsLinks us s.memory g s.ready_queue kept r.queue;
    current = r.current;
  })

  -- No task starves: from the turn of the task at `i`, however the tasks work between the switches
  -- without touching the links, the task at `j` has its turn after `(j - i)` modulo the number of
  -- tasks switches, which is less than this number.
  pub Schedule-turn :
      (i j c : ℕ) {s t : Scheduler}
      → IsRound us s i
      → get_elem? us j ≡ some c
      → Schedule us ((j + length us - i) % length us) s t
      → (t.current_task ≡ c) × ((j + length us - i) % length us < length us)
  Schedule-turn i j c {s} {t} r at steps = (same, mod-lt (j + length us - i) (omega (arith, j-lt)))
    where
      i-lt : i < length us
      i-lt = get_elem?-lt us i s.current_task (r.current)

      j-lt : j < length us
      j-lt = get_elem?-lt us j c at

      sum : i + (j + length us - i) ≡ j + length us
      sum = omega (arith, i-lt)

      there : (i + (j + length us - i) % length us) % length us ≡ j
      there =
          add-mod-mod i (j + length us - i) (length us)
          ∙ ap (λ n. n % length us) sum
          ∙ add-mod_right j (length us)
          ∙ mod-eq_of_lt j-lt

      same : t.current_task ≡ c
      same = cc (at, rw there at ((Schedule-IsRound steps i i-lt r).current))
