-- ===== src/Exceptions.antt =====
-- lib/base/exceptions.c, and the two handlers of allocation exceptions in lib/base/heap.c and
-- core/kernel/heap.c. What a throw does is a list of events, in order; a text is its bytes.
pub mod Laws
mod Tests
use mush_os.Base.{ℕ, ◌%◌, Option, none, some, List, [], ◌∷◌, ◌++◌, Bool, ◌==◌, if◌then◌else◌}

-- The handlers that the sources define.
pub data Handler : Type 0 where
  library_allocation kernel_allocation : Handler

-- The array `handlers`, indexed by a `u_byte`.
abbrev pub Handlers : Type 0
Handlers = ℕ → Option Handler

abbrev pub no_handlers : Handlers
no_handlers i = none

unfoldable pub handle_exceptions : ℕ → Handler → Handlers → Handlers
handle_exceptions id handler handlers i = if i == id % 256 then some handler else handlers i

-- `exception`; the texts may be null.
pub record Exception : Type 0 where
  pub id : ℕ
  pub type_text : Option (List ℕ)
  pub message : Option (List ℕ)
  pub file : List ℕ
  pub line : ℕ

-- A printed text with its template's arguments, a call of `terminate` with a code, a stop. The
-- sources leave `terminate` empty, so that a throw whose last event is this call returns.
pub data Event : Type 0 where
  exception_number : ℕ → Event
  exception_type : List ℕ → Event
  exception_message : List ℕ → Event
  code_location : List ℕ → ℕ → Event
  heap_exhausted : Event
  terminate : ℕ → Event
  halt : Event

abbrev when_given : Option (List ℕ) → (List ℕ → Event) → List Event
when_given none event = []
when_given (some text) event = event text ∷ []

-- `library_allocation` calls `terminate` with `heap_exception_id`, and returns; the kernel's handler
-- prints and stops.
unfoldable pub run_handler : Handler → List Event
run_handler library_allocation = terminate 2 ∷ []
run_handler kernel_allocation = heap_exhausted ∷ halt ∷ []

report : Exception → List Event
report exc =
    exception_number exc.id
    ∷ (when_given exc.type_text exception_type
        ++ (when_given exc.message exception_message
            ++ (code_location exc.file exc.line ∷ terminate exc.id ∷ [])))

unfoldable pub throw_exception : Handlers → Exception → List Event
unfolding report run_handler
throw_exception handlers exc = elim (handlers exc.id) [
  | none ↦ report exc
  | some handler ↦ run_handler handler
]
