-- ===== src/System.antt =====
-- lib/base/syscall.h, lib/base/stdio.h and lib/base/vararg.c: a system call with its arguments on the stack, and the
-- macros that print a template by the call of the screen. What the interruption does is an
-- argument. A call of a C function puts its arguments on the stack, the first one lowest.
pub mod Words
pub mod Calls
pub mod Answers
pub mod Console
mod Tests
use mush_os.Base.{ℕ, zero, suc, ◌+◌, ◌*◌, ◌%◌, ◌^◌, List, [], ◌∷◌, length}
use mush_os.Machine.{Mem, sub32, load32, store32}
use mush_os.Machine.Run.{Cmd, pure, ◌>>=◌, ◌>>◌}
use mush_os.Heap.{ralloc, unalloc}
use mush_os.Heap.Blocks.{apply}
use mush_os.Format.{Literals, Precise, format}

-- `extract_dword_args`, in a function whose frame is at `ebp`: the words behind its first argument.
unfoldable pub extract_args : ℕ → (args ebp i : ℕ) → Mem → Mem
extract_args zero args ebp i m = m
extract_args (suc left) args ebp i m =
    extract_args left args ebp (i + 1) (store32 m (args + 4 * i) (load32 m (ebp + 8 + 4 * (i + 1))))

unfoldable pub extract_dword_args : (header args_num ebp : ℕ) → Cmd ℕ
unfolding extract_args
extract_dword_args header args_num ebp = do
  args ← ralloc header (args_num * 4 % 2 ^ 32)
  apply (extract_args args_num args ebp 0)
  pure args

-- The words of a list from an address on.
unfoldable pub place_words : List ℕ → ℕ → Mem → Mem
place_words [] a m = m
place_words (v ∷ vs) a m = place_words vs (a + 4) (store32 m a v)

-- `pusha`: the eight registers, by a function of their numbers.
unfoldable pub push_registers : ℕ → (registers : ℕ → ℕ) → (esp : ℕ) → Mem → Mem
push_registers zero registers esp m = m
push_registers (suc left) registers esp m =
    push_registers left registers (sub32 esp 4) (store32 m (sub32 esp 4) (registers left))

-- The loop that pushes the copied arguments, the last one first.
unfoldable pub push_args : ℕ → (args esp : ℕ) → Mem → Mem
push_args zero args esp m = m
push_args (suc i) args esp m =
    push_args i args (sub32 esp 4) (store32 m (sub32 esp 4) (load32 m (args + 4 * i)))

-- The words of the stack from `esp` on, taken off one by one into the same variable.
unfoldable pub pop_args : ℕ → (esp popped : ℕ) → Mem → ℕ
pop_args zero esp popped m = popped
pop_args (suc left) esp popped m = pop_args left (esp + 4) (load32 m esp) m

unfoldable pub system_get_arg : (stack_base arg_num : ℕ) → Mem → ℕ
system_get_arg stack_base arg_num m = load32 m (stack_base + 4 + arg_num * 4)

unfoldable pub system_push : (stack_base value : ℕ) → Mem → Mem
system_push stack_base value m = store32 m (stack_base + 4) value

-- The frame of a function that gets `args_num` words behind their number.
abbrev pub call_frame : (esp args_num : ℕ) → ℕ
call_frame esp args_num = sub32 esp (4 * (args_num + 1) + 8)

-- The call's number for printing a text, its address, its colours, and no length.
abbrev pub print_arguments : (formatted font back : ℕ) → List ℕ
print_arguments formatted font back = 2 ∷ formatted ∷ font ∷ back ∷ 0 ∷ []

module _ (header : ℕ) (registers : ℕ → ℕ) where
  -- The macros up to `int`: the base pointer that the handler gets. `args_num` is the number of the
  -- arguments.
  unfoldable pub prepare_call : (arguments : List ℕ) (esp ebp : ℕ) → Cmd ℕ
  unfolding push_registers extract_dword_args push_args place_words
  prepare_call arguments esp ebp = do
    let args_num = length arguments
    apply (push_registers 8 registers esp)
    let top = sub32 esp 32
    apply (place_words (args_num ∷ arguments) (call_frame top args_num + 8))
    args ← extract_dword_args header args_num (call_frame top args_num)
    apply (push_args args_num args top)
    unalloc header args
    let base = sub32 top (4 * args_num + 4)
    apply (λ m. store32 m base ebp)
    pure base

  -- `interrupt` is what the handler does.
  unfoldable pub call_system :
      (interrupt : ℕ → Cmd (Unit {0})) (arguments : List ℕ) (esp ebp : ℕ) → Cmd (Unit {0})
  unfolding prepare_call
  call_system interrupt arguments esp ebp = do base ← prepare_call arguments esp ebp; interrupt base

  -- The value is what the last `pop` takes; behind the base pointer are the arguments.
  unfoldable pub call_system_ret :
      (interrupt : ℕ → Cmd (Unit {0})) (arguments : List ℕ) (esp ebp ret_value : ℕ) → Cmd ℕ
  unfolding prepare_call pop_args
  call_system_ret interrupt arguments esp ebp ret_value = do
    base ← prepare_call arguments esp ebp
    interrupt base
    (λ m. pure (pop_args (length arguments) (base + 4) ret_value m) m)

  -- `print_formatted`; `frame` is where the arguments of `format` are.
  unfoldable pub print_formatted :
      (interrupt : ℕ → Cmd (Unit {0})) (l : Literals) (p : Precise)
      (font back temp frame esp ebp : ℕ)
      → Cmd (Unit {0})
  unfolding call_system
  print_formatted interrupt l p font back temp frame esp ebp = do
    formatted ← format header l p temp frame
    call_system interrupt (print_arguments formatted font back) esp ebp
    unalloc header formatted

-- The colours of a console, with their codes.
pub data ConsoleColor : Type 0 where
  black low_blue low_green low_cyan low_red low_magenta brown light_gray : ConsoleColor
  dark_gray high_blue high_green high_cyan high_red high_magenta yellow white : ConsoleColor

abbrev pub color_code : ConsoleColor → ℕ
color_code black = 0
color_code low_blue = 1
color_code low_green = 2
color_code low_cyan = 3
color_code low_red = 4
color_code low_magenta = 5
color_code brown = 6
color_code light_gray = 7
color_code dark_gray = 8
color_code high_blue = 9
color_code high_green = 10
color_code high_cyan = 11
color_code high_red = 12
color_code high_magenta = 13
color_code yellow = 14
color_code white = 15

-- The macros for the kinds of messages; a macro is a colour.
pub data Print : Type 0 where
  bad warn good info plain : Print

unfoldable pub print_color : Print → ConsoleColor
print_color bad = high_red
print_color warn = yellow
print_color good = high_green
print_color info = high_blue
print_color plain = light_gray

-- One of these macros.
unfoldable pub print :
    (header : ℕ) (registers : ℕ → ℕ) (interrupt : ℕ → Cmd (Unit {0})) (l : Literals) (p : Precise)
    (kind : Print) (temp frame esp ebp : ℕ)
    → Cmd (Unit {0})
unfolding print_formatted print_color
print header registers interrupt l p kind temp frame esp ebp =
    print_formatted header registers interrupt l p (color_code (print_color kind))
      (color_code black) temp frame esp ebp
