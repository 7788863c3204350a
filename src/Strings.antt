-- ===== src/Strings.antt =====
-- lib/base/string.c: texts in memory, ended by a zero, and lib/base/math.c. An `int` counts
-- characters; the loops that look for an end get fuel, and `none` or `stuck` means that it runs
-- out.
pub mod Text
pub mod Positions
pub mod Build
pub mod OnHeap
pub mod Concatenate
pub mod Made
pub mod Shift
pub mod Copies
mod Tests
use mathlib.Core.Option
use mush_os.Base.{
  ℕ, zero, suc, ◌+◌, ◌-◌, ◌%◌, ◌^◌, Bool, true, false, ◌&&◌, Option, none, some, ltb, ◌==◌,
  if◌then◌else◌,
}
use mush_os.Machine.{Mem, add32, sub32, load8, store8}
use mush_os.Machine.Run.{Run, ok, stuck, Cmd, pure, ◌>>=◌, ◌>>◌}
use mush_os.Heap.{ralloc}

-- The range of an `int`.
abbrev pub int_range : ℕ
int_range = 2 ^ 31

unfoldable pub len_from : ℕ → (str i : ℕ) → Mem → Option ℕ
len_from zero str i m = none
len_from (suc fuel) str i m =
    let rest = len_from fuel str (i + 1) m in if load8 m (str + i) == 0 then some i else rest

unfoldable pub len : ℕ → Mem → Option ℕ
len str m = len_from int_range str 0 m

-- The result of a search: an index, or -1.
pub data Found : Type 0 where
  at : ℕ → Found
  nowhere : Found

unfoldable pub first_pos_from : ℕ → (str i ch : ℕ) → Mem → Option Found
first_pos_from zero str i ch m = none
first_pos_from (suc fuel) str i ch m =
    let rest = first_pos_from fuel str (i + 1) ch m in
    if load8 m (str + i) == 0
    then some nowhere
    else if load8 m (str + i) == ch
    then some (at i)
    else rest

unfoldable pub first_pos : (str ch : ℕ) → Mem → Option Found
first_pos str ch m = first_pos_from int_range str 0 ch m

-- The loop ends at index 0 without a look at it.
unfoldable pub last_pos_from : (str i ch : ℕ) → Mem → Found
last_pos_from str zero ch m = nowhere
last_pos_from str (suc i) ch m =
    let rest = last_pos_from str i ch m in if load8 m (str + suc i) == ch then at (suc i) else rest

unfoldable pub last_pos : (str ch : ℕ) → Mem → Option Found
unfolding last_pos_from len
last_pos str ch m = Option.map (λ (n : ℕ). last_pos_from str n ch m) (len str m)

unfoldable pub equals_from : ℕ → (str1 str2 i : ℕ) → Mem → Option Bool
equals_from zero str1 str2 i m = none
equals_from (suc fuel) str1 str2 i m =
    let x = load8 m (str1 + i) in
    let y = load8 m (str2 + i) in
    let rest = equals_from fuel str1 str2 (i + 1) m in
    if x == 0
    then some (y == 0)
    else if y == 0
    then some false
    else if x == y
    then rest
    else some false

unfoldable pub equals : (str1 str2 : ℕ) → Mem → Option Bool
equals str1 str2 m = equals_from int_range str1 str2 0 m

-- `for (...) result[i + to] = str[i + from]`, from index `i` on.
unfoldable pub copy_chars : ℕ → (result str i : ℕ) → Mem → Mem
copy_chars zero result str i m = m
copy_chars (suc left) result str i m =
    copy_chars left result str (i + 1) (store8 m (result + i) (load8 m (str + i)))

abbrev pub known : {A : Type 0} → Option A → Cmd A
known none m = stuck
known (some a) m = ok a m

abbrev pub measure : ℕ → Cmd ℕ
measure str m = known (len str m) m

abbrev pub change : (Mem → Mem) → Cmd (Unit {0})
change f m = ok tt (f m)

-- The loop of `move_string_by` from index `i` on; the test reads what the copy may have written.
unfoldable pub move_from : ℕ → (str i step : ℕ) → Mem → Option Mem
move_from zero str i step m = none
move_from (suc fuel) str i step m =
    let copied = store8 m (add32 str (sub32 i step)) (load8 m (add32 str i)) in
    let rest = move_from fuel str (add32 i 1) step copied in
    if load8 copied (add32 str i) == 0
    then some (store8 copied (add32 str (add32 (sub32 i step) 1)) 0)
    else rest

unfoldable pub move_string_by : (str step : ℕ) → Mem → Option Mem
move_string_by str step m = move_from int_range str step step m

module _ (header : ℕ) where
  -- For `begin` up to `end`; if `end` is smaller the size and the last index wrap.
  unfoldable pub substring_mid : (str begin end : ℕ) → Cmd ℕ
  substring_mid str begin end = do
    result ← ralloc header (add32 (sub32 end begin) 1)
    change (copy_chars (end - begin) result (str + begin) 0)
    change (λ m. store8 m (add32 result (sub32 end begin)) 0)
    pure result

  unfoldable pub substring_beg : (str begin : ℕ) → Cmd ℕ
  unfolding substring_mid
  substring_beg str begin = do end ← measure str; substring_mid str begin end

  unfoldable pub substring_end : (str end : ℕ) → Cmd ℕ
  unfolding substring_mid
  substring_end str end = substring_mid str 0 end

  unfoldable pub concatenate : (str1 str2 : ℕ) → Cmd ℕ
  concatenate str1 str2 = do
    str1_length ← measure str1
    str2_length ← measure str2
    result ← ralloc header (str1_length + str2_length + 1)
    change (copy_chars str1_length result str1 0)
    change (copy_chars str2_length (result + str1_length) str2 0)
    change (λ m. store8 m (result + (str1_length + str2_length)) 0)
    pure result

unfoldable pub min : ℕ → ℕ → ℕ
min first second = if ltb second first then second else first

unfoldable pub max : ℕ → ℕ → ℕ
max first second = if ltb second first then first else second
