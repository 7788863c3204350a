-- ===== src/Format.antt =====
-- lib/base/format.c: numbers, texts and templates as texts on the heap. A literal of the C code is
-- a text in the program's data, so its address is an argument. Floating point is the processor's.
pub mod Digits
pub mod Numeral
pub mod OnHeap
pub mod FreeConcat
pub mod Joined
pub mod Pieces
pub mod Numbers
pub mod Rendering
pub mod Place
pub mod Printing
pub mod Output
mod Tests
pub mod Sample
use mush_os.Base.{
  ℕ, zero, suc, ◌+◌, ◌-◌, ◌*◌, ◌/◌, ◌%◌, ◌^◌, Bool, true, false, ◌&&◌, Option, none, some, leb, ltb,
  ◌==◌, if◌then◌else◌,
}
use mush_os.Machine.{Mem, sub32, load8, store8, load32, store32}
use mush_os.Machine.Run.{Run, ok, stuck, Cmd, pure, ◌>>=◌, ◌>>◌}
use mush_os.Heap.{ralloc, unalloc, get}
use mush_os.Heap.Blocks.{zalloc}
use mush_os.Strings.{
  int_range, known, measure, change, copy_chars, concatenate, substring_mid, substring_beg, max,
}

-- `system`; a value of the enumeration is a base.
abbrev pub decimal : ℕ
decimal = 10

abbrev pub hexadecimal : ℕ
hexadecimal = 16

abbrev pub binary : ℕ
binary = 2

unfoldable pub atom_to_char : (b sys : ℕ) → ℕ
atom_to_char b sys =
    if leb 2 sys && leb sys 10
    then b + 48
    else if ltb 10 sys && leb sys 36
    then (if ltb b 10 then b + 48 else b + 65 - 10)
    else b'?'

-- The first loop of `int_to_string`: `mult` is a `u_qword`.
unfoldable pub count_digits : ℕ → (mult power b sys : ℕ) → Option ℕ
count_digits zero mult power b sys = none
count_digits (suc fuel) mult power b sys =
    let rest = count_digits fuel (mult * sys % 2 ^ 64) (power + 1) b sys in
    if leb mult b then rest else some power

-- The second loop writes the digits from the last one down.
unfoldable pub write_digits : ℕ → (result power integer sys : ℕ) → Mem → Option Mem
write_digits zero result power integer sys m = none
write_digits (suc fuel) result power integer sys m =
    let rest =
      write_digits fuel result (sub32 power 1) (integer / sys) sys
        (store8 m (result + sub32 power 1) (atom_to_char (integer % sys) sys)) in
    if integer == 0 then some m else rest

-- A number of 32 bits has at most as many digits, and one round more ends each loop.
abbrev pub digit_rounds : ℕ
digit_rounds = 33

-- What a loop on the memory leaves; without fuel the command is stuck.
abbrev pub settle : Option Mem → Run (Unit {0})
settle none = stuck
settle (some m) = ok tt m

-- The literals of the file, by their addresses; `base_text` is what the call of `format` in the
-- default case of `number_to_string` does for a base, which `base_prefix` gives below.
pub record Literals : Type 0 where
  pub true_text : ℕ
  pub false_text : ℕ
  pub dot : ℕ
  pub minus : ℕ
  pub null_text : ℕ
  pub hexadecimal_prefix : ℕ
  pub binary_prefix : ℕ
  pub base_text : ℕ → Cmd ℕ

-- `precise` and what the code does with it.
pub record Precise : Type 1 where
  pub Value : Type 0
  pub read : Mem → ℕ → Value
  pub truncate : Value → ℕ
  pub subtract : Value → ℕ → Value
  pub times : Value → ℕ → Value
  pub is_negative : Value → Bool

-- The letters behind a `%`.
pub data Conversion : Type 0 where
  logical pointer decimals hexadecimals binaries float character text : Conversion

unfoldable pub conversion : ℕ → Option Conversion
conversion c =
    if c == b'l'
    then some logical
    else if c == b'p'
    then some pointer
    else if c == b'd'
    then some decimals
    else if c == b'h'
    then some hexadecimals
    else if c == b'b'
    then some binaries
    else if c == b'f'
    then some float
    else if c == b'c'
    then some character
    else if c == b's'
    then some text
    else none

-- The two ways to go on behind a `%`.
unfoldable pub on_letter : Cmd ℕ → (Conversion → Cmd ℕ) → Option Conversion → Cmd ℕ
on_letter stray after none = stray
on_letter stray after (some v) = after v

-- `init_vararg`: the bytes of the fixed arguments, up to a multiple of four.
unfoldable pub init_vararg : ℕ → ℕ
init_vararg skip = let offset = skip / 4 * 4 in if skip % 4 == 0 then offset else offset + 4

-- `sizeof` of the types that the conversions read.
abbrev pub argument_size : Conversion → ℕ
argument_size logical = 1
argument_size character = 1
argument_size float = 8
argument_size _ = 4

-- What `get_vararg` adds to the offset.
unfoldable pub width : Conversion → ℕ
unfolding max
width v = max (argument_size v) 4

module _ (header : ℕ) where
  unfoldable pub char_to_string : ℕ → Cmd ℕ
  char_to_string c = do
    str ← ralloc header 2
    change (λ m. store8 m str c)
    change (λ m. store8 m (str + 1) 0)
    pure str

  unfoldable pub const_to_string : ℕ → Cmd ℕ
  const_to_string str = do
    length ← measure str
    mod_str ← ralloc header (length + 1)
    change (copy_chars length mod_str str 0)
    change (λ m. store8 m (mod_str + length) 0)
    pure mod_str

  unfoldable pub int_to_string : (b sys : ℕ) → Cmd ℕ
  int_to_string b sys = do
    power ← known (count_digits digit_rounds sys 1 b sys)
    result ← ralloc header (power + 1)
    change (λ m. store8 m (result + power) 0)
    (λ m. settle (write_digits digit_rounds result power b sys m))
    pure result

  unfoldable pub free_concat : (string1 string2 : ℕ) → Cmd ℕ
  free_concat string1 string2 = do
    result ← concatenate header string1 string2
    unalloc header string1
    unalloc header string2
    pure result

  module _ (l : Literals) where
    unfoldable pub boolean_to_string : ℕ → Cmd ℕ
    unfolding const_to_string
    boolean_to_string b =
        if b == 0 then const_to_string l.false_text else const_to_string l.true_text

    unfoldable pub pointer_to_string : ℕ → Cmd ℕ
    unfolding const_to_string int_to_string
    pointer_to_string ptr =
        let digits = (do
          integer ← int_to_string ptr hexadecimal
          result ← concatenate header l.dot integer
          unalloc header integer
          pure result) in
        if ptr == 0 then const_to_string l.null_text else digits

    -- A text behind a literal, in place of the text.
    unfoldable pub prefixed : (literal str : ℕ) → Cmd ℕ
    prefixed literal str = do
      result ← concatenate header literal str
      unalloc header str
      pure result

    -- The default case of `number_to_string`: a base with no prefix of its own is named.
    unfoldable pub with_base_name : (sys number : ℕ) → Cmd ℕ
    with_base_name sys number = do
      prefix ← l.base_text sys
      result ← concatenate header prefix number
      unalloc header prefix
      unalloc header number
      pure result

    -- A `dword` is a word, negative from 2^31 on.
    unfoldable pub number_to_string : (num sys : ℕ) → Cmd ℕ
    unfolding char_to_string int_to_string prefixed with_base_name
    number_to_string num sys = do
      number ←
          if num == 0
          then char_to_string (atom_to_char 0 sys)
          else if leb (2 ^ 31) num
          then int_to_string (2 ^ 32 - num) sys
          else int_to_string num sys
      result ←
          if sys == decimal
          then pure number
          else if sys == hexadecimal
          then prefixed l.hexadecimal_prefix number
          else if sys == binary
          then prefixed l.binary_prefix number
          else with_base_name sys number
      if leb (2 ^ 31) num then prefixed l.minus result else pure result

    module _ (p : Precise) where
      open p use {Value, read, truncate, subtract, times, is_negative}

      unfoldable pub shift_digits : ℕ → Value → Value
      shift_digits zero x = x
      shift_digits (suc n) x = shift_digits n (times x decimal)

      unfoldable pub float_to_string : Value → (after_comma : ℕ) → Cmd ℕ
      unfolding int_to_string shift_digits prefixed
      float_to_string b after_comma =
          let digits = (do
            integer ← int_to_string (truncate b) decimal
            full ← concatenate header integer l.dot
            unalloc header integer
            let floating = shift_digits after_comma (subtract b (truncate b))
            part ← int_to_string (truncate floating) decimal
            result ← concatenate header full part
            unalloc header part
            unalloc header full
            if is_negative b then prefixed l.minus result else pure result) in
          if after_comma == 0 then int_to_string (truncate b) decimal else digits

      -- The text of the argument at an address; a `boolean` and a `char` are its low byte.
      unfoldable pub convert : Conversion → (at : ℕ) → Cmd ℕ
      unfolding boolean_to_string pointer_to_string number_to_string float_to_string char_to_string
          const_to_string
      convert logical at = do b ← get λ m. load8 m at; boolean_to_string b
      convert pointer at = do ptr ← get λ m. load32 m at; pointer_to_string ptr
      convert decimals at = do num ← get λ m. load32 m at; number_to_string num decimal
      convert hexadecimals at = do num ← get λ m. load32 m at; number_to_string num hexadecimal
      convert binaries at = do num ← get λ m. load32 m at; number_to_string num binary
      convert float at = λ m. float_to_string (read m at) 4 m
      convert character at = do c ← get λ m. load8 m at; char_to_string c
      convert text at = do str ← get λ m. load32 m at; const_to_string str

      -- The loop of `format`: `ebp` is the frame's base, behind which the arguments are. A sign
      -- that no letter follows is printed with what comes behind it.
      unfoldable pub format_loop : ℕ → (template ebp j printed argumentor result : ℕ) → Cmd ℕ
      unfolding conversion convert free_concat on_letter
      format_loop zero template ebp j printed argumentor result = λ _. stuck
      format_loop (suc fuel) template ebp j printed argumentor result =
          let plain = format_loop fuel template ebp (j + 1) printed argumentor result in
          let sign = (do
            part ← substring_mid header template printed j
            result' ← free_concat result part
            letter ← get λ m. load8 m (template + (j + 1))
            on_letter (format_loop fuel template ebp (j + 1) j argumentor result')
                (λ v. (do
                  converted ← convert v (ebp + 8 + argumentor)
                  joined ← free_concat result' converted
                  format_loop fuel template ebp (j + 2) (j + 2) (argumentor + width v) joined))
                (conversion letter)) in
          let finish = (do rest ← substring_beg header template printed; free_concat result rest) in
          (do
            n ← measure template
            c ← get λ m. load8 m (template + j)
            if ltb j n then (if c == b'%' then sign else plain) else finish)

      -- The first argument is behind the template's address.
      unfoldable pub format : (template ebp : ℕ) → Cmd ℕ
      unfolding format_loop init_vararg
      format template ebp = do
        result ← zalloc header 1
        format_loop int_range template ebp 0 0 (init_vararg 4) result

      -- The call `format("(base %d) ", sys)`: the base is the argument behind the template's address.
      -- Its `%d` is of base 10, where `base_text` is not run.
      unfoldable pub base_prefix : (template ebp sys : ℕ) → Cmd ℕ
      unfolding format
      base_prefix template ebp sys = do change (λ m. store32 m (ebp + 12) sys); format template ebp
