-- ===== src/Format/Tests.antt =====
-- A heap with two texts, and the texts that are made on it.
use mush_os.Base.{ℕ, ◌≡◌, ◌≢◌, refl, inl, inr, List, [], ◌∷◌, arith}
use mush_os.Machine.{Mem, load8, store8, load32, store32}
use mush_os.Machine.Run.{ok}
use mush_os.Heap.{
  ralloc, first_address, allocate_first, allocate_space, find_place, take_place, consider, walk,
  get_header, is_in_heap, link_next, link_previous,
}
use mush_os.Heap.Chain.{Block, IsBlock, IsHeap}
use mush_os.Format.{int_to_string}
use mush_os.Format.Digits.{value_onto}
use mush_os.Format.OnHeap.{numeral, int_to_string-zero}
use mush_os.Strings.Made.{IsPrinted}
use mush_os.Format.{format, number_to_string, atom_to_char}
use mush_os.Format.Numbers.{
  number_to_string-IsPrinted, magnitude, digits_text, prefix_text, sign_text,
}
use mush_os.Format.Output.{format-IsPrinted}
use mush_os.Format.Sample.{
  memory, used_blocks, literals, whole_numbers, template_text, printed_text, memory-IsHeap,
  memory-used, memory-HasLiterals, template-IsStored, template-Renders,
}

abbrev words : List (ℕ × ℕ) → Mem
words [] = λ _. 0
words ((a, v) ∷ ws) = store32 (words ws) a v

-- "hi" in 10 bytes at 124, and "k" in 20 bytes at 166.
abbrev texts : Mem
texts = words (
    (100, 124)
    ∷ (104, 112)
    ∷ (108, 300)
    ∷ (112, 10)
    ∷ (116, 0)
    ∷ (120, 166)
    ∷ (124, 26984)
    ∷ (154, 20)
    ∷ (158, 124)
    ∷ (162, 0)
    ∷ (166, 107)
    ∷ [])

abbrev blocks : List Block
blocks = (124, 10) ∷ (166, 20) ∷ []

texts-IsHeap : IsHeap 100 texts blocks
unfolding store32 store8 load32 load8
texts-IsHeap = record {
  start = refl;
  above = omega arith;
  chain = (refl, first, (refl, second, refl));
}
  where
    first : IsBlock texts 300 112 0 124 10
    first = record {
      above = omega arith;
      inside = omega arith;
      below = omega arith;
      sized = refl;
      linked = refl;
    }

    second : IsBlock texts 300 134 124 166 20
    second = record {
      above = omega arith;
      inside = omega arith;
      below = omega arith;
      sized = refl;
      linked = refl;
    }

first_is : first_address 100 texts ≡ 124
unfolding store32 store8 load32 load8
first_is = refl

has_blocks : first_address 100 texts ≢ 0
has_blocks e = omega (arith, first_is, e)

-- The gap between the texts is the best fit.
two_bytes : (g : Mem) × (ralloc 100 2 texts ≡ ok 146 g)
unfolding store8 load8 load32 store32 ralloc allocate_first allocate_space find_place take_place
    consider walk get_header is_in_heap link_next link_previous
two_bytes = (_, refl)

int_to_string-zero_example :
    (int_to_string 100 0 10 texts ≡ ok 146 (store8 two_bytes.0 147 0))
    × (load8 (store8 two_bytes.0 147 0) 146 ≡ load8 two_bytes.0 146)
int_to_string-zero_example =
    int_to_string-zero 100 10 146 texts two_bytes.0 (omega arith) two_bytes.1

format-IsPrinted_example :
    IsPrinted 100 memory used_blocks printed_text (format 100 literals whole_numbers 440 460 memory)
format-IsPrinted_example =
    format-IsPrinted 100 literals whole_numbers memory used_blocks 440 460 template_text
      printed_text memory-IsHeap memory-used memory-HasLiterals template-IsStored (omega arith)
      (omega arith) template-Renders

-- -5 in base 16 is "-0x5".
number_to_string-IsPrinted_example :
    IsPrinted 100 memory used_blocks
      (b'-' ∷ b'0' ∷ b'x' ∷ b'5' ∷ [])
      (number_to_string 100 literals 4294967291 16 memory)
    × (value_onto 16 0 (b'5' ∷ []) ≡ 5)
unfolding magnitude digits_text prefix_text sign_text numeral atom_to_char
number_to_string-IsPrinted_example =
    number_to_string-IsPrinted 100 memory used_blocks literals 4294967291 16 memory-IsHeap
      memory-used memory-HasLiterals (omega arith) (inr (inl refl))
