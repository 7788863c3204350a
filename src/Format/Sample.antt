-- ===== src/Format/Sample.antt =====
-- Data of the tests: a template with two conversions and a sign that no letter follows, on a heap with two texts.
use mush_os.Base.{ℕ, ◌≡◌, ◌≢◌, refl, subst, inl, inr, List, [], ◌∷◌, ◌≤◌, arith, false}
use mush_os.Machine.{Mem, load8, store8, load32, store32}
use mush_os.Machine.Run.{stuck}
use mush_os.Heap.{first_address}
use mush_os.Heap.Chain.{Block, IsBlock, IsHeap}
use mush_os.Heap.Owners.{InPayload-Owns}
use mush_os.Strings.{max}
use mush_os.Strings.Text.{IsText}
use mush_os.Strings.OnHeap.{IsStored}
use mush_os.Format.{Literals, Precise, conversion, width, decimals, text, atom_to_char}
use mush_os.Format.OnHeap.{numeral}
use mush_os.Format.Numbers.{
  HasLiterals, number_text, magnitude, digits_text, prefix_text, sign_text,
}
use mush_os.Format.Rendering.{Shows, tens, words, Renders, finished, plain, stray, converted}

abbrev store_words : List (ℕ × ℕ) → Mem
store_words [] = λ _. 0
store_words ((a, v) ∷ ws) = store32 (store_words ws) a v

-- A heap up to 300 with "hi" in 10 bytes at 124 and "k" in 20 bytes at 166; the literals from 400
-- on, the template "%d %s!%" at 440, and the arguments -5 and 124 from 472 on.
abbrev pub memory : Mem
memory = store_words (
    (100, 124)
    ∷ (104, 112)
    ∷ (108, 300)
    ∷ (112, 10)
    ∷ (116, 0)
    ∷ (120, 166)
    ∷ (124, 26984)
    ∷ (154, 20)
    ∷ (158, 124)
    ∷ (162, 0)
    ∷ (166, 107)
    ∷ (400, 1702195828)
    ∷ (408, 1936482662)
    ∷ (412, 101)
    ∷ (416, 46)
    ∷ (420, 45)
    ∷ (424, 1819635246)
    ∷ (428, 108)
    ∷ (432, 30768)
    ∷ (436, 25136)
    ∷ (440, 622879781)
    ∷ (444, 2433395)
    ∷ (472, 4294967291)
    ∷ (476, 124)
    ∷ [])

abbrev pub used_blocks : List Block
used_blocks = (124, 10) ∷ (166, 20) ∷ []

abbrev pub literals : Literals
literals = record {
  true_text = 400;
  false_text = 408;
  dot = 416;
  minus = 420;
  null_text = 424;
  hexadecimal_prefix = 432;
  binary_prefix = 436;
  base_text = λ _ _. stuck;
}

-- Numbers in place of floating point.
abbrev pub whole_numbers : Precise
whole_numbers = record {
  Value = ℕ;
  read = load32;
  truncate = λ x. x;
  subtract = λ x y. 0;
  times = λ x y. 0;
  is_negative = λ x. false;
}

pub memory-IsHeap : IsHeap 100 memory used_blocks
unfolding store32 store8 load32 load8
memory-IsHeap = record {
  start = refl;
  above = omega arith;
  chain = (refl, first, (refl, second, refl));
}
  where
    first : IsBlock memory 300 112 0 124 10
    first = record {
      above = omega arith;
      inside = omega arith;
      below = omega arith;
      sized = refl;
      linked = refl;
    }

    second : IsBlock memory 300 134 124 166 20
    second = record {
      above = omega arith;
      inside = omega arith;
      below = omega arith;
      sized = refl;
      linked = refl;
    }

memory-first : first_address 100 memory ≡ 124
unfolding store32 store8 load32 load8
memory-first = refl

pub memory-used : first_address 100 memory ≢ 0
memory-used e = omega (arith, memory-first, e)

pub memory-end : load32 memory 108 ≡ 300
unfolding store32 store8 load32 load8
memory-end = refl

-- A text behind the heap.
IsStored-outside :
    (str : ℕ) (xs : List ℕ)
    → 300 ≤ str
    → IsText memory str xs
    → IsStored 100 memory used_blocks str xs
IsStored-outside str xs l t = record {
  text = t;
  inside = λ x a b. inr (inr (omega (arith, memory-end, a, l)));
}

pub memory-HasLiterals : HasLiterals 100 memory used_blocks literals
unfolding store32 store8 load8
memory-HasLiterals = record {
  for_true =
      IsStored-outside 400 _ (omega arith)
        (refl, omega arith, (refl, omega arith, (refl, omega arith, (refl, omega arith, refl))));
  for_false = IsStored-outside 408 _ (omega arith) (
    refl,
    omega arith,
    (refl, omega arith, (refl, omega arith, (refl, omega arith, (refl, omega arith, refl)))),
  );
  for_dot = IsStored-outside 416 _ (omega arith) (refl, omega arith, refl);
  for_minus = IsStored-outside 420 _ (omega arith) (refl, omega arith, refl);
  for_null = IsStored-outside 424 _ (omega arith) (
    refl,
    omega arith,
    (refl, omega arith, (refl, omega arith, (refl, omega arith, (refl, omega arith, refl)))),
  );
  for_hexadecimal =
      IsStored-outside 432 _ (omega arith) (refl, omega arith, (refl, omega arith, refl));
  for_binary = IsStored-outside 436 _ (omega arith) (refl, omega arith, (refl, omega arith, refl));
}

abbrev pub template_text : List ℕ
template_text = b'%' ∷ b'd' ∷ b' ' ∷ b'%' ∷ b's' ∷ b'!' ∷ b'%' ∷ []

pub template-IsStored : IsStored 100 memory used_blocks 440 template_text
unfolding store32 store8 load8
template-IsStored = IsStored-outside 440 template_text (omega arith) (
  refl,
  omega arith,
  (
    refl,
    omega arith,
    (
      refl,
      omega arith,
      (refl, omega arith, (refl, omega arith, (refl, omega arith, (refl, omega arith, refl)))),
    ),
  ),
)

shown_number : Shows 100 memory used_blocks 472 decimals (b'-' ∷ b'5' ∷ [])
unfolding store32 store8 load32 load8 number_text magnitude digits_text prefix_text sign_text
    numeral atom_to_char
shown_number = subst (Shows 100 memory used_blocks 472 decimals) refl tens

hi-IsText : IsText memory 124 (b'h' ∷ b'i' ∷ [])
unfolding store32 store8 load8
hi-IsText = (refl, omega arith, (refl, omega arith, refl))

argument_is : load32 memory 476 ≡ 124
unfolding store32 store8 load32 load8
argument_is = refl

shown_text : Shows 100 memory used_blocks 476 text (b'h' ∷ b'i' ∷ [])
shown_text = words (b'h' ∷ b'i' ∷ []) (
    rw (argument_is) (record {
      text = hi-IsText;
      inside =
          λ x l u. inl (InPayload-Owns 124 10 x used_blocks (inl (refl, refl)) l (omega arith));
    }))

abbrev pub printed_text : List ℕ
printed_text = b'-' ∷ b'5' ∷ b' ' ∷ b'h' ∷ b'i' ∷ b'!' ∷ b'%' ∷ []

pub template-Renders : Renders 100 memory used_blocks template_text 472 printed_text
unfolding conversion width max
template-Renders =
    converted b'd' 472 _ (b'-' ∷ b'5' ∷ []) _ decimals refl
      (λ x l u. inr (inr (omega (arith, memory-end, l)))) shown_number
      (plain b' ' 476 _ _ (omega arith) (
        converted b's' 476 _ (b'h' ∷ b'i' ∷ []) _ text refl
          (λ x l u. inr (inr (omega (arith, memory-end, l)))) shown_text
          (plain b'!' 480 _ _ (omega arith) (stray 480 [] [] refl (finished 480)))))
