-- ===== src/Screen/Print.antt =====
-- What printing one character does to the cursor and to the screen.
use native.Mathlib.Decide.{dec_lt, ℕ_discrete}
use mush_os.Base.{
  ℕ, ◌+◌, ◌-◌, ◌*◌, ◌/◌, ◌%◌, ◌^◌, ◌≤◌, ◌<◌, ◌≡◌, ◌≢◌, ◌∙◌, ap, ◌⊎◌, arith, ◌==◌, ==-true, ==-false,
  if◌then◌else◌,
}
use mush_os.Machine.{Mem, load8, store8, sub32, add32}
use mush_os.Machine.Words.{load8-store8}
use mush_os.Screen.{video_memory, scroll, put_cell, put_char, print_at}
use mush_os.Screen.Scroll.{Elsewhere, IsScrolled, scroll_lem}

-- The offset in bytes that `print_char_color` hands to `scroll`.
abbrev reached : ℕ → ℕ → ℕ → Mem → ℕ
reached c attributes offset m = add32 (put_char c attributes (offset * 2) m).0 2

reached_bounds :
    (c attributes offset : ℕ) (m : Mem)
    → offset < 2000
    → (c ≡ 8 → 1 ≤ offset)
    → reached c attributes offset m < 4160
unfolding put_char
reached_bounds c attributes offset m h b = ground (arith, b)

-- With `scroll`'s local variable outside the video memory, from a cursor on the screen the next
-- one is on the screen too, but for a backspace at the first cell.
pub print_at-lt :
    (sample c text back offset : ℕ) (m : Mem)
    → Elsewhere sample
    → offset < 2000
    → (c ≡ 8 → 1 ≤ offset)
    → (print_at sample c text back offset m).0 < 2000
unfolding print_at
print_at-lt sample c text back offset m away h b =
    elim (dec_lt (reached c attributes offset m) 4000) [
      | yes l ↦ omega (arith, ap (λ (t : ℕ × Mem). t.0) (done.1 l))
      | no l ↦ omega (arith, (done.0 (omega arith)).0, bounds)
    ]
  where
    attributes : ℕ
    attributes = (back * 16 + text) % 256

    m₁ : Mem
    m₁ = (put_char c attributes (offset * 2) m).1

    bounds : reached c attributes offset m < 4160
    bounds = reached_bounds c attributes offset m h b

    done :
        (4000 ≤ reached c attributes offset m
          → ((scroll sample (reached c attributes offset m) m₁).0
              ≡ reached c attributes offset m - 160)
            × IsScrolled sample m₁ (scroll sample (reached c attributes offset m) m₁).1)
        × (reached c attributes offset m < 4000
            → scroll sample (reached c attributes offset m) m₁
              ≡ (reached c attributes offset m, m₁))
    done = scroll_lem sample m₁ away (reached c attributes offset m) (omega (arith, bounds))

put_cell-load8 :
    (o c a : ℕ) (m : Mem) (x : ℕ)
    → o < 65536
    → load8 (put_cell o c a m) x ≡ (
        if x == video_memory + o + 1
        then a % 256
        else if x == video_memory + o
        then c % 256
        else load8 m x)
unfolding put_cell
put_cell-load8 o c a m x h = ground (
  arith,
  load8-store8 (store8 m (add32 video_memory o) c) (add32 video_memory (add32 o 1)) a x,
  load8-store8 m (add32 video_memory o) c x,
)

put_cell-outside :
    (o c a : ℕ) (m : Mem) (x : ℕ)
    → o < 65536
    → (x < video_memory + o) ⊎ (video_memory + o + 2 ≤ x)
    → load8 (put_cell o c a m) x ≡ load8 m x
put_cell-outside o c a m x h d = ground (arith, put_cell-load8 o c a m x)

-- What `put_char` writes lies in the cells that the character takes.
put_char-outside :
    (c a offset : ℕ) (m : Mem)
    → offset < 2000
    → (c ≡ 8 → 1 ≤ offset)
    → (c ≡ 9 → offset ≤ 1996)
    → (x : ℕ) → (x < video_memory) ⊎ (video_memory + 4000 ≤ x)
    → load8 (put_char c a (offset * 2) m).1 x ≡ load8 m x
unfolding put_char
put_char-outside c a offset m h b t x o = elim (ℕ_discrete c 10) [
  | yes e ↦ rw (==-true c 10 e)
  | no ne ↦ rw (==-false c 10 ne) (elim (ℕ_discrete c 8) [
    | yes e ↦
        rw (==-true c 8 e) (ground (arith, put_cell-load8 (sub32 (offset * 2) 2) 0x20 a m x, b e))
    | no ne ↦ rw (==-false c 8 ne) (elim (ℕ_discrete c 9) [
      | yes e ↦ rw (==-true c 9 e) (
          put_cell-outside (offset * 2 + 6) 0x20 a _ x (omega (arith, t e)) (omega (arith, t e))
          ∙ put_cell-outside (offset * 2 + 4) 0x20 a _ x (omega arith) (omega (arith, t e))
          ∙ put_cell-outside (offset * 2 + 2) 0x20 a _ x (omega arith) (omega (arith, t e))
          ∙ put_cell-outside (offset * 2) 0x20 a m x (omega arith) (omega arith))
      | no ne ↦ rw (==-false c 9 ne) (ground (arith, put_cell-load8 (offset * 2) c a m x))
    ])
  ])
]

module _ (sample text back offset : ℕ) (m : Mem) (away : Elsewhere sample) (h : offset < 2000) where
  -- With the cursor on the screen and `scroll`'s local variable outside the video memory,
  -- printing writes to the video memory and to this variable only, but for a backspace at the
  -- first cell and a tab at the last three.
  pub print_at-outside :
      (c : ℕ)
      → (c ≡ 8 → 1 ≤ offset)
      → (c ≡ 9 → offset ≤ 1996)
      → (x : ℕ) → (x < video_memory) ⊎ (video_memory + 4000 ≤ x)
      → (x < sample) ⊎ (sample + 2 ≤ x)
      → load8 (print_at sample c text back offset m).1 x ≡ load8 m x
  unfolding print_at
  print_at-outside c b t x o s = elim (dec_lt (reached c attributes offset m) 4000) [
    | yes l ↦ rw (done.1 l) (put_char-outside c attributes offset m h b t x o)
    | no l ↦ (done.0 (omega arith)).1.other x o s ∙ put_char-outside c attributes offset m h b t x o
  ]
    where
      attributes : ℕ
      attributes = (back * 16 + text) % 256

      m₁ : Mem
      m₁ = (put_char c attributes (offset * 2) m).1

      done :
          (4000 ≤ reached c attributes offset m
            → ((scroll sample (reached c attributes offset m) m₁).0
                ≡ reached c attributes offset m - 160)
              × IsScrolled sample m₁ (scroll sample (reached c attributes offset m) m₁).1)
          × (reached c attributes offset m < 4000
              → scroll sample (reached c attributes offset m) m₁
                ≡ (reached c attributes offset m, m₁))
      done =
          scroll_lem sample m₁ away (reached c attributes offset m)
            (omega (arith, reached_bounds c attributes offset m h b))

  -- With the cursor on the screen and `scroll`'s local variable outside the video memory, an
  -- ordinary character before the last cell takes its cell, colours included, and moves the
  -- cursor by one; no other byte changes.
  pub print_at-cell :
      (c : ℕ)
      → c ≢ 8
      → c ≢ 9
      → c ≢ 10
      → offset < 1999
      → let (offset', g) = print_at sample c text back offset m in
        (offset' ≡ offset + 1)
        × ((x : ℕ)
            → load8 g x ≡ (
                if x == video_memory + offset * 2 + 1
                then (back * 16 + text) % 256
                else if x == video_memory + offset * 2
                then c % 256
                else load8 m x))
  unfolding print_at put_char
  print_at-cell c n8 n9 n10 l =
      rw (==-false c 10 n10, ==-false c 8 n8, ==-false c 9 n9, moved)
        (
          omega arith,
          λ x. ground (arith, put_cell-load8 (offset * 2) c ((back * 16 + text) % 256) m x),
        )
    where
      m₁ : Mem
      m₁ = put_cell (offset * 2) c ((back * 16 + text) % 256) m

      moved : scroll sample (add32 (offset * 2) 2) m₁ ≡ (add32 (offset * 2) 2, m₁)
      moved = (scroll_lem sample m₁ away (add32 (offset * 2) 2) (omega arith)).1 (omega arith)

  -- With the cursor on the screen and `scroll`'s local variable outside the video memory, a line
  -- feed above the last row moves the cursor to the start of the next row and writes nothing.
  pub print_at-line_feed :
      offset < 1920 → print_at sample 10 text back offset m ≡ ((offset / 80 + 1) * 80, m)
  unfolding print_at put_char
  print_at-line_feed l =
      rw
        ((scroll_lem sample m away (add32 (2 * 80 * (offset * 2 / 2 / 80 + 1) - 2) 2)
            (omega arith)).1
          (omega arith))
        (ap (λ (o : ℕ). (o, m)) (omega arith))

  -- With the cursor on the screen and `scroll`'s local variable outside the video memory, a
  -- backspace behind the first cell moves back by one and blanks the cell there, in the given
  -- colours.
  pub print_at-backspace :
      1 ≤ offset
      → let (offset', g) = print_at sample 8 text back offset m in
        (offset' ≡ offset - 1)
        × ((x : ℕ)
            → load8 g x ≡ (
                if x == video_memory + offset * 2 - 1
                then (back * 16 + text) % 256
                else if x == video_memory + offset * 2 - 2
                then 0x20
                else load8 m x))
  unfolding print_at put_char
  print_at-backspace l = rw (moved) (
    omega arith,
    λ x. ground (arith, put_cell-load8 (sub32 (offset * 2) 2) 0x20 ((back * 16 + text) % 256) m x),
  )
    where
      m₁ : Mem
      m₁ = put_cell (sub32 (offset * 2) 2) 0x20 ((back * 16 + text) % 256) m

      o : ℕ
      o = add32 (sub32 (sub32 (offset * 2) 2) 2) 2

      moved : scroll sample (add32 (sub32 (sub32 (offset * 2) 2) 2) 2) m₁ ≡ (o, m₁)
      moved = (scroll_lem sample m₁ away o (omega arith)).1 (omega arith)

tab_cell :
    (a offset : ℕ) (m : Mem)
    → 1997 ≤ offset
    → offset < 2000
    → load8 (put_char 9 a (offset * 2) m).1 (video_memory + 4000) ≡ 0x20
unfolding put_char
tab_cell a offset m l h = ground (
  arith,
  put_cell-load8 (offset * 2 + 6) 0x20 a m₃ (video_memory + 4000),
  put_cell-load8 (offset * 2 + 4) 0x20 a m₂ (video_memory + 4000),
  put_cell-load8 (offset * 2 + 2) 0x20 a m₁ (video_memory + 4000),
)
  where
    m₁ : Mem
    m₁ = put_cell (offset * 2) 0x20 a m

    m₂ : Mem
    m₂ = put_cell (offset * 2 + 2) 0x20 a m₁

    m₃ : Mem
    m₃ = put_cell (offset * 2 + 4) 0x20 a m₂

-- With `scroll`'s local variable clear of the video memory and the byte behind it, a tab at one
-- of the last three cells writes a blank behind the end of the video memory.
pub print_at-tab_overrun :
    (sample text back offset : ℕ) (m : Mem)
    → (sample + 2 ≤ video_memory) ⊎ (video_memory + 4001 ≤ sample)
    → 1997 ≤ offset
    → offset < 2000
    → load8 (print_at sample 9 text back offset m).1 (video_memory + 4000) ≡ 0x20
unfolding print_at
print_at-tab_overrun sample text back offset m far l h =
    (done.0 (unfold put_char in omega arith)).1.other (video_memory + 4000) (omega arith)
      (omega arith)
    ∙ tab_cell attributes offset m l h
  where
    attributes : ℕ
    attributes = (back * 16 + text) % 256

    m₁ : Mem
    m₁ = (put_char 9 attributes (offset * 2) m).1

    done :
        (4000 ≤ reached 9 attributes offset m
          → ((scroll sample (reached 9 attributes offset m) m₁).0
              ≡ reached 9 attributes offset m - 160)
            × IsScrolled sample m₁ (scroll sample (reached 9 attributes offset m) m₁).1)
        × (reached 9 attributes offset m < 4000
            → scroll sample (reached 9 attributes offset m) m₁
              ≡ (reached 9 attributes offset m, m₁))
    done =
        scroll_lem sample m₁ (omega arith) (reached 9 attributes offset m)
          (unfold put_char in omega arith)

-- A backspace at the first cell takes the cursor out of the screen.
pub print_at-backspace_first :
    (sample text back : ℕ) (m : Mem)
    → Elsewhere sample
    → (print_at sample 8 text back 0 m).0 ≡ 2 ^ 31 - 81
unfolding print_at put_char
print_at-backspace_first sample text back m away =
    omega (arith, ((scroll_lem sample m₁ away (2 ^ 32 - 2) (omega arith)).0 (omega arith)).0)
  where
    m₁ : Mem
    m₁ = put_cell (sub32 0 2) 0x20 ((back * 16 + text) % 256) m
