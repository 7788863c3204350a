-- ===== src/Screen/Scroll.antt =====
-- What `scroll` leaves on the screen.
use mush_os.Base.{
  ℕ, zero, suc, ◌+◌, ◌-◌, ◌*◌, ◌≤◌, ◌<◌, ◌≡◌, ◌∙◌, ap, ◌⊎◌, ◌&&◌, arith, ltb, leb, le→ltb-false,
  lt→ltb, ◌==◌, ◌^◌, if◌then◌else◌,
}
use mush_os.Machine.{Mem, load8, store8}
use mush_os.Machine.Words.{load8-store8}
use mush_os.Memory.{memory_copy, memory_fill}
use mush_os.Memory.Copy.{load8-memory_copy}
use mush_os.Memory.Fill.{memory_fill-load8}
use mush_os.Screen.{video_memory, scroll_rows, scroll, set_sample}

-- Each row takes the content of the one below it.
pub scroll_rows-load8 :
    (left i : ℕ) (m : Mem)
    → 1 ≤ i
    → (x : ℕ)
    → load8 (scroll_rows left i m) x ≡ (
        if leb (video_memory + (i - 1) * 160) x && ltb x (video_memory + (i - 1) * 160 + left * 160)
        then load8 m (x + 160)
        else load8 m x)
unfolding scroll_rows
scroll_rows-load8 zero i m h x = ground arith
scroll_rows-load8 (suc left) i m h x = ground (
  arith,
  scroll_rows-load8 left (i + 1) copied (omega arith) x,
  load8-memory_copy source dest 160 m (omega arith) x,
  load8-memory_copy source dest 160 m (omega arith) (x + 160),
  index,
)
  where
    source : ℕ
    source = video_memory + i * 80 * 2

    dest : ℕ
    dest = video_memory + (i - 1) * 80 * 2

    copied : Mem
    copied = memory_copy source dest 160 m

    index : dest ≤ x → load8 m (source + (x - dest)) ≡ load8 m (x + 160)
    index l = ap (load8 m) (omega arith)

-- The sample cell lies outside the video memory.
abbrev pub Elsewhere : ℕ → Type 0
Elsewhere sample = (sample + 2 ≤ video_memory) ⊎ (video_memory + 4000 ≤ sample)

pub record IsScrolled (sample : ℕ) (m g : Mem) : Type 0 where
  pub rows : (o : ℕ) → o < 3840 → load8 g (video_memory + o) ≡ load8 m (video_memory + o + 160)
  pub blank :
      (k : ℕ)
      → k < 80
      → (load8 g (video_memory + 3840 + k * 2 + 0) ≡ 0x20)
        × (load8 g (video_memory + 3840 + k * 2 + 1) ≡ 7)
  pub other :
      (x : ℕ)
      → (x < video_memory) ⊎ (video_memory + 4000 ≤ x)
      → (x < sample) ⊎ (sample + 2 ≤ x)
      → load8 g x ≡ load8 m x

module _ (sample : ℕ) (m : Mem) (away : Elsewhere sample) where
  abbrev last : ℕ
  last = video_memory + 3840

  abbrev sampled : Mem
  sampled = set_sample sample (scroll_rows 24 1 m)

  set_sample-load8 :
      (g : Mem) (x : ℕ)
      → load8 (set_sample sample g) x
        ≡ (if x == sample + 1 then 7 else if x == sample then 0x20 else load8 g x)
  unfolding set_sample
  set_sample-load8 g x =
      ground
        (arith, load8-store8 (store8 g sample 0x20) (sample + 1) 7 x, load8-store8 g sample 0x20 x)

  sampled-load8 :
      (x : ℕ)
      → (x < sample) ⊎ (sample + 2 ≤ x)
      → load8 sampled x
        ≡ (if leb video_memory x && ltb x last then load8 m (x + 160) else load8 m x)
  sampled-load8 x o =
      ground
        (arith, set_sample-load8 (scroll_rows 24 1 m) x, scroll_rows-load8 24 1 m (omega arith) x)

  filled :
      ((k j : ℕ)
        → k < 80
        → j < 2
        → load8 (memory_fill last sample 2 80 sampled) (last + k * 2 + j)
          ≡ load8 sampled (sample + j))
      × ((x : ℕ)
          → (x < last) ⊎ (last + 80 * 2 ≤ x)
          → load8 (memory_fill last sample 2 80 sampled) x ≡ load8 sampled x)
  filled = memory_fill-load8 last sample 2 80 sampled (omega arith)

  pub scrolled : Mem
  scrolled = memory_fill last sample 2 80 sampled

  scrolled-IsScrolled : IsScrolled sample m scrolled
  unfolding scrolled
  scrolled-IsScrolled = record {
    rows = λ o u.
        filled.1 (video_memory + o) (omega arith)
        ∙ ground (arith, sampled-load8 (video_memory + o) (omega arith));
    blank = λ k u. (
      filled.0 k 0 u (omega arith)
          ∙ ground (arith, set_sample-load8 (scroll_rows 24 1 m) (sample + 0)),
      filled.0 k 1 u (omega arith)
          ∙ ground (arith, set_sample-load8 (scroll_rows 24 1 m) (sample + 1)),
    );
    other = λ x o a. filled.1 x (omega arith) ∙ ground (arith, sampled-load8 x a);
  }

  -- With the sample outside the video memory: a 32-bit offset behind the last cell moves up by a
  -- row, and every row with it; the last row is blank, and the rest of the memory, but for the
  -- sample, is as it was. A smaller offset, and the screen with it, stays.
  pub scroll_lem :
      (offset : ℕ)
      → offset < 2 ^ 32
      → (4000 ≤ offset
          → ((scroll sample offset m).0 ≡ offset - 160)
            × IsScrolled sample m (scroll sample offset m).1)
        × (offset < 4000 → scroll sample offset m ≡ (offset, m))
  unfolding scroll
  scroll_lem offset u = (
    λ l. rw (le→ltb-false offset 4000 l) (omega arith, unfold scrolled in scrolled-IsScrolled),
    λ h. rw (lt→ltb offset 4000 h),
  )
