-- ===== src/Pages/Frames.antt =====
-- Frames are handed out once: the lowest free one, which is marked in its pool.
use Prim.Native.Nat.{bit_or}
use native.Mathlib.Decide.{ℕ_discrete}
use mush_os.Base.{
  ℕ, zero, suc, ◌+◌, ◌-◌, ◌*◌, ◌/◌, ◌%◌, ◌^◌, ◌≤◌, ◌<◌, ◌≡◌, refl, ◌∙◌, ◌≢◌, inl, inr, Option, none,
  some, arith, ◌==◌, ==-true, ==-false, lt_or_le, if◌then◌else◌,
}
use mush_os.Machine.{Mem, sub32, load8, store8}
use mush_os.Machine.Words.{load8-store8, load8-lt}
use mush_os.Pages.{
  get_free_bit, take_frame, clear_bit, allocate_frame, free_frame, user_space_start, page_size,
}
use mush_os.Pages.Bits.{bit, bit-bit_or, get_free_bit_cases, full_bits}

-- The bit of frame `k`: 1 if it is taken.
abbrev pub frame_bit : Mem → ℕ → ℕ → ℕ
frame_bit m pool k = bit (load8 m (pool + k / 8)) (k % 8)

-- What an allocation among the frames from `lo` up to `hi` may answer: the lowest free frame,
-- with its bit set and nothing else changed, or null if there is none.
pub data IsTaken (pool start lo hi : ℕ) (m : Mem) : Option ℕ × Mem → Type 0 where
  taken :
      (k : ℕ) (g : Mem)
      → lo ≤ k
      → k < hi
      → frame_bit m pool k ≡ 0
      → ((j : ℕ) → lo ≤ j → j < k → frame_bit m pool j ≡ 1)
      → ((j : ℕ) → frame_bit g pool j ≡ (if j == k then 1 else frame_bit m pool j))
      → ((x : ℕ) → x ≢ pool + k / 8 → load8 g x ≡ load8 m x)
      → IsTaken pool start lo hi m (some (start + k * 0x1000), g)
  full : ((j : ℕ) → lo ≤ j → j < hi → frame_bit m pool j ≡ 1) → IsTaken pool start lo hi m (none, m)

module _ (pool : ℕ) (m : Mem) where
  -- Storing a byte that differs in one bit changes one frame's bit.
  frame_bit-store8 :
      (i f v t : ℕ)
      → f < 8
      → v < 256
      → ((j : ℕ) → j < 8 → bit v j ≡ (if j == f then t else bit (load8 m (pool + i)) j))
      → (j : ℕ)
      → frame_bit (store8 m (pool + i) v) pool j
        ≡ (if j == i * 8 + f then t else frame_bit m pool j)
  frame_bit-store8 i f v t h small bits j = elim (ℕ_discrete (j / 8) i) [
    | yes e ↦
        rw
          (
            stored,
            ==-true (pool + j / 8) (pool + i) (omega arith),
            fits,
            bits (j % 8) (omega arith),
            e,
          )
          (same e)
    | no ne ↦ rw (
      stored,
      ==-false (pool + j / 8) (pool + i) (omega arith),
      ==-false j (i * 8 + f) (omega arith),
    )
  ]
    where
      stored :
          load8 (store8 m (pool + i) v) (pool + j / 8)
          ≡ (if pool + j / 8 == pool + i then v % 256 else load8 m (pool + j / 8))
      stored = load8-store8 m (pool + i) v (pool + j / 8)

      fits : v % 256 ≡ v
      fits = omega arith

      same :
          j / 8 ≡ i
          → (if j % 8 == f then t else bit (load8 m (pool + i)) (j % 8))
            ≡ (if j == i * 8 + f then t else bit (load8 m (pool + i)) (j % 8))
      same e = ground arith

  other_bytes : (i v x : ℕ) → x ≢ pool + i → load8 (store8 m (pool + i) v) x ≡ load8 m x
  other_bytes i v x ne = rw (load8-store8 m (pool + i) v x, ==-false x (pool + i) ne)

  frame_bit-in_byte :
      (i j : ℕ)
      → i * 8 ≤ j
      → j < (i + 1) * 8
      → frame_bit m pool j ≡ bit (load8 m (pool + i)) (j - i * 8)
  frame_bit-in_byte i j l u = rw (quotient, remainder)
    where
      quotient : j / 8 ≡ i
      quotient = omega arith

      remainder : j % 8 ≡ j - i * 8
      remainder = omega arith

  -- A byte with a free bit.
  IsTaken-here :
      (i f left start : ℕ)
      → f < 8
      → bit (load8 m (pool + i)) f ≡ 0
      → ((j : ℕ) → j < f → bit (load8 m (pool + i)) j ≡ 1)
      → IsTaken pool start (i * 8) ((i + suc left) * 8) m (
        some (start + (i * 8 + f) * page_size),
        store8 m (pool + i) (bit_or (load8 m (pool + i)) (2 ^ f)),
      )
  IsTaken-here i f left start small clear below =
      taken (i * 8 + f) (store8 m (pool + i) (bit_or (load8 m (pool + i)) (2 ^ f))) (omega arith)
        (omega arith)
        (frame_bit-in_byte i (i * 8 + f) (omega arith) (omega arith) ∙ rw (offset) clear)
        (λ j l u. frame_bit-in_byte i j l (omega arith) ∙ below (j - i * 8) (omega arith))
        (frame_bit-store8 i f (bit_or (load8 m (pool + i)) (2 ^ f)) 1 small
          ((bit-bit_or (load8 m (pool + i)) f f (load8-lt m (pool + i)) small small).0)
          (λ j h. (bit-bit_or (load8 m (pool + i)) f j (load8-lt m (pool + i)) small h).1))
        (λ x ne. other_bytes i (bit_or (load8 m (pool + i)) (2 ^ f)) x (rw (quotient) at ne))
    where
      offset : i * 8 + f - i * 8 ≡ f
      offset = omega arith

      quotient : (i * 8 + f) / 8 ≡ i
      quotient = omega arith

  taken_byte :
      (i j : ℕ) → load8 m (pool + i) ≡ 255 → i * 8 ≤ j → j < (i + 1) * 8 → frame_bit m pool j ≡ 1
  taken_byte i j e l u = frame_bit-in_byte i j l u ∙ rw (e) (full_bits (j - i * 8) (omega arith))

  -- A full byte is skipped.
  IsTaken-later :
      (i left start : ℕ) {r : Option ℕ × Mem}
      → load8 m (pool + i) ≡ 255
      → IsTaken pool start ((i + 1) * 8) ((i + 1 + left) * 8) m r
      → IsTaken pool start (i * 8) ((i + suc left) * 8) m r
  IsTaken-later i left start e (taken k g l u c b s o) =
      taken k g (omega arith) (omega arith) c
        (λ j p q. elim (lt_or_le j ((i + 1) * 8)) [
          | inl h ↦ taken_byte i j e p h
          | inr h ↦ b j h q
        ])
        s o
  IsTaken-later i left start e (full b) = full (λ j p q. elim (lt_or_le j ((i + 1) * 8)) [
    | inl h ↦ taken_byte i j e p h
    | inr h ↦ b j h (omega arith)
  ])

  -- The search from byte `i` on.
  pub take_frame-IsTaken :
      (left i start : ℕ)
      → IsTaken pool start (i * 8) ((i + left) * 8) m (take_frame left i pool start m)
  unfolding take_frame
  take_frame-IsTaken zero i start = full (λ j l u. absurd (omega arith))
  take_frame-IsTaken (suc left) i start =
      elim (get_free_bit_cases (load8 m (pool + i)) (load8-lt m (pool + i))) [
        | inl (e, f) ↦
            rw (==-true (get_free_bit (load8 m (pool + i))) 255 f)
              (IsTaken-later i left start e (take_frame-IsTaken left (i + 1) start))
        | inr (small, clear, below) ↦
            rw (==-false (get_free_bit (load8 m (pool + i))) 255 (omega arith))
              (IsTaken-here i (get_free_bit (load8 m (pool + i))) left start small clear below)
      ]

-- A frame is allocated from the pool of user space: it is the lowest whose bit is clear, its
-- address is the start of user space plus its number of pages, its bit is set, every other bit
-- of the pool and every byte outside the bit's byte is kept. If each bit is set, the answer is
-- null and the memory is kept.
pub allocate_frame-IsTaken :
    (user_space_pool size : ℕ) (m : Mem)
    → IsTaken user_space_pool user_space_start 0
        (size * 8)
        m
        (allocate_frame user_space_pool size m)
unfolding allocate_frame
allocate_frame-IsTaken user_space_pool size m =
    rw (whole) at (take_frame-IsTaken user_space_pool m size 0 user_space_start)
  where
    whole : 0 + size ≡ size
    whole = omega arith

-- A frame of user space other than the first keeps its bit when it is freed, for the
-- frames below the end of user space: the bit that is cleared is found from the frame's distance in bytes.
pub free_frame-keeps_bit :
    (user_space_pool k : ℕ) (m : Mem)
    → 0 < k
    → k < 0xf000
    → frame_bit (free_frame user_space_pool (user_space_start + k * 0x1000) m) user_space_pool k
      ≡ frame_bit m user_space_pool k
unfolding free_frame clear_bit
free_frame-keeps_bit user_space_pool k m l u =
    rw
      (
        index,
        load8-store8 m (user_space_pool + k * 512) _ (user_space_pool + k / 8),
        ==-false (user_space_pool + k / 8) (user_space_pool + k * 512) (omega arith),
      )
      refl
  where
    index : sub32 (user_space_start + k * 0x1000) user_space_start / 8 ≡ k * 512
    index = omega arith
