-- ===== src/Interruptions/Gates.antt =====
-- The gates that `init_interruptions` leaves in memory.
use mush_os.Base.{
  ℕ, zero, suc, ◌+◌, ◌-◌, ◌*◌, ◌^◌, ◌≤◌, ◌<◌, ◌≡◌, ◌⊎◌, inl, inr, refl, ◌∙◌, arith, ltb,
  if◌then◌else◌, lt_or_le, lt→ltb, le→ltb-false,
}
use native.Mathlib.Decide.{ℕ_discrete}
use mush_os.Machine.{Mem, load8, store8}
use mush_os.Memory.{memory_clear}
use mush_os.Ports.{Ports}
use mush_os.Interruptions.{
  interruptions_placement, interrupt_gate, code_selector, load16, store16, create_idt_entry,
  create_idt_entries, write_descriptor, init_interruptions,
}

-- Entry `n` is a present 32-bit interrupt gate of the kernel's code to `base`.
pub record IsGate (m : Mem) (n base : ℕ) : Type 0 where
  pub offset :
      load16 m (interruptions_placement + n * 8)
        + 2 ^ 16 * load16 m (interruptions_placement + n * 8 + 6)
      ≡ base
  pub selector : load16 m (interruptions_placement + n * 8 + 2) ≡ code_selector
  pub always0 : load8 m (interruptions_placement + n * 8 + 4) ≡ 0
  pub flags : load8 m (interruptions_placement + n * 8 + 5) ≡ interrupt_gate

-- An entry is written in its own eight bytes.
load8-create_idt_entry :
    (pos base selector flags : ℕ) (m : Mem) (x : ℕ)
    → (x < interruptions_placement + pos * 8) ⊎ (interruptions_placement + pos * 8 + 8 ≤ x)
    → load8 (create_idt_entry pos base selector flags m) x ≡ load8 m x
unfolding create_idt_entry store16 store8 load8
load8-create_idt_entry pos base selector flags m x h = ground arith

create_idt_entry-IsGate :
    (pos base : ℕ) (m : Mem)
    → base < 2 ^ 32
    → IsGate (create_idt_entry pos base code_selector interrupt_gate m) pos base
unfolding create_idt_entry store16 store8 load16 load8
create_idt_entry-IsGate pos base m h = record {
  offset = ground arith;
  selector = ground arith;
  always0 = ground arith;
  flags = ground arith;
}

-- A gate stays while its bytes do.
IsGate-same :
    (m g : Mem) (n base : ℕ)
    → ((j : ℕ)
        → j < 8
        → load8 g (interruptions_placement + n * 8 + j)
          ≡ load8 m (interruptions_placement + n * 8 + j))
    → IsGate m n base
    → IsGate g n base
unfolding load16
IsGate-same m g n base same gate = record {
  offset = rw (at₀, at₁, at₆, at₇) (gate.offset);
  selector = rw (same 2 (omega arith), at₃) (gate.selector);
  always0 = same 4 (omega arith) ∙ gate.always0;
  flags = same 5 (omega arith) ∙ gate.flags;
}
  where
    start : ℕ
    start = interruptions_placement + n * 8

    at : (x j : ℕ) → j < 8 → x ≡ start + j → load8 g x ≡ load8 m x
    at x j h e = rw e (same j h)

    at₀ : load8 g start ≡ load8 m start
    at₀ = at start 0 (omega arith) (omega arith)

    at₁ : load8 g (start + 1) ≡ load8 m (start + 1)
    at₁ = same 1 (omega arith)

    at₃ : load8 g (start + 2 + 1) ≡ load8 m (start + 2 + 1)
    at₃ = at (start + 2 + 1) 3 (omega arith) (omega arith)

    at₆ : load8 g (start + 6) ≡ load8 m (start + 6)
    at₆ = same 6 (omega arith)

    at₇ : load8 g (start + 6 + 1) ≡ load8 m (start + 6 + 1)
    at₇ = at (start + 6 + 1) 7 (omega arith) (omega arith)

pub load8-create_idt_entries :
    (left pos : ℕ) (stub : ℕ → ℕ) (m : Mem) (x : ℕ)
    → (x < interruptions_placement + pos * 8) ⊎ (interruptions_placement + (pos + left) * 8 ≤ x)
    → load8 (create_idt_entries left pos stub m) x ≡ load8 m x
unfolding create_idt_entries
load8-create_idt_entries zero pos stub m x h = refl
load8-create_idt_entries (suc left) pos stub m x h =
    load8-create_idt_entries left (suc pos) stub
      (create_idt_entry pos (stub pos) code_selector interrupt_gate m) x (omega arith)
    ∙ load8-create_idt_entry pos (stub pos) code_selector interrupt_gate m x (omega arith)

-- Calls from `pos` on leave a gate to its stub in each of their entries.
create_idt_entries-IsGate :
    (left pos : ℕ) (stub : ℕ → ℕ) (m : Mem) (n : ℕ)
    → ((k : ℕ) → stub k < 2 ^ 32)
    → pos ≤ n
    → n < pos + left
    → IsGate (create_idt_entries left pos stub m) n (stub n)
unfolding create_idt_entries
create_idt_entries-IsGate zero pos stub m n h l u = absurd (omega arith)
create_idt_entries-IsGate (suc left) pos stub m n h l u = elim (ℕ_discrete n pos) [
  | yes e ↦ rw e (
      IsGate-same m' (create_idt_entries left (suc pos) stub m') pos (stub pos)
        (λ j q.
          load8-create_idt_entries left (suc pos) stub m' (interruptions_placement + pos * 8 + j)
            (omega arith))
        (create_idt_entry-IsGate pos (stub pos) m (h pos)))
  | no ne ↦ create_idt_entries-IsGate left (suc pos) stub m' n h (omega arith) (omega arith)
]
  where
    m' : Mem
    m' = create_idt_entry pos (stub pos) code_selector interrupt_gate m

-- The gates of the entries from `lo` up to `hi`.
abbrev Gates : Mem → (ℕ → ℕ) → ℕ → ℕ → Type 0
Gates m stub lo hi = (n : ℕ) → lo ≤ n → n < hi → IsGate m n (stub n)

-- Calls above `pos` keep the gates below.
Gates-create_idt_entries :
    (left pos : ℕ) (stub : ℕ → ℕ) (m : Mem) (old : ℕ → ℕ) (lo hi : ℕ)
    → hi ≤ pos
    → Gates m old lo hi
    → Gates (create_idt_entries left pos stub m) old lo hi
Gates-create_idt_entries left pos stub m old lo hi h gates n l u =
    IsGate-same m (create_idt_entries left pos stub m) n (old n)
      (λ j q.
        load8-create_idt_entries left pos stub m (interruptions_placement + n * 8 + j)
          (omega arith))
      (gates n l u)

load8-write_descriptor :
    (m : Mem) (x : ℕ)
    → x < interruptions_placement + 2048
    → load8 (write_descriptor m) x ≡ load8 m x
unfolding write_descriptor store16 store8 load8
load8-write_descriptor m x h = ground arith

Gates-write_descriptor :
    (m : Mem) (stub : ℕ → ℕ) (lo hi : ℕ)
    → hi ≤ 256
    → Gates m stub lo hi
    → Gates (write_descriptor m) stub lo hi
Gates-write_descriptor m stub lo hi h gates n l u =
    IsGate-same m (write_descriptor m) n (stub n)
      (λ j q. load8-write_descriptor m (interruptions_placement + n * 8 + j) (omega arith))
      (gates n l u)

write_descriptor-fields :
    (m : Mem)
    → (load16 (write_descriptor m) (interruptions_placement + 2048) ≡ 256 * 8 - 1)
      × (load16 (write_descriptor m) (interruptions_placement + 2050)
            + 2 ^ 16 * load16 (write_descriptor m) (interruptions_placement + 2052)
          ≡ interruptions_placement)
unfolding write_descriptor store16 store8 load16 load8
write_descriptor-fields m = (ground arith, ground arith)

-- The stub that interruption `n` is meant to run: an exception or a system call its own, a
-- hardware request the one of its line, any other number the default one.
abbrev pub stub_of : (isr irq : ℕ → ℕ) → ℕ → ℕ
stub_of isr irq n =
    if ltb n 32
    then isr n
    else if ltb n 48
    then irq (n - 32)
    else if ltb n 53
    then isr n
    else isr 32

module _ (p : Ports) (isr irq : ℕ → ℕ) (m : Mem) (d : p.Device) where
  -- The memory after the exceptions' calls, and after the three loops that follow.
  m₁ : Mem
  m₁ = create_idt_entries 32 0 isr (memory_clear interruptions_placement (256 * 8) 0 m)

  m₂ : Mem
  m₂ = create_idt_entries 16 32 (λ pos. irq (pos - 32)) m₁

  m₃ : Mem
  m₃ = create_idt_entries 5 48 isr m₂

  m₄ : Mem
  m₄ = create_idt_entries 203 53 (λ pos. isr 32) m₃

  module _ (isr-lt : (k : ℕ) → isr k < 2 ^ 32) (irq-lt : (k : ℕ) → irq k < 2 ^ 32) where
    exceptions : Gates (write_descriptor m₄) isr 0 32
    unfolding m₁ m₂ m₃ m₄
    exceptions = Gates-write_descriptor m₄ isr 0 32 (omega arith) (
        Gates-create_idt_entries 203 53 (λ pos. isr 32) m₃ isr 0 32 (omega arith)
          (Gates-create_idt_entries 5 48 isr m₂ isr 0 32 (omega arith) (
            Gates-create_idt_entries 16 32 (λ pos. irq (pos - 32)) m₁ isr 0 32 (omega arith)
              (λ n l u. create_idt_entries-IsGate 32 0 isr _ n isr-lt l u))))

    requests : Gates (write_descriptor m₄) (λ pos. irq (pos - 32)) 32 48
    unfolding m₁ m₂ m₃ m₄
    requests =
        Gates-write_descriptor m₄ (λ pos. irq (pos - 32)) 32 48 (omega arith)
          (Gates-create_idt_entries 203 53 (λ pos. isr 32) m₃ (λ pos. irq (pos - 32)) 32 48
            (omega arith)
            (Gates-create_idt_entries 5 48 isr m₂ (λ pos. irq (pos - 32)) 32 48 (omega arith)
              (λ n l u.
                create_idt_entries-IsGate 16 32 (λ pos. irq (pos - 32)) m₁ n (λ k. irq-lt (k - 32))
                  l u)))

    system_calls : Gates (write_descriptor m₄) isr 48 53
    unfolding m₁ m₂ m₃ m₄
    system_calls = Gates-write_descriptor m₄ isr 48 53 (omega arith) (
        Gates-create_idt_entries 203 53 (λ pos. isr 32) m₃ isr 48 53 (omega arith)
          (λ n l u. create_idt_entries-IsGate 5 48 isr m₂ n isr-lt l u))

    others : Gates (write_descriptor m₄) (λ pos. isr 32) 53 256
    unfolding m₁ m₂ m₃ m₄
    others =
        Gates-write_descriptor m₄ (λ pos. isr 32) 53 256 (omega arith)
          (λ n l u. create_idt_entries-IsGate 203 53 (λ pos. isr 32) m₃ n (λ k. isr-lt 32) l u)

    all_gates : (n : ℕ) → n < 256 → IsGate (write_descriptor m₄) n (stub_of isr irq n)
    all_gates n h = elim (lt_or_le n 32) [
      | inl a ↦ rw (lt→ltb n 32 a) (exceptions n (omega arith) a)
      | inr a ↦ elim (lt_or_le n 48) [
        | inl b ↦ rw (le→ltb-false n 32 a, lt→ltb n 48 b) (requests n a b)
        | inr b ↦ elim (lt_or_le n 53) [
          | inl c ↦
              rw (le→ltb-false n 32 a, le→ltb-false n 48 b, lt→ltb n 53 c) (system_calls n b c)
          | inr c ↦
              rw (le→ltb-false n 32 a, le→ltb-false n 48 b, le→ltb-false n 53 c) (others n c h)
        ]
      ]
    ]

-- For stubs at 32-bit addresses, once the interruptions are initialised each of the 256 entries is
-- a gate of the kernel's code to the stub of its number: its own for 0 to 31 and 48 to 52, that of
-- request line `n - 32` for 32 to 47, the default one for any other.
pub init_interruptions-IsGate :
    (p : Ports) (isr irq : ℕ → ℕ) (m : Mem) (d : p.Device)
    → ((k : ℕ) → isr k < 2 ^ 32)
    → ((k : ℕ) → irq k < 2 ^ 32)
    → (n : ℕ) → n < 256
    → IsGate (init_interruptions p isr irq (m, d)).0.0 n (stub_of isr irq n)
unfolding init_interruptions m₁ m₂ m₃ m₄
init_interruptions-IsGate p isr irq m d isr-lt irq-lt n h =
    all_gates p isr irq m d isr-lt irq-lt n h

-- The descriptor that is loaded holds the limit and the address of a table of 256 entries.
pub init_interruptions-descriptor :
    (p : Ports) (isr irq : ℕ → ℕ) (m : Mem) (d : p.Device)
    → (load16 (init_interruptions p isr irq (m, d)).0.0 (init_interruptions p isr irq (m, d)).1
        ≡ 256 * 8 - 1)
      × (load16
              (init_interruptions p isr irq (m, d)).0.0
              ((init_interruptions p isr irq (m, d)).1 + 2)
            + 2 ^ 16
              * load16
                  (init_interruptions p isr irq (m, d)).0.0
                  ((init_interruptions p isr irq (m, d)).1 + 4)
          ≡ interruptions_placement)
unfolding init_interruptions m₁ m₂ m₃ m₄
init_interruptions-descriptor p isr irq m d = write_descriptor-fields (m₄ p isr irq m d)
