-- ===== src/Timer/Divisor.antt =====
-- The divisor that the timer gets.
use mush_os.Base.{
  ℕ, ◌+◌, ◌*◌, ◌/◌, ◌%◌, ◌^◌, ◌≤◌, ◌<◌, ◌≡◌, ◌↔◌, ◌∙◌, Option, some, arith, ==-false,
}
use native.Mathlib.Nat.{div-lt_iff_lt-mul}
use mush_os.Ports.{Ports}
use mush_os.Timer.{init_timer}

-- The documented behaviour of the timer: after command 0x36, two bytes to port 0x40 give its
-- reload value, the low byte first.
pub record IsPit (p : Ports) : Type 0 where
  pub reload : p.Device → ℕ
  pub reloads :
      (l h : ℕ) (d : p.Device)
      → l < 256
      → h < 256
      → reload (p.port_byte_out 0x40 h (p.port_byte_out 0x40 l (p.port_byte_out 0x43 0x36 d)))
        ≡ l + 256 * h

-- The timer is started, and its reload value is `n`.
pub data IsReloaded {p : Ports} (pit : IsPit p) (n : ℕ) : Option p.Device → Type 0 where
  reloaded : (d : p.Device) → pit.reload d ≡ n → IsReloaded pit n (some d)

divisor-lt : (frequency : ℕ) → 0 < frequency → (1193180 / frequency < 2 ^ 16) ↔ (19 ≤ frequency)
divisor-lt frequency h =
    let fits = div-lt_iff_lt-mul {k = frequency} {x = 1193180} {y = 65536} h in
    (λ l. omega (arith, fits.0 l), λ l. fits.1 (omega arith))

-- On a timer as documented and for a frequency that is not 0, `init_timer` returns, with the low
-- 16 bits of the divisor 1193180 / frequency as reload value; this is the divisor itself exactly
-- if the frequency is at least 19.
pub init_timer-reload :
    (p : Ports) (pit : IsPit p) (frequency : ℕ) (d : p.Device)
    → 0 < frequency
    → IsReloaded pit (1193180 / frequency % 2 ^ 16) (init_timer p frequency d)
      × ((1193180 / frequency % 2 ^ 16 ≡ 1193180 / frequency) ↔ (19 ≤ frequency))
unfolding init_timer
init_timer-reload p pit frequency d h = (
  rw (==-false frequency 0 (λ e. omega (arith, e)))
      (reloaded _ (pit.reloads _ _ d (omega arith) (omega arith) ∙ omega arith)),
  (λ e. (divisor-lt frequency h).0 (omega (arith, e)), λ l. kept ((divisor-lt frequency h).1 l)),
)
  where
    kept : 1193180 / frequency < 2 ^ 16 → 1193180 / frequency % 2 ^ 16 ≡ 1193180 / frequency
    kept l = omega arith
