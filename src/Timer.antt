-- ===== src/Timer.antt =====
-- core/kernel/timer.c: the timer's period, and its ticks. The rest of the kernel is a parameter.
pub mod Divisor
mod Tests
use mush_os.Base.{ℕ, ◌+◌, ◌/◌, ◌%◌, ◌^◌, ◌==◌, Option, none, some, if◌then◌else◌}
use mush_os.Ports.{Ports}

-- `tick` wraps; then tasks are switched.
unfoldable pub timer_callback : {S : Type 0} → (S → S) → ℕ × S → ℕ × S
timer_callback switch_task (tick, s) = ((tick + 1) % 2 ^ 32, switch_task s)

module _ (p : Ports) where
  open p use {Device, port_byte_out}

  -- The bytes sent to the timer. A frequency of 0 is a division fault, `none`. The handler of
  -- request 0 is set beforehand, by `set_interrupt_handler`.
  unfoldable pub init_timer : ℕ → Device → Option Device
  init_timer frequency d =
      if frequency == 0
      then none
      else (let divisor = 1193180 / frequency in
          let d = port_byte_out 0x43 0x36 d in
          let l = divisor % 256 in
          let h = divisor / 256 % 256 in
          let d = port_byte_out 0x40 l d in some (port_byte_out 0x40 h d))
