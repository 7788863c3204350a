-- ===== src/Timer/Tests.antt =====
-- The timer's divisor at concrete frequencies.
use mush_os.Base.{ℕ, ◌+◌, ◌*◌, ◌/◌, ◌%◌, ◌^◌, ◌≤◌, ◌≡◌, ◌↔◌, refl, arith, ◌==◌, if◌then◌else◌}
use mush_os.Ports.{Ports}
use mush_os.Timer.{init_timer}
use mush_os.Timer.Divisor.{IsPit, IsReloaded, init_timer-reload}

-- A timer with its two bytes, and which of them comes next.
record Pit : Type 0 where
  low : ℕ
  high : ℕ
  next : ℕ

abbrev out : ℕ → ℕ → Pit → Pit
out port v d =
    if port == 0x43
    then record d { next = 0 }
    else if d.next == 0
    then record d { low = v; next = 1 }
    else record d { high = v; next = 0 }

abbrev pit_ports : Ports
pit_ports = record { Device = Pit; port_byte_in = λ port d. (0, d); port_byte_out = out }

pit_ports-IsPit : IsPit pit_ports
pit_ports-IsPit = record { reload = λ d. d.low + 256 * d.high; reloads = λ l h d p q. refl }

abbrev new_pit : Pit
new_pit = record { low = 0; high = 0; next = 1 }

init_timer-reload_example :
    IsReloaded pit_ports-IsPit (1193180 / 50 % 2 ^ 16) (init_timer pit_ports 50 new_pit)
    × ((1193180 / 50 % 2 ^ 16 ≡ 1193180 / 50) ↔ (19 ≤ 50))
init_timer-reload_example = init_timer-reload pit_ports pit_ports-IsPit 50 new_pit (omega arith)
