-- ===== src/Interruptions/Tests.antt =====
-- The gates with a concrete device, whose state is the list of what was sent.
use mush_os.Base.{ℕ, ◌+◌, ◌*◌, ◌%◌, ◌^◌, List, [], ◌∷◌, arith}
use mush_os.Ports.{Ports}
use mush_os.Interruptions.{init_interruptions}
use mush_os.Interruptions.Gates.{IsGate, stub_of, init_interruptions-IsGate}

-- A device that records the bytes it is sent.
abbrev log_ports : Ports
log_ports = record {
  Device = List (ℕ × ℕ);
  port_byte_in = λ port d. (0xff, d);
  port_byte_out = λ port v d. (port, v) ∷ d;
}

abbrev stub_at : ℕ → ℕ → ℕ
stub_at base n = (base + n * 16) % 2 ^ 32

init_interruptions-IsGate_example :
    IsGate
      (init_interruptions log_ports (stub_at 0x10000) (stub_at 0x20000) (λ x. x, [])).0.0
      33
      (stub_of (stub_at 0x10000) (stub_at 0x20000) 33)
init_interruptions-IsGate_example =
    init_interruptions-IsGate log_ports (stub_at 0x10000) (stub_at 0x20000) (λ x. x) []
      (λ k. omega arith) (λ k. omega arith) 33 (omega arith)
