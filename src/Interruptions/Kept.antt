-- ===== src/Interruptions/Kept.antt =====
-- `init_interruptions` writes its own table and nothing else.
use mush_os.Base.{ℕ, ◌+◌, ◌-◌, ◌≤◌, ◌<◌, ◌≡◌, ◌∙◌, ◌⊎◌, arith}
use mush_os.Machine.{Mem, load8, store8}
use mush_os.Memory.Fill.{load8-memory_clear}
use mush_os.Ports.{Ports}
use mush_os.Interruptions.{interruptions_placement, store16, write_descriptor, init_interruptions}
use mush_os.Interruptions.Gates.{load8-create_idt_entries}

write_descriptor-kept :
    (m : Mem) (x : ℕ)
    → (x < interruptions_placement) ⊎ (interruptions_placement + 2054 ≤ x)
    → load8 (write_descriptor m) x ≡ load8 m x
unfolding write_descriptor store16 store8 load8
write_descriptor-kept m x h = ground arith

pub init_interruptions-kept :
    (p : Ports) (isr irq : ℕ → ℕ) (m : Mem) (d : p.Device) (x : ℕ)
    → (x < interruptions_placement) ⊎ (interruptions_placement + 2054 ≤ x)
    → load8 (init_interruptions p isr irq (m, d)).0.0 x ≡ load8 m x
unfolding init_interruptions
init_interruptions-kept p isr irq m d x h =
    write_descriptor-kept _ x h
    ∙ load8-create_idt_entries 203 53 (λ pos. isr 32) _ x (omega arith)
    ∙ load8-create_idt_entries 5 48 isr _ x (omega arith)
    ∙ load8-create_idt_entries 16 32 (λ pos. irq (pos - 32)) _ x (omega arith)
    ∙ load8-create_idt_entries 32 0 isr _ x (omega arith)
    ∙ load8-memory_clear interruptions_placement 2048 0 m x
    ∙ ground arith
