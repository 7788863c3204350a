-- ===== src/Interruptions.antt =====
-- core/kernel/interruption_tables.c: the table of gates at 0x500, the handlers, and what happens
-- when an interruption or a hardware request comes. The stubs of the assembly files are given by
-- their addresses. A message is recorded, not formatted; `PANIC` does not return.
pub mod Gates
pub mod Kept
pub mod Dispatch
mod Tests
use mush_os.Base.{
  ℕ, zero, suc, ◌+◌, ◌-◌, ◌*◌, ◌/◌, ◌%◌, ◌^◌, List, [], ◌∷◌, Option, none, some, ltb, leb, ◌==◌,
  if◌then◌else◌,
}
use mush_os.Machine.{Mem, load8, store8}
use mush_os.Memory.{memory_clear}
use mush_os.Ports.{Ports}

abbrev pub interruptions_placement : ℕ
interruptions_placement = 0x500

abbrev pub interrupt_gate : ℕ
interrupt_gate = 0b10001110

abbrev pub code_selector : ℕ
code_selector = 0x08

-- `IRQ0` to `IRQ15`: the interruption of a hardware request.
abbrev pub irq_number : ℕ → ℕ
irq_number line = 32 + line

-- A `u_word` in memory.
unfoldable pub store16 : Mem → ℕ → ℕ → Mem
store16 m a v = store8 (store8 m a v) (a + 1) (v / 256)

unfoldable pub load16 : Mem → ℕ → ℕ
load16 m a = load8 m a + 256 * load8 m (a + 1)

-- The fields of a packed `IDT_entry` are at 0 `base_low`, 2 `selector`, 4 `always0`, 5 `flags`
-- and 6 `base_high`.
unfoldable pub create_idt_entry : (pos base selector flags : ℕ) → Mem → Mem
unfolding store16
create_idt_entry pos base selector flags m =
    let entry = interruptions_placement + pos * 8 in
    let low = store16 m entry (base % 2 ^ 16) in
    let selected = store16 low (entry + 2) selector in
    let zeroed = store8 selected (entry + 4) 0 in
    let flagged = store8 zeroed (entry + 5) flags in store16 flagged (entry + 6) (base / 2 ^ 16)

-- `left` calls of `create_idt_entry` in a row, from `pos` on.
unfoldable pub create_idt_entries : ℕ → (pos : ℕ) → (ℕ → ℕ) → Mem → Mem
create_idt_entries zero pos stub m = m
create_idt_entries (suc left) pos stub m =
    create_idt_entries left (suc pos) stub
      (create_idt_entry pos (stub pos) code_selector interrupt_gate m)

-- The `IDT_descriptor` behind the 256 entries.
unfoldable pub write_descriptor : Mem → Mem
write_descriptor m =
    let sized = store16 m (interruptions_placement + 2048) (256 * 8 - 1) in
    let low = store16 sized (interruptions_placement + 2050) (interruptions_placement % 2 ^ 16) in
    store16 low (interruptions_placement + 2052) (interruptions_placement / 2 ^ 16)

module _ (p : Ports) where
  open p use {Device, port_byte_in, port_byte_out}

  -- The controllers of hardware requests are started again with 0x20 and 0x28 as first numbers.
  unfoldable pub remap_requests : Device → Device
  remap_requests d =
      let (master_mask, d) = port_byte_in 0x21 d in
      let (slave_mask, d) = port_byte_in 0xa1 d in
      let d = port_byte_out 0x20 0x11 d in
      let d = port_byte_out 0xa0 0x11 d in
      let d = port_byte_out 0x21 0x20 d in
      let d = port_byte_out 0xa1 0x28 d in
      let d = port_byte_out 0x21 0x04 d in
      let d = port_byte_out 0xa1 0x02 d in
      let d = port_byte_out 0x21 0x01 d in
      let d = port_byte_out 0xa1 0x01 d in
      let d = port_byte_out 0x21 0x0 d in
      let d = port_byte_out 0xa1 0x0 d in
      let d = port_byte_out 0x21 master_mask d in port_byte_out 0xa1 slave_mask d

  -- The stubs by their numbers, as in `isr0` and `irq0`. The last part of the result is the
  -- address of the descriptor, which `idt_flush` gets.
  unfoldable pub init_interruptions : (isr irq : ℕ → ℕ) → Mem × Device → (Mem × Device) × ℕ
  unfolding create_idt_entries remap_requests write_descriptor
  init_interruptions isr irq (m, d) =
      let m = memory_clear interruptions_placement (256 * 8) 0 m in
      let m = create_idt_entries 32 0 isr m in
      let d = remap_requests d in
      let m = create_idt_entries 16 32 (λ pos. irq (pos - 32)) m in
      let m = create_idt_entries 5 48 isr m in
      let m = create_idt_entries 203 53 (λ pos. isr 32) m in
      ((write_descriptor m, d), interruptions_placement + 2048)

-- What is said to the user.
pub data Message : Type 0 where
  handler_set : ℕ → Message
  silenced : ℕ → Message
  undefined_user : Message
  hardware : ℕ → Message

-- Why the kernel stops.
pub data Panic : Type 0 where
  undefined_interrupt : ℕ → Panic
  some_interrupt : ℕ → Panic

pub data Handled (S : Type 0) : Type 0 where
  returned : S → Handled S
  panicked : Panic → S → Handled S

-- The registers that the handlers of this model read are the number and what `regs` holds besides.
pub record Registers : Type 0 where
  pub int_no : ℕ
  pub eax : ℕ
  pub esp_plus : ℕ

-- The rest of the kernel is a state on which a handler acts, which takes the messages.
module _ {S : Type 0} (show : Message → S → S) where
  abbrev pub Handler : Type 0
  Handler = Registers → S → Handled S

  -- `interruption_handlers`, with `none` for the null pointer.
  abbrev pub Handlers : Type 0
  Handlers = ℕ → Option Handler

  unfoldable pub put_handler : ℕ → Handler → Handlers → Handlers
  put_handler n handler handlers k = if k == n then some handler else handlers k

  -- The number is a `u_byte`.
  unfoldable pub set_interrupt_handler : ℕ → Handler → Handlers → S → Handlers × S
  unfolding put_handler
  set_interrupt_handler n handler handlers s =
      let k = n % 256 in
      (put_handler k handler handlers, if k == 32 then s else show (handler_set k) s)

  unfoldable pub silent_interrupt_handler : Handler
  silent_interrupt_handler regs s = returned s

  unfoldable pub silence_interrupt : ℕ → Handlers → S → Handlers × S
  unfolding put_handler silent_interrupt_handler
  silence_interrupt n handlers s =
      let k = n % 256 in
      (put_handler k silent_interrupt_handler handlers, if k == 32 then s else show (silenced k) s)

  unfoldable pub isr_handler : Handlers → Registers → S → Handled S
  isr_handler handlers regs s =
      let told = if regs.int_no == 32 then show undefined_user s else s in
      elim (handlers regs.int_no) [
        | some handler ↦ handler regs told
        | none ↦
            if ltb regs.int_no 48
            then panicked (undefined_interrupt regs.int_no) told
            else panicked (some_interrupt regs.int_no) told
      ]

  -- `send` is `port_byte_out` on the state.
  unfoldable pub irq_handler : (ℕ → ℕ → S → S) → Handlers → Registers → S → Handled S
  irq_handler send handlers regs s =
      let slave = if leb 40 regs.int_no then send 0xa0 0x20 s else s in
      let master = send 0x20 0x20 slave in
      elim (handlers regs.int_no) [
        | some handler ↦ handler regs master
        | none ↦ returned (show (hardware ((regs.int_no + 2 ^ 32 - 15) % 2 ^ 32)) master)
      ]
