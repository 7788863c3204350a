-- ===== src/Interruptions/Dispatch.antt =====
-- Which handler runs when an interruption comes, and what the controllers are told.
use mush_os.Base.{
  ℕ, ◌%◌, ◌≡◌, ◌≢◌, refl, inl, inr, none, arith, ltb, ◌==◌, Bool-cases, ==-true, ==-false,
  if◌then◌else◌,
}
use mush_os.Interruptions.{
  Message, undefined_user, undefined_interrupt, some_interrupt, returned, panicked, Registers,
  Handler, Handlers, put_handler, set_interrupt_handler, silence_interrupt,
  silent_interrupt_handler, isr_handler,
}

module _ {S : Type 0} (show : Message → S → S) where
  -- A handler that is set is what the interruption of its number's low byte runs, on the registers
  -- as they came and after the warning that number 32 brings; any other interruption runs what it
  -- ran before.
  pub isr_handler-set_interrupt_handler :
      (n : ℕ) (handler : Handler show) (handlers : Handlers show) (s t : S) (regs : Registers)
      → isr_handler show (set_interrupt_handler show n handler handlers s).0 regs t ≡ (
          if regs.int_no == n % 256
          then handler regs (if regs.int_no == 32 then show undefined_user t else t)
          else isr_handler show handlers regs t)
  unfolding isr_handler set_interrupt_handler put_handler
  isr_handler-set_interrupt_handler n handler handlers s t regs =
      elim (Bool-cases (regs.int_no == n % 256)) [
        | inl e ↦ rw (isr_handler, set_interrupt_handler, put_handler, e) refl
        | inr e ↦ rw (isr_handler, set_interrupt_handler, put_handler, e) refl
      ]

  -- An interruption that was silenced, other than 32, does nothing.
  pub isr_handler-silence_interrupt :
      (n : ℕ) (handlers : Handlers show) (s t : S) (regs : Registers)
      → regs.int_no ≡ n % 256
      → regs.int_no ≢ 32
      → isr_handler show (silence_interrupt show n handlers s).0 regs t ≡ returned t
  unfolding isr_handler silence_interrupt put_handler silent_interrupt_handler
  isr_handler-silence_interrupt n handlers s t regs e h =
      rw
        (
          isr_handler,
          silence_interrupt,
          put_handler,
          ==-true (regs.int_no) (n % 256) e,
          ==-false (regs.int_no) 32 h,
        )
        refl

  -- At an interruption without a handler the kernel stops, with one message for numbers below 48
  -- and another one from there on, after the warning that number 32 brings.
  pub isr_handler-none :
      (handlers : Handlers show) (t : S) (regs : Registers)
      → handlers (regs.int_no) ≡ none
      → isr_handler show handlers regs t
        ≡ panicked
            (if ltb (regs.int_no) 48
              then undefined_interrupt (regs.int_no)
              else some_interrupt (regs.int_no))
            (if regs.int_no == 32 then show undefined_user t else t)
  unfolding isr_handler
  isr_handler-none handlers t regs h = rw (isr_handler, h) (ground arith)
