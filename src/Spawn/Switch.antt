-- ===== src/Spawn/Switch.antt =====
-- The first switch to a new process: the timer's handler ends in the frame that was written for it.
use bayos.Base.{ℕ, ◌+◌, ◌%◌, ◌^◌, ◌≤◌, ◌<◌, ◌≡◌, refl, ap, ◌∙◌, arith}
use bayos.Base.Words.{Memory, word}
use bayos.Machine.{
  Reg, rax, rbx, rcx, rdx, rsi, rdi, rbp, r8, r9, r10, r11, r12, r13, r14, r15, Cpu, run,
  timer_handler, Frame, iretq,
}
use bayos.Machine.Timer.{IsSaved, at_schedule, timer_handler_restores}
use bayos.Spawn.Entry.{IsEntry}

-- The context that is saved at an address, whatever it holds.
abbrev saved_at : (mem : ℕ → ℕ) (base : ℕ) → Reg → ℕ
saved_at mem base r15 = mem base
saved_at mem base r14 = mem (base + 8)
saved_at mem base r13 = mem (base + 8 + 8)
saved_at mem base r12 = mem (base + 8 + 8 + 8)
saved_at mem base r11 = mem (base + 8 + 8 + 8 + 8)
saved_at mem base r10 = mem (base + 8 + 8 + 8 + 8 + 8)
saved_at mem base r9 = mem (base + 8 + 8 + 8 + 8 + 8 + 8)
saved_at mem base r8 = mem (base + 8 + 8 + 8 + 8 + 8 + 8 + 8)
saved_at mem base rdi = mem (base + 8 + 8 + 8 + 8 + 8 + 8 + 8 + 8)
saved_at mem base rsi = mem (base + 8 + 8 + 8 + 8 + 8 + 8 + 8 + 8 + 8)
saved_at mem base rbp = mem (base + 8 + 8 + 8 + 8 + 8 + 8 + 8 + 8 + 8 + 8)
saved_at mem base rbx = mem (base + 8 + 8 + 8 + 8 + 8 + 8 + 8 + 8 + 8 + 8 + 8)
saved_at mem base rdx = mem (base + 8 + 8 + 8 + 8 + 8 + 8 + 8 + 8 + 8 + 8 + 8 + 8)
saved_at mem base rcx = mem (base + 8 + 8 + 8 + 8 + 8 + 8 + 8 + 8 + 8 + 8 + 8 + 8 + 8)
saved_at mem base rax = mem (base + 8 + 8 + 8 + 8 + 8 + 8 + 8 + 8 + 8 + 8 + 8 + 8 + 8 + 8)

saved_at-IsSaved : (mem : ℕ → ℕ) (base : ℕ) → IsSaved mem base (saved_at mem base)
saved_at-IsSaved mem base = (
  refl,
  (
    refl,
    (
      refl,
      (
        refl,
        (refl, (refl, (refl, (refl, (refl, (refl, (refl, (refl, (refl, (refl, (refl, tt))))))))))),
      ),
    ),
  ),
)

-- What the processor goes on with, as far as `iretq` uses it.
pub record GoesTo (f : Frame) (entry code flags top stack : ℕ) : Type 0 where
  pub instruction_pointer : f.instruction_pointer ≡ entry
  pub code_segment : f.code_segment % 2 ^ 16 ≡ code
  pub cpu_flags : f.cpu_flags ≡ flags
  pub stack_pointer : f.stack_pointer ≡ top
  pub stack_segment : f.stack_segment % 2 ^ 16 ≡ stack

-- If `schedule` returns the stack pointer of a new process, above whose 120 bytes of saved registers
-- its frame lies, and the words there are still those, the timer's handler ends in an `iretq` to the
-- process's entry point, with its segments, flags and stack pointer.
pub process_starts :
    (eoi schedule : Cpu → Cpu) (c d : Cpu) (mem : Memory) (rsp entry code flags top stack : ℕ)
    → IsEntry mem (rsp + 120) entry code flags top stack
    → rsp + 120 < 2 ^ 64
    → schedule (at_schedule eoi schedule c) ≡ d
    → d.gpr rax ≡ rsp
    → ((a : ℕ) → rsp + 120 ≤ a → a < rsp + 160 → d.mem a ≡ word mem a)
    → GoesTo (iretq (run (timer_handler eoi schedule) c)) entry code flags top stack
unfolding iretq
process_starts eoi schedule c d mem rsp entry code flags top stack e room scheduled here same =
    record {
      instruction_pointer =
          at_word after.rsp (rsp + 120) pointer (omega arith) (omega arith) ∙ e.instruction_pointer;
      code_segment =
          ap (λ w. w % 2 ^ 16)
            (at_word (after.rsp + 8) (rsp + 120 + 8) (omega (arith, pointer)) (omega arith)
              (omega arith))
          ∙ e.code_segment;
      cpu_flags =
          at_word (after.rsp + 16) (rsp + 120 + 16) (omega (arith, pointer)) (omega arith)
            (omega arith)
          ∙ e.cpu_flags;
      stack_pointer =
          at_word (after.rsp + 24) (rsp + 120 + 24) (omega (arith, pointer)) (omega arith)
            (omega arith)
          ∙ e.stack_pointer;
      stack_segment =
          ap (λ w. w % 2 ^ 16)
            (at_word (after.rsp + 32) (rsp + 120 + 32) (omega (arith, pointer)) (omega arith)
              (omega arith))
          ∙ e.stack_segment;
    }
  where
    after : Cpu
    after = run (timer_handler eoi schedule) c

    restored :
        ((q : Reg) → after.gpr q ≡ saved_at d.mem (d.gpr rax) q)
        × (after.rsp ≡ d.gpr rax + 120)
        × (after.mem ≡ d.mem)
    restored =
        timer_handler_restores eoi schedule c d (saved_at d.mem (d.gpr rax)) scheduled
          (omega (arith, here)) (saved_at-IsSaved d.mem (d.gpr rax))

    at_word : (x a : ℕ) → x ≡ a → rsp + 120 ≤ a → a < rsp + 160 → after.mem x ≡ word mem a
    at_word x a e from to = ap (λ f. f x) restored.2 ∙ ap d.mem e ∙ same a from to

    pointer : after.rsp ≡ rsp + 120
    pointer = omega (arith, restored.1, here)
