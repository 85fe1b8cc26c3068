-- ===== src/Machine/Timer.antt =====
-- The timer's handler: it saves the registers of the code that it interrupts, and restores those that
-- were saved at the stack pointer which the scheduler returns.
use bayos.Base.{
  ℕ, ◌+◌, ◌^◌, ◌≤◌, ◌<◌, ◌≡◌, refl, sym, ap, subst, ◌∙◌, true, List, [], ◌∷◌, map, arith,
  if◌then◌else◌,
}
use bayos.Machine.{
  Reg, rax, rbx, rcx, rdx, rsi, rdi, rbp, r8, r9, r10, r11, r12, r13, r14, r15, Cpu, push, pop,
  mov_from_rsp, mov_to_rsp, exec, run, timer_handler, iretq,
}
use bayos.Machine.Stack.{Holds, has, run-push, run-push_above, run-pop, Holds-same}

-- The registers in the order in which they are saved, and in the order in which they lie on the stack.
abbrev pub saved_order : List Reg
saved_order =
    rax ∷ rcx ∷ rdx ∷ rbx ∷ rbp ∷ rsi ∷ rdi ∷ r8 ∷ r9 ∷ r10 ∷ r11 ∷ r12 ∷ r13 ∷ r14 ∷ r15 ∷ []

abbrev pub stack_order : List Reg
stack_order =
    r15 ∷ r14 ∷ r13 ∷ r12 ∷ r11 ∷ r10 ∷ r9 ∷ r8 ∷ rdi ∷ rsi ∷ rbp ∷ rbx ∷ rdx ∷ rcx ∷ rax ∷ []

-- A context is saved at `base`: the values of all registers but `rsp`.
abbrev pub IsSaved : (mem : ℕ → ℕ) (base : ℕ) (gpr : Reg → ℕ) → Type 0
IsSaved mem base gpr = Holds mem base stack_order gpr

-- Every general register is among those that are restored.
all_restored : (q : Reg) → has q stack_order ≡ true
all_restored rax = refl
all_restored q = refl

-- What is assumed of a compiled function: it leaves the stack pointer as it was, and every word at it
-- and above it. The calling convention promises the first; the second is so where the function writes
-- nothing but its own frame and what lies below its caller's, so not for a system call with a buffer on
-- the caller's stack.
pub record KeepsStack (before after : Cpu) : Type 0 where
  pub rsp_same : after.rsp ≡ before.rsp
  pub mem_same : (a : ℕ) → before.rsp ≤ a → after.mem a ≡ before.mem a

-- `iretq` takes the same frame where the stack pointer and the 40 bytes there are the same.
iretq-same :
    (c d : Cpu) (mem : ℕ → ℕ)
    → d.rsp ≡ c.rsp
    → d.mem ≡ mem
    → ((k : ℕ) → k < 40 → mem (c.rsp + k) ≡ c.mem (c.rsp + k))
    → iretq d ≡ iretq c
unfolding iretq
iretq-same c d mem same_rsp same_mem same =
    let at_start : mem c.rsp ≡ c.mem c.rsp =
      ap mem (omega arith) ∙ same 0 (omega arith) ∙ ap c.mem (omega arith) in
    let w8 = same 8 (omega arith) in
    let w16 = same 16 (omega arith) in
    let w24 = same 24 (omega arith) in let w32 = same 32 (omega arith) in cc

module _ (eoi schedule : Cpu → Cpu) where
  -- The processor when `schedule` is called.
  abbrev pub at_schedule : Cpu → Cpu
  at_schedule c = exec (mov_from_rsp rdi) (eoi (run (map push saved_order) c))

  pub handler_split :
      (c : Cpu)
      → run (timer_handler eoi schedule) c
        ≡ run (map pop stack_order) (exec (mov_to_rsp rax) (schedule (at_schedule c)))
  unfolding timer_handler run exec
  handler_split c = refl

  -- Where `eoi` keeps the stack, `schedule` is called with the interrupted code's stack pointer less
  -- 120 in `rdi`, and there the context of that code is saved; every word at its stack pointer and
  -- above, where the interrupt's frame lies, is as it was.
  pub timer_handler_saves :
      (c : Cpu)
      → c.rsp < 2 ^ 64
      → 120 ≤ c.rsp
      → KeepsStack (run (map push saved_order) c) (eoi (run (map push saved_order) c))
      → ((at_schedule c).gpr rdi + 120 ≡ c.rsp)
        × IsSaved (at_schedule c).mem ((at_schedule c).gpr rdi) c.gpr
        × ((a : ℕ) → c.rsp ≤ a → (at_schedule c).mem a ≡ c.mem a)
  unfolding exec
  timer_handler_saves c small room keeps =
      let pushed = run (map push saved_order) c in
      let (moved, _, holds) = run-push saved_order [] c small room tt in
      let again =
        Holds-same pushed.mem (eoi pushed).mem pushed.rsp stack_order c.gpr
          (λ a h l. keeps.mem_same a h) holds in
      (
        omega (arith, keeps.rsp_same),
        subst (λ b. IsSaved (eoi pushed).mem b c.gpr) (sym keeps.rsp_same) again,
        λ a h. keeps.mem_same a (omega arith) ∙ run-push_above saved_order c small room a h,
      )

  -- If a context is saved where the pointer that `schedule` returns points to, the handler ends with
  -- every register as in that context and the stack pointer just above it, and writes nothing after
  -- `schedule` returned.
  pub timer_handler_restores :
      (c d : Cpu) (gpr : Reg → ℕ)
      → schedule (at_schedule c) ≡ d
      → d.gpr rax + 120 < 2 ^ 64
      → IsSaved d.mem (d.gpr rax) gpr
      → ((q : Reg) → (run (timer_handler eoi schedule) c).gpr q ≡ gpr q)
        × ((run (timer_handler eoi schedule) c).rsp ≡ d.gpr rax + 120)
        × ((run (timer_handler eoi schedule) c).mem ≡ d.mem)
  unfolding exec
  timer_handler_restores c d gpr scheduled room saved =
      let (moved, same, got) = run-pop stack_order (exec (mov_to_rsp rax) d) gpr room saved in
      rw (handler_split c, scheduled)
        ((λ q. got q ∙ ap (λ b. if b then gpr q else d.gpr q) (all_restored q)), moved, same)

  -- A process that was interrupted gets its registers back. Let `send_eoi` keep the stack at a tick
  -- from `c`, where `schedule` is called with a pointer. If at a tick from `d` it returns the same
  -- pointer, and the 160 bytes there, the saved registers and the interrupt's frame, are as they were,
  -- the second handler ends with the fifteen general registers and the stack pointer as in `c`, and its
  -- `iretq` takes the frame that the first interrupt pushed: the instruction to go on with, the flags,
  -- the stack and the two segments. Registers for floating point and vectors are not part of the model;
  -- the handler does not save them.
  pub timer_handler_resumes :
      (c d e : Cpu)
      → c.rsp < 2 ^ 64
      → 120 ≤ c.rsp
      → KeepsStack (run (map push saved_order) c) (eoi (run (map push saved_order) c))
      → schedule (at_schedule d) ≡ e
      → e.gpr rax ≡ (at_schedule c).gpr rdi
      → ((a : ℕ) → e.gpr rax ≤ a → a < e.gpr rax + 160 → e.mem a ≡ (at_schedule c).mem a)
      → ((q : Reg) → (run (timer_handler eoi schedule) d).gpr q ≡ c.gpr q)
        × ((run (timer_handler eoi schedule) d).rsp ≡ c.rsp)
        × (iretq (run (timer_handler eoi schedule) d) ≡ iretq c)
  timer_handler_resumes c d e small room keeps scheduled same_place same_words =
      let (moved, saved, above) = timer_handler_saves c small room keeps in
      let at_c = at_schedule c in
      let there : IsSaved at_c.mem (e.gpr rax) c.gpr =
        subst (λ b. IsSaved at_c.mem b c.gpr) (sym same_place) saved in
      let kept =
        Holds-same at_c.mem e.mem (e.gpr rax) stack_order c.gpr
          (λ a h l. same_words a h (omega (arith, l))) there in
      let (regs, pointer, left) = timer_handler_restores d e c.gpr scheduled (omega arith) kept in
      let same_rsp : (run (timer_handler eoi schedule) d).rsp ≡ c.rsp = omega arith in
      let frame : (k : ℕ) → k < 40 → e.mem (c.rsp + k) ≡ c.mem (c.rsp + k) = λ k h.
        same_words (c.rsp + k) (omega arith) (omega (arith, h)) ∙ above (c.rsp + k) (omega arith) in
      (regs, same_rsp, iretq-same c (run (timer_handler eoi schedule) d) e.mem same_rsp left frame)
