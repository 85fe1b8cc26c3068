-- ===== src/Machine/Syscall.antt =====
-- The system call entry: where its arguments go, and what a call leaves as it was.
use bayos.Base.{
  ℕ, ◌+◌, ◌%◌, ◌^◌, ◌≤◌, ◌<◌, ◌≡◌, refl, ap, ◌∙◌, true, List, [], ◌∷◌, map, arith, if◌then◌else◌,
}
use bayos.Machine.{
  Reg, rax, rcx, rdx, rsi, rdi, rbp, r8, r9, r10, r11, r12, r13, r14, r15, Cpu, Instr, push, pop,
  mov, exec, run, syscall_entry,
}
use bayos.Machine.Stack.{Holds, has, run-push, run-push_above, run-pop, Holds-same}
use bayos.Machine.Timer.{KeepsStack}

abbrev pub entry_order : List Reg
entry_order = rbp ∷ r15 ∷ r14 ∷ r13 ∷ r12 ∷ r11 ∷ rcx ∷ r9 ∷ []

-- What is popped: the seventh argument into `rax`, then the registers that were pushed first.
abbrev pub exit_order : List Reg
exit_order = rcx ∷ r11 ∷ r12 ∷ r13 ∷ r14 ∷ r15 ∷ rbp ∷ []

abbrev pub moves : List Instr
moves = mov r9 r8 ∷ mov r8 r10 ∷ mov rcx rdx ∷ mov rdx rsi ∷ mov rsi rdi ∷ mov rdi rax ∷ []

-- The processor when `syscall_handler` is called.
abbrev pub at_handler : Cpu → Cpu
at_handler c = run moves (run (map push entry_order) c)

module _ (syscall_handler : Cpu → Cpu) where
  pub entry_split :
      (c : Cpu)
      → run (syscall_entry syscall_handler) c
        ≡ run (map pop exit_order) (exec (pop rax) (syscall_handler (at_handler c)))
  unfolding syscall_entry run exec
  entry_split c = refl

-- The handler is called with the number of the system call and the six arguments, as its calling
-- convention has them: the first six of these seven in registers, the last on top of the stack.
at_handler_arguments :
    (c : Cpu)
    → c.rsp < 2 ^ 64
    → 64 ≤ c.rsp
    → let d = at_handler c in
      (d.gpr rdi ≡ c.gpr rax)
      × (d.gpr rsi ≡ c.gpr rdi)
      × (d.gpr rdx ≡ c.gpr rsi)
      × (d.gpr rcx ≡ c.gpr rdx)
      × (d.gpr r8 ≡ c.gpr r10)
      × (d.gpr r9 ≡ c.gpr r8)
      × (d.mem d.rsp ≡ c.gpr r9)
      × (d.rsp + 64 ≡ c.rsp)
unfolding run exec
at_handler_arguments c small room =
    let (moved, _, holds) = run-push entry_order [] c small room tt in
    (refl, refl, refl, refl, refl, refl, holds.0, moved)

module _ (syscall_handler : Cpu → Cpu) where
  -- With room for eight words on the stack, and a handler that keeps the stack, a system call keeps
  -- `rbp`, `r12` to `r15`, `rcx` and `r11`, where the processor keeps the address and the flags to
  -- go back to, and the stack pointer. It writes no word at the stack pointer or above.
  pub syscall_entry_keeps :
      (c : Cpu)
      → c.rsp < 2 ^ 64
      → 64 ≤ c.rsp
      → KeepsStack (at_handler c) (syscall_handler (at_handler c))
      → (q : Reg) → has q exit_order ≡ true
      → (a : ℕ) → c.rsp ≤ a
      → ((run (syscall_entry syscall_handler) c).gpr q ≡ c.gpr q)
        × ((run (syscall_entry syscall_handler) c).rsp ≡ c.rsp)
        × ((run (syscall_entry syscall_handler) c).mem a ≡ c.mem a)
  unfolding exec run
  syscall_entry_keeps c small room keeps q among a high =
      let d = at_handler c in
      let e = syscall_handler d in
      let (moved, _, holds) = run-push entry_order [] c small room tt in
      let base : (e.rsp + 8) % 2 ^ 64 ≡ d.rsp + 8 = omega (arith, keeps.rsp_same) in
      let kept : Holds e.mem (d.rsp + 8) exit_order c.gpr =
        Holds-same d.mem e.mem (d.rsp + 8) exit_order c.gpr
          (λ b h l. keeps.mem_same b (omega arith)) holds.1 in
      let (up, same, got) =
        run-pop exit_order (exec (pop rax) e) c.gpr (omega (arith, base)) (rw base kept) in
      rw (entry_split syscall_handler c) (
        got q ∙ ap (λ b. if b then c.gpr q else (exec (pop rax) e).gpr q) among,
        omega (arith, up, base),
        ap (λ m. m a) same
            ∙ keeps.mem_same a (omega arith)
            ∙ run-push_above entry_order c small room a high,
      )
