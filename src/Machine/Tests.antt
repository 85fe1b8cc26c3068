-- ===== src/Machine/Tests.antt =====
-- The timer's handler and the system call entry on a small processor.
use bayos.Base.{◌+◌, ◌≡◌, refl, map, arith}
use bayos.Machine.{
  Reg, rax, rdi, r12, number, Cpu, set_reg, push, exec, run, timer_handler, syscall_entry, iretq,
}
use bayos.Machine.Syscall.{at_handler, syscall_entry_keeps}
use bayos.Machine.Timer.{KeepsStack, saved_order, at_schedule, timer_handler_resumes}

-- Each register holds a number of its own.
abbrev cpu : Cpu
cpu = record { rsp = 0x1000; gpr = λ r. number r + 100; mem = λ a. a }

abbrev eoi : Cpu → Cpu
eoi c = record c { gpr = set_reg c.gpr rax 0 }

-- A scheduler with one process: the pointer comes back.
abbrev schedule : Cpu → Cpu
schedule c = record c { gpr = set_reg c.gpr rax (c.gpr rdi) }

abbrev handler : Cpu → Cpu
handler c = record c { gpr = set_reg c.gpr rax 7 }

timer_handler_runs : (run (timer_handler eoi schedule) cpu).gpr r12 ≡ 112
unfolding timer_handler run exec
timer_handler_runs = refl

iretq_runs : iretq (run (timer_handler eoi schedule) cpu) ≡ record {
  instruction_pointer = 0x1000;
  code_segment = 0x1008;
  cpu_flags = 0x1010;
  stack_pointer = 0x1018;
  stack_segment = 0x1020;
}
unfolding timer_handler run exec iretq
iretq_runs = refl

eoi_keeps : KeepsStack (run (map push saved_order) cpu) (eoi (run (map push saved_order) cpu))
unfolding run exec
eoi_keeps = record { rsp_same = refl; mem_same = λ a h. refl }

handler_keeps : KeepsStack (at_handler cpu) (handler (at_handler cpu))
unfolding run exec
handler_keeps = record { rsp_same = refl; mem_same = λ a h. refl }

same_pointer :
    (schedule (at_schedule eoi schedule cpu)).gpr rax ≡ (at_schedule eoi schedule cpu).gpr rdi
unfolding run exec
same_pointer = refl

timer_handler_resumes_example :
    ((q : Reg) → (run (timer_handler eoi schedule) cpu).gpr q ≡ cpu.gpr q)
    × ((run (timer_handler eoi schedule) cpu).rsp ≡ 0x1000)
    × (iretq (run (timer_handler eoi schedule) cpu) ≡ iretq cpu)
timer_handler_resumes_example =
    timer_handler_resumes eoi schedule cpu cpu (schedule (at_schedule eoi schedule cpu))
      (omega arith) (omega arith) eoi_keeps refl same_pointer (λ a h l. refl)

syscall_entry_keeps_example :
    ((run (syscall_entry handler) cpu).gpr r12 ≡ 112)
    × ((run (syscall_entry handler) cpu).rsp ≡ 0x1000)
    × ((run (syscall_entry handler) cpu).mem 0x1008 ≡ 0x1008)
syscall_entry_keeps_example =
    syscall_entry_keeps handler cpu (omega arith) (omega arith) handler_keeps r12 refl 0x1008
      (omega arith)
