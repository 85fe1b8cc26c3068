-- ===== src/Machine.antt =====
-- The processor, as far as the assembly of the kernel uses it: the timer's handler in
-- kernel/src/int.rs and the system call entry in kernel/src/syscall.rs. A word of memory is named by
-- its byte address, and the stack grows downwards.
pub mod Stack
pub mod Syscall
mod Tests
pub mod Timer
use bayos.Base.{ℕ, ◌+◌, ◌-◌, ◌%◌, ◌^◌, Bool, List, [], ◌∷◌, ◌==◌, if◌then◌else◌}

-- The general registers but `rsp`.
pub data Reg : Type 0 where
  rax rbx rcx rdx rsi rdi rbp r8 r9 r10 r11 r12 r13 r14 r15 : Reg

abbrev pub number : Reg → ℕ
number rax = 0
number rcx = 1
number rdx = 2
number rbx = 3
number rbp = 5
number rsi = 6
number rdi = 7
number r8 = 8
number r9 = 9
number r10 = 10
number r11 = 11
number r12 = 12
number r13 = 13
number r14 = 14
number r15 = 15

abbrev pub same_reg : Reg → Reg → Bool
same_reg r q = number r == number q

pub record Cpu : Type 0 where
  pub rsp : ℕ
  pub gpr : Reg → ℕ
  pub mem : ℕ → ℕ

abbrev pub set_reg : (Reg → ℕ) → Reg → ℕ → Reg → ℕ
set_reg gpr r v q = if same_reg r q then v else gpr q

abbrev pub store : (ℕ → ℕ) → ℕ → ℕ → ℕ → ℕ
store mem a v b = if a == b then v else mem b

-- `call` is a call of a function that is not assembly: what it leaves of the processor.
pub data Instr : Type 0 where
  push : Reg → Instr
  pop : Reg → Instr
  mov : (to from : Reg) → Instr
  mov_from_rsp : (to : Reg) → Instr
  mov_to_rsp : (from : Reg) → Instr
  call : (Cpu → Cpu) → Instr

unfoldable pub exec : Instr → Cpu → Cpu
exec (push r) c =
    let top = (c.rsp + 2 ^ 64 - 8) % 2 ^ 64 in
    record c { rsp = top; mem = store c.mem top (c.gpr r) }
exec (pop r) c = record c { rsp = (c.rsp + 8) % 2 ^ 64; gpr = set_reg c.gpr r (c.mem c.rsp) }
exec (mov to from) c = record c { gpr = set_reg c.gpr to (c.gpr from) }
exec (mov_from_rsp to) c = record c { gpr = set_reg c.gpr to c.rsp }
exec (mov_to_rsp from) c = record c { rsp = c.gpr from }
exec (call f) c = f c

unfoldable pub run : List Instr → Cpu → Cpu
run [] c = c
run (i ∷ is) c = run is (exec i c)

-- `timer_handler` up to `iretq`, with the functions that it calls.
unfoldable pub timer_handler : (eoi schedule : Cpu → Cpu) → List Instr
timer_handler eoi schedule =
    push rax
    ∷ push rcx
    ∷ push rdx
    ∷ push rbx
    ∷ push rbp
    ∷ push rsi
    ∷ push rdi
    ∷ push r8
    ∷ push r9
    ∷ push r10
    ∷ push r11
    ∷ push r12
    ∷ push r13
    ∷ push r14
    ∷ push r15
    ∷ call eoi
    ∷ mov_from_rsp rdi
    ∷ call schedule
    ∷ mov_to_rsp rax
    ∷ pop r15
    ∷ pop r14
    ∷ pop r13
    ∷ pop r12
    ∷ pop r11
    ∷ pop r10
    ∷ pop r9
    ∷ pop r8
    ∷ pop rdi
    ∷ pop rsi
    ∷ pop rbp
    ∷ pop rbx
    ∷ pop rdx
    ∷ pop rcx
    ∷ pop rax
    ∷ []

-- What `iretq` takes from the stack: the frame that an interrupt pushes.
pub record Frame : Type 0 where
  pub instruction_pointer : ℕ
  pub code_segment : ℕ
  pub cpu_flags : ℕ
  pub stack_pointer : ℕ
  pub stack_segment : ℕ

unfoldable pub iretq : Cpu → Frame
iretq c = record {
  instruction_pointer = c.mem c.rsp;
  code_segment = c.mem (c.rsp + 8);
  cpu_flags = c.mem (c.rsp + 16);
  stack_pointer = c.mem (c.rsp + 24);
  stack_segment = c.mem (c.rsp + 32);
}

-- `syscall_entry` up to `sysretq`.
unfoldable pub syscall_entry : (syscall_handler : Cpu → Cpu) → List Instr
syscall_entry syscall_handler =
    push rbp
    ∷ push r15
    ∷ push r14
    ∷ push r13
    ∷ push r12
    ∷ push r11
    ∷ push rcx
    ∷ push r9
    ∷ mov r9 r8
    ∷ mov r8 r10
    ∷ mov rcx rdx
    ∷ mov rdx rsi
    ∷ mov rsi rdi
    ∷ mov rdi rax
    ∷ call syscall_handler
    ∷ pop rax
    ∷ pop rcx
    ∷ pop r11
    ∷ pop r12
    ∷ pop r13
    ∷ pop r14
    ∷ pop r15
    ∷ pop rbp
    ∷ []
