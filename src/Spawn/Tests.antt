-- ===== src/Spawn/Tests.antt =====
-- A kernel process and a user program of one segment, on the locks and the page tables of the tests of
-- Sched and Paging.
use bayos.Base.{◌+◌, ◌*◌, ◌%◌, ◌≡◌, refl, arith, [], ◌∷◌, Exec, ok}
use bayos.Base.Words.{Memory, word}
use bayos.Machine.{rax, Cpu, set_reg, run, timer_handler, iretq}
use bayos.Machine.Timer.{at_schedule}
use bayos.Sched.{Sched, push}
use bayos.Sched.Tick.{IsFree}
use bayos.Sched.Tests.{flags, state}
use bayos.Paging.{MapResult, done, map_pages}
use bayos.Paging.Tests.{mapper, empty}
use bayos.Memory.{steps}
use bayos.Spawn.{
  Selectors, Header, Program, Kernel, add_process, fill_segment, load_segment, load_segments,
  enter_process, map_stack, add_user_process,
}
use bayos.Spawn.Entry.{IsAdded, add_process_lem}
use bayos.Spawn.Segment.{IsFilled, fill_segment-IsFilled}
use bayos.Spawn.Switch.{GoesTo, process_starts}
use bayos.Spawn.User.{IsUser, add_user_process_lem}

abbrev pub selectors : Selectors
selectors = record { selector = λ index rpl. index * 8 + rpl; selector_lem = λ index rpl h l. refl }

-- Byte `a` is the low byte of `a`.
abbrev mem : Memory
mem a = a % 256

abbrev pub segment : Program
segment = record {
  p_type = 1;
  p_flags = 7;
  p_offset = 0x1000;
  p_vaddr = 0x400000;
  p_paddr = 0;
  p_filesz = 3;
  p_memsz = 5000;
  p_align = 4096;
}

abbrev pub header : Header
header = record {
  e_type = 2;
  e_machine = 62;
  e_version = 1;
  e_entry = 0x400002;
  e_phoff = 64;
  e_shoff = 0;
  e_flags = 0;
  e_ehsize = 64;
  e_phentsize = 56;
  e_phnum = 1;
  e_shentsize = 0;
  e_shnum = 0;
  e_shstrndx = 0;
}

fill_segment-IsFilled_example : IsFilled 0x10000 segment mem (fill_segment 0x10000 segment mem)
fill_segment-IsFilled_example =
    fill_segment-IsFilled 0x10000 segment mem (omega arith) (omega arith)

state-IsFree : IsFree flags state
state-IsFree = record { list_free = refl; current_free = refl }

add_process_lem_example :
    (mem' : Memory) × (s' : Sched flags) × (add_process flags selectors 0x1000 0x8000 2 mem state
      ≡ ok (mem', s'))
    × IsAdded flags 0x1000 0x8000 2 mem mem' state s'
add_process_lem_example =
    add_process_lem flags selectors 0x1000 0x8000 2 mem state state-IsFree (omega arith)
      (omega arith) (omega arith)

abbrev pub kernel : Kernel flags mapper
kernel = record { table = empty; frames = 0; mem = mem; sched = state }

abbrev after : Exec (MapResult (Kernel flags mapper)) → Kernel flags mapper
after (ok (done s)) = s
after _ = kernel

unfoldable loaded : Kernel flags mapper
loaded = after (add_user_process flags mapper selectors 0x10000 header (segment ∷ []) 2 0 kernel)

loaded_lem :
    add_user_process flags mapper selectors 0x10000 header (segment ∷ []) 2 0 kernel
    ≡ ok (done loaded)
unfolding loaded add_user_process load_segments load_segment map_stack enter_process push map_pages
    steps
loaded_lem = refl

add_user_process_lem_example : IsUser flags mapper selectors 0x400002 2 0 kernel loaded
add_user_process_lem_example =
    add_user_process_lem flags mapper selectors 0x10000 header (segment ∷ []) 2 0 kernel loaded
      state-IsFree (omega arith) (omega arith) loaded_lem

-- The processor is interrupted elsewhere, and `schedule` returns the new process's stack pointer.
abbrev cpu : Cpu
cpu = record { rsp = 0x300000; gpr = λ r. 0; mem = λ a. 0 }

abbrev eoi : Cpu → Cpu
eoi c = c

abbrev schedule : Cpu → Cpu
schedule c = record { rsp = c.rsp; gpr = set_reg c.gpr rax 0x1fc008; mem = λ a. word loaded.mem a }

process_starts_example :
    GoesTo (iretq (run (timer_handler eoi schedule) cpu)) 0x400002 51 0x202 0x200000 43
process_starts_example =
    process_starts eoi schedule cpu (schedule (at_schedule eoi schedule cpu)) loaded.mem 0x1fc008
      0x400002 51 0x202 0x200000 43
      (add_user_process_lem flags mapper selectors 0x10000 header (segment ∷ []) 2 0 kernel loaded
        state-IsFree (omega arith) (omega arith) loaded_lem).entry_frame
      (omega arith) refl refl (λ a from to. refl)
