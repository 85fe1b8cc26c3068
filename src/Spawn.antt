-- ===== src/Spawn.antt =====
-- New processes: `add_process` and `add_user_process` of kernel/src/sched.rs, and the ELF headers of
-- kernel/src/elf.rs that the latter reads.
--
-- Not code of the kernel, and so parameters: the page tables and addresses of Paging's `Mapper`, the
-- spinlock of Sched, and the selectors of the crate x86_64. Memory is by the byte, as the one address
-- space in which the kernel runs; a sum of `u64` is taken modulo 2 ^ 64.
pub mod Entry
pub mod Image
pub mod Segment
pub mod Switch
pub mod User
mod ImageTests
mod Tests
use bayos.Base.{
  ℕ, ◌+◌, ◌-◌, ◌*◌, ◌/◌, ◌%◌, ◌^◌, ◌≤◌, ◌<◌, ◌≡◌, Bool, true, false, ◌&&◌, Option, none, some, List,
  [], ◌∷◌, leb, ltb, ◌==◌, if◌then◌else◌, Exec, ok, panic, ◌>>=◌, expect,
}
use bayos.Base.Words.{Memory, write_bytes}
use bayos.Paging.{
  Mapper, MapResult, done, frame_allocation_failed, map_failed, present_writable_user, map_pages,
  page_range,
}
use bayos.Sched.{SpinLock, Sched, Process, ready}
use bayos.Sched as Scheduler

-- `SegmentSelector::new` of an index and a privilege level: the level is in the two low bits.
pub record Selectors : Type 0 where
  pub selector : ℕ → ℕ → ℕ
  pub selector_lem :
      (index rpl : ℕ) → index < 2 ^ 13 → rpl < 4 → selector index rpl ≡ index * 8 + rpl

-- `elf::Header` and `elf::Program`
pub record Header : Type 0 where
  pub e_type : ℕ
  pub e_machine : ℕ
  pub e_version : ℕ
  pub e_entry : ℕ
  pub e_phoff : ℕ
  pub e_shoff : ℕ
  pub e_flags : ℕ
  pub e_ehsize : ℕ
  pub e_phentsize : ℕ
  pub e_phnum : ℕ
  pub e_shentsize : ℕ
  pub e_shnum : ℕ
  pub e_shstrndx : ℕ

pub record Program : Type 0 where
  pub p_type : ℕ
  pub p_flags : ℕ
  pub p_offset : ℕ
  pub p_vaddr : ℕ
  pub p_paddr : ℕ
  pub p_filesz : ℕ
  pub p_memsz : ℕ
  pub p_align : ℕ

-- `flags | RFlags::INTERRUPT_FLAG`, which is bit 9
abbrev pub with_interrupts : ℕ → ℕ
with_interrupts flags = if flags / 2 ^ 9 % 2 == 1 then flags else flags + 2 ^ 9

-- `fill(0)` on `size` bytes: the new kernel stack, and `write_bytes`.
unfoldable pub zero_bytes : Memory → ℕ → ℕ → Memory
zero_bytes mem to size b = if leb to b && ltb b (to + size) then 0 else mem b

-- `copy_nonoverlapping`
unfoldable pub copy_bytes : Memory → ℕ → ℕ → ℕ → Memory
copy_bytes mem from to size b =
    if leb to b && ltb b (to + size) then mem (from + (b - to)) else mem b

-- The five fields of an `InterruptStackFrameValue`, written at `frame`. A selector is two bytes, and
-- what is between it and the next field is left.
unfoldable pub write_frame :
    (frame instruction_pointer code_segment cpu_flags stack_pointer stack_segment : ℕ)
    → Memory
    → Memory
write_frame frame instruction_pointer code_segment cpu_flags stack_pointer stack_segment mem =
    let mem1 = write_bytes 8 mem frame instruction_pointer in
    let mem2 = write_bytes 2 mem1 (frame + 8) code_segment in
    let mem3 = write_bytes 8 mem2 (frame + 16) cpu_flags in
    let mem4 = write_bytes 8 mem3 (frame + 24) stack_pointer in
    write_bytes 2 mem4 (frame + 32) stack_segment

-- What `add_user_process` does for the bytes of one segment, once its pages are mapped.
unfoldable pub fill_segment : ℕ → Program → Memory → Memory
unfolding zero_bytes copy_bytes
fill_segment efi p mem =
    let copied = copy_bytes mem ((efi + p.p_offset) % 2 ^ 64) p.p_vaddr p.p_memsz in
    if ltb p.p_filesz p.p_memsz
    then zero_bytes copied ((p.p_vaddr + p.p_filesz) % 2 ^ 64) (p.p_memsz - p.p_filesz)
    else copied

-- What the two functions change.
pub record Kernel (k : SpinLock) (m : Mapper) : Type 0 where
  pub table : m.Table
  pub frames : m.Frames
  pub mem : Memory
  pub sched : Sched k

module _ (k : SpinLock) (g : Selectors) where
  -- `add_process`: `kernel_stack` is where `Box::new` puts the stack, `flags` what `rflags::read`
  -- returns, `entry` the address of the function.
  unfoldable pub add_process :
      (entry kernel_stack flags : ℕ) → Memory → Sched k → Exec (Memory × Sched k)
  add_process entry kernel_stack flags mem s = do
    let mem' =
        write_frame (kernel_stack + 120) entry (g.selector 1 0) (with_interrupts flags)
          (kernel_stack + 0x4000) (g.selector 2 0) (zero_bytes mem kernel_stack 0x4000)
    s' ←
        Scheduler.push k
          (record {
            id = 1;
            status = ready;
            rsp = kernel_stack;
            kernel_stack = some kernel_stack;
            mapper = none;
            pages = none;
          })
          s
    ok (mem', s')

module _ (k : SpinLock) (m : Mapper) (g : Selectors) where
  -- The state with the page tables and the frames that a mapping loop leaves, or its error.
  abbrev pub with_tables : Kernel k m → MapResult (m.Table × m.Frames) → MapResult (Kernel k m)
  with_tables s frame_allocation_failed = frame_allocation_failed
  with_tables s map_failed = map_failed
  with_tables s (done (t, f)) = done (record s { table = t; frames = f })

  -- One round of the loop over the program headers. An error of the mapping loop is returned.
  unfoldable pub load_segment : ℕ → Program → Kernel k m → Exec (MapResult (Kernel k m))
  load_segment efi p s = elim (p.p_type == 1) [
    | false ↦ ok (done s)
    | true ↦ do
      start ← expect (m.virt p.p_vaddr)
      end ← expect (m.virt ((p.p_vaddr + p.p_memsz + 2 ^ 64 - 1) % 2 ^ 64))
      ok (
          with_tables (record s { mem = fill_segment efi p s.mem })
            (map_pages m (page_range m start end) present_writable_user s.table s.frames))
  ]

  -- `?`: an error ends the function, and a result is passed on.
  abbrev pub and_then :
      MapResult (Kernel k m)
      → (Kernel k m → Exec (MapResult (Kernel k m)))
      → Exec (MapResult (Kernel k m))
  and_then frame_allocation_failed f = ok frame_allocation_failed
  and_then map_failed f = ok map_failed
  and_then (done s) f = f s

  unfoldable pub load_segments : ℕ → List Program → Kernel k m → Exec (MapResult (Kernel k m))
  load_segments efi [] s = ok (done s)
  load_segments efi (p ∷ ps) s = do
    loaded ← load_segment efi p s
    and_then loaded (load_segments efi ps)

  -- The end of `add_user_process`, once the pages of the stack are mapped: the frame, the word of the
  -- thread's control block, and the process. `mapper` stands for the shared page tables.
  unfoldable pub enter_process :
      (e_entry flags mapper : ℕ) → Kernel k m → Exec (MapResult (Kernel k m))
  enter_process e_entry flags mapper s = do
    entry ← expect (m.virt e_entry)
    let stack = 0x200000 - 0x4000
    let mem' =
        write_frame (stack + 120 + 8) entry (g.selector 6 3) (with_interrupts flags) 0x200000
          (g.selector 5 3) s.mem
    s' ←
        Scheduler.push k
          (record {
            id = 2;
            status = ready;
            rsp = stack + 8;
            kernel_stack = none;
            mapper = some mapper;
            pages = some 0x100_000_000;
          })
          s.sched
    ok (done (record s { mem = write_bytes 8 mem' stack (0x200000 - 0x4000); sched = s' }))

  -- The mapping of the stack's five pages, and what follows it.
  unfoldable pub map_stack : (e_entry flags mapper : ℕ) → Kernel k m → Exec (MapResult (Kernel k m))
  map_stack e_entry flags mapper s = do
    start ← expect (m.virt (0x200000 - 0x5000))
    end ← expect (m.virt (0x200000 - 1))
    and_then
        (with_tables s
          (map_pages m (page_range m start end) present_writable_user s.table s.frames))
        (enter_process e_entry flags mapper)

  -- `add_user_process` of a program at `efi` that begins with the header, whose `e_phnum` program
  -- headers at `e_phoff` are those of the list.
  unfoldable pub add_user_process :
      (efi : ℕ) (elf_header : Header) (elf_programs : List Program) (flags mapper : ℕ)
      → Kernel k m
      → Exec (MapResult (Kernel k m))
  add_user_process efi elf_header elf_programs flags mapper s = do
    loaded ← load_segments efi elf_programs s
    and_then loaded (map_stack elf_header.e_entry flags mapper)
