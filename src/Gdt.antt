-- ===== src/Gdt.antt =====
-- The segments of the kernel, kernel/src/gdt.rs, and the set-up of system calls, `init` of
-- kernel/src/syscall.rs, which uses their selectors.
--
-- Not code of the kernel, and so parameters with what their documentation says: the descriptor table
-- of the crate x86_64, in `DescriptorTable`, and its write of the register that holds the bases of the
-- selectors, in `StarRegister`. The registers of the processor are the fields of `Segments` and
-- `Registers`.
pub mod Table
mod Tests
use bayos.Base.{
  ℕ, ◌+◌, ◌-◌, ◌*◌, ◌/◌, ◌%◌, ◌^◌, ◌≤◌, ◌<◌, ◌≡◌, Option, none, some, ◌==◌, if◌then◌else◌, Exec, ok,
  panic, ◌>>=◌, expect,
}
use bayos.Machine.{store}

-- The descriptors that the kernel appends.
pub data Descriptor : Type 0 where
  kernel_code_segment kernel_data_segment tss_segment user_data_segment user_code_segment :
      Descriptor

-- A system segment takes two entries, and the user's segments have the privilege level 3.
abbrev pub entries : Descriptor → ℕ
entries tss_segment = 2
entries d = 1

abbrev pub privilege : Descriptor → ℕ
privilege user_data_segment = 3
privilege user_code_segment = 3
privilege d = 0

-- `GlobalDescriptorTable`: it begins with the null descriptor, has room for eight entries, and gives
-- the selector of the entry that it appends behind those in use, which stay.
pub record DescriptorTable : Type 1 where
  pub Table : Type 0
  pub new : Table
  pub used : Table → ℕ
  pub descriptor : Table → ℕ → Option Descriptor
  pub append : Table → Descriptor → Option (ℕ × Table)
  pub used_new : used new ≡ 1
  pub append_room :
      (t : Table) (d : Descriptor)
      → used t + entries d ≤ 8
      → (t' : Table) × (append t d ≡ some (used t * 8 + privilege d, t'))
        × (used t' ≡ used t + entries d)
        × (descriptor t' (used t) ≡ some d)
        × ((i : ℕ) → i < used t → descriptor t' i ≡ descriptor t i)

-- `Selectors`
pub record Selectors : Type 0 where
  pub code_selector : ℕ
  pub data_selector : ℕ
  pub tss_selector : ℕ
  pub user_data_selector : ℕ
  pub user_code_selector : ℕ

-- The two tables of stacks of the task state segment.
pub record TaskStateSegment : Type 0 where
  pub privilege_stack_table : ℕ → ℕ
  pub interrupt_stack_table : ℕ → ℕ

-- `STACK_SIZE` of both stacks, and `DOUBLE_FAULT_IST_INDEX`.
abbrev pub stack_size : ℕ
stack_size = 4096 * 5

abbrev pub double_fault_ist_index : ℕ
double_fault_ist_index = 0

-- `TSS`, for the addresses of the two stacks.
unfoldable pub tss : (privilege_stack interrupt_stack : ℕ) → TaskStateSegment
tss privilege_stack interrupt_stack = record {
  privilege_stack_table = store (λ i. 0) 0 (privilege_stack + stack_size);
  interrupt_stack_table = store (λ i. 0) double_fault_ist_index (interrupt_stack + stack_size);
}

-- The segment registers, with the task register.
pub record Segments : Type 0 where
  pub cs : ℕ
  pub es : ℕ
  pub ss : ℕ
  pub ds : ℕ
  pub fs : ℕ
  pub gs : ℕ
  pub tr : ℕ

-- `init` of kernel/src/gdt.rs
unfoldable pub init : Selectors → Segments
init s = record {
  cs = s.code_selector;
  es = s.data_selector;
  ss = s.data_selector;
  ds = s.data_selector;
  fs = s.data_selector;
  gs = s.data_selector;
  tr = s.tss_selector;
}

module _ (g : DescriptorTable) where
  -- `GDT`: an append to a full table panics.
  unfoldable pub gdt : Exec (g.Table × Selectors)
  gdt = do
    (code_selector, t1) ← expect (g.append g.new kernel_code_segment)
    (data_selector, t2) ← expect (g.append t1 kernel_data_segment)
    (tss_selector, t3) ← expect (g.append t2 tss_segment)
    (user_data_selector, t4) ← expect (g.append t3 user_data_segment)
    (user_code_selector, t5) ← expect (g.append t4 user_code_segment)
    ok (
      t5,
      record {
        code_selector = code_selector;
        data_selector = data_selector;
        tss_selector = tss_selector;
        user_data_selector = user_data_selector;
        user_code_selector = user_code_selector;
      },
    )

-- `Star::write`: the value of the register, for the selectors that `sysretq` and `syscall` go to. A
-- return adds 16 to the base for the code and 8 for the stack, and `syscall` adds 0 and 8.
pub record StarRegister : Type 0 where
  pub star_write : (cs_sysret ss_sysret cs_syscall ss_syscall : ℕ) → Option ℕ
  pub star_write_lem :
      (cs_sysret ss_sysret cs_syscall ss_syscall : ℕ)
      → cs_sysret ≡ ss_sysret + 8
      → ss_syscall ≡ cs_syscall + 8
      → ss_sysret % 4 ≡ 3
      → ss_syscall % 4 ≡ 0
      → 8 ≤ ss_sysret
      → star_write cs_sysret ss_sysret cs_syscall ss_syscall
        ≡ some ((ss_sysret - 8) * 2 ^ 48 + cs_syscall * 2 ^ 32)

-- The registers that system calls use, and `FRAME_ALLOCATOR`.
pub record Registers (F : Type 0) : Type 0 where
  pub efer : ℕ
  pub lstar : ℕ
  pub star : ℕ
  pub fs_base : ℕ
  pub frame_allocator : Option F

abbrev pub init_once {ℓ} : {A : Type ℓ} → Option A → A → Option A
init_once none a = some a
init_once (some old) a = none

-- `init` of kernel/src/syscall.rs; `entry` is the address of `syscall_entry`.
unfoldable pub syscall_init :
    {F : Type 0} → StarRegister → Selectors → (entry : ℕ) → F → Registers F → Exec (Registers F)
syscall_init r s entry frame_allocator regs = do
  let efer = if regs.efer % 2 == 1 then regs.efer else regs.efer + 1
  star ←
      expect
        (r.star_write s.user_code_selector s.user_data_selector s.code_selector s.data_selector)
  shared ← expect (init_once regs.frame_allocator frame_allocator)
  ok (record {
    efer = efer;
    lstar = entry;
    star = star;
    fs_base = 0x1fc000;
    frame_allocator = some shared;
  })
