-- ===== src/Gdt/Table.antt =====
-- The selectors that the table gives are those that the rest of the kernel counts on.
use bayos.Base.{
  ℕ, ◌+◌, ◌-◌, ◌*◌, ◌/◌, ◌%◌, ◌^◌, ◌≤◌, ◌<◌, ◌≡◌, refl, sym, ap, ◌∙◌, none, some, ◌==◌,
  if◌then◌else◌, arith, ok, panic,
}
use bayos.Gdt.{
  Descriptor, kernel_code_segment, kernel_data_segment, tss_segment, user_data_segment,
  user_code_segment, DescriptorTable, entries, Selectors, gdt, syscall_init, Registers,
  StarRegister, privilege,
}
use bayos.Spawn as Spawn

-- The selectors of the table, by their indices and privilege levels.
abbrev pub selectors : Selectors
selectors = record {
  code_selector = 8;
  data_selector = 16;
  tss_selector = 24;
  user_data_selector = 43;
  user_code_selector = 51;
}

module _ (g : DescriptorTable) where
  -- Each selector is that of the segment that it is named after.
  pub record IsLoaded (t : g.Table) : Type 0 where
    pub code : g.descriptor t (selectors.code_selector / 8) ≡ some kernel_code_segment
    pub data_segment : g.descriptor t (selectors.data_selector / 8) ≡ some kernel_data_segment
    pub task_state : g.descriptor t (selectors.tss_selector / 8) ≡ some tss_segment
    pub user_data : g.descriptor t (selectors.user_data_selector / 8) ≡ some user_data_segment
    pub user_code : g.descriptor t (selectors.user_code_selector / 8) ≡ some user_code_segment

  append_at :
      (t : g.Table) (d : Descriptor) (n : ℕ)
      → g.used t ≡ n
      → n + entries d ≤ 8
      → (t' : g.Table) × (g.append t d ≡ some (n * 8 + privilege d, t'))
        × (g.used t' ≡ n + entries d)
        × (g.descriptor t' n ≡ some d)
        × ((i : ℕ) → i < n → g.descriptor t' i ≡ g.descriptor t i)
  append_at t d n at_n room =
      let (t', run, more, here, kept) = g.append_room t d (omega (arith, at_n)) in
      (
        t',
        run ∙ ap (λ m. some (m * 8 + privilege d, t')) at_n,
        omega (arith, more, at_n),
        ap (g.descriptor t') (sym at_n) ∙ here,
        λ i h. kept i (omega (arith, at_n, h)),
      )

  -- The table has room for the five segments, so there is no panic; the selectors are 8, 16, 24,
  -- 43 and 51, each of its own segment, and one of the eight entries is left.
  pub gdt_lem : (t : g.Table) × (gdt g ≡ ok (t, selectors)) × (g.used t ≡ 7) × IsLoaded t
  unfolding gdt
  gdt_lem =
      let (t1, run1, n1, at1, kept1) =
        append_at g.new kernel_code_segment 1 g.used_new (omega arith) in
      let (t2, run2, n2, at2, kept2) = append_at t1 kernel_data_segment 2 n1 (omega arith) in
      let (t3, run3, n3, at3, kept3) = append_at t2 tss_segment 3 n2 (omega arith) in
      let (t4, run4, n4, at4, kept4) = append_at t3 user_data_segment 5 n3 (omega arith) in
      let (t5, run5, n5, at5, kept5) = append_at t4 user_code_segment 6 n4 (omega arith) in
      let to5 : (i : ℕ) → i < 5 → g.descriptor t5 i ≡ g.descriptor t3 i =
        λ i h. kept5 i (omega (arith, h)) ∙ kept4 i h in
      (
        t5,
        rw run1 (rw run2 (rw run3 (rw run4 (rw run5)))),
        n5,
        record {
          code = to5 1 (omega arith) ∙ kept3 1 (omega arith) ∙ kept2 1 (omega arith) ∙ at1;
          data_segment = to5 2 (omega arith) ∙ kept3 2 (omega arith) ∙ at2;
          task_state = to5 3 (omega arith) ∙ at3;
          user_data = kept5 5 (omega arith) ∙ at4;
          user_code = at5;
        },
      )

-- The segments that a process is started with are those of the table: what `SegmentSelector::new` gives
-- for the indices in kernel/src/sched.rs are the selectors of the kernel's segments, for a process of
-- the kernel, and of the user's, for a program.
selector-selectors :
    (s : Spawn.Selectors)
    → (s.selector 1 0 ≡ selectors.code_selector)
      × (s.selector 2 0 ≡ selectors.data_selector)
      × (s.selector 6 3 ≡ selectors.user_code_selector)
      × (s.selector 5 3 ≡ selectors.user_data_selector)
selector-selectors s = (
  s.selector_lem 1 0 (omega arith) (omega arith),
  s.selector_lem 2 0 (omega arith) (omega arith),
  s.selector_lem 6 3 (omega arith) (omega arith),
  s.selector_lem 5 3 (omega arith) (omega arith),
)

-- What `sysretq` loads from the register: the code and the stack segment, both of the level 3.
abbrev pub sysret_code : ℕ → ℕ
sysret_code star = star / 2 ^ 48 + 16

abbrev pub sysret_stack : ℕ → ℕ
sysret_stack star = star / 2 ^ 48 + 8

-- What `syscall` loads: the code and the stack segment.
abbrev pub syscall_code : ℕ → ℕ
syscall_code star = star / 2 ^ 32 % 2 ^ 16

abbrev pub syscall_stack : ℕ → ℕ
syscall_stack star = star / 2 ^ 32 % 2 ^ 16 + 8

-- The registers after the set-up.
pub record IsInstalled {F : Type 0} (entry : ℕ) (frame_allocator : F) (regs regs' : Registers F)
    : Type 0 where
  pub enabled : regs'.efer % 2 ≡ 1
  pub other_bits : regs'.efer / 2 ≡ regs.efer / 2
  pub entry_point : regs'.lstar ≡ entry
  pub user_code : sysret_code regs'.star ≡ selectors.user_code_selector
  pub user_stack : sysret_stack regs'.star ≡ selectors.user_data_selector
  pub kernel_code : syscall_code regs'.star ≡ selectors.code_selector
  pub kernel_stack : syscall_stack regs'.star ≡ selectors.data_selector
  pub thread_block : regs'.fs_base ≡ 0x200000 - 0x4000
  pub shared : regs'.frame_allocator ≡ some frame_allocator

-- At its first call, the set-up of system calls takes the selectors of the table without a panic:
-- system calls are on, they go to `entry`, `syscall` and `sysretq` load the table's segments, the
-- thread's block is where a new process has its word for it, and the frames are shared.
pub syscall_init_lem :
    {F : Type 0} (r : StarRegister) (entry : ℕ) (frame_allocator : F) (regs : Registers F)
    → regs.frame_allocator ≡ none
    → (regs' : Registers F) × (syscall_init r selectors entry frame_allocator regs ≡ ok regs')
      × IsInstalled entry frame_allocator regs regs'
unfolding syscall_init
syscall_init_lem r entry frame_allocator regs first =
    let star = r.star_write_lem 51 43 8 16 refl refl refl refl (omega arith) in
    (
      record {
        efer = if regs.efer % 2 == 1 then regs.efer else regs.efer + 1;
        lstar = entry;
        star = (43 - 8) * 2 ^ 48 + 8 * 2 ^ 32;
        fs_base = 0x1fc000;
        frame_allocator = some frame_allocator;
      },
      rw (syscall_init, star, first),
      record {
        enabled = ground arith;
        other_bits = ground arith;
        entry_point = refl;
        user_code = refl;
        user_stack = refl;
        kernel_code = refl;
        kernel_stack = refl;
        thread_block = refl;
        shared = refl;
      },
    )

-- A second call panics, as the frames are shared already.
syscall_init_panics :
    {F : Type 0} (r : StarRegister) (entry : ℕ) (frame_allocator old : F) (regs : Registers F)
    → regs.frame_allocator ≡ some old
    → syscall_init r selectors entry frame_allocator regs ≡ panic
unfolding syscall_init
syscall_init_panics r entry frame_allocator old regs again =
    let star = r.star_write_lem 51 43 8 16 refl refl refl refl (omega arith) in
    rw (syscall_init, star, again)
