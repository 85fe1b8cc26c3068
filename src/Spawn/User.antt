-- ===== src/Spawn/User.antt =====
-- `add_user_process`: where it succeeds, the process is in the list and begins at the program's entry.
use bayos.Base.{
  ℕ, ◌+◌, ◌-◌, ◌%◌, ◌^◌, ◌≤◌, ◌<◌, ◌≡◌, refl, sym, ap, subst, ◌∙◌, inl, inr, false, Option-cases,
  Bool-cases, none, some, List, [], ◌∷◌, ◌++◌, ◌==◌, arith, Exec, ok, panic, hang, out_of_fuel,
  ◌>>=◌,
}
use bayos.Base.Words.{word, write_bytes, word-write_bytes}
use bayos.Sched.{SpinLock, Process, ready, push}
use bayos.Sched.Tick.{IsFree}
use bayos.Paging.{
  Mapper, MapResult, done, frame_allocation_failed, map_failed, present_writable_user, map_pages,
  page_range,
}
use bayos.Spawn.{
  Selectors, Header, Program, Kernel, with_interrupts, write_frame, fill_segment, load_segment,
  load_segments, and_then, with_tables, enter_process, map_stack, add_user_process,
}
use bayos.Spawn.Entry.{IsEntry, IsEntry-write_bytes, write_frame-IsEntry, with_interrupts-small}
use bayos.Paging.Loop.{IsNew, page_of, map_pages_lem, page_range-covers}

module _ (k : SpinLock) (m : Mapper) (g : Selectors) where
  -- A result that is passed on by `?` is that of the rest.
  and_then-done :
      (x : Exec (MapResult (Kernel k m))) (f : Kernel k m → Exec (MapResult (Kernel k m)))
      (s' : Kernel k m)
      → (x >>= λ r. and_then k m g r f) ≡ ok (done s')
      → (s1 : Kernel k m) × (x ≡ ok (done s1)) × (f s1 ≡ ok (done s'))
  and_then-done (ok (done s1)) f s' e = (s1, refl, e)
  and_then-done (ok frame_allocation_failed) f s' e = ground arith
  and_then-done (ok map_failed) f s' e = ground arith
  and_then-done panic f s' e = ground arith
  and_then-done hang f s' e = ground arith
  and_then-done out_of_fuel f s' e = ground arith

  with_tables-sched :
      (s s' : Kernel k m) (r : MapResult (m.Table × m.Frames))
      → ok (with_tables k m g s r) ≡ ok (done s')
      → s'.sched ≡ s.sched
  with_tables-sched s s' frame_allocation_failed e = ground arith
  with_tables-sched s s' map_failed e = ground arith
  with_tables-sched s s' (done (t, f)) e =
      let same : record s { table = t; frames = f } ≡ s' = cc in ap (λ a. a.sched) (sym same)

  load_segment-sched :
      (efi : ℕ) (p : Program) (s s' : Kernel k m)
      → load_segment k m g efi p s ≡ ok (done s')
      → s'.sched ≡ s.sched
  unfolding load_segment
  load_segment-sched efi p s s' e = elim (Bool-cases (p.p_type == 1)) [
    | inr other ↦ ap (λ a. a.sched) (unchanged other)
    | inl load ↦ elim (Option-cases (m.virt p.p_vaddr)) [
      | inl bad ↦ ground arith
      | inr (start, v) ↦
          elim (Option-cases (m.virt ((p.p_vaddr + p.p_memsz + 2 ^ 64 - 1) % 2 ^ 64))) [
            | inl bad ↦ ground arith
            | inr (end, w) ↦
                let computed : load_segment k m g efi p s
                    ≡ ok (
                        with_tables k m g (record s { mem = fill_segment efi p s.mem })
                          (map_pages m (page_range m start end) present_writable_user s.table
                            s.frames)) =
                  rw (load, load_segment, v, w) in
                with_tables-sched (record s { mem = fill_segment efi p s.mem }) s'
                  (map_pages m (page_range m start end) present_writable_user s.table s.frames)
                  (sym computed ∙ e)
          ]
    ]
  ]
    where
      unchanged : (p.p_type == 1) ≡ false → s' ≡ s
      unchanged other = ground arith

  load_segments-sched :
      (efi : ℕ) (ps : List Program) (s s' : Kernel k m)
      → load_segments k m g efi ps s ≡ ok (done s')
      → s'.sched ≡ s.sched
  unfolding load_segments
  load_segments-sched efi [] s s' e = let same : s ≡ s' = cc in ap (λ a. a.sched) (sym same)
  load_segments-sched efi (p ∷ ps) s s' e =
      let (s1, one, rest) =
        and_then-done (load_segment k m g efi p s) (load_segments k m g efi ps) s' e in
      load_segments-sched efi ps s1 s' rest ∙ load_segment-sched efi p s s1 one

  -- What `add_user_process` appends to the list.
  abbrev pub user_process : ℕ → Process
  user_process mapper = record {
    id = 2;
    status = ready;
    rsp = 0x1fc008;
    kernel_stack = none;
    mapper = some mapper;
    pages = some 0x100_000_000;
  }

  -- A user process that begins at `entry`: it is behind the others in the list, the frame above its
  -- saved registers is that of ring 3, the word at the foot of its stack is its own address, and the
  -- pages of the stack are mapped for users.
  pub record IsUser (entry flags mapper : ℕ) (s s' : Kernel k m) : Type 0 where
    pub listed : s'.sched.process_list ≡ s.sched.process_list ++ user_process mapper ∷ []
    pub free : IsFree k s'.sched
    pub entry_frame : IsEntry s'.mem (0x1fc008 + 120) entry 51 (with_interrupts flags) 0x200000 43
    pub tcb : word s'.mem 0x1fc000 ≡ 0x1fc000
    pub stack :
        (a : ℕ)
        → 0x1fb000 ≤ a
        → a < 0x200000
        → (f : m.Frame) × (m.lookup s'.table (page_of a) ≡ some (f, present_writable_user))

  -- The state that `enter_process` leaves.
  abbrev entered : (entry flags mapper : ℕ) → (s : Kernel k m) → Kernel k m
  entered entry flags mapper s = record s {
    mem =
        write_bytes 8
          (write_frame (0x1fc000 + 120 + 8) entry (g.selector 6 3) (with_interrupts flags) 0x200000
            (g.selector 5 3) s.mem)
          0x1fc000 0x1fc000;
    sched = record s.sched {
      process_list = s.sched.process_list ++ user_process mapper ∷ [];
      list_lock = k.unlocked;
    };
  }

  enter_process-entered :
      (entry flags mapper : ℕ) (s : Kernel k m)
      → IsFree k s.sched
      → entry < 2 ^ 47
      → enter_process k m g entry flags mapper s ≡ ok (done (entered entry flags mapper s))
  unfolding enter_process push
  enter_process-entered entry flags mapper s free low =
      let (held, locks, unlocks) = k.lock_unlocked in
      ground (arith, m.virt_low entry low, free.list_free, locks, unlocks)

  abbrev stack_range : List ℕ
  stack_range = page_range m 0x1fb000 0x1fffff

  map_stack-computes :
      (entry flags mapper : ℕ) (s : Kernel k m)
      → map_stack k m g entry flags mapper s
        ≡ and_then k m g
            (with_tables k m g s (map_pages m stack_range present_writable_user s.table s.frames))
            (enter_process k m g entry flags mapper)
  unfolding map_stack
  map_stack-computes entry flags mapper s =
      rw (m.virt_low 0x1fb000 (omega arith), m.virt_low 0x1fffff (omega arith))

  -- The stack's pages are mapped for users, from those of `s` to those of `s'`.
  mapped-IsUser :
      (entry flags mapper : ℕ) (s s1 s' : Kernel k m) (r : MapResult (m.Table × m.Frames))
      → IsFree k s.sched
      → entry < 2 ^ 47
      → flags < 2 ^ 64
      → s1.sched ≡ s.sched
      → map_pages m stack_range present_writable_user s1.table s1.frames ≡ r
      → and_then k m g (with_tables k m g s1 r) (enter_process k m g entry flags mapper)
        ≡ ok (done s')
      → IsUser entry flags mapper s s'
  mapped-IsUser entry flags mapper s s1 s' frame_allocation_failed free low small same mapped e =
      ground arith
  mapped-IsUser entry flags mapper s s1 s' map_failed free low small same mapped e = ground arith
  mapped-IsUser entry flags mapper s s1 s' (done (t, f)) free low small same mapped e =
      subst (IsUser entry flags mapper s) final (record {
        listed = ap (λ a. a.process_list ++ user_process mapper ∷ []) same;
        free = record {
          list_free = refl;
          current_free = ap (λ a. a.current_lock) same ∙ free.current_free;
        };
        entry_frame =
            IsEntry-write_bytes _ 0x1fc080 entry 51 _ 0x200000 43 0x1fc000 0x1fc000 (omega arith)
              frame_there;
        tcb = word-write_bytes _ 0x1fc000 0x1fc000 (omega arith);
        stack = stack;
      })
    where
      code : g.selector 6 3 ≡ 51
      code = g.selector_lem 6 3 (omega arith) (omega arith)

      data_segment : g.selector 5 3 ≡ 43
      data_segment = g.selector_lem 5 3 (omega arith) (omega arith)

      frame_there :
          IsEntry
            (write_frame 0x1fc080 entry
              (g.selector 6 3)
              (with_interrupts flags)
              0x200000
              (g.selector 5 3)
              s1.mem)
            0x1fc080
            entry
            51
            (with_interrupts flags)
            0x200000
            43
      frame_there =
          rw (code, data_segment)
            (write_frame-IsEntry s1.mem 0x1fc080 entry 51 (with_interrupts flags) 0x200000 43
              (omega arith) (omega arith) (with_interrupts-small flags small) (omega arith)
              (omega arith))

      ready_state : Kernel k m
      ready_state = record s1 { table = t; frames = f }

      free' : IsFree k s1.sched
      free' = subst (IsFree k) (sym same) free

      final : entered entry flags mapper ready_state ≡ s'
      final =
          let both : ok (done (entered entry flags mapper ready_state)) ≡ ok (done s') =
            sym (enter_process-entered entry flags mapper ready_state free' low) ∙ e in
          cc both

      stack :
          (a : ℕ)
          → 0x1fb000 ≤ a
          → a < 0x200000
          → (frame : m.Frame) × (m.lookup t (page_of a) ≡ some (frame, present_writable_user))
      stack a from to =
          let maps =
            map_pages_lem m present_writable_user stack_range s1.table t s1.frames f mapped in
          let new =
            page_range-covers m (IsNew m present_writable_user s1.table t) 0x1fb000 0x1fffff
              maps.each a from (omega arith) in
          (new.frame, new.after)

  -- Where `add_user_process` succeeds, with the locks free, for a program that begins in the lower half:
  -- one process is added, behind the others, that begins at the header's entry point with interrupts
  -- on, in ring 3, with the stack pointer at 0x200000; all the pages of its stack are mapped for users,
  -- and the word at the foot of its stack is its own address.
  pub add_user_process_lem :
      (efi : ℕ) (elf_header : Header) (elf_programs : List Program) (flags mapper : ℕ)
      (s s' : Kernel k m)
      → IsFree k s.sched
      → elf_header.e_entry < 2 ^ 47
      → flags < 2 ^ 64
      → add_user_process k m g efi elf_header elf_programs flags mapper s ≡ ok (done s')
      → IsUser elf_header.e_entry flags mapper s s'
  unfolding add_user_process
  add_user_process_lem efi elf_header elf_programs flags mapper s s' free low small e =
      let (s1, loads, rest) =
        and_then-done (load_segments k m g efi elf_programs s)
          (map_stack k m g elf_header.e_entry flags mapper) s' e in
      mapped-IsUser elf_header.e_entry flags mapper s s1 s'
        (map_pages m stack_range present_writable_user s1.table s1.frames) free low small
        (load_segments-sched efi elf_programs s s1 loads) refl
        (sym (map_stack-computes elf_header.e_entry flags mapper s1) ∙ rest)
