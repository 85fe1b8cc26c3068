-- ===== src/Spawn/Entry.antt =====
-- A new process starts at its entry point: its first switch takes the frame that was written for it.
use bayos.Base.{
  ℕ, ◌+◌, ◌%◌, ◌^◌, ◌≤◌, ◌<◌, ◌≡◌, refl, ap, ◌∙◌, ◌⊎◌, inl, inr, none, some, [], ◌∷◌, ◌++◌, arith,
  ok,
}
use bayos.Base.Words.{
  Memory, word, write_bytes, word-write_bytes, word-write_bytes_off, word-write_bytes_two,
}
use bayos.Sched.{SpinLock, Sched, Process, ready, push}
use bayos.Sched.Tick.{IsFree}
use bayos.Spawn.{Selectors, with_interrupts, zero_bytes, write_frame, add_process}

-- The words at `frame` are those with which `iretq` goes to `entry` in the segment `code`, with the
-- flags, the stack pointer `top` and the stack segment `stack`.
pub record IsEntry (mem : Memory) (frame entry code flags top stack : ℕ) : Type 0 where
  pub instruction_pointer : word mem frame ≡ entry
  pub code_segment : word mem (frame + 8) % 2 ^ 16 ≡ code
  pub cpu_flags : word mem (frame + 16) ≡ flags
  pub stack_pointer : word mem (frame + 24) ≡ top
  pub stack_segment : word mem (frame + 32) % 2 ^ 16 ≡ stack

module _ (mem : Memory) (frame entry code flags top stack : ℕ) where
  pub write_frame-IsEntry :
      entry < 2 ^ 64
      → code < 2 ^ 16
      → flags < 2 ^ 64
      → top < 2 ^ 64
      → stack < 2 ^ 16
      → IsEntry (write_frame frame entry code flags top stack mem) frame entry code flags top stack
  unfolding write_frame
  write_frame-IsEntry he hc hf ht hd = record {
    instruction_pointer =
        word-write_bytes_off 2 mem4 (frame + 32) stack frame (inl (omega arith))
        ∙ word-write_bytes_off 8 mem3 (frame + 24) top frame (inl (omega arith))
        ∙ word-write_bytes_off 8 mem2 (frame + 16) flags frame (inl (omega arith))
        ∙ word-write_bytes_off 2 mem1 (frame + 8) code frame (inl (omega arith))
        ∙ word-write_bytes mem frame entry he;
    code_segment =
        ap (λ w. w % 2 ^ 16)
          (word-write_bytes_off 2 mem4 (frame + 32) stack (frame + 8) (inl (omega arith))
            ∙ word-write_bytes_off 8 mem3 (frame + 24) top (frame + 8) (inl (omega arith))
            ∙ word-write_bytes_off 8 mem2 (frame + 16) flags (frame + 8) (inl (omega arith)))
        ∙ word-write_bytes_two mem1 (frame + 8) code hc;
    cpu_flags =
        word-write_bytes_off 2 mem4 (frame + 32) stack (frame + 16) (inl (omega arith))
        ∙ word-write_bytes_off 8 mem3 (frame + 24) top (frame + 16) (inl (omega arith))
        ∙ word-write_bytes mem2 (frame + 16) flags hf;
    stack_pointer =
        word-write_bytes_off 2 mem4 (frame + 32) stack (frame + 24) (inl (omega arith))
        ∙ word-write_bytes mem3 (frame + 24) top ht;
    stack_segment = word-write_bytes_two mem4 (frame + 32) stack hd;
  }
    where
      mem1 : Memory
      mem1 = write_bytes 8 mem frame entry

      mem2 : Memory
      mem2 = write_bytes 2 mem1 (frame + 8) code

      mem3 : Memory
      mem3 = write_bytes 8 mem2 (frame + 16) flags

      mem4 : Memory
      mem4 = write_bytes 8 mem3 (frame + 24) top

  -- Bytes below the frame are left, and those above it.
  pub write_frame-off :
      (a : ℕ)
      → (a < frame) ⊎ (frame + 40 ≤ a)
      → write_frame frame entry code flags top stack mem a ≡ mem a
  unfolding write_frame write_bytes
  write_frame-off a h = ground arith

-- A word that is written below the frame leaves it.
pub IsEntry-write_bytes :
    (mem : Memory) (frame entry code flags top stack a v : ℕ)
    → a + 8 ≤ frame
    → IsEntry mem frame entry code flags top stack
    → IsEntry (write_bytes 8 mem a v) frame entry code flags top stack
IsEntry-write_bytes mem frame entry code flags top stack a v below e = record {
  instruction_pointer = word-write_bytes_off 8 mem a v frame (inr below) ∙ e.instruction_pointer;
  code_segment = ap (λ w. w % 2 ^ 16) (left 8) ∙ e.code_segment;
  cpu_flags = left 16 ∙ e.cpu_flags;
  stack_pointer = left 24 ∙ e.stack_pointer;
  stack_segment = ap (λ w. w % 2 ^ 16) (left 32) ∙ e.stack_segment;
}
  where
    left : (i : ℕ) → word (write_bytes 8 mem a v) (frame + i) ≡ word mem (frame + i)
    left i = word-write_bytes_off 8 mem a v (frame + i) (inr (omega arith))

pub with_interrupts-small : (flags : ℕ) → flags < 2 ^ 64 → with_interrupts flags < 2 ^ 64
with_interrupts-small flags h = ground arith

-- What `add_process` appends to the list.
abbrev pub kernel_process : ℕ → Process
kernel_process kernel_stack = record {
  id = 1;
  status = ready;
  rsp = kernel_stack;
  kernel_stack = some kernel_stack;
  mapper = none;
  pages = none;
}

-- A kernel process that begins at `entry` on its own stack: it is behind the others in the list, the
-- frame is that of ring 0, the registers to be restored are 0, and no other byte is written.
pub record IsAdded (k : SpinLock) (entry kernel_stack flags : ℕ) (mem mem' : Memory)
    (s s' : Sched k) : Type 0 where
  pub listed : s'.process_list ≡ s.process_list ++ kernel_process kernel_stack ∷ []
  pub free : IsFree k s'
  pub entry_frame :
      IsEntry mem' (kernel_stack + 120) entry 8 (with_interrupts flags) (kernel_stack + 0x4000) 16
  pub registers : (a : ℕ) → kernel_stack ≤ a → a < kernel_stack + 120 → mem' a ≡ 0
  pub others : (a : ℕ) → (a < kernel_stack) ⊎ (kernel_stack + 0x4000 ≤ a) → mem' a ≡ mem a

-- With the locks free and a stack below 2 ^ 64, `add_process` returns, and adds a process that begins at
-- its entry point with interrupts on, in ring 0, at the top of its own stack, with its registers 0;
-- no byte outside that stack is written.
pub add_process_lem :
    (k : SpinLock) (g : Selectors) (entry kernel_stack flags : ℕ) (mem : Memory) (s : Sched k)
    → IsFree k s
    → entry < 2 ^ 64
    → flags < 2 ^ 64
    → kernel_stack + 0x4000 < 2 ^ 64
    → (mem' : Memory) × (s' : Sched k) × (add_process k g entry kernel_stack flags mem s
        ≡ ok (mem', s'))
      × IsAdded k entry kernel_stack flags mem mem' s s'
unfolding add_process push zero_bytes
add_process_lem k g entry kernel_stack flags mem s free he hf hs =
    let (held, locks, unlocks) = k.lock_unlocked in
    let mem' =
      write_frame (kernel_stack + 120) entry (g.selector 1 0) (with_interrupts flags)
        (kernel_stack + 0x4000) (g.selector 2 0) (zero_bytes mem kernel_stack 0x4000) in
    (
      mem',
      record s {
        process_list = s.process_list ++ kernel_process kernel_stack ∷ [];
        list_lock = k.unlock held;
      },
      ground (arith, free.list_free, locks),
      record {
        listed = refl;
        free = record { list_free = unlocks; current_free = free.current_free };
        entry_frame = entry_frame;
        registers =
            λ a h l. write_frame-off _ (kernel_stack + 120) _ _ _ _ _ a (inl l) ∙ ground arith;
        others = λ a out.
            write_frame-off _ (kernel_stack + 120) _ _ _ _ _ a (outside a out) ∙ ground arith;
      },
    )
  where
    outside :
        (a : ℕ)
        → (a < kernel_stack) ⊎ (kernel_stack + 0x4000 ≤ a)
        → (a < kernel_stack + 120) ⊎ (kernel_stack + 120 + 40 ≤ a)
    outside a (inl below) = inl (omega arith)
    outside a (inr above) = inr (omega arith)

    code : g.selector 1 0 ≡ 8
    code = g.selector_lem 1 0 (omega arith) (omega arith)

    stack : g.selector 2 0 ≡ 16
    stack = g.selector_lem 2 0 (omega arith) (omega arith)

    entry_frame :
        IsEntry
          (write_frame
            (kernel_stack + 120)
            entry
            (g.selector 1 0)
            (with_interrupts flags)
            (kernel_stack + 0x4000)
            (g.selector 2 0)
            (zero_bytes mem kernel_stack 0x4000))
          (kernel_stack + 120)
          entry
          8
          (with_interrupts flags)
          (kernel_stack + 0x4000)
          16
    entry_frame =
        rw (code, stack)
          (write_frame-IsEntry (zero_bytes mem kernel_stack 0x4000) (kernel_stack + 120) entry 8
            (with_interrupts flags) (kernel_stack + 0x4000) 16 he (omega arith)
            (with_interrupts-small flags hf) hs (omega arith))
