-- ===== src/Calls.antt =====
-- The dispatch of system calls in kernel/src/syscall.rs, over the pipe, the screen and the pages.
--
-- Not code of the kernel, and so parameters: those of Vfs, Framebuffer and Paging; `from_utf8`, which is
-- `none` on bytes that are no text; and `message`, the text that the logger makes of an unknown number.
-- A call reads and writes memory by the byte, at the caller's pointers, which the kernel does not check.
-- The kernel's own structures are fields apart from that memory: the model is of calls whose pointers
-- lead to none of them, and says nothing of a call that overwrites the kernel with its result.
pub mod Read
mod Tests
use bayos.Base.{
  ℕ, zero, suc, ◌+◌, ◌≡◌, Bool, true, false, Option, none, some, List, [], ◌∷◌, ◌==◌, Exec, ok,
  ◌>>=◌, expect,
}
use bayos.Base.Words.{Memory, write_bytes}
use bayos.Framebuffer.{Font, FrameBufferWriter, write_str}
use bayos.Paging.{Mapper, Allocated, anon_allocate_syscall}
use bayos.Sched.{Process}
use bayos.Vfs.{ArrayQueue, Got, read}

-- `from_raw_parts(buf, count)`, and the bytes that a read puts at `buf`.
abbrev pub bytes_at : Memory → ℕ → ℕ → List ℕ
bytes_at mem buf zero = []
bytes_at mem buf (suc count) = mem buf ∷ bytes_at mem (buf + 1) count

unfoldable pub put_bytes : Memory → ℕ → List ℕ → Memory
put_bytes mem buf [] = mem
put_bytes mem buf (b ∷ bs) = put_bytes (write_bytes 1 mem buf b) (buf + 1) bs

-- What system calls read and change: the pipe (`none` before it is made), what interrupts are still to
-- write to it, the screen, the process list, the page tables, the frames and the memory.
pub record State (a : ArrayQueue) (m : Mapper) : Type 0 where
  pub pipe : Option a.Queue
  pub arrivals : List (List ℕ)
  pub writer : FrameBufferWriter
  pub process_list : List Process
  pub table : m.Table
  pub frames : m.Frames
  pub mem : Memory

module _ (a : ArrayQueue) (m : Mapper) (font : Font) (from_utf8 : List ℕ → Option (List ℕ))
    (message : ℕ → List ℕ) where
  -- The buffer is taken to lie outside the kernel's structures.
  unfoldable pub read_syscall : (fd buf count : ℕ) → State a m → Exec (State a m)
  read_syscall fd buf count s = elim (fd == 0) [
    | false ↦ ok s
    | true ↦ do
      pipe ← expect s.pipe
      got ← read a s.arrivals count pipe
      ok (record s {
        pipe = some got.queue;
        arrivals = got.arrivals;
        mem = put_bytes s.mem buf got.bytes;
      })
  ]

  unfoldable pub write_syscall : (fd buf count : ℕ) → State a m → Exec (State a m)
  write_syscall fd buf count s = elim (fd == 1) [
    | false ↦ ok s
    | true ↦ elim (from_utf8 (bytes_at s.mem buf count)) [
      | none ↦ ok s
      | some text ↦ do w ← write_str font text s.writer; ok (record s { writer = w })
    ]
  ]

  -- `anon_allocate_syscall` of the process `current`, with the write through `ptr`, which is taken to
  -- lead outside the kernel's structures.
  unfoldable pub anon_syscall : (current size ptr : ℕ) → State a m → Exec (State a m)
  anon_syscall current size ptr s = do
    r ← anon_allocate_syscall m size current s.process_list s.table s.frames
    ok (record s {
      process_list = r.process_list;
      table = r.table;
      frames = r.frames;
      mem = write_bytes 8 s.mem ptr r.result;
    })

  -- `log::info!`
  unfoldable pub log_unknown : ℕ → State a m → Exec (State a m)
  log_unknown index s = do w ← write_str font (message index) s.writer; ok (record s { writer = w })

  -- `syscall_handler`; the other three arguments are not looked at.
  unfoldable pub syscall_handler : (current index arg0 arg1 arg2 : ℕ) → State a m → Exec (State a m)
  syscall_handler current index arg0 arg1 arg2 s = elim (index == 0) [
    | true ↦ read_syscall arg0 arg1 arg2 s
    | false ↦ elim (index == 1) [
      | true ↦ write_syscall arg0 arg1 arg2 s
      | false ↦ elim (index == 2) [
        | true ↦ anon_syscall current arg0 arg1 s
        | false ↦ log_unknown index s
      ]
    ]
  ]
