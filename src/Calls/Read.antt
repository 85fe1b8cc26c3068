-- ===== src/Calls/Read.antt =====
-- The `read` system call: where the bytes of the pipe go.
use mathlib.Core.Option.{some-injective, none-ne-some}
use bayos.Base.{
  ℕ, zero, suc, ◌+◌, ◌≤◌, ◌<◌, ◌%◌, ◌≡◌, ◌⊎◌, inl, inr, refl, Option, ap, ◌∙◌, some, List, [], ◌∷◌,
  ◌++◌, arith, get_elem?, length, replicate, ok,
}
use bayos.Base.Words.{Memory, write_bytes, write_bytes-at, write_bytes-off}
use bayos.Framebuffer.{Font}
use bayos.Paging.{Mapper}
use bayos.Vfs.{ArrayQueue, Got}
use bayos.Vfs.Pipe.{Reads, concat, read_lem}
use bayos.Calls.{State, put_bytes, read_syscall, syscall_handler}

-- The bytes go to the addresses from `buf` on, one after the other.
put_bytes-off :
    (bs : List ℕ) (mem : Memory) (buf b : ℕ)
    → (b < buf) ⊎ (buf + length bs ≤ b)
    → put_bytes mem buf bs b ≡ mem b
unfolding put_bytes
put_bytes-off [] mem buf b out = refl
put_bytes-off (c ∷ bs) mem buf b (inl below) =
    put_bytes-off bs (write_bytes 1 mem buf c) (buf + 1) b (inl (omega arith))
    ∙ write_bytes-off 1 mem buf c b (inl below)
put_bytes-off (c ∷ bs) mem buf b (inr above) =
    put_bytes-off bs (write_bytes 1 mem buf c) (buf + 1) b (inr (omega arith))
    ∙ write_bytes-off 1 mem buf c b (inr (omega arith))

put_bytes-at :
    (bs : List ℕ) (mem : Memory) (buf i c : ℕ)
    → get_elem? bs i ≡ some c
    → put_bytes mem buf bs (buf + i) ≡ c % 256
unfolding put_bytes
put_bytes-at [] mem buf i c here = absurd (none-ne-some c here)
put_bytes-at (d ∷ bs) mem buf zero c here =
    let same : d ≡ c = some-injective d c here in
    put_bytes-off bs (write_bytes 1 mem buf d) (buf + 1) (buf + zero) (inl (omega arith))
    ∙ write_bytes-at 1 mem buf d 0 (omega arith)
    ∙ omega (arith, same)
put_bytes-at (d ∷ bs) mem buf (suc i) c here =
    ap (put_bytes (write_bytes 1 mem buf d) (buf + 1) bs) (omega arith)
    ∙ put_bytes-at bs (write_bytes 1 mem buf d) (buf + 1) i c here

module _ (a : ArrayQueue) (m : Mapper) where
  -- The bytes that were got stand in the buffer, from its start on, each in the eight bits of its
  -- address; no byte outside the buffer has changed, nor have the screen, the processes and the pages.
  pub record IsRead (buf : ℕ) (got : Got a) (s s' : State a m) : Type 0 where
    pub pipe : s'.pipe ≡ some got.queue
    pub arrivals : s'.arrivals ≡ got.arrivals
    pub filled : (i c : ℕ) → get_elem? got.bytes i ≡ some c → s'.mem (buf + i) ≡ c % 256
    pub outside : (b : ℕ) → (b < buf) ⊎ (buf + length got.bytes ≤ b) → s'.mem b ≡ s.mem b
    pub screen : s'.writer ≡ s.writer
    pub processes : s'.process_list ≡ s.process_list
    pub table : s'.table ≡ s.table
    pub frames : s'.frames ≡ s.frames

  module _ (font : Font) (from_utf8 : List ℕ → Option (List ℕ)) (message : ℕ → List ℕ) where
    -- A system call of number 0 on descriptor 0 ends once enough was typed: where the pipe has room for
    -- all that comes, and what it holds and what comes are at least `count` bytes. The oldest `count`
    -- bytes, in order, then stand in the buffer, no byte of memory outside the buffer has changed, and
    -- none of the others is lost from the pipe. The kernel's own structures are taken to lie outside
    -- the buffer, which the kernel does not check.
    pub syscall_handler-IsRead :
        (current buf count : ℕ) (arrivals : List (List ℕ)) (q : a.Queue) (s : State a m)
        → s.pipe ≡ some q
        → s.arrivals ≡ arrivals ++ replicate count []
        → length (a.items q) + length (concat arrivals) ≤ a.capacity q
        → count ≤ length (a.items q) + length (concat arrivals)
        → (s' : State a m) × (got : Got a) × (syscall_handler a m font from_utf8 message current 0 0
              buf count s
            ≡ ok s')
          × Reads a (a.items q ++ concat arrivals) count got
          × IsRead buf got s s'
    unfolding syscall_handler read_syscall
    syscall_handler-IsRead current buf count arrivals q s has_pipe coming room enough =
        let (got, run, reads) = read_lem a arrivals count q room enough in
        (
          record s {
            pipe = some got.queue;
            arrivals = got.arrivals;
            mem = put_bytes s.mem buf got.bytes;
          },
          got,
          rw (has_pipe, coming, run),
          reads,
          record {
            pipe = refl;
            arrivals = refl;
            filled = λ i c here. put_bytes-at got.bytes s.mem buf i c here;
            outside = λ b out. put_bytes-off got.bytes s.mem buf b out;
            screen = refl;
            processes = refl;
            table = refl;
            frames = refl;
          },
        )
