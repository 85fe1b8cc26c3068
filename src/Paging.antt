-- ===== src/Paging.antt =====
-- Mapping pages: the loop that kernel/src/allocator.rs, kernel/src/sched.rs and kernel/src/syscall.rs
-- share, `init_heap`, and the system call that gives a process more memory.
--
-- Not code of the kernel, and so a parameter: the page tables, the pages and the addresses of the
-- crate x86_64, with what its documentation says of them, in the record `Mapper`. A page is named by
-- its first address. The frame allocator is a parameter here too; it is either of those of Memory.
pub mod Allocation
pub mod KernelHeap
pub mod Loop
pub mod Tests
use bayos.Base.{
  ℕ, zero, suc, ◌+◌, ◌-◌, ◌*◌, ◌/◌, ◌%◌, ◌^◌, ◌≤◌, ◌<◌, ◌≡◌, ◌≢◌, Bool, true, false, Option, none,
  some, List, [], ◌∷◌, length, get_elem?, set, ltb, leb, if◌then◌else◌, Exec, ok, panic, ◌>>=◌,
  ◌>>◌, expect, assert,
}
use bayos.Heap.{heap_start, heap_size, FreeList, new}
use bayos.Heap as Free
use bayos.Memory.{steps}
use bayos.Sched.{Process}

-- `PageTableFlags`: what the kernel's own pages have, and what the pages of a process have.
pub data Flags : Type 0 where
  present_writable present_writable_user : Flags

-- The page tables and the frame allocator that the loop is given. `map_to` is `none` where it returns
-- an error. `virt` is `VirtAddr::new`, and the check of a sum or difference of addresses: `none` where
-- it panics, which it does not on addresses of the lower half or the kernel's heap.
pub record Mapper : Type 1 where
  pub Table : Type 0
  pub Frame : Type 0
  pub Frames : Type 0
  pub allocate_frame : Frames → Option Frame × Frames
  pub lookup : Table → ℕ → Option (Frame × Flags)
  pub map_to : Table → ℕ → Frame → Flags → Frames → Option (Table × Frames)
  pub mapped :
      (t : Table) (page : ℕ) (f : Frame) (flags : Flags) (s : Frames) (t' : Table) (s' : Frames)
      → map_to t page f flags s ≡ some (t', s')
      → (lookup t page ≡ none) × (lookup t' page ≡ some (f, flags))
  pub kept :
      (t : Table) (page : ℕ) (f : Frame) (flags : Flags) (s : Frames) (t' : Table) (s' : Frames)
      → map_to t page f flags s ≡ some (t', s')
      → (q : ℕ) → q ≢ page
      → lookup t' q ≡ lookup t q
  pub virt : ℕ → Option ℕ
  pub virt_low : (a : ℕ) → a < 2 ^ 47 → virt a ≡ some a
  pub virt_high : (a : ℕ) → 0xffff_8000_0000_0000 ≤ a → a < 2 ^ 64 → virt a ≡ some a
  pub containing_address : ℕ → ℕ
  pub containing_address_lem : (a : ℕ) → containing_address a ≡ a - a % 4096
  pub range_inclusive : ℕ → ℕ → List ℕ
  pub range_inclusive_lem :
      (first last : ℕ) → range_inclusive first last ≡ steps ((last + 4096 - first) / 4096) first

-- `Result<_, MapToError<Size4KiB>>`
pub data MapResult (A : Type 0) : Type 0 where
  done : A → MapResult A
  frame_allocation_failed : MapResult A
  map_failed : MapResult A

module _ (m : Mapper) where
  -- `for page in page_range`
  unfoldable pub map_pages : List ℕ → Flags → m.Table → m.Frames → MapResult (m.Table × m.Frames)
  map_pages [] flags t s = done (t, s)
  map_pages (page ∷ pages) flags t s =
      let (frame, s') = m.allocate_frame s in
      elim frame [
        | none ↦ frame_allocation_failed
        | some f ↦ elim (m.map_to t page f flags s') [
          | none ↦ map_failed
          | some (t', s'') ↦ map_pages pages flags t' s''
        ]
      ]

  -- The pages from the one of the first address to the one of the last.
  abbrev pub page_range : ℕ → ℕ → List ℕ
  page_range first last = m.range_inclusive (m.containing_address first) (m.containing_address last)

  -- `init_heap`: the page tables, the frames, and the free list of the heap.
  unfoldable pub init_heap :
      m.Table → m.Frames → FreeList → Exec (MapResult (m.Table × m.Frames × FreeList))
  init_heap t s free = do
    start ← expect (m.virt heap_start)
    sum ← expect (m.virt (start + heap_size))
    last ← expect (m.virt (sum - 1))
    elim (map_pages (page_range start last) present_writable t s) [
      | frame_allocation_failed ↦ ok frame_allocation_failed
      | map_failed ↦ ok map_failed
      | done (t', s') ↦ do free' ← Free.init heap_start heap_size free; ok (done (t', s', free'))
    ]

  -- What `anon_allocate_syscall` changes: the process list, the page tables (all processes share one),
  -- the frames, and the word that the process gets through `ptr`.
  pub record Allocated : Type 0 where
    pub process_list : List Process
    pub table : m.Table
    pub frames : m.Frames
    pub result : ℕ

  -- `page_range.size()`
  abbrev pub range_size : List ℕ → ℕ
  range_size pages = 4096 * length pages

  -- The end of `anon_allocate_syscall`: `unwrap` panics where a page could not be mapped; or the
  -- process gets the start of its free pages, which then begin `size` further.
  abbrev pub grant :
      List Process → ℕ → Process → ℕ → ℕ → MapResult (m.Table × m.Frames) → Exec Allocated
  grant list current p start size frame_allocation_failed = panic
  grant list current p start size map_failed = panic
  grant list current p start size (done (t', s')) = ok (record {
    process_list = set list current (record p { pages = some ((start + size) % 2 ^ 64) });
    table = t';
    frames = s';
    result = start;
  })

  -- `anon_allocate_syscall`: `unwrap` panics on a process with no page table or no start of its free
  -- pages.
  unfoldable pub anon_allocate_syscall : ℕ → ℕ → List Process → m.Table → m.Frames → Exec Allocated
  anon_allocate_syscall size current list t s = do
    p ← expect (get_elem? list current)
    page_range_start ← expect p.pages
    start ← expect (m.virt page_range_start)
    sum ← expect (m.virt (start + size))
    last ← (if leb 1 sum then expect (m.virt (sum - 1)) else panic)
    let pages = page_range start last
    shared ← expect p.mapper
    grant list current p page_range_start (range_size pages)
        (map_pages pages present_writable_user t s)
