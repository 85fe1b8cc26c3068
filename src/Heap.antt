-- ===== src/Heap.antt =====
-- The kernel heap of kernel/src/allocator.rs: a free list of regions, first fit.
--
-- A region's `ListNode` is stored at the start of the region itself, and each node is owned by the
-- one before it, so the chain `head.next` is a list of regions, first to last. Sums are those of
-- `usize`, with the wrap-around written out; `NoWrap` in Heap/Fit says where none happens.
pub mod Align
pub mod Alloc
pub mod Fit
pub mod Chain
pub mod Node
pub mod Nodes
pub mod Refine
pub mod Regions
pub mod Runs
pub mod Search
pub mod Simulate
mod NodeTests
mod Tests
pub mod Trace
pub mod Unlink
pub mod Walk
use bayos.Base.{
  ℕ, ◌+◌, ◌-◌, ◌*◌, ◌%◌, ◌^◌, ◌≤◌, max, bit_and, Bool, true, false, ◌&&◌, Option, none, some, List,
  [], ◌∷◌, ltb, leb, ◌==◌, if◌then◌else◌, Exec, ok, ◌>>=◌, ◌>>◌, assert, expect,
}

abbrev pub usize_mod : ℕ
usize_mod = 2 ^ 64

-- `HEAP_SIZE` and `HEAP_START`
abbrev pub heap_size : ℕ
heap_size = 2 * 1024 * 1024

abbrev pub heap_start : ℕ
heap_start = 0xffff_ffff_8000_0000 - heap_size

-- `isize::MAX`
abbrev pub isize_max : ℕ
isize_max = 2 ^ 63 - 1

-- `mem::align_of::<ListNode>()` and `mem::size_of::<ListNode>()`: a `usize` and a pointer.
abbrev pub node_align : ℕ
node_align = 8

abbrev pub node_size : ℕ
node_size = 16

-- `!mask` on `usize`
abbrev pub not_usize : ℕ → ℕ
not_usize mask = usize_mod - 1 - mask

unfoldable pub align_up : ℕ → ℕ → ℕ
align_up addr align =
    bit_and ((addr + align + usize_mod - 1) % usize_mod)
      (not_usize ((align + usize_mod - 1) % usize_mod))

-- A free region: the node's address and its `size`.
pub record Region : Type 0 where
  pub start_addr : ℕ
  pub size : ℕ

abbrev pub end_addr : Region → ℕ
end_addr r = (r.start_addr + r.size) % usize_mod

-- `head.next` and what follows it.
abbrev pub FreeList : Type 0
FreeList = List Region

-- A list whose `head` has no next node.
abbrev pub new : FreeList
new = []

unfoldable pub add_free_region : ℕ → ℕ → FreeList → Exec FreeList
add_free_region addr size free = do
  assert (align_up addr node_align == addr)
  assert (leb node_size size)
  ok (record { start_addr = addr; size = size } ∷ free)

unfoldable pub init : ℕ → ℕ → FreeList → Exec FreeList
unfolding add_free_region
init heap_start heap_size free = add_free_region heap_start heap_size free

-- `checked_add`
abbrev pub checked_add : ℕ → ℕ → Option ℕ
checked_add a b = if ltb (a + b) usize_mod then some (a + b) else none

-- `none` is `Err(())`. The difference is taken only where `alloc_end` is at most the region's end.
unfoldable pub alloc_from_region : Region → ℕ → ℕ → Option ℕ
alloc_from_region region size align =
    let alloc_start = align_up region.start_addr align in
    elim (checked_add alloc_start size) [
      | none ↦ none
      | some alloc_end ↦
          if ltb (end_addr region) alloc_end
          then none
          else let excess_size = end_addr region - alloc_end in
            if ltb 0 excess_size && ltb excess_size node_size then none else some alloc_start
    ]

-- The region found, the start of the block in it, and the list without the region.
pub record Found : Type 0 where
  pub region : Region
  pub alloc_start : ℕ
  pub rest : FreeList

unfoldable pub find_region : FreeList → ℕ → ℕ → Option Found
find_region [] size align = none
find_region (region ∷ next) size align = elim (alloc_from_region region size align) [
  | some alloc_start ↦ some (record { region = region; alloc_start = alloc_start; rest = next })
  | none ↦ elim (find_region next size align) [
    | none ↦ none
    | some found ↦ some (record found { rest = region ∷ found.rest })
  ]
]

-- `core::alloc::Layout`
pub record Layout : Type 0 where
  pub size : ℕ
  pub align : ℕ

-- The least multiple of `align` that is at least `size`.
abbrev pub round_up : ℕ → ℕ → ℕ
round_up size align = (size + (align - 1)) - (size + (align - 1)) % align

-- `Layout::align_to`, which refuses a size that would pass `isize::MAX` when padded.
abbrev pub align_to : Layout → ℕ → Option Layout
align_to l align =
    let align' = max l.align align in
    if ltb (isize_max + 1 - align') l.size
    then none
    else some (record { size = l.size; align = align' })

abbrev pub pad_to_align : Layout → Layout
pad_to_align l = record l { size = round_up l.size l.align }

unfoldable pub size_align : Layout → Exec (ℕ × ℕ)
size_align layout = do
  aligned ← expect (align_to layout node_align)
  let padded = pad_to_align aligned
  ok (max padded.size node_size, padded.align)

-- The part of `alloc` after a region is found: what is left behind the block is given back.
unfoldable pub place : ℕ → Found → Exec (Option ℕ × FreeList)
place size found = do
  alloc_end ← expect (checked_add found.alloc_start size)
  let excess_size = end_addr found.region - alloc_end
  let given_back = add_free_region alloc_end excess_size found.rest
  free ← if ltb 0 excess_size then given_back else ok found.rest
  ok (some found.alloc_start, free)

-- `GlobalAlloc::alloc`: the pointer (`none` is the null pointer) and the list after the call. Both
-- calls run with interrupts off and hold the allocator's lock to their end.
unfoldable pub alloc : Layout → FreeList → Exec (Option ℕ × FreeList)
alloc layout free = do
  (size, align) ← size_align layout
  elim (find_region free size align) [ none ↦ ok (none, free) | some found ↦ place size found ]

-- `GlobalAlloc::dealloc`
unfoldable pub dealloc : ℕ → Layout → FreeList → Exec FreeList
dealloc ptr layout free = do (size, align) ← size_align layout; add_free_region ptr size free
