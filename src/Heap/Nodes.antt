-- ===== src/Heap/Nodes.antt =====
-- The free list in memory: each `ListNode` of kernel/src/allocator.rs lies at the start of its region,
-- and the operations follow and write its two fields.
--
-- Rust leaves the order of the fields open, and so it is a parameter, `NodeLayout`. `None` of the
-- pointer is the null pointer, as the language promises.
use bayos.Base.{
  ℕ, zero, suc, ◌+◌, ◌-◌, ◌≡◌, ◌⊎◌, Option, none, some, ltb, leb, ◌==◌, if◌then◌else◌, Exec, ok,
  out_of_fuel, ◌>>=◌, ◌>>◌, assert, expect,
}
use bayos.Base.Words.{Memory, word, write_bytes}
use bayos.Heap.{
  Region, end_addr, node_align, node_size, align_up, alloc_from_region, checked_add, Layout,
  size_align,
}

-- Where the fields of a `ListNode` lie.
pub record NodeLayout : Type 0 where
  pub size_at : ℕ
  pub next_at : ℕ
  pub fields : ((size_at ≡ 0) × (next_at ≡ 8)) ⊎ ((size_at ≡ 8) × (next_at ≡ 0))

abbrev pub to_pointer : ℕ → Option ℕ
to_pointer w = if w == 0 then none else some w

abbrev pub of_pointer : Option ℕ → ℕ
of_pointer none = 0
of_pointer (some p) = p

-- `head.next`, and the memory of the heap.
pub record Store : Type 0 where
  pub head : Option ℕ
  pub mem : Memory

-- The node that `current` borrows: the head, or one in memory.
pub data Link : Type 0 where
  head_link : Link
  node_link : ℕ → Link

module _ (l : NodeLayout) where
  abbrev pub size_of : Memory → ℕ → ℕ
  size_of mem a = word mem (a + l.size_at)

  abbrev pub next_of : Store → Link → Option ℕ
  next_of s head_link = s.head
  next_of s (node_link a) = to_pointer (word s.mem (a + l.next_at))

  abbrev pub set_next : Link → Option ℕ → Store → Store
  set_next head_link p s = record s { head = p }
  set_next (node_link a) p s = record s { mem = write_bytes 8 s.mem (a + l.next_at) (of_pointer p) }

  -- `ListNode` at an address, as a region.
  abbrev pub region_at : Memory → ℕ → Region
  region_at mem a = record { start_addr = a; size = size_of mem a }

  -- `add_free_region`
  unfoldable pub add_node : ℕ → ℕ → Store → Exec Store
  add_node addr size s = do
    assert (align_up addr node_align == addr)
    assert (leb node_size size)
    let taken = record s { head = none }
    let sized = record taken { mem = write_bytes 8 taken.mem (addr + l.size_at) size }
    ok (set_next head_link (some addr) (set_next (node_link addr) s.head sized))

  -- `region.next.take()`, `current.next.take()`, and `current.next = next`
  unfoldable pub unlink : Link → ℕ → Store → Store
  unlink current region s =
      let next = next_of s (node_link region) in
      set_next current next (set_next current none (set_next (node_link region) none s))

  -- `find_region` from `current` on: the region's address and the start of the block.
  unfoldable pub find_node : ℕ → Link → ℕ → ℕ → Store → Exec (Option (ℕ × ℕ) × Store)
  find_node zero current size align s = out_of_fuel
  find_node (suc fuel) current size align s = elim (next_of s current) [
    | none ↦ ok (none, s)
    | some region ↦ elim (alloc_from_region (region_at s.mem region) size align) [
      | some alloc_start ↦ ok (some (region, alloc_start), unlink current region s)
      | none ↦ find_node fuel (node_link region) size align s
    ]
  ]

  -- The part of `alloc` after a region is found.
  unfoldable pub place_node : ℕ → ℕ → ℕ → Store → Exec (Option ℕ × Store)
  place_node size region alloc_start s = do
    alloc_end ← expect (checked_add alloc_start size)
    let excess_size = end_addr (region_at s.mem region) - alloc_end
    let given_back = add_node alloc_end excess_size s
    s' ← if ltb 0 excess_size then given_back else ok s
    ok (some alloc_start, s')

  -- `GlobalAlloc::alloc`, with fuel for the search.
  unfoldable pub alloc_node : ℕ → Layout → Store → Exec (Option ℕ × Store)
  alloc_node fuel layout s = do
    (size, align) ← size_align layout
    (found, s') ← find_node fuel head_link size align s
    elim found [
      | none ↦ ok (none, s')
      | some (region, alloc_start) ↦ place_node size region alloc_start s'
    ]

  -- `GlobalAlloc::dealloc`
  unfoldable pub dealloc_node : ℕ → Layout → Store → Exec Store
  dealloc_node ptr layout s = do (size, align) ← size_align layout; add_node ptr size s
