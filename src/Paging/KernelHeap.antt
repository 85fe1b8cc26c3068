-- ===== src/Paging/KernelHeap.antt =====
-- `init_heap`: after it, the free list is the whole heap and every address of it is mapped.
use bayos.Base.{ℕ, ◌+◌, ◌-◌, ◌≤◌, ◌<◌, ◌≡◌, refl, sym, ap, ◌∙◌, [], ◌∷◌, arith, Exec, ok, ◌>>=◌}
use bayos.Heap.{FreeList, heap_start, heap_size}
use bayos.Heap as Free
use bayos.Paging.{
  Mapper, MapResult, done, frame_allocation_failed, map_failed, present_writable, map_pages,
  page_range, init_heap,
}
use bayos.Paging.Loop.{IsNew, MapsPages, map_pages_lem, page_of, page_range-covers}

module _ (m : Mapper) (t t' : m.Table) (s s' : m.Frames) where
  -- What `init_heap` does after its loop.
  abbrev list_heap :
      FreeList → MapResult (m.Table × m.Frames) → Exec (MapResult (m.Table × m.Frames × FreeList))
  list_heap free frame_allocation_failed = ok frame_allocation_failed
  list_heap free map_failed = ok map_failed
  list_heap free (done (t1, s1)) = do
    free' ← Free.init heap_start heap_size free
    ok (done (t1, s1, free'))

  -- What `init_heap` comes to: the mapping loop over the heap's pages, then `init`.
  init_heap-map_pages :
      (free : FreeList)
      → init_heap m t s free
        ≡ list_heap free (
            map_pages m (page_range m heap_start (heap_start + heap_size - 1)) present_writable t s)
  unfolding init_heap
  init_heap-map_pages free = rw (
    m.virt_high heap_start (omega arith) (omega arith),
    m.virt_high (heap_start + heap_size) (omega arith) (omega arith),
    m.virt_high (heap_start + heap_size - 1) (omega arith) (omega arith),
  )

  heap_list :
      Free.init heap_start heap_size []
      ≡ ok (record { start_addr = heap_start; size = heap_size } ∷ [])
  unfolding Free.init Free.add_free_region Free.align_up
  heap_list = refl

  -- The free list is the whole heap, and the page of every address of it is newly mapped.
  pub record OwnsHeap (free : FreeList) : Type 0 where
    pub whole : free ≡ record { start_addr = heap_start; size = heap_size } ∷ []
    pub backed :
        (a : ℕ)
        → heap_start ≤ a
        → a < heap_start + heap_size
        → IsNew m present_writable t t' (page_of a)

  mapped-OwnsHeap :
      (free : FreeList) (r : MapResult (m.Table × m.Frames))
      → map_pages m (page_range m heap_start (heap_start + heap_size - 1)) present_writable t s ≡ r
      → list_heap [] r ≡ ok (done (t', s', free))
      → OwnsHeap free
  mapped-OwnsHeap free frame_allocation_failed e h = ground arith
  mapped-OwnsHeap free map_failed e h = ground arith
  mapped-OwnsHeap free (done (t1, s1)) e h = record { whole = whole; backed = backed }
    where
      listed_as : FreeList → Exec (MapResult (m.Table × m.Frames × FreeList))
      listed_as f = ok (done (t1, s1, f))

      listed :
          listed_as (record { start_addr = heap_start; size = heap_size } ∷ [])
          ≡ ok (done (t', s', free))
      listed = ap (λ x. x >>= listed_as) (sym heap_list) ∙ h

      whole : free ≡ record { start_addr = heap_start; size = heap_size } ∷ []
      whole = cc listed

      same : t1 ≡ t'
      same = cc listed

      maps :
          MapsPages m present_writable (page_range m heap_start (heap_start + heap_size - 1)) t t'
      maps = map_pages_lem m present_writable _ t t' s s1 (e ∙ ap (λ u. done (u, s1)) same)

      backed :
          (a : ℕ)
          → heap_start ≤ a
          → a < heap_start + heap_size
          → IsNew m present_writable t t' (page_of a)
      backed a from to =
          page_range-covers m (IsNew m present_writable t t') heap_start
            (heap_start + heap_size - 1) maps.each a from (omega arith)

  -- Where `init_heap` succeeds on an empty free list, the free list is the whole heap, and the page
  -- of every address of the heap was not mapped before and is mapped, present and writable.
  pub init_heap_lem :
      (free : FreeList) → init_heap m t s [] ≡ ok (done (t', s', free)) → OwnsHeap free
  init_heap_lem free e =
      mapped-OwnsHeap free
        (map_pages m (page_range m heap_start (heap_start + heap_size - 1)) present_writable t s)
        refl (sym (init_heap-map_pages []) ∙ e)
