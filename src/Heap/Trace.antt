-- ===== src/Heap/Trace.antt =====
-- Runs of the heap: `init`, then any sequence of `alloc` and `dealloc` that gives back what it got.
use bayos.Base.{
  ℕ, ◌+◌, ◌^◌, ◌≤◌, ◌<◌, max, ◌≡◌, sym, ap, subst, Option, none, some, List, [], ◌∷◌, ◌++◌, arith,
  Exec, ok, panic, hang, out_of_fuel,
}
use bayos.Heap.{
  node_align, Region, FreeList, new, init, heap_start, heap_size, Layout, size_align, alloc,
  dealloc,
}
use bayos.Heap.Alloc.{IsServed, Served, alloc-Served}
use bayos.Heap.Fit.{IsPaddable}
use bayos.Heap.Node.{region, add_free_region-ok, dealloc-IsTiling}
use bayos.Heap.Regions.{IsTiling, total}

-- The free list, and the blocks in use.
pub record Heap : Type 0 where
  pub free : FreeList
  pub live : List Region

abbrev pub heap_end : ℕ
heap_end = heap_start + heap_size

-- A layout that can be padded for a node, with an alignment that the kernel's address leaves room for:
-- every layout that Rust allows, but those of an alignment below 8 whose size padded to 8 passes
-- `isize::MAX`, and those of an alignment above 2 ^ 31.
pub record IsRequest (layout : Layout) : Type 0 where
  pub is_paddable : IsPaddable layout
  pub room : layout.align ≤ 2 ^ 31

-- One call. A block is given back with the layout that it was asked for with.
pub data Step (h : Heap) : Heap → Type 0 where
  allocated :
      (layout : Layout) (size align ptr : ℕ) (free' : FreeList)
      → IsRequest layout
      → size_align layout ≡ ok (size, align)
      → alloc layout h.free ≡ ok (some ptr, free')
      → Step h (record { free = free'; live = region ptr size ∷ h.live })
  refused :
      (layout : Layout) (free' : FreeList)
      → IsRequest layout
      → alloc layout h.free ≡ ok (none, free')
      → Step h (record { free = free'; live = h.live })
  given_back :
      (layout : Layout) (size align ptr : ℕ) (free' : FreeList) (live1 live2 : List Region)
      → h.live ≡ live1 ++ region ptr size ∷ live2
      → size_align layout ≡ ok (size, align)
      → dealloc ptr layout h.free ≡ ok free'
      → Step h (record { free = free'; live = live1 ++ live2 })

-- The states that calls lead to from the heap that `init` makes.
pub data Reach : Heap → Type 0 where
  started :
      (free : FreeList)
      → init heap_start heap_size new ≡ ok free
      → Reach (record { free = free; live = [] })
  called : {g h : Heap} → Reach g → Step g h → Reach h

abbrev pub IsSound : Heap → Type 0
IsSound h = IsTiling heap_start heap_end (h.live ++ h.free)

-- What `alloc-Served` says, as a predicate on the run.
abbrev pub Result : List Region → FreeList → ℕ → ℕ → Exec (Option ℕ × FreeList) → Type 0
Result live free size align (ok (answer, free')) =
    Served heap_start heap_end live free size align answer free'
Result live free size align panic = ⊥
Result live free size align hang = ⊥
Result live free size align out_of_fuel = ⊥

module _ (live free : List Region) (layout : Layout)
    (t : IsTiling heap_start heap_end (live ++ free)) (is : IsRequest layout) where
  pub alloc-Result :
      (size align : ℕ)
      → size_align layout ≡ ok (size, align)
      → Result live free size align (alloc layout free)
  alloc-Result size align e =
      let (size', align', answer, free', e', adj, run, served) =
        alloc-Served heap_start heap_end live free layout is.is_paddable (omega (arith, is.room))
          t in
      let same_size : size' ≡ size = cc in
      let same_align : align' ≡ align = cc in
      rw run (
        subst (λ n. Served heap_start heap_end live free n align answer free') same_size
          (subst (λ n. Served heap_start heap_end live free size' n answer free') same_align
            served))

  allocated-IsTiling :
      (size align ptr : ℕ) (free' : FreeList)
      → size_align layout ≡ ok (size, align)
      → alloc layout free ≡ ok (some ptr, free')
      → IsTiling heap_start heap_end (region ptr size ∷ (live ++ free'))
  allocated-IsTiling size align ptr free' e run =
      (subst (Result live free size align) run (alloc-Result size align e)).tiling

  pub refused_same : (free' : FreeList) → alloc layout free ≡ ok (none, free') → free' ≡ free
  refused_same free' run =
      let (size, align, _, _, e, _, _, _) =
        alloc-Served heap_start heap_end live free layout is.is_paddable (omega (arith, is.room))
          t in
      (subst (Result live free size align) run (alloc-Result size align e)).0

Step-IsSound : {g h : Heap} → Step g h → IsSound g → IsSound h
Step-IsSound {g} (allocated layout size align ptr free' is e run) t =
    allocated-IsTiling g.live g.free layout t is size align ptr free' e run
Step-IsSound {g} (refused layout free' is run) t =
    subst (λ f. IsTiling heap_start heap_end (g.live ++ f))
      (sym (refused_same g.live g.free layout t is free' run)) t
Step-IsSound {g} (given_back layout size align ptr free' live1 live2 held e run) t =
    let t' = subst (λ l. IsTiling heap_start heap_end (l ++ g.free)) held t in
    let (back, rest) =
      dealloc-IsTiling heap_start heap_end live1 live2 ptr size g.free layout align (omega arith) e
        t' in
    let same : region ptr size ∷ g.free ≡ free' = cc in
    subst (λ f. IsTiling heap_start heap_end ((live1 ++ live2) ++ f)) same rest

pub init_lem : init heap_start heap_size new ≡ ok (region heap_start heap_size ∷ [])
unfolding init
init_lem = add_free_region-ok heap_start heap_size [] (omega arith) (omega arith) (omega arith)

started-IsSound :
    (free : FreeList)
    → init heap_start heap_size new ≡ ok free
    → IsSound (record { free = free; live = [] })
started-IsSound free e =
    let same : region heap_start heap_size ∷ [] ≡ free = cc init_lem in
    subst (IsTiling heap_start heap_end) same
      (record { each = (omega arith, tt); apart = (tt, tt) })

-- In every state that calls lead to, with layouts that can be padded for a node and are aligned to at
-- most 2 ^ 31, the blocks in use and the free regions lie in the heap, are aligned for a node, can hold
-- one, and no two of them overlap.
pub Reach-IsSound : {h : Heap} → Reach h → IsSound h
Reach-IsSound (started free e) = started-IsSound free e
Reach-IsSound (called r s) = Step-IsSound s (Reach-IsSound r)

module _ {h : Heap} (r : Reach h) (layout : Layout) where
  -- In every state that calls lead to, a request for a layout that can be padded for a node, aligned
  -- to at most 2 ^ 31, is answered: the call does not panic.
  Reach-alloc :
      IsRequest layout
      → (answer : Option ℕ) × (free' : FreeList) × (alloc layout h.free ≡ ok (answer, free'))
  Reach-alloc is =
      let (_, _, answer, free', _, _, run, _) =
        alloc-Served heap_start heap_end h.live h.free layout is.is_paddable
          (omega (arith, is.room)) (Reach-IsSound r) in
      (answer, free', run)

  -- In every state that calls lead to, giving back a block that is in use, with a layout that adjusts
  -- to the block's size, does not panic, and puts the block in front of the free list.
  pub Reach-dealloc :
      (size align ptr : ℕ) (live1 live2 : List Region)
      → h.live ≡ live1 ++ region ptr size ∷ live2
      → size_align layout ≡ ok (size, align)
      → dealloc ptr layout h.free ≡ ok (region ptr size ∷ h.free)
  Reach-dealloc size align ptr live1 live2 held e =
      (dealloc-IsTiling heap_start heap_end live1 live2 ptr size h.free layout align (omega arith) e
        (subst (λ l. IsTiling heap_start heap_end (l ++ h.free)) held (Reach-IsSound r))).0

-- What a block costs: after a block is handed out and given back, the free list holds as many bytes
-- as before, less those skipped in front of the block to align it, which are fewer than the alignment.
pub total-dealloc-alloc :
    (live free : List Region) (layout : Layout) (ptr : ℕ) (free' free'' : FreeList)
    → IsTiling heap_start heap_end (live ++ free)
    → IsRequest layout
    → alloc layout free ≡ ok (some ptr, free')
    → dealloc ptr layout free' ≡ ok free''
    → (skipped : ℕ) × (total free ≡ total free'' + skipped)
      × (skipped < max layout.align node_align)
unfolding total
total-dealloc-alloc live free layout ptr free' free'' t is run back =
    let (size, align, _, _, e, adj, _, _) =
      alloc-Served heap_start heap_end live free layout is.is_paddable (omega (arith, is.room)) t in
    let served : IsServed heap_start heap_end live free size align ptr free' =
      subst (Result live free size align) run (alloc-Result live free layout t is size align e) in
    let (back', _) =
      dealloc-IsTiling heap_start heap_end [] live ptr size free' layout align (omega arith) e
        served.tiling in
    let same : region ptr size ∷ free' ≡ free'' = cc in
    (
      served.skipped,
      omega (arith, served.accounted, ap total same),
      omega (arith, served.skipped_lt, adj.align_max),
    )
