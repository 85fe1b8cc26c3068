-- ===== src/Heap/Runs.antt =====
-- Every run of the allocator in memory, with the writes of its clients to their blocks, is a run of the
-- allocator on the list; the search never runs out of fuel.
use mathlib.Core.List.{append_assoc}
use bayos.Base.{
  ℕ, ◌+◌, ◌*◌, ◌/◌, ◌≤◌, ◌<◌, ◌≡◌, refl, sym, ap, subst, ◌∙◌, inl, inr, true, Option, none, some,
  List, [], ◌∷◌, ◌++◌, arith, All, All-drop, length, ==_iff, ◌==◌, ok, ◌^◌, ◌⊎◌, panic,
}
use bayos.Base.Words.{Memory}
use bayos.Heap.{
  Region, FreeList, node_align, node_size, align_up, heap_start, heap_size, Layout, size_align,
  alloc,
}
use bayos.Heap.Alloc.{IsServed}
use bayos.Heap.Node.{region, self_aligned}
use bayos.Heap.Fit.{IsLayout, IsPaddable, IsOversized, IsLayout-cases, size_align_panics}
use bayos.Heap.Nodes.{NodeLayout, Store, add_node, alloc_node, dealloc_node}
use bayos.Heap.Chain.{SameNode, Chain-frame}
use bayos.Heap.Refine.{Holds, OffRegion, All-IsPlaced, All-NodesApart, add_node_lem}
use bayos.Heap.Regions.{Apart, IsRegion, IsTiling, IsTiling-take_out, PairwiseApart, total}
use bayos.Heap.Simulate.{Agrees, alloc_node_lem, IsTiling-drop}
use bayos.Heap.Trace.{
  heap_end, IsRequest, Reach, started, called, allocated, refused, given_back, Reach-IsSound,
  Reach-dealloc, Result, alloc-Result, refused_same, init_lem,
}

-- As many nodes as the heap can hold, and one round more for the end of the list.
unfoldable pub max_nodes : ℕ
max_nodes = heap_size / node_size + 1

total-append : (xs ys : List Region) → total (xs ++ ys) ≡ total xs + total ys
unfolding total
total-append [] ys = omega arith
total-append (x ∷ xs) ys = omega (arith, total-append xs ys)

-- Every region holds a node.
length-total :
    (lo hi : ℕ) (rs : List Region) → All (IsRegion lo hi) rs → length rs * node_size ≤ total rs
unfolding total
length-total lo hi [] h = omega arith
length-total lo hi (r ∷ rs) h = omega (arith, length-total lo hi rs h.1, h.0.holds_node)

-- Each region of `ys` holds a node, and is apart from all of `xs`.
abbrev BehindAll : List Region → List Region → Type 0
BehindAll xs ys = All (λ (r : Region). (node_size ≤ r.size) × All (λ (q : Region). Apart q r) xs) ys

BehindAll-nil : (lo hi : ℕ) (ys : List Region) → All (IsRegion lo hi) ys → BehindAll [] ys
BehindAll-nil lo hi [] h = tt
BehindAll-nil lo hi (y ∷ ys) h = ((h.0.holds_node, tt), BehindAll-nil lo hi ys h.1)

BehindAll-cons :
    (x : Region) (xs ys : List Region) → All (Apart x) ys → BehindAll xs ys → BehindAll (x ∷ xs) ys
BehindAll-cons x xs [] a h = tt
BehindAll-cons x xs (y ∷ ys) a h = ((h.0.0, (a.0, h.0.1)), BehindAll-cons x xs ys a.1 h.1)

BehindAll-split :
    (lo hi : ℕ) (xs ys : List Region)
    → All (IsRegion lo hi) (xs ++ ys)
    → PairwiseApart (xs ++ ys)
    → BehindAll xs ys
BehindAll-split lo hi [] ys h a = BehindAll-nil lo hi ys h
BehindAll-split lo hi (x ∷ xs) ys h a =
    BehindAll-cons x xs ys (All-drop (Apart x) xs ys a.0) (BehindAll-split lo hi xs ys h.1 a.1)

module _ (l : NodeLayout) where
  -- The stores, with the blocks in use, that calls and the writes of clients lead to.
  pub data Runs : Store → List Region → Type 0 where
    boots :
        (mem : Memory) (s : Store)
        → add_node l heap_start heap_size (record { head = none; mem = mem }) ≡ ok s
        → Runs s []
    allocates :
        {s : Store} {live : List Region} (layout : Layout) (size align ptr : ℕ) (s' : Store)
        → Runs s live
        → IsRequest layout
        → size_align layout ≡ ok (size, align)
        → alloc_node l max_nodes layout s ≡ ok (some ptr, s')
        → Runs s' (region ptr size ∷ live)
    refuses :
        {s : Store} {live : List Region} (layout : Layout) (s' : Store)
        → Runs s live
        → IsRequest layout
        → alloc_node l max_nodes layout s ≡ ok (none, s')
        → Runs s' live
    gives_back :
        {s : Store} (layout : Layout) (size align ptr : ℕ) (s' : Store) (live1 live2 : List Region)
        → Runs s (live1 ++ region ptr size ∷ live2)
        → size_align layout ≡ ok (size, align)
        → dealloc_node l ptr layout s ≡ ok s'
        → Runs s' (live1 ++ live2)
    writes :
        {s : Store} {live : List Region} (mem : Memory)
        → Runs s live
        → ((b : ℕ) → All (OffRegion l b) live → mem b ≡ s.mem b)
        → Runs (record s { mem = mem }) live

  -- What a store in memory stands for.
  pub record StandsFor (s : Store) (live : List Region) : Type 0 where
    pub free : FreeList
    pub reached : Reach (record { free = free; live = live })
    pub holds : Holds l s free
    pub bounded : total (live ++ free) ≤ heap_size

  module _ {s : Store} {live : List Region} (t : StandsFor s live) where
    sound : IsTiling heap_start heap_end (live ++ t.free)
    sound = Reach-IsSound t.reached

    enough : length t.free < max_nodes
    unfolding max_nodes
    enough = omega (
      arith,
      t.bounded,
      total-append live t.free,
      length-total heap_start heap_end t.free
          (IsTiling-drop heap_start heap_end live t.free sound).each,
    )

    agrees :
        (layout : Layout)
        → IsRequest layout
        → Agrees l heap_start heap_end (omega arith) live t.free layout s max_nodes
    agrees layout is =
        alloc_node_lem l heap_start heap_end (omega arith) live t.free layout s max_nodes
          is.is_paddable (omega (arith, is.room)) sound t.holds enough

    allocates-StandsFor :
        (layout : Layout) (size align ptr : ℕ) (s' : Store)
        → IsRequest layout
        → size_align layout ≡ ok (size, align)
        → alloc_node l max_nodes layout s ≡ ok (some ptr, s')
        → StandsFor s' (region ptr size ∷ live)
    unfolding total
    allocates-StandsFor layout size align ptr s' is e run =
        let a = agrees layout is in
        let answers : a.answer ≡ some ptr = cc a.in_memory in
        let stores : a.s' ≡ s' = cc a.in_memory in
        let on_list : alloc layout t.free ≡ ok (some ptr, a.free') = rw (← answers) a.on_list in
        let served : IsServed heap_start heap_end live t.free size align ptr a.free' =
          subst (Result live t.free size align) on_list
            (alloc-Result live t.free layout sound is size align e) in
        record {
          free = a.free';
          reached = called t.reached (allocated layout size align ptr a.free' is e on_list);
          holds = subst (λ u. Holds l u a.free') stores a.holds;
          bounded = omega (
            arith,
            t.bounded,
            served.accounted,
            total-append live t.free,
            total-append live a.free',
          );
        }

    refuses-StandsFor :
        (layout : Layout) (s' : Store)
        → IsRequest layout
        → alloc_node l max_nodes layout s ≡ ok (none, s')
        → StandsFor s' live
    refuses-StandsFor layout s' is run =
        let a = agrees layout is in
        let answers : a.answer ≡ none = cc a.in_memory in
        let stores : a.s' ≡ s' = cc a.in_memory in
        let on_list : alloc layout t.free ≡ ok (none, a.free') = rw (← answers) a.on_list in
        let same = refused_same live t.free layout sound is a.free' on_list in
        record {
          free = a.free';
          reached = called t.reached (refused layout a.free' is on_list);
          holds = subst (λ u. Holds l u a.free') stores a.holds;
          bounded = omega (arith, t.bounded, ap (λ f. total (live ++ f)) same);
        }

    writes-StandsFor :
        (mem : Memory)
        → ((b : ℕ) → All (OffRegion l b) live → mem b ≡ s.mem b)
        → StandsFor (record s { mem = mem }) live
    writes-StandsFor mem same = record {
      free = t.free;
      reached = t.reached;
      holds =
          Chain-frame l s.mem mem s.head t.free
            (spared t.free (BehindAll-split heap_start heap_end live t.free sound.each sound.apart))
            t.holds;
      bounded = t.bounded;
    }
      where
        spared :
            (rs : List Region)
            → BehindAll live rs
            → All (λ (r : Region). SameNode s.mem mem r.start_addr) rs
        spared [] h = tt
        spared (r ∷ rs) h =
            ((λ b from to. same b (off r b h.0.0 from to live h.0.1)), spared rs h.1)
          where
            off :
                (r : Region) (b : ℕ)
                → node_size ≤ r.size
                → r.start_addr ≤ b
                → b < r.start_addr + node_size
                → (qs : List Region) → All (λ (q : Region). Apart q r) qs
                → All (OffRegion l b) qs
            off r b big from to [] k = tt
            off r b big from to (q ∷ qs) k = (one q k.0, off r b big from to qs k.1)
              where
                one : (q : Region) → Apart q r → OffRegion l b q
                one q (inl before) = inr (omega arith)
                one q (inr behind) = inl (omega arith)

  module _ {s : Store} (layout : Layout) (size align ptr : ℕ) (live1 live2 : List Region)
      (t : StandsFor s (live1 ++ region ptr size ∷ live2)) where
    gives_back-StandsFor :
        (s' : Store)
        → size_align layout ≡ ok (size, align)
        → dealloc_node l ptr layout s ≡ ok s'
        → StandsFor s' (live1 ++ live2)
    unfolding total dealloc_node
    gives_back-StandsFor s' e run =
        let b = region ptr size in
        let (is, apart, rest) = IsTiling-take_out live1 (live2 ++ t.free) b (
          subst (IsTiling heap_start heap_end) (append_assoc live1 (b ∷ live2) t.free) (sound t)) in
        let free_tiling =
          IsTiling-drop heap_start heap_end (live1 ++ live2) t.free
            (subst (IsTiling heap_start heap_end) (sym (append_assoc live1 live2 t.free)) rest) in
        let behind =
          All-drop (Apart b) (live1 ++ live2) t.free
            (subst (All (Apart b)) (sym (append_assoc live1 live2 t.free)) apart) in
        let same : (align_up ptr node_align == ptr) ≡ true =
          (==_iff _ ptr).1 (self_aligned ptr (omega (arith, is.below, is.holds_node)) is.aligned) in
        let (added, did, holds) =
          add_node_lem l ptr size t.free s same
            (omega (arith, is.above), omega (arith, is.below), is.holds_node)
            (omega (arith, is.below))
            (All-IsPlaced l heap_start heap_end t.free (omega arith) (omega arith) free_tiling.each)
            (All-NodesApart l heap_start heap_end b t.free is free_tiling.each behind) t.holds in
        let run' : dealloc_node l ptr layout s ≡ ok added = rw (e, did) in
        let stores : added ≡ s' = cc in
        record {
          free = b ∷ t.free;
          reached = called t.reached (
              given_back layout size align ptr (b ∷ t.free) live1 live2 refl e
                (Reach-dealloc t.reached layout size align ptr live1 live2 refl e));
          holds = subst (λ u. Holds l u (b ∷ t.free)) stores holds.holds;
          bounded = omega (
            arith,
            t.bounded,
            total-append (live1 ++ live2) t.free,
            total-append live1 live2,
            total-append (live1 ++ b ∷ live2) t.free,
            total-append live1 (b ∷ live2),
            total-append (live1 ++ live2) (b ∷ t.free),
          );
        }

  boots-StandsFor :
      (mem : Memory) (s : Store)
      → add_node l heap_start heap_size (record { head = none; mem = mem }) ≡ ok s
      → StandsFor s []
  unfolding total
  boots-StandsFor mem s run =
      let same : (align_up heap_start node_align == heap_start) ≡ true =
        (==_iff _ heap_start).1 (self_aligned heap_start (omega arith) (omega arith)) in
      let (added, did, holds) =
        add_node_lem l heap_start heap_size [] (record { head = none; mem = mem }) same
          (omega arith, omega arith, omega arith) (omega arith) tt tt refl in
      let stores : added ≡ s = cc in
      record {
        free = region heap_start heap_size ∷ [];
        reached = started (region heap_start heap_size ∷ []) init_lem;
        holds = subst (λ u. Holds l u (region heap_start heap_size ∷ [])) stores holds.holds;
        bounded = omega arith;
      }

  -- Whatever is called, with layouts that can be padded for a node and are aligned to at most 2 ^ 31,
  -- and whatever clients write to their blocks, the nodes in memory hold the free list of a run of the allocator on the list, with the same blocks in use.
  pub Runs-StandsFor : {s : Store} {live : List Region} → Runs s live → StandsFor s live
  Runs-StandsFor (boots mem s run) = boots-StandsFor mem s run
  Runs-StandsFor (allocates layout size align ptr s' r is e run) =
      allocates-StandsFor (Runs-StandsFor r) layout size align ptr s' is e run
  Runs-StandsFor (refuses layout s' r is run) =
      refuses-StandsFor (Runs-StandsFor r) layout s' is run
  Runs-StandsFor (gives_back layout size align ptr s' live1 live2 r e run) =
      gives_back-StandsFor layout size align ptr live1 live2 (Runs-StandsFor r) s' e run
  Runs-StandsFor (writes mem r same) = writes-StandsFor (Runs-StandsFor r) mem same

  -- In every store that calls and clients lead to, a request for a layout that Rust allows, aligned to
  -- at most 2 ^ 31, ends: in a panic, if the size padded to the alignment, or to 8 if that is more,
  -- passes `isize::MAX`; if not, with an answer. The search needs no more rounds than the heap holds
  -- nodes.
  pub Runs-alloc_node :
      {s : Store} {live : List Region}
      → Runs s live
      → (layout : Layout) → IsLayout layout
      → layout.align ≤ 2 ^ 31
      → (IsOversized layout × (alloc_node l max_nodes layout s ≡ panic))
        ⊎ (IsPaddable layout
            × ((answer : Option ℕ) × (s' : Store) × (alloc_node l max_nodes layout s
                  ≡ ok (answer, s'))))
  unfolding alloc_node
  Runs-alloc_node {s = s} r layout is room = elim (IsLayout-cases layout is) [
    | inr over ↦ inl (over, rw (alloc_node, size_align_panics layout is over))
    | inl pads ↦
        let a = agrees (Runs-StandsFor r) layout (record { is_paddable = pads; room = room }) in
        inr (pads, (a.answer, a.s', a.in_memory))
  ]

  -- A request for a layout that can be padded for a node, aligned to at most 2 ^ 31, changes no byte of
  -- a block in use.
  pub alloc_node-spares :
      {s s' : Store} (live1 live2 : List Region) (block : Region)
      → Runs s (live1 ++ block ∷ live2)
      → (layout : Layout) → IsRequest layout
      → (answer : Option ℕ) → alloc_node l max_nodes layout s ≡ ok (answer, s')
      → (b : ℕ) → block.start_addr ≤ b
      → b < block.start_addr + block.size
      → s'.mem b ≡ s.mem b
  alloc_node-spares {s' = s'} live1 live2 block r layout is answer run b from to =
      let t = Runs-StandsFor r in
      let a = agrees t layout is in
      let stores : a.s' ≡ s' = cc a.in_memory in
      let (_, apart, _) = IsTiling-take_out live1 (live2 ++ t.free) block (
        subst (IsTiling heap_start heap_end) (append_assoc live1 (block ∷ live2) t.free)
          (sound t)) in
      let behind =
        All-drop (Apart block) (live1 ++ live2) t.free
          (subst (All (Apart block)) (sym (append_assoc live1 live2 t.free)) apart) in
      ap (λ (u : Store). u.mem b) (sym stores) ∙ a.spared b (off t.free behind)
    where
      off : (qs : List Region) → All (Apart block) qs → All (OffRegion l b) qs
      off [] h = tt
      off (q ∷ qs) h = (one q h.0, off qs h.1)
        where
          one : (q : Region) → Apart block q → OffRegion l b q
          one q (inl before) = inl (omega arith)
          one q (inr behind) = inr (omega arith)
