-- ===== src/Heap/Refine.antt =====
-- The operations on nodes do what the operations on the list of regions do.
use bayos.Base.{
  ℕ, ◌+◌, ◌%◌, ◌^◌, ◌≤◌, ◌<◌, ◌≡◌, refl, sym, ap, subst, ◌∙◌, ◌⊎◌, inl, inr, true, some, List, [],
  ◌∷◌, ◌++◌, arith, All, leb, ltb, false, ◌-◌, ==_iff, ◌==◌, ok,
}
use bayos.Base.Words.{write_bytes, write_bytes-off, word-write_bytes}
use bayos.Heap.{Region, Found, usize_mod, end_addr, node_align, node_size, align_up}
use bayos.Heap.Node.{region, self_aligned}
use bayos.Heap.Nodes.{
  NodeLayout, Store, to_pointer, of_pointer, size_of, region_at, add_node, place_node,
}
use bayos.Heap.Chain.{
  OffNode, NodesApart, AllApart, IsPlaced, SameNode, Chain, Chain-frame, Chain-pointer,
}
use bayos.Heap.Unlink.{off_field, field_bounds, size-write_next}
use bayos.Heap.Alloc.{tail_of, tail_of_end, tail_of_lt}
use bayos.Heap.Fit.{Suits}
use bayos.Heap.Regions.{Apart, IsRegion, IsTiling, PairwiseApart}

module _ (l : NodeLayout) where
  -- The nodes in memory are those of the list.
  abbrev pub Holds : Store → List Region → Type 0
  Holds s free = Chain l s.mem s.head free

  -- Two runs: the second ends where the first does, in a store that holds the first one's list, and
  -- writes no byte but those of the nodes `rs`.
  pub record IsAdded (addr size : ℕ) (free : List Region) (s s' : Store) : Type 0 where
    pub holds : Holds s' (region addr size ∷ free)
    pub bytes_kept : (b : ℕ) → OffNode b addr → s'.mem b ≡ s.mem b

  -- A node that is added in front of the others, and apart from them.
  pub add_node_lem :
      (addr size : ℕ) (free : List Region) (s : Store)
      → (align_up addr node_align == addr) ≡ true
      → IsPlaced (region addr size)
      → size < 2 ^ 64
      → All IsPlaced free
      → All (λ (q : Region). NodesApart addr q.start_addr) free
      → Holds s free
      → (s' : Store) × (add_node l addr size s ≡ ok s') × IsAdded addr size free s s'
  unfolding add_node
  add_node_lem addr size free s same (pos, below, enough) small placed apart holds =
      let big : leb node_size size ≡ true = ground arith in
      (added, rw (same, big), record { holds = added_holds; bytes_kept = kept })
    where
      added : Store
      added = record {
        head = some addr;
        mem =
            write_bytes 8 (write_bytes 8 s.mem (addr + l.size_at) size) (addr + l.next_at)
              (of_pointer s.head);
      }

      kept : (b : ℕ) → OffNode b addr → added.mem b ≡ s.mem b
      kept b out =
          write_bytes-off 8 (write_bytes 8 s.mem (addr + l.size_at) size) (addr + l.next_at)
            (of_pointer s.head) b (off_field l addr b out)
          ∙ write_bytes-off 8 s.mem (addr + l.size_at) size b (off_size out)
        where
          off_size : OffNode b addr → (b < addr + l.size_at) ⊎ (addr + l.size_at + 8 ≤ b)
          off_size (inl h) = inl (omega arith)
          off_size (inr h) = inr (omega (arith, (field_bounds l).1))

      others :
          (qs : List Region)
          → All (λ (q : Region). NodesApart addr q.start_addr) qs
          → All (λ (q : Region). SameNode s.mem added.mem q.start_addr) qs
      others [] h = tt
      others (q ∷ qs) h = ((λ b from to. kept b (in_other q b h.0 from to)), others qs h.1)
        where
          in_other :
              (q : Region) (b : ℕ)
              → NodesApart addr q.start_addr
              → q.start_addr ≤ b
              → b < q.start_addr + node_size
              → OffNode b addr
          in_other q b (inl a) from to = inr (omega arith)
          in_other q b (inr a) from to = inl (omega arith)

      pointer : (of_pointer s.head < 2 ^ 64) × (to_pointer (of_pointer s.head) ≡ s.head)
      pointer = Chain-pointer l s.mem s.head free placed holds

      added_holds : Chain l added.mem (some addr) (region addr size ∷ free)
      added_holds = (
        refl,
        size-write_next l (write_bytes 8 s.mem (addr + l.size_at) size) addr (of_pointer s.head)
            ∙ word-write_bytes s.mem (addr + l.size_at) size small,
        subst (λ p. Chain l added.mem p free)
            (sym (
              ap to_pointer (
                word-write_bytes (write_bytes 8 s.mem (addr + l.size_at) size) (addr + l.next_at)
                  (of_pointer s.head) pointer.0)
              ∙ pointer.1))
            (Chain-frame l s.mem added.mem s.head free (others free apart) holds),
      )

  abbrev pub OffRegion : ℕ → Region → Type 0
  OffRegion b r = (b < r.start_addr) ⊎ (r.start_addr + r.size ≤ b)

  -- Well-formed regions below 2 ^ 64 and above the null pointer, and apart, as nodes.
  pub All-IsPlaced :
      (lo hi : ℕ) (rs : List Region)
      → 0 < lo
      → hi ≤ 2 ^ 64
      → All (IsRegion lo hi) rs
      → All IsPlaced rs
  All-IsPlaced lo hi [] low high h = tt
  All-IsPlaced lo hi (r ∷ rs) low high h = (
    (omega (arith, h.0.above), omega (arith, h.0.below), h.0.holds_node),
    All-IsPlaced lo hi rs low high h.1,
  )

  Apart-NodesApart :
      (lo hi : ℕ) (r q : Region)
      → IsRegion lo hi r
      → IsRegion lo hi q
      → Apart r q
      → NodesApart r.start_addr q.start_addr
  Apart-NodesApart lo hi r q is_r is_q (inl h) = inl (omega (arith, is_r.holds_node))
  Apart-NodesApart lo hi r q is_r is_q (inr h) = inr (omega (arith, is_q.holds_node))

  pub All-NodesApart :
      (lo hi : ℕ) (r : Region) (qs : List Region)
      → IsRegion lo hi r
      → All (IsRegion lo hi) qs
      → All (Apart r) qs
      → All (λ (q : Region). NodesApart r.start_addr q.start_addr) qs
  All-NodesApart lo hi r [] is h a = tt
  All-NodesApart lo hi r (q ∷ qs) is h a =
      (Apart-NodesApart lo hi r q is h.0 a.0, All-NodesApart lo hi r qs is h.1 a.1)

  pub Tiling-AllApart :
      (lo hi : ℕ) (rs : List Region) → All (IsRegion lo hi) rs → PairwiseApart rs → AllApart rs
  Tiling-AllApart lo hi [] h a = tt
  Tiling-AllApart lo hi (r ∷ rs) h a =
      (All-NodesApart lo hi r rs h.0 h.1 a.0, Tiling-AllApart lo hi rs h.1 a.1)

  module _ (lo hi : ℕ) (low : 0 < lo) where
    pub place_node_lem :
        (size align : ℕ) (found : Found) (s : Store)
        → hi + node_align ≤ usize_mod
        → IsRegion lo hi found.region
        → Suits found.region size align found.alloc_start
        → size_of l s.mem found.region.start_addr ≡ found.region.size
        → Holds s found.rest
        → IsTiling lo hi (tail_of found.region (found.alloc_start + size) ++ found.rest)
        → (s' : Store) × (place_node l size found.region.start_addr found.alloc_start s
            ≡ ok (some found.alloc_start, s'))
          × Holds s' (tail_of found.region (found.alloc_start + size) ++ found.rest)
          × ((b : ℕ) → OffRegion b found.region → s'.mem b ≡ s.mem b)
    unfolding place_node
    place_node_lem size align found s room is suits kept holds t = elim suits.leaves [
      | inl e ↦
          let none_left : ltb 0 (end - stop) ≡ false = ground arith in
          (
            s,
            rw (fits, region_end, none_left),
            rw (tail_of_end found.region stop e) holds,
            λ b out. refl,
          )
      | inr e ↦
          let some_left : ltb 0 (end - stop) ≡ true = ground arith in
          let tiling =
            subst (λ a. IsTiling lo hi (a ++ found.rest))
              (tail_of_lt found.region stop (omega arith)) t in
          let c_is = tiling.each.0 in
          let placed = All-IsPlaced lo hi found.rest low (omega arith) tiling.each.1 in
          let same : (align_up stop node_align == stop) ≡ true =
            (==_iff _ stop).1 (self_aligned stop (omega (arith, is.below)) c_is.aligned) in
          let (s', run, added) =
            add_node_lem stop (end - stop) found.rest s same
              (omega (arith, suits.first.above, is.above), omega (arith, is.below), c_is.holds_node)
              (omega (arith, is.below)) placed
              (All-NodesApart lo hi (region stop (end - stop)) found.rest c_is tiling.each.1
                tiling.apart.0)
              holds in
          (
            s',
            rw (fits, region_end, some_left, run),
            rw (tail_of_lt found.region stop (omega arith)) added.holds,
            λ b out. added.bytes_kept b (outside b out e suits.first.above),
          )
    ]
      where
        stop : ℕ
        stop = found.alloc_start + size

        end : ℕ
        end = found.region.start_addr + found.region.size

        fits : ltb stop usize_mod ≡ true
        fits = ground (arith, suits.ends_inside, is.below)

        region_end : end_addr (region_at l s.mem found.region.start_addr) ≡ end
        region_end =
            ap (λ n. (found.region.start_addr + n) % usize_mod) kept ∙ omega (arith, is.below)

        outside :
            (b : ℕ)
            → OffRegion b found.region
            → stop + node_size ≤ end
            → found.region.start_addr ≤ found.alloc_start
            → OffNode b stop
        outside b (inl h) e above = inl (omega arith)
        outside b (inr h) e above = inr (omega arith)
