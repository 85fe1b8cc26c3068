-- ===== src/Heap/Simulate.antt =====
-- `alloc` and `dealloc` in memory, and every run of them: the nodes always hold the free list of the
-- same run of the list operations, whatever is written to the blocks in use.
use bayos.Base.{
  ℕ, ◌+◌, ◌≤◌, ◌<◌, max, ◌≡◌, refl, sym, subst, ◌∙◌, inl, inr, Option, none, some, List, [], ◌∷◌,
  ◌++◌, arith, All, All-drop, length, ok,
}
use bayos.Heap.{
  Region, FreeList, Found, usize_mod, node_align, node_size, Layout, find_region, size_align, alloc,
}
use bayos.Heap.Alloc.{tail_of, place-tail_of, multiple_mod, found-IsServed}
use bayos.Heap.Fit.{IsPaddable, IsAdjusted, size_align_lem}
use bayos.Heap.Node.{region}
use bayos.Heap.Nodes.{NodeLayout, Store, head_link, find_node, alloc_node}
use bayos.Heap.Chain.{OffNode}
use bayos.Heap.Unlink.{LinkApart}
use bayos.Heap.Refine.{Holds, OffRegion, All-IsPlaced, Tiling-AllApart, place_node_lem}
use bayos.Heap.Regions.{IsRegion, IsTiling, All-take_out, PairwiseApart}
use bayos.Heap.Search.{Answers, find_region-Answers}
use bayos.Heap.Walk.{Walks, find_node_lem}

PairwiseApart-drop : (xs ys : List Region) → PairwiseApart (xs ++ ys) → PairwiseApart ys
PairwiseApart-drop [] ys h = h
PairwiseApart-drop (x ∷ xs) ys h = PairwiseApart-drop xs ys h.1

pub IsTiling-drop :
    (lo hi : ℕ) (xs ys : List Region) → IsTiling lo hi (xs ++ ys) → IsTiling lo hi ys
IsTiling-drop lo hi xs ys t = record {
  each = All-drop (IsRegion lo hi) xs ys t.each;
  apart = PairwiseApart-drop xs ys t.apart;
}

module _ (l : NodeLayout) (lo hi : ℕ) (low : 0 < lo) (live free : List Region) (layout : Layout)
    (s : Store) where
  -- What a call of `alloc` in memory comes to: the answer and the list of `alloc` on the list.
  pub record Agrees (fuel : ℕ) : Type 0 where
    pub answer : Option ℕ
    pub free' : FreeList
    pub s' : Store
    pub on_list : alloc layout free ≡ ok (answer, free')
    pub in_memory : alloc_node l fuel layout s ≡ ok (answer, s')
    pub holds : Holds l s' free'
    pub spared : (b : ℕ) → All (OffRegion l b) free → s'.mem b ≡ s.mem b

  found-Agrees :
      (fuel size align : ℕ)
      → size_align layout ≡ ok (size, align)
      → IsAdjusted layout size align
      → hi + node_align ≤ usize_mod
      → IsTiling lo hi (live ++ free)
      → Holds l s free
      → (found : Option Found) → find_region free size align ≡ found
      → Answers free size align found
      → Walks l head_link free s found (find_node l fuel head_link size align s)
      → Agrees fuel
  unfolding alloc alloc_node
  found-Agrees fuel size align e adj room t holds none sought h run = record {
    answer = none;
    free' = free;
    s' = s;
    on_list = ground (arith, e, sought);
    in_memory = rw (e, run);
    holds = holds;
    spared = λ b out. refl;
  }
  found-Agrees fuel size align e adj room t holds (some found) sought h (s1, run, taken) =
      let (free', placed, served) =
        found-IsServed lo hi live free size align found h adj.align_aligned adj.aligned
          adj.holds_node room t in
      let is =
        (All-take_out (IsRegion lo hi) h.before h.after found.region
          (subst (All (IsRegion lo hi)) h.whole each)).0 in
      let even = multiple_mod align found.alloc_start adj.align_aligned h.suits.first.multiple in
      let list' : free' ≡ tail_of found.region (found.alloc_start + size) ++ found.rest =
        cc (place-tail_of lo hi size align found room is h.suits (omega (arith, adj.aligned))) in
      let tiling : IsTiling lo hi free' =
        IsTiling-drop lo hi (region found.alloc_start size ∷ live) free' served.tiling in
      let (s', run', holds', spared) =
        place_node_lem l lo hi low size align found s1 room is h.suits taken.size_kept taken.chain
          (subst (IsTiling lo hi) list' tiling) in
      record {
        answer = some found.alloc_start;
        free' = free';
        s' = s';
        on_list = ground (arith, e, sought, placed);
        in_memory = rw (e, run, run');
        holds = subst (Holds l s') (sym list') holds';
        spared = λ b out.
            spared b
              (All-take_out (OffRegion l b) h.before h.after found.region
                (subst (All (OffRegion l b)) h.whole out)).0
            ∙ taken.bytes_kept b tt (All-OffNode b free each out);
      }
    where
      each : All (IsRegion lo hi) free
      each = All-drop (IsRegion lo hi) live free t.each

      All-OffNode :
          (b : ℕ) (rs : List Region)
          → All (IsRegion lo hi) rs
          → All (OffRegion l b) rs
          → All (λ (r : Region). OffNode b r.start_addr) rs
      All-OffNode b [] k out = tt
      All-OffNode b (r ∷ rs) k out = (off out.0 k.0.holds_node, All-OffNode b rs k.1 out.1)
        where
          off : OffRegion l b r → node_size ≤ r.size → OffNode b r.start_addr
          off (inl below) n = inl below
          off (inr above) n = inr (omega arith)

  -- In memory, with fuel for as many nodes as there are, `alloc` gives the answer of `alloc` on the
  -- list, leaves nodes that hold the list that it leaves, and writes no byte outside the free regions.
  pub alloc_node_lem :
      (fuel : ℕ)
      → IsPaddable layout
      → hi + max layout.align node_align ≤ usize_mod
      → IsTiling lo hi (live ++ free)
      → Holds l s free
      → length free < fuel
      → Agrees fuel
  alloc_node_lem fuel is room t holds enough =
      let (size, align, e, adj) = size_align_lem layout is in
      let tiling = IsTiling-drop lo hi live free t in
      let searched =
        find_region-Answers lo hi size align adj.is_align (omega (arith, adj.align_max)) free
          tiling.each in
      let walk =
        find_node_lem l free fuel head_link size align s enough
          (All-IsPlaced l lo hi free low (omega arith) tiling.each)
          (Tiling-AllApart l lo hi free tiling.each tiling.apart) (no_link free) holds in
      found-Agrees fuel size align e adj (omega arith) t holds (find_region free size align) refl
        searched walk
    where
      no_link : (rs : List Region) → All (λ (r : Region). LinkApart l head_link r.start_addr) rs
      no_link [] = tt
      no_link (r ∷ rs) = (tt, no_link rs)
