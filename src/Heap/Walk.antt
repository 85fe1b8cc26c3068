-- ===== src/Heap/Walk.antt =====
-- `find_node` over the nodes of a list of regions is `find_region` on the list.
use bayos.Base.{
  ℕ, zero, suc, ◌+◌, ◌≤◌, ◌<◌, ◌≡◌, sym, ap, subst, ◌∙◌, ◌⊎◌, inl, inr, Option, none, some, List,
  [], ◌∷◌, arith, All, length, Option-cases, Exec, ok,
}
use bayos.Base.Words.{word-same}
use bayos.Heap.{Region, Found, alloc_from_region, find_region}
use bayos.Heap.Nodes.{
  NodeLayout, Store, Link, head_link, node_link, to_pointer, next_of, size_of, region_at, unlink,
  find_node,
}
use bayos.Heap.Chain.{
  OffNode, NodesApart, AllApart, IsPlaced, SameNode, Chain, Chain-frame, Chain-pointer,
}
use bayos.Heap.Unlink.{
  OffLink, LinkApart, HeadKept, IsUnlinked, unlink-IsUnlinked, off_field, field_bounds,
}

module _ (l : NodeLayout) where
  -- The store once a region is taken out of the nodes behind `current`.
  pub record IsTaken (current : Link) (rs : List Region) (s s' : Store) (found : Found)
      : Type 0 where
    pub chain : Chain l s'.mem (next_of l s' current) found.rest
    pub size_kept : size_of l s'.mem found.region.start_addr ≡ found.region.size
    pub bytes_kept :
        (b : ℕ) → OffLink l current b → All (λ r. OffNode b r.start_addr) rs → s'.mem b ≡ s.mem b
    pub head_kept : HeadKept l current s s'

  -- The run does what the search of the list does.
  abbrev pub Walks :
      Link → List Region → Store → Option Found → Exec (Option (ℕ × ℕ) × Store) → Type 0
  Walks current rs s none run = run ≡ ok (none, s)
  Walks current rs s (some found) run =
      (s' : Store) × (run ≡ ok (some (found.region.start_addr, found.alloc_start), s'))
      × IsTaken current rs s s' found

  region_at-eq :
      (s : Store) (r : Region)
      → size_of l s.mem r.start_addr ≡ r.size
      → region_at l s.mem r.start_addr ≡ r
  region_at-eq s r e = ap (λ (n : ℕ). record r { size = n }) e

  -- A node apart from the region, and bytes of it.
  off-apart : (a c b : ℕ) → NodesApart a c → c ≤ b → b < c + 16 → OffNode b a
  off-apart a c b (inl h) from to = inr (omega arith)
  off-apart a c b (inr h) from to = inl (omega arith)

  off-apart_left : (a c b : ℕ) → NodesApart a c → a ≤ b → b < a + 16 → OffNode b c
  off-apart_left a c b (inl h) from to = inl (omega arith)
  off-apart_left a c b (inr h) from to = inr (omega arith)

  -- A byte of a node is in no node apart from it.
  outside :
      (a b : ℕ) (qs : List Region)
      → a ≤ b
      → b < a + 16
      → All (λ (q : Region). NodesApart a q.start_addr) qs
      → All (λ (q : Region). OffNode b q.start_addr) qs
  outside a b [] from to h = tt
  outside a b (q ∷ qs) from to h =
      (off-apart_left a q.start_addr b h.0 from to, outside a b qs from to h.1)

  link-off :
      (current : Link) (c b : ℕ) → LinkApart l current c → c ≤ b → b < c + 16 → OffLink l current b
  link-off head_link c b h from to = tt
  link-off (node_link a) c b h from to = off_field l a b (off-apart a c b h from to)

  unlink-IsTaken :
      (current : Link) (r : Region) (rs : List Region) (s : Store) (start : ℕ)
      → All IsPlaced (r ∷ rs)
      → AllApart (r ∷ rs)
      → All (λ (q : Region). LinkApart l current q.start_addr) (r ∷ rs)
      → Chain l s.mem (next_of l s current) (r ∷ rs)
      → IsTaken current
          (r ∷ rs)
          s
          (unlink l current r.start_addr s)
          (record { region = r; alloc_start = start; rest = rs })
  unlink-IsTaken current r rs s start placed apart free c =
      let (small, back) =
        Chain-pointer l s.mem (next_of l s (node_link r.start_addr)) rs placed.1 c.2 in
      let u = unlink-IsUnlinked l current r.start_addr s free.0 small back in
      record {
        chain =
            subst (λ p. Chain l (unlink l current r.start_addr s).mem p rs) (sym u.passed_on)
              (Chain-frame l s.mem (unlink l current r.start_addr s).mem
                (next_of l s (node_link r.start_addr)) rs
                (same_nodes (unlink l current r.start_addr s) u rs free.1 apart.0) c.2);
        size_kept = u.size_kept ∙ c.1;
        bytes_kept = λ b off out. u.bytes_kept b off out.0;
        head_kept = u.head_kept;
      }
    where
      same_nodes :
          (s' : Store)
          → IsUnlinked l current r.start_addr s s'
          → (qs : List Region) → All (λ (q : Region). LinkApart l current q.start_addr) qs
          → All (λ (q : Region). NodesApart r.start_addr q.start_addr) qs
          → All (λ (q : Region). SameNode s.mem s'.mem q.start_addr) qs
      same_nodes s' u [] h k = tt
      same_nodes s' u (q ∷ qs) h k = (
        λ b from to.
            u.bytes_kept b (link-off current q.start_addr b h.0 from to)
              (off-apart r.start_addr q.start_addr b k.0 from to),
        same_nodes s' u qs h.1 k.1,
      )

  -- A node that does not suit stays in the chain, in front of what is left behind it.
  passed-IsTaken :
      (current : Link) (r : Region) (rs : List Region) (s s' : Store) (found : Found)
      → AllApart (r ∷ rs)
      → All (λ (q : Region). LinkApart l current q.start_addr) (r ∷ rs)
      → Chain l s.mem (next_of l s current) (r ∷ rs)
      → IsTaken (node_link r.start_addr) rs s s' found
      → IsTaken current (r ∷ rs) s s' (record found { rest = r ∷ found.rest })
  passed-IsTaken current r rs s s' found apart free c t = record {
    chain = (link_same current free ∙ c.0, size_same ∙ c.1, t.chain);
    size_kept = t.size_kept;
    bytes_kept = λ b off out. t.bytes_kept b (off_field l r.start_addr b out.0) out.1;
    head_kept = head_same current;
  }
    where
      size_off :
          (b : ℕ)
          → r.start_addr + l.size_at ≤ b
          → b < r.start_addr + l.size_at + 8
          → (l.size_at + 8 ≤ l.next_at) ⊎ (l.next_at + 8 ≤ l.size_at)
          → OffLink l (node_link r.start_addr) b
      size_off b from to (inl h) = inl (omega arith)
      size_off b from to (inr h) = inr (omega arith)

      size_same : size_of l s'.mem r.start_addr ≡ size_of l s.mem r.start_addr
      size_same = word-same s.mem s'.mem (r.start_addr + l.size_at) (λ b from to.
          t.bytes_kept b (size_off b from to (field_bounds l).2)
            (outside r.start_addr b rs (omega arith) (omega (arith, (field_bounds l).1)) apart.0))

      head_same : (link : Link) → HeadKept l link s s'
      head_same head_link = tt
      head_same (node_link a) = t.head_kept

      link_same :
          (link : Link)
          → All (λ (q : Region). LinkApart l link q.start_addr) (r ∷ rs)
          → next_of l s' link ≡ next_of l s link
      link_same head_link h = t.head_kept
      link_same (node_link a) h = ap to_pointer (
          word-same s.mem s'.mem (a + l.next_at) (λ b from to.
            let low : a ≤ b = omega arith in
            let high : b < a + 16 = omega (arith, (field_bounds l).0) in
            t.bytes_kept b
              (off_field l r.start_addr b (off-apart_left a r.start_addr b h.0 low high))
              (outside a b rs low high h.1)))

  step :
      (current : Link) (r : Region) (rs : List Region) (s : Store) (answer : Option Found)
      (run : Exec (Option (ℕ × ℕ) × Store))
      → AllApart (r ∷ rs)
      → All (λ (q : Region). LinkApart l current q.start_addr) (r ∷ rs)
      → Chain l s.mem (next_of l s current) (r ∷ rs)
      → Walks (node_link r.start_addr) rs s answer run
      → Walks current
          (r ∷ rs)
          s
          (elim answer [ none ↦ none | some found ↦ some (record found { rest = r ∷ found.rest }) ])
          run
  step current r rs s none run apart free c h = h
  step current r rs s (some found) run apart free c h =
      (h.0, h.1, passed-IsTaken current r rs s h.0 found apart free c h.2)

  pub find_node_lem :
      (rs : List Region) (fuel : ℕ) (current : Link) (size align : ℕ) (s : Store)
      → length rs < fuel
      → All IsPlaced rs
      → AllApart rs
      → All (λ (q : Region). LinkApart l current q.start_addr) rs
      → Chain l s.mem (next_of l s current) rs
      → Walks current rs s (find_region rs size align) (find_node l fuel current size align s)
  unfolding find_node find_region
  find_node_lem rs zero current size align s enough placed apart free c = absurd (omega arith)
  find_node_lem [] (suc fuel) current size align s enough placed apart free c = rw (c, find_node)
  find_node_lem (r ∷ rs) (suc fuel) current size align s enough placed apart free c =
      elim (Option-cases (alloc_from_region r size align)) [
        | inl refused ↦
            let run : find_node l (suc fuel) current size align s
                ≡ find_node l fuel (node_link r.start_addr) size align s =
              rw (c.0, find_node, region_at-eq s r c.1, refused) in
            rw (refused, find_region, run)
              (step current r rs s (find_region rs size align)
                (find_node l fuel (node_link r.start_addr) size align s) apart free c
                (find_node_lem rs fuel (node_link r.start_addr) size align s (omega arith) placed.1
                  apart.1 apart.0 c.2))
        | inr (start, fits) ↦
            let run : find_node l (suc fuel) current size align s
                ≡ ok (some (r.start_addr, start), unlink l current r.start_addr s) =
              rw (c.0, find_node, region_at-eq s r c.1, fits) in
            rw (fits, find_region)
              (
                unlink l current r.start_addr s,
                run,
                unlink-IsTaken current r rs s start placed apart free c,
              )
      ]
