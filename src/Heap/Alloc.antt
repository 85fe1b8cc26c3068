-- ===== src/Heap/Alloc.antt =====
-- `alloc`: what a call returns, and that it keeps the regions and the blocks in use apart.
use mathlib.Core.List.{append_assoc}
use bayos.Base.{
  ℕ, ◌+◌, ◌-◌, ◌*◌, ◌/◌, ◌%◌, ◌≤◌, ◌<◌, max, ◌≡◌, refl, sym, ◌∙◌, ap, subst, inl, inr, Bool-cases,
  Option, none, some, List, [], ◌∷◌, ◌++◌, arith, All, All-drop, ltb, if◌then◌else◌, ok, panic, ◌⊎◌,
}
use bayos.Heap.{
  usize_mod, node_align, node_size, Region, FreeList, Found, find_region, Layout, size_align, place,
  alloc,
}
use bayos.Heap.Align.{IsMultiple}
use bayos.Heap.Fit.{
  Suits, IsAdjusted, IsLayout, IsPaddable, IsOversized, IsLayout-cases, size_align_lem,
  size_align_panics,
}
use bayos.Heap.Node.{region, add_free_region-ok}
use bayos.Heap.Regions.{
  IsRegion, Apart, IsTiling, IsTiling-take_out, IsTiling-put_in, All-Inside, total,
  total-append_cons,
}
use bayos.Heap.Search.{Unsuited, Answers, FirstFit, find_region-Answers}

-- What is left of a region behind a block: nothing, or one region.
abbrev pub tail_of : Region → ℕ → List Region
tail_of r alloc_end =
    if ltb 0 (r.start_addr + r.size - alloc_end)
    then region alloc_end (r.start_addr + r.size - alloc_end) ∷ []
    else []

pub place-tail_of :
    (lo hi size align : ℕ) (found : Found)
    → hi + node_align ≤ usize_mod
    → IsRegion lo hi found.region
    → Suits found.region size align found.alloc_start
    → (found.alloc_start + size) % node_align ≡ 0
    → place size found
      ≡ ok (some found.alloc_start, tail_of found.region (found.alloc_start + size) ++ found.rest)
unfolding place
place-tail_of lo hi size align found room is s even = elim s.leaves [
  | inl e ↦ ground arith
  | inr e ↦ ground (
    arith,
    add_free_region-ok (found.alloc_start + size)
        (found.region.start_addr + found.region.size - (found.alloc_start + size)) found.rest,
  )
]

pub tail_of_end : (r : Region) (e : ℕ) → e ≡ r.start_addr + r.size → tail_of r e ≡ []
tail_of_end r e h = ground arith

pub tail_of_lt :
    (r : Region) (e : ℕ)
    → e < r.start_addr + r.size
    → tail_of r e ≡ region e (r.start_addr + r.size - e) ∷ []
tail_of_lt r e h = ground arith

module _ {lo hi : ℕ} where
  -- The block and what is left lie in the region, one behind the other.
  cut :
      (r : Region) (start size align : ℕ) (others : List Region)
      → IsRegion lo hi r
      → Suits r size align start
      → node_size ≤ size
      → start % node_align ≡ 0
      → (start + size) % node_align ≡ 0
      → All (Apart r) others
      → IsTiling lo hi others
      → IsTiling lo hi (region start size ∷ (tail_of r (start + size) ++ others))
  cut r start size align others is s big even even_end apart t =
      let b = region start size in
      let is_b : IsRegion lo hi b = omega (arith, s.first.above, s.ends_inside) in
      let apart_b = All-Inside b r others (s.first.above, s.ends_inside) apart in
      elim s.leaves [
        | inl e ↦ rw (tail_of_end r (start + size) e) (IsTiling-put_in [] others b is_b apart_b t)
        | inr e ↦
            let c = region (start + size) (r.start_addr + r.size - (start + size)) in
            let apart_c = All-Inside c r others (omega (arith, s.first.above), omega arith) apart in
            let t' = IsTiling-put_in [] others c (omega (arith, s.first.above)) apart_c t in
            rw (tail_of_lt r (start + size) (omega arith))
              (IsTiling-put_in [] (c ∷ others) b is_b (inl (omega arith), apart_b) t')
      ]

  -- What is left stands in the free list, behind the blocks in use.
  settle :
      (b r : Region) (e : ℕ) (live rest : List Region)
      → IsTiling lo hi (b ∷ (tail_of r e ++ (live ++ rest)))
      → IsTiling lo hi (b ∷ (live ++ (tail_of r e ++ rest)))
  settle b r e live rest t = elim (Bool-cases (ltb 0 (r.start_addr + r.size - e))) [
    | inl more ↦
        let c = region e (r.start_addr + r.size - e) in
        let (is, apart, t') = IsTiling-take_out (b ∷ []) (live ++ rest) c (rw more at t) in
        rw more (IsTiling-put_in (b ∷ live) rest c is apart t')
    | inr done ↦ rw done (rw done at t)
  ]

-- The block that `alloc` hands out at `ptr`, with the free list that it leaves.
pub record IsServed (lo hi : ℕ) (live free : List Region) (size align ptr : ℕ) (free' : FreeList)
    : Type 0 where
  -- The block and the free regions are well formed and overlap neither each other nor a block in use.
  pub tiling : IsTiling lo hi (region ptr size ∷ (live ++ free'))
  pub aligned : IsMultiple align ptr
  -- The bytes skipped in front of the block.
  pub skipped : ℕ
  pub skipped_lt : skipped < align
  pub accounted : total free ≡ total free' + size + skipped

-- What `alloc` may answer: a block, or the null pointer with the list unchanged where no free region
-- suits the request.
abbrev pub Served :
    (lo hi : ℕ) (live free : List Region) (size align : ℕ) → Option ℕ → FreeList → Type 0
Served lo hi live free size align none free' = (free' ≡ free) × All (Unsuited size align) free
Served lo hi live free size align (some ptr) free' = IsServed lo hi live free size align ptr free'

total-tail_of :
    (r : Region) (e : ℕ) (rest : FreeList)
    → e ≤ r.start_addr + r.size
    → total (tail_of r e ++ rest) ≡ r.start_addr + r.size - e + total rest
unfolding total
total-tail_of r e rest h = elim (Bool-cases (ltb 0 (r.start_addr + r.size - e))) [
  | inl more ↦ rw more
  | inr done ↦ rw done (ground arith)
]

pub multiple_mod :
    (align start : ℕ) → align % node_align ≡ 0 → IsMultiple align start → start % node_align ≡ 0
multiple_mod align start h m =
    let q = align / node_align in
    let eights : m.factor * align ≡ m.factor * q * 8 =
      ap (λ (t : ℕ). m.factor * t) {y = q * 8} (omega arith) ∙ omega arith in
    omega (arith, m.exact)

module _ (lo hi : ℕ) (live free : List Region) (size align : ℕ) where
  pub found-IsServed :
      (found : Found)
      → FirstFit free size align found
      → align % node_align ≡ 0
      → size % node_align ≡ 0
      → node_size ≤ size
      → hi + node_align ≤ usize_mod
      → IsTiling lo hi (live ++ free)
      → (free' : FreeList) × (place size found ≡ ok (some found.alloc_start, free'))
        × IsServed lo hi live free size align found.alloc_start free'
  found-IsServed found fit even_align even big room t =
      let r = found.region in
      let start = found.alloc_start in
      let rest = fit.before ++ fit.after in
      let t0 : IsTiling lo hi ((live ++ fit.before) ++ r ∷ fit.after) =
        subst (IsTiling lo hi)
          (ap (λ l. live ++ l) fit.whole ∙ sym (append_assoc live fit.before (r ∷ fit.after))) t in
      let (is, apart, t1) = IsTiling-take_out (live ++ fit.before) fit.after r t0 in
      let back = append_assoc live fit.before fit.after in
      let even_start = multiple_mod align start even_align fit.suits.first.multiple in
      let tiled =
        cut r start size align (live ++ rest) is fit.suits big even_start (omega arith)
          (subst (All (Apart r)) back apart) (subst (IsTiling lo hi) back t1) in
      let free' = tail_of r (start + size) ++ rest in
      let before_total = ap total fit.whole ∙ total-append_cons fit.before fit.after r in
      (
        free',
        rw (place-tail_of lo hi size align found room is fit.suits (omega arith), fit.others),
        record {
          tiling = settle (region start size) r (start + size) live rest tiled;
          aligned = fit.suits.first.multiple;
          skipped = start - r.start_addr;
          skipped_lt = omega (arith, fit.suits.first.close, fit.suits.first.above);
          accounted = omega (
            arith,
            before_total,
            fit.suits.first.above,
            fit.suits.ends_inside,
            total-tail_of r (start + size) rest fit.suits.ends_inside,
          );
        },
      )

module _ (lo hi : ℕ) (live free : List Region) (layout : Layout) where
  answered :
      (size align : ℕ)
      → size_align layout ≡ ok (size, align)
      → IsAdjusted layout size align
      → hi + node_align ≤ usize_mod
      → IsTiling lo hi (live ++ free)
      → (found : Option Found) → find_region free size align ≡ found
      → Answers free size align found
      → (answer : Option ℕ) × (free' : FreeList) × (alloc layout free ≡ ok (answer, free'))
        × Served lo hi live free size align answer free'
  unfolding alloc
  answered size align e adj room t none sought h = (none, free, ground arith, (refl, h))
  answered size align e adj room t (some found) sought h =
      let (free', placed, served) =
        found-IsServed lo hi live free size align found h adj.align_aligned adj.aligned
          adj.holds_node room t in
      (some found.alloc_start, free', ground (arith, placed), served)

  -- What a request comes to, if its layout can be padded for a node.
  pub record IsAnswered : Type 0 where
    pub size : ℕ
    pub align : ℕ
    pub answer : Option ℕ
    pub free' : FreeList
    pub adjusts : size_align layout ≡ ok (size, align)
    pub adjusted : IsAdjusted layout size align
    pub run : alloc layout free ≡ ok (answer, free')
    pub served : Served lo hi live free size align answer free'

  pub alloc-Served :
      IsPaddable layout
      → hi + max layout.align node_align ≤ usize_mod
      → IsTiling lo hi (live ++ free)
      → (size align : ℕ) × (answer : Option ℕ) × (free' : FreeList) × (size_align layout
          ≡ ok (size, align))
        × IsAdjusted layout size align
        × (alloc layout free ≡ ok (answer, free'))
        × Served lo hi live free size align answer free'
  alloc-Served is room t =
      let (size, align, e, adj) = size_align_lem layout is in
      let searched =
        find_region-Answers lo hi size align adj.is_align (omega (arith, adj.align_max)) free
          (All-drop (IsRegion lo hi) live free t.each) in
      let (answer, free', run, served) =
        answered size align e adj (omega arith) t (find_region free size align) refl searched in
      (size, align, answer, free', e, adj, run, served)

  -- On a layout that Rust allows, from a free list whose regions are well formed and overlap neither
  -- each other nor a block in use: if the size padded to the alignment, or to 8 if that is more, passes
  -- `isize::MAX`, `alloc` panics. If not, it returns an aligned block of the adjusted size, which
  -- overlaps no block in use and no region of the list that it leaves, every byte of which list is
  -- accounted for; or it returns the null pointer, leaves the list as it was, and no region of the list
  -- suits the request. The heap must end so far below the top of the address space that rounding up
  -- does not wrap.
  pub alloc_lem :
      IsLayout layout
      → hi + max layout.align node_align ≤ usize_mod
      → IsTiling lo hi (live ++ free)
      → (IsOversized layout × (alloc layout free ≡ panic)) ⊎ (IsPaddable layout × IsAnswered)
  unfolding alloc
  alloc_lem is room t = elim (IsLayout-cases layout is) [
    | inr over ↦ inl (over, rw (alloc, size_align_panics layout is over))
    | inl pads ↦
        let (size, align, answer, free', e, adj, run, served) = alloc-Served pads room t in
        inr (
          pads,
          record {
            size = size;
            align = align;
            answer = answer;
            free' = free';
            adjusts = e;
            adjusted = adj;
            run = run;
            served = served;
          },
        )
  ]
