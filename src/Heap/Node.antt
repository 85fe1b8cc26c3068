-- ===== src/Heap/Node.antt =====
-- `add_free_region`, and `dealloc` of a block that was handed out.
use mathlib.Core.List.{append_assoc}
use native.Mathlib.Decide.{dec_lt, ℕ_discrete}
use bayos.Base.{
  ℕ, ◌+◌, ◌%◌, ◌≤◌, ◌<◌, ◌≡◌, ◌≢◌, ◌↔◌, ◌⊎◌, sym, subst, inl, inr, ◌/◌, true, false, List, ◌∷◌,
  ◌++◌, Bool-cases, arith, leb, ◌==◌, ==_iff, ok, panic, All,
}
use bayos.Heap.{
  usize_mod, node_align, node_size, Region, FreeList, align_up, add_free_region, Layout, size_align,
  dealloc,
}
use bayos.Heap.Align.{IsAlign, align_up_self}
use bayos.Heap.Regions.{Apart, IsTiling, IsTiling-take_out, IsTiling-put_in}

abbrev pub region : ℕ → ℕ → Region
region addr size = record { start_addr = addr; size = size }

node_align-IsAlign : IsAlign node_align
node_align-IsAlign = record { exponent = 3; small = omega arith; power = omega arith }

pub self_aligned :
    (addr : ℕ)
    → addr + node_align ≤ usize_mod
    → addr % node_align ≡ 0
    → align_up addr node_align ≡ addr
self_aligned addr room h =
    (align_up_self node_align addr node_align-IsAlign room).1
      (record { factor = addr / node_align; exact = omega arith })

-- A region whose address is aligned for a node and that is large enough for one becomes the first
-- of the free list.
pub add_free_region-ok :
    (addr size : ℕ) (free : FreeList)
    → addr + node_align ≤ usize_mod
    → addr % node_align ≡ 0
    → node_size ≤ size
    → add_free_region addr size free ≡ ok (region addr size ∷ free)
unfolding add_free_region
add_free_region-ok addr size free room h enough =
    let same : (align_up addr node_align == addr) ≡ true =
      (==_iff _ addr).1 (self_aligned addr room h) in
    let big : leb node_size size ≡ true = ground arith in rw (same, big)

unaligned :
    (addr : ℕ)
    → addr + node_align ≤ usize_mod
    → addr % node_align ≢ 0
    → (align_up addr node_align == addr) ≡ false
unaligned addr room h = elim (Bool-cases (align_up addr node_align == addr)) [
  | inl same ↦
      let m = (align_up_self node_align addr node_align-IsAlign room).0 ((==_iff _ addr).0 same) in
      absurd (h (omega (arith, m.exact)))
  | inr differ ↦ differ
]

unaligned_panics :
    (addr size : ℕ) (free : FreeList)
    → (align_up addr node_align == addr) ≡ false
    → add_free_region addr size free ≡ panic
unfolding add_free_region
unaligned_panics addr size free e = rw e

small_panics :
    (addr size : ℕ) (free : FreeList) → size < node_size → add_free_region addr size free ≡ panic
unfolding add_free_region
small_panics addr size free h =
    let small : leb node_size size ≡ false = ground arith in
    elim (Bool-cases (align_up addr node_align == addr)) [
      | inl same ↦ rw (same, small)
      | inr differ ↦ rw differ
    ]

only :
    (addr size : ℕ) (free : FreeList)
    → addr + node_align ≤ usize_mod
    → add_free_region addr size free ≡ panic
    → (addr % node_align ≢ 0) ⊎ (size < node_size)
only addr size free room e = elim (ℕ_discrete (addr % node_align) 0) [
  | yes h ↦ elim (dec_lt size node_size) [
    | yes small ↦ inr small
    | no big ↦ cc (add_free_region-ok addr size free room h (omega arith))
  ]
  | no h ↦ inl h
]

-- `add_free_region` panics, and adds nothing, exactly where the address is not aligned for a node
-- or the size is too small for one.
add_free_region_panics :
    (addr size : ℕ) (free : FreeList)
    → addr + node_align ≤ usize_mod
    → (add_free_region addr size free ≡ panic) ↔ ((addr % node_align ≢ 0) ⊎ (size < node_size))
add_free_region_panics addr size free room = (only addr size free room, fails)
  where
    fails : (addr % node_align ≢ 0) ⊎ (size < node_size) → add_free_region addr size free ≡ panic
    fails (inl h) = unaligned_panics addr size free (unaligned addr room h)
    fails (inr h) = small_panics addr size free h

module _ (lo hi : ℕ) (live1 live2 : List Region) (ptr size : ℕ) (free : FreeList) where
  -- Giving back a block that is in use moves it, whole, to the front of the free list.
  pub dealloc-IsTiling :
      (layout : Layout) (align : ℕ)
      → hi + node_align ≤ usize_mod
      → size_align layout ≡ ok (size, align)
      → IsTiling lo hi ((live1 ++ region ptr size ∷ live2) ++ free)
      → (dealloc ptr layout free ≡ ok (region ptr size ∷ free))
        × IsTiling lo hi ((live1 ++ live2) ++ region ptr size ∷ free)
  unfolding dealloc
  dealloc-IsTiling layout align room e t =
      let b = region ptr size in
      let t' : IsTiling lo hi (live1 ++ b ∷ (live2 ++ free)) =
        subst (IsTiling lo hi) (append_assoc live1 (b ∷ live2) free) t in
      let (is, apart, rest) = IsTiling-take_out live1 (live2 ++ free) b t' in
      let back = sym (append_assoc live1 live2 free) in
      (
        rw e (
            add_free_region-ok ptr size free (omega (arith, is.below, is.holds_node)) is.aligned
              is.holds_node),
        IsTiling-put_in (live1 ++ live2) free b is (subst (All (Apart b)) back apart)
            (subst (IsTiling lo hi) back rest),
      )
