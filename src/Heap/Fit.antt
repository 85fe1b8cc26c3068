-- ===== src/Heap/Fit.antt =====
-- `alloc_from_region` and `size_align` against what they are for.
use bayos.Base.{
  ℕ, ◌+◌, ◌-◌, ◌*◌, ◌/◌, ◌%◌, ◌^◌, ◌≤◌, ◌<◌, max, ◌≡◌, refl, subst, ap, ◌∙◌, ◌⊎◌, inl, inr, ◌↔◌,
  some, true, ltb, arith, ok, panic,
}
use native.Mathlib.Nat.{pow-le-pow_right, div-add-mod, mod-lt}
use native.Mathlib.Decide.{dec_le}
use bayos.Base.Bits.{pow_add}
use bayos.Heap.{
  round_up, usize_mod, isize_max, node_align, node_size, Region, align_up, alloc_from_region,
  Layout, size_align,
}
use bayos.Heap.Align.{
  IsAlign, IsMultiple, RoundsUp, align_up-RoundsUp, RoundsUp-unique, IsAlign-pos,
}
use bayos.Heap.Regions.{IsRegion}

-- A block of `size` bytes at `start` can be cut from the region: `start` is the region's first
-- aligned address, the block ends in the region, and what is left behind it is empty or holds a node.
pub record Suits (region : Region) (size align start : ℕ) : Type 0 where
  pub first : RoundsUp align region.start_addr start
  pub ends_inside : start + size ≤ region.start_addr + region.size
  pub leaves :
      (start + size ≡ region.start_addr + region.size)
      ⊎ (start + size + node_size ≤ region.start_addr + region.size)

module _ (lo hi : ℕ) (region : Region) (size align start : ℕ) where
  -- For an alignment that is a power of two, and a region of a heap that ends so far below the top
  -- of the address space that rounding up does not wrap: `alloc_from_region` returns an address
  -- exactly where a block of the size, from that address on, suits the region: it starts at the
  -- first aligned address of the region, ends inside it, and leaves either nothing behind it or
  -- enough for a node.
  pub alloc_from_region-Suits :
      IsAlign align
      → hi + align ≤ usize_mod
      → IsRegion lo hi region
      → (alloc_from_region region size align ≡ some start) ↔ Suits region size align start
  unfolding alloc_from_region
  alloc_from_region-Suits is room reg =
      let up = align_up-RoundsUp align region.start_addr is (omega arith) in
      let low : hi < usize_mod = omega (arith, IsAlign-pos align is) in
      let a = align_up region.start_addr align in
      (
        λ e.
            (let same : a ≡ start = ground arith in
              record {
                first = subst (RoundsUp align region.start_addr) same up;
                ends_inside = ground arith;
                leaves = ground arith;
              }),
        λ s.
            (let same : a ≡ start = RoundsUp-unique align region.start_addr a start up s.first in
              elim s.leaves [ inl e ↦ ground arith | inr e ↦ ground arith ]),
      )

-- A power of two that is at least 8 is a multiple of 8.
align_mod : (align : ℕ) → IsAlign align → node_align ≤ align → IsMultiple node_align align
align_mod align is h = elim (dec_le 3 is.exponent) [
  | yes big ↦
      let split : 2 ^ is.exponent ≡ 2 ^ (is.exponent - 3) * 8 =
        ap (λ t. 2 ^ t) {x = is.exponent} {y = is.exponent - 3 + 3} (omega arith)
        ∙ pow_add (is.exponent - 3) 3 in
      record { factor = 2 ^ (is.exponent - 3); exact = is.power ∙ split }
  | no small ↦ absurd (
      omega (
        arith,
        is.power,
        pow-le-pow_right {n = 2} (omega arith) {i = is.exponent} {j = 2} (omega arith),
      ))
]

-- What `size_align` makes of a layout: an alignment that is enough for a node and for the layout,
-- and a size that is enough for both and leaves the next address aligned for a node.
pub record IsAdjusted (layout : Layout) (size align : ℕ) : Type 0 where
  pub is_align : IsAlign align
  pub align_max : align ≡ max layout.align node_align
  pub align_aligned : align % node_align ≡ 0
  pub enough : layout.size ≤ size
  pub holds_node : node_size ≤ size
  pub aligned : size % node_align ≡ 0

-- What Rust promises of a `Layout`: the alignment is a power of two, and the size padded to it does
-- not pass `isize::MAX`.
pub record IsLayout (layout : Layout) : Type 0 where
  pub is_align : IsAlign layout.align
  pub fits : layout.size + layout.align ≤ isize_max + 1

-- The alignment is a power of two, and the size padded to the alignment that the allocator uses, which
-- is at least that of a node, does not pass `isize::MAX`. For an alignment of 8 or more, Rust promises
-- as much.
pub record IsPaddable (layout : Layout) : Type 0 where
  pub is_align : IsAlign layout.align
  pub fits : layout.size + max layout.align node_align ≤ isize_max + 1

-- The size is too large to be padded for a node.
abbrev pub IsOversized : Layout → Type 0
IsOversized layout = isize_max + 1 < layout.size + max layout.align node_align

pub IsLayout-cases : (layout : Layout) → IsLayout layout → IsPaddable layout ⊎ IsOversized layout
IsLayout-cases layout is =
    elim (dec_le (layout.size + max layout.align node_align) (isize_max + 1)) [
      | yes fits ↦ inl (record { is_align = is.is_align; fits = fits })
      | no over ↦ inr (omega (arith, over))
    ]

IsAlign-max : (align : ℕ) → IsAlign align → IsAlign (max align node_align)
IsAlign-max align is = elim (dec_le align node_align) [
  | yes le ↦ record { exponent = 3; small = omega arith; power = omega arith }
  | no gt ↦ record { exponent = is.exponent; small = is.small; power = omega (arith, is.power) }
]

round_up_lem :
    (size align : ℕ)
    → 0 < align
    → IsMultiple node_align align
    → (size ≤ round_up size align) × (round_up size align % node_align ≡ 0)
round_up_lem size align pos m =
    let n : ℕ = size + (align - 1) in
    let q : ℕ = n / align in
    let split : align * q + n % align ≡ n = div-add-mod n align in
    let rest : n % align < align = mod-lt n pos in
    let eights : align * q ≡ m.factor * q * 8 = ap (λ (t : ℕ). t * q) m.exact ∙ omega arith in
    (omega arith, omega arith)

mod_of_multiple : (n : ℕ) → IsMultiple node_align n → n % node_align ≡ 0
mod_of_multiple n m = omega (arith, m.exact)

max_mod : (n : ℕ) → n % node_align ≡ 0 → max n node_size % node_align ≡ 0
max_mod n h = omega arith

-- A layout that Rust allows and that is too large to be padded for a node makes `size_align` panic.
pub size_align_panics :
    (layout : Layout) → IsLayout layout → IsOversized layout → size_align layout ≡ panic
unfolding size_align
size_align_panics layout is over =
    let refused : ltb (isize_max + 1 - max layout.align node_align) layout.size ≡ true =
      ground (arith, is.fits, over) in
    rw (size_align, refused)

-- On a layout that can be padded for a node, `size_align` does not panic, and returns a size and an alignment
-- that serve both the layout and a `ListNode`.
pub size_align_lem :
    (layout : Layout)
    → IsPaddable layout
    → (size align : ℕ) × (size_align layout ≡ ok (size, align)) × IsAdjusted layout size align
unfolding size_align
size_align_lem layout is =
    let align = max layout.align node_align in
    let size = max (round_up layout.size align) node_size in
    let pow = IsAlign-max layout.align is.is_align in
    let up = round_up_lem layout.size align (omega arith) (align_mod align pow (omega arith)) in
    (
      size,
      align,
      ground arith,
      record {
        is_align = pow;
        align_max = refl;
        align_aligned = mod_of_multiple align (align_mod align pow (omega arith));
        enough = omega arith;
        holds_node = omega arith;
        aligned = max_mod (round_up layout.size align) up.1;
      },
    )
