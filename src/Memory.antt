-- ===== src/Memory.antt =====
-- The frame allocators of kernel/src/memory.rs: the one that runs during boot, which counts through
-- the usable frames, and the bitmap that takes over from it.
--
-- Not code of the kernel, and so parameters: `frame_of`, which stands for
-- `PhysFrame::containing_address(PhysAddr::new(addr))` of the crate x86_64; the comparison of two
-- frames; and the crate bitvec, whose documented behaviour is the record `BitVec`.
pub mod Bitmap
pub mod Handover
pub mod Range
pub mod Virtual
mod Tests
use bayos.Base.{
  ℕ, zero, suc, ◌+◌, ◌-◌, ◌/◌, ◌%◌, ◌^◌, ◌<◌, ◌≡◌, Bool, true, false, Option, none, some, List, [],
  ◌∷◌, ◌++◌, map, length, get_elem?, set, replicate, ltb, if◌then◌else◌, Exec, ok, ◌>>=◌, ◌>>◌,
  assert, expect, panic,
}

-- `MemoryRegionKind` of the boot loader's interface, as far as the code looks at it.
pub data MemoryRegionKind : Type 0 where
  usable other : MemoryRegionKind

-- `MemoryRegion`: the physical addresses from `start` up to `end`.
pub record MemoryRegion : Type 0 where
  pub start : ℕ
  pub end : ℕ
  pub kind : MemoryRegionKind

-- `r.kind == MemoryRegionKind::Usable`
abbrev pub is_usable : MemoryRegion → Bool
is_usable r = elim r.kind [ usable ↦ true | other ↦ false ]

-- The first `n` values of `(start..).step_by(4096)`.
unfoldable pub steps : ℕ → ℕ → List ℕ
steps zero start = []
steps (suc n) start = start ∷ steps n (start + 4096)

-- `(start..end).step_by(4096)`
abbrev pub step_by : ℕ → ℕ → List ℕ
step_by start end = steps ((end - start + 4095) / 4096) start

-- The addresses that `usable_frames` makes frames of.
unfoldable pub frame_addresses : List MemoryRegion → List ℕ
frame_addresses [] = []
frame_addresses (r ∷ regions) =
    if is_usable r
    then step_by r.start r.end ++ frame_addresses regions
    else frame_addresses regions

-- The index of the first `false`.
abbrev pub first_false : List Bool → Option ℕ
first_false [] = none
first_false (false ∷ bits) = some 0
first_false (true ∷ bits) = elim (first_false bits) [ none ↦ none | some i ↦ some (suc i) ]

-- The crate bitvec, as far as the code calls it, with what its documentation says of each call:
-- `set` panics at an index out of range, so it is used below the length only.
pub record BitVec : Type 1 where
  pub Bits : Type 0
  pub bits : Bits → List Bool
  pub repeat : Bool → ℕ → Bits
  pub put : Bits → ℕ → Bool → Bits
  pub first_zero : Bits → Option ℕ
  pub bits-repeat : (b : Bool) (n : ℕ) → bits (repeat b n) ≡ replicate n b
  pub bits-put :
      (v : Bits) (i : ℕ) (b : Bool) → i < length (bits v) → bits (put v i b) ≡ set (bits v) i b
  pub first_zero-bits : (v : Bits) → first_zero v ≡ first_false (bits v)

-- `find_map(|(i, cmp)| (cmp == frame).then_some(i))` over the enumerated frames.
abbrev pub find_index : {F : Type 0} → (F → F → Bool) → F → List F → Option ℕ
find_index eq frame [] = none
find_index eq frame (cmp ∷ frames) =
    let rest = find_index eq frame frames in
    if eq cmp frame then some 0 else elim rest [ none ↦ none | some i ↦ some (suc i) ]

-- `BootInfoFrameAllocator`
pub record BootInfoFrameAllocator : Type 0 where
  pub memory_map : List MemoryRegion
  pub next : ℕ

unfoldable pub boot_init : List MemoryRegion → BootInfoFrameAllocator
boot_init memory_map = record { memory_map = memory_map; next = 0 }

-- `BitmapAllocator`
pub record BitmapAllocator (v : BitVec) : Type 0 where
  pub memory_map : List MemoryRegion
  pub bitmap : v.Bits

module _ {F : Type 0} (frame_of : ℕ → F) where
  unfoldable pub usable_frames : List MemoryRegion → List F
  usable_frames memory_map = map frame_of (frame_addresses memory_map)

  unfoldable pub frames : BootInfoFrameAllocator → ℕ
  frames a = length (usable_frames a.memory_map)

  -- `BootInfoFrameAllocator::allocate_frame`
  unfoldable pub boot_allocate_frame : BootInfoFrameAllocator → Option F × BootInfoFrameAllocator
  boot_allocate_frame a =
      let frame = get_elem? (usable_frames a.memory_map) a.next in
      (frame, record a { next = (a.next + 1) % 2 ^ 64 })

  -- `BootInfoFrameAllocator::deallocate_frame`
  unfoldable pub boot_deallocate_frame : F → BootInfoFrameAllocator → Exec BootInfoFrameAllocator
  boot_deallocate_frame frame a = panic

-- `bitmap.set(index, value)`
abbrev pub set_bit : (v : BitVec) → v.Bits → ℕ → Bool → Exec v.Bits
set_bit v b index value = if ltb index (length (v.bits b)) then ok (v.put b index value) else panic

-- `for i in first..first + n { bitvec.set(i, true); }`
unfoldable pub mark : (v : BitVec) → ℕ → ℕ → v.Bits → Exec v.Bits
mark v zero first b = ok b
mark v (suc n) first b = do b' ← set_bit v b first true; mark v n (first + 1) b'

module _ (v : BitVec) {F : Type 0} (frame_of : ℕ → F) where
  -- `BitmapAllocator::init`
  unfoldable pub init : BootInfoFrameAllocator → Exec (BitmapAllocator v)
  init old = do
    let bitmap_len = frames frame_of old
    bitmap ← mark v old.next 0 (v.repeat false bitmap_len)
    ok (record { memory_map = old.memory_map; bitmap = bitmap })

  -- `BitmapAllocator::allocate_frame`
  unfoldable pub allocate_frame : BitmapAllocator v → Exec (Option F × BitmapAllocator v)
  allocate_frame a = elim (v.first_zero a.bitmap) [
    | none ↦ ok (none, a)
    | some index ↦ do
      bitmap ← set_bit v a.bitmap index true
      ok (get_elem? (usable_frames frame_of a.memory_map) index, record a { bitmap = bitmap })
  ]

  -- `BitmapAllocator::deallocate_frame`
  unfoldable pub deallocate_frame :
      (F → F → Bool) → F → BitmapAllocator v → Exec (BitmapAllocator v)
  deallocate_frame eq frame a = do
    index ← expect (find_index eq frame (usable_frames frame_of a.memory_map))
    bitmap ← set_bit v a.bitmap index false
    ok (record a { bitmap = bitmap })
