-- ===== src/Memory/Tests.antt =====
-- The frame allocators over a small memory map, with a list of Booleans for the bits.
use bayos.Base.{
  ℕ, ◌%◌, ◌≤◌, ◌<◌, ◌≡◌, refl, Bool, true, false, Option, some, List, [], ◌∷◌, arith, length,
  get_elem?, set, replicate, ◌==◌, ==_iff, ok, ◌>>=◌,
}
use bayos.Memory.{
  MemoryRegion, usable, other, BitVec, BitmapAllocator, BootInfoFrameAllocator, first_false,
  frame_addresses, usable_frames, boot_init, init, allocate_frame, deallocate_frame,
}
use bayos.Memory.Bitmap.{
  Distinct, taken, table, Allocated, allocate_frame_lem, deallocate_frame-allocate_frame,
}
use bayos.Memory.Handover.{boot_frames, bitmap_frames, bitmap_frames-init}
use bayos.Memory.Range.{IsMemoryMap, usable_frames-Distinct}

abbrev bools : BitVec
bools = record {
  Bits = List Bool;
  bits = λ v. v;
  repeat = λ b n. replicate n b;
  put = set;
  first_zero = first_false;
  bits-repeat = λ b n. refl;
  bits-put = λ v i b h. refl;
  first_zero-bits = λ v. refl;
}

-- Two pages, a reserved page, and one more page.
abbrev memory_map : List MemoryRegion
memory_map =
    record { start = 0x1000; end = 0x3000; kind = usable }
    ∷ record { start = 0x3000; end = 0x4000; kind = other }
    ∷ record { start = 0x8000; end = 0x9000; kind = usable }
    ∷ []

-- A frame is named by its first address.
abbrev frame_of : ℕ → ℕ
frame_of a = a

memory_map-frames : frame_addresses memory_map ≡ 0x1000 ∷ 0x2000 ∷ 0x8000 ∷ []
unfolding frame_addresses bayos.Memory.steps
memory_map-frames = refl

memory_map-IsMemoryMap : IsMemoryMap memory_map
memory_map-IsMemoryMap = omega arith

separates : (a b : ℕ) → a % 4096 ≡ 0 → b % 4096 ≡ 0 → frame_of a ≡ frame_of b → a ≡ b
separates a b h k e = e

-- One frame was handed out during boot.
abbrev booted : BootInfoFrameAllocator
booted = record { memory_map = memory_map; next = 1 }

abbrev drained : BootInfoFrameAllocator
drained = record { memory_map = memory_map; next = 4 }

abbrev allocator : BitmapAllocator bools
allocator = record { memory_map = memory_map; bitmap = true ∷ false ∷ false ∷ [] }

init_runs : init bools frame_of booted ≡ ok allocator
unfolding init bayos.Memory.frames usable_frames frame_addresses bayos.Memory.steps
    bayos.Memory.mark
init_runs = refl

allocate_frame_runs :
    allocate_frame bools frame_of allocator
    ≡ ok (some 0x2000, record allocator { bitmap = true ∷ true ∷ false ∷ [] })
unfolding allocate_frame usable_frames frame_addresses bayos.Memory.steps
allocate_frame_runs = refl

allocator-IsSound :
    length (taken bools frame_of allocator) ≡ length (table bools frame_of allocator)
unfolding usable_frames frame_addresses bayos.Memory.steps
allocator-IsSound = refl

allocator-Distinct : Distinct (table bools frame_of allocator)
allocator-Distinct = usable_frames-Distinct frame_of separates memory_map memory_map-IsMemoryMap

second : get_elem? (table bools frame_of allocator) 1 ≡ some 0x2000
unfolding usable_frames frame_addresses bayos.Memory.steps
second = refl

allocate_frame_lem_example :
    (answer : Option ℕ) × (a' : BitmapAllocator bools) × (allocate_frame bools frame_of allocator
      ≡ ok (answer, a'))
    × Allocated bools frame_of allocator answer a'
allocate_frame_lem_example =
    allocate_frame_lem bools frame_of allocator allocator-IsSound allocator-Distinct

deallocate_frame-allocate_frame_example :
    (a'' : BitmapAllocator bools) × (deallocate_frame bools frame_of ◌==◌ 0x2000
        (record allocator { bitmap = true ∷ true ∷ false ∷ [] })
      ≡ ok a'')
    × (taken bools frame_of a'' ≡ taken bools frame_of allocator)
deallocate_frame-allocate_frame_example =
    deallocate_frame-allocate_frame bools frame_of ◌==◌ ==_iff allocator
      (record allocator { bitmap = true ∷ true ∷ false ∷ [] }) 0x2000 allocator-IsSound
      allocator-Distinct allocate_frame_runs

one_used : 1 ≤ bayos.Memory.frames frame_of booted
unfolding bayos.Memory.frames usable_frames frame_addresses bayos.Memory.steps
one_used = omega arith

too_many : bayos.Memory.frames frame_of drained < 4
unfolding bayos.Memory.frames usable_frames frame_addresses bayos.Memory.steps
too_many = omega arith

bitmap_frames-init_example :
    (init bools frame_of booted >>= bitmap_frames bools frame_of 3)
    ≡ ok (boot_frames bools frame_of 3 booted)
bitmap_frames-init_example = bitmap_frames-init bools frame_of 3 booted one_used (omega arith)
