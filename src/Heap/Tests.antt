-- ===== src/Heap/Tests.antt =====
-- The heap at concrete requests.
use bayos.Base.{ℕ, ◌+◌, ◌-◌, ◌^◌, ◌<◌, max, ◌≡◌, refl, inl, some, [], ◌∷◌, arith, ok, ◌⊎◌, panic}
use bayos.Heap.{
  usize_mod, node_align, node_size, heap_start, heap_size, Region, FreeList, new, init, align_up,
  add_free_region, alloc_from_region, find_region, Found, Layout, size_align, alloc, dealloc,
}
use bayos.Heap.Align.{IsAlign, RoundsUp, align_up-RoundsUp}
use bayos.Heap.Alloc.{IsAnswered, alloc_lem}
use bayos.Heap.Fit.{IsLayout, IsPaddable, IsOversized}
use bayos.Heap.Node.{region}
use bayos.Heap.Regions.{IsTiling, total}
use bayos.Heap.Trace.{
  heap_end, IsRequest, IsSound, Reach, started, called, allocated, Reach-IsSound, Reach-dealloc,
  total-dealloc-alloc,
}

abbrev vector : Layout
vector = record { size = 24; align = 4 }

-- A type that is aligned to 64 bytes.
abbrev line : Layout
line = record { size = 100; align = 64 }

abbrev whole : Region
whole = region heap_start heap_size

align_up_runs : align_up 4097 4096 ≡ 8192
unfolding align_up
align_up_runs = refl

size_align_runs : size_align line ≡ ok (128, 64)
unfolding size_align
size_align_runs = refl

vector_adjusts : size_align vector ≡ ok (24, 8)
unfolding size_align
vector_adjusts = refl

-- An alignment that the address does not leave room for wraps round to the null pointer.
align_up_wraps : align_up heap_start (2 ^ 32) ≡ 0
unfolding align_up
align_up_wraps = refl

init_runs : init heap_start heap_size new ≡ ok (whole ∷ [])
unfolding init add_free_region align_up
init_runs = refl

abbrev after_vector : FreeList
after_vector = region (heap_start + 24) (heap_size - 24) ∷ []

alloc_runs : alloc vector (whole ∷ []) ≡ ok (some heap_start, after_vector)
unfolding alloc size_align find_region alloc_from_region align_up bayos.Heap.place add_free_region
alloc_runs = refl

-- The block starts at the next multiple of 64, and the 40 bytes before it are lost.
line_runs :
    alloc line after_vector
    ≡ ok (some (heap_start + 64), region (heap_start + 192) (heap_size - 192) ∷ [])
unfolding alloc size_align find_region alloc_from_region align_up bayos.Heap.place add_free_region
line_runs = refl

dealloc_runs : dealloc heap_start vector after_vector ≡ ok (region heap_start 24 ∷ after_vector)
unfolding dealloc size_align add_free_region align_up
dealloc_runs = refl

vector-IsPaddable : IsPaddable vector
vector-IsPaddable = record {
  is_align = record { exponent = 2; small = omega arith; power = refl };
  fits = omega arith;
}

line-IsLayout : IsLayout line
line-IsLayout = record {
  is_align = record { exponent = 6; small = omega arith; power = refl };
  fits = omega arith;
}

vector-IsRequest : IsRequest vector
vector-IsRequest = record { is_paddable = vector-IsPaddable; room = omega arith }

line-IsPaddable : IsPaddable line
line-IsPaddable = record { is_align = line-IsLayout.is_align; fits = omega arith }

line-IsRequest : IsRequest line
line-IsRequest = record { is_paddable = line-IsPaddable; room = omega arith }

align64 : IsAlign 64
align64 = record { exponent = 6; small = omega arith; power = refl }

whole-IsTiling : IsTiling heap_start heap_end (whole ∷ [])
whole-IsTiling = record { each = (omega arith, tt); apart = (tt, tt) }

after_vector-IsTiling : IsTiling heap_start heap_end (region heap_start 24 ∷ after_vector)
after_vector-IsTiling = record {
  each = (omega arith, (omega arith, tt));
  apart = ((inl (omega arith), tt), (tt, tt));
}

booted : Reach (record { free = whole ∷ []; live = [] })
booted = started (whole ∷ []) init_runs

one_block : Reach (record { free = after_vector; live = region heap_start 24 ∷ [] })
one_block =
    called booted
      (allocated vector 24 8 heap_start after_vector vector-IsRequest vector_adjusts alloc_runs)

align_up-RoundsUp_example : RoundsUp 64 (heap_start + 24) (align_up (heap_start + 24) 64)
align_up-RoundsUp_example = align_up-RoundsUp 64 (heap_start + 24) align64 (omega arith)

alloc_lem_example :
    (IsOversized line × (alloc line after_vector ≡ panic))
    ⊎ (IsPaddable line
        × IsAnswered heap_start heap_end (region heap_start 24 ∷ []) after_vector line)
alloc_lem_example =
    alloc_lem heap_start heap_end (region heap_start 24 ∷ []) after_vector line line-IsLayout
      (omega arith) after_vector-IsTiling

-- A layout that Rust allows, and that makes `alloc` panic.
abbrev oversized : Layout
oversized = record { size = 2 ^ 63 - 1; align = 1 }

oversized-IsLayout : IsLayout oversized
oversized-IsLayout = record {
  is_align = record { exponent = 0; small = omega arith; power = refl };
  fits = omega arith;
}

oversized_runs : alloc oversized after_vector ≡ panic
unfolding alloc size_align
oversized_runs = refl

Reach-IsSound_example : IsSound (record { free = after_vector; live = region heap_start 24 ∷ [] })
Reach-IsSound_example = Reach-IsSound one_block

Reach-dealloc_example :
    dealloc heap_start vector after_vector ≡ ok (region heap_start 24 ∷ after_vector)
Reach-dealloc_example = Reach-dealloc one_block vector 24 8 heap_start [] [] refl vector_adjusts

line_back :
    dealloc (heap_start + 64) line (region (heap_start + 192) (heap_size - 192) ∷ [])
    ≡ ok (region (heap_start + 64) 128 ∷ region (heap_start + 192) (heap_size - 192) ∷ [])
unfolding dealloc size_align add_free_region align_up
line_back = refl

total-dealloc-alloc_example :
    (skipped : ℕ) × (total after_vector
      ≡ total (region (heap_start + 64) 128 ∷ region (heap_start + 192) (heap_size - 192) ∷ [])
        + skipped)
    × (skipped < max 64 node_align)
total-dealloc-alloc_example =
    total-dealloc-alloc (region heap_start 24 ∷ []) after_vector line (heap_start + 64)
      (region (heap_start + 192) (heap_size - 192) ∷ [])
      (region (heap_start + 64) 128 ∷ region (heap_start + 192) (heap_size - 192) ∷ [])
      after_vector-IsTiling line-IsRequest line_runs line_back
