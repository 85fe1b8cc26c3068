-- ===== src/Paging/Tests.antt =====
-- The page tables as a function from pages, frames handed out one after the other.
use bayos.Base.{
  ℕ, suc, ◌+◌, ◌-◌, ◌/◌, ◌^◌, ◌≤◌, ◌<◌, ◌≡◌, ◌≢◌, refl, sym, ap, ◌∙◌, Option, none, some, [], ◌∷◌,
  arith, ltb, leb, ◌==◌, ◌&&◌, ◌||◌, if◌then◌else◌, Exec, ok, panic,
}
use bayos.Heap.{FreeList, init, add_free_region, align_up}
use bayos.Memory.{steps}
use bayos.Sched.{Process, running}
use bayos.Paging.{
  Mapper, Flags, MapResult, done, Allocated, map_pages, init_heap, anon_allocate_syscall,
}
use bayos.Paging.Loop.{page_of}
use bayos.Paging.KernelHeap.{OwnsHeap, init_heap_lem}
use bayos.Paging.Allocation.{Owns, anon_allocate_syscall_lem, anon_allocate_syscall_exhausted}

-- Which frame a page has.
abbrev Tables : Type 0
Tables = ℕ → Option (ℕ × Flags)

abbrev mapping : Tables → ℕ → ℕ × Flags → Tables
mapping t page entry q = if q == page then some entry else t q

abbrev put : Option (ℕ × Flags) → Tables → ℕ → Option (Tables × ℕ)
put none t s = some (t, s)
put (some x) t s = none

put_lem :
    (o : Option (ℕ × Flags)) (t t' : Tables) (s s' : ℕ)
    → put o t s ≡ some (t', s')
    → (o ≡ none) × (t ≡ t')
put_lem none t t' s s' e = (refl, cc)
put_lem (some x) t t' s s' e = ground arith

-- `none` where the page is mapped already.
abbrev map_to : Tables → ℕ → ℕ → Flags → ℕ → Option (Tables × ℕ)
map_to t page f flags s = put (t page) (mapping t page (f, flags)) s

-- A thousand frames.
abbrev allocate : ℕ → Option ℕ × ℕ
allocate n = if ltb n 1000 then (some n, suc n) else (none, n)

abbrev virt : ℕ → Option ℕ
virt a = if ltb a (2 ^ 47) || (leb 0xffff_8000_0000_0000 a && ltb a (2 ^ 64)) then some a else none

pub map_to-mapped :
    (t : Tables) (page : ℕ) (f : ℕ) (flags : Flags) (s : ℕ) (t' : Tables) (s' : ℕ)
    → map_to t page f flags s ≡ some (t', s')
    → (t page ≡ none) × (t' page ≡ some (f, flags))
map_to-mapped t page f flags s t' s' e =
    let was = put_lem (t page) (mapping t page (f, flags)) t' s s' e in
    (was.0, ap (λ u. u page) (sym was.1) ∙ here)
  where
    here : mapping t page (f, flags) page ≡ some (f, flags)
    here = ground arith

pub map_to-kept :
    (t : Tables) (page : ℕ) (f : ℕ) (flags : Flags) (s : ℕ) (t' : Tables) (s' : ℕ)
    → map_to t page f flags s ≡ some (t', s')
    → (q : ℕ) → q ≢ page
    → t' q ≡ t q
map_to-kept t page f flags s t' s' e q ne =
    ap (λ u. u q) (sym (put_lem (t page) (mapping t page (f, flags)) t' s s' e).1) ∙ there
  where
    there : mapping t page (f, flags) q ≡ t q
    there = ground arith

pub virt_low : (a : ℕ) → a < 2 ^ 47 → virt a ≡ some a
virt_low a h = ground arith

pub virt_high : (a : ℕ) → 0xffff_8000_0000_0000 ≤ a → a < 2 ^ 64 → virt a ≡ some a
virt_high a h k = ground arith

abbrev pub mapper : Mapper
mapper = record {
  Table = Tables;
  Frame = ℕ;
  Frames = ℕ;
  allocate_frame = allocate;
  lookup = λ t q. t q;
  map_to = map_to;
  mapped = map_to-mapped;
  kept = map_to-kept;
  virt = virt;
  virt_low = virt_low;
  virt_high = virt_high;
  containing_address = page_of;
  containing_address_lem = λ a. refl;
  range_inclusive = λ first last. steps ((last + 4096 - first) / 4096) first;
  range_inclusive_lem = λ first last. refl;
}

-- No page is mapped, and no frame is taken.
abbrev pub empty : Tables
empty q = none

abbrev shell : Process
shell = record {
  id = 2;
  status = running;
  rsp = 0x1fc008;
  kernel_stack = none;
  mapper = some 0;
  pages = some 0x100_000_000;
}

-- The shell after it got 5000 bytes, which are two pages.
abbrev bigger : Process
bigger = record shell { pages = some 0x100_002_000 }

abbrev granted : Allocated mapper
granted = record {
  process_list = bigger ∷ [];
  table =
      mapping (mapping empty 0x100_000_000 (0, Flags.present_writable_user)) 0x100_001_000
        (1, Flags.present_writable_user);
  frames = 2;
  result = 0x100_000_000;
}

granted_lem : anon_allocate_syscall mapper 5000 0 (shell ∷ []) empty 0 ≡ ok granted
unfolding anon_allocate_syscall map_pages steps
granted_lem = refl

anon_allocate_syscall_lem_example :
    Owns mapper empty 0
      (shell ∷ [])
      0
      shell
      refl
      0x100_000_000
      refl
      0
      refl
      5000
      (omega arith)
      (omega arith)
      granted
anon_allocate_syscall_lem_example =
    anon_allocate_syscall_lem mapper empty 0 (shell ∷ []) 0 shell refl 0x100_000_000 refl 0 refl
      5000 (omega arith) (omega arith) refl granted granted_lem

anon_allocate_syscall_exhausted_example :
    anon_allocate_syscall mapper 5000 0 (shell ∷ []) empty 1000 ≡ panic
anon_allocate_syscall_exhausted_example =
    anon_allocate_syscall_exhausted mapper empty 1000 (shell ∷ []) 0 shell refl 0x100_000_000 refl 0
      refl 5000 (omega arith) (omega arith) refl

-- The shell asks for a byte more.
abbrev granted_more : Allocated mapper
granted_more = record {
  process_list = record shell { pages = some 0x100_003_000 } ∷ [];
  table = mapping granted.table 0x100_002_000 (2, Flags.present_writable_user);
  frames = 3;
  result = 0x100_002_000;
}

granted_more_lem :
    anon_allocate_syscall mapper 1 0 granted.process_list granted.table granted.frames
    ≡ ok granted_more
unfolding anon_allocate_syscall map_pages steps
granted_more_lem = refl

-- What `init_heap` leaves when the machine boots.
abbrev after : Exec (MapResult (Tables × ℕ × FreeList)) → Tables × ℕ × FreeList
after (ok (done r)) = r
after _ = (empty, 0, [])

unfoldable booted : Tables × ℕ × FreeList
booted = after (init_heap mapper empty 0 [])

booted_lem : init_heap mapper empty 0 [] ≡ ok (done (booted.0, booted.1, booted.2))
unfolding booted init_heap map_pages steps init add_free_region align_up
booted_lem = refl

init_heap_lem_example : OwnsHeap mapper empty booted.0 0 booted.1 booted.2
init_heap_lem_example = init_heap_lem mapper empty booted.0 0 booted.1 booted.2 booted_lem
