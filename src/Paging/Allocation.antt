-- ===== src/Paging/Allocation.antt =====
-- `anon_allocate_syscall`: the block that a process gets is its own, page for page.
use bayos.Base.{
  ℕ, zero, suc, ◌+◌, ◌-◌, ◌*◌, ◌/◌, ◌^◌, ◌≤◌, ◌<◌, ◌≡◌, refl, sym, ap, ◌∙◌, none, some, List, arith,
  length, get_elem?, get_elem?-lt, get_elem?-set_self, ◌%◌, set, ok, leb, true, panic,
}
use bayos.Memory.{steps}
use bayos.Sched.{Process}
use bayos.Paging.{
  Mapper, MapResult, done, frame_allocation_failed, map_failed, present_writable_user, map_pages,
  page_range, range_size, Allocated, grant, anon_allocate_syscall,
}
use bayos.Paging.Loop.{
  IsNew, MapsPages, map_pages_lem, map_pages_exhausted, page_of, page_range_lem, page_range-covers,
}

length-steps : (n start : ℕ) → length (steps n start) ≡ n
unfolding steps
length-steps zero start = refl
length-steps (suc n) start = ap suc (length-steps n (start + 4096))

-- The bytes of the pages of a block that starts on a page: its size, rounded up to pages.
block_size :
    (m : Mapper) (start size : ℕ)
    → 0 < size
    → start ≡ page_of start
    → range_size m (page_range m start (start + size - 1)) ≡ 4096 * ((size + 4095) / 4096)
block_size m start size pos on_page =
    ap (λ l. 4096 * length l) (page_range_lem m start (start + size - 1))
    ∙ ap (λ n. 4096 * n)
        (length-steps ((page_of (start + size - 1) + 4096 - page_of start) / 4096) (page_of start))
    ∙ omega arith

module _ (m : Mapper) (t : m.Table) (s : m.Frames) (list : List Process) (current : ℕ) where
  module _ (p : Process) (here : get_elem? list current ≡ some p) (start : ℕ)
      (pages : p.pages ≡ some start) (shared : ℕ) (tables : p.mapper ≡ some shared) (size : ℕ)
      (pos : 0 < size) (low : start + size < 2 ^ 47) where
    anon_allocate_syscall-map_pages :
        anon_allocate_syscall m size current list t s
        ≡ grant m list current p start
            (range_size m (page_range m start (start + size - 1)))
            (map_pages m (page_range m start (start + size - 1)) present_writable_user t s)
    unfolding anon_allocate_syscall
    anon_allocate_syscall-map_pages =
        let some_bytes : leb 1 (start + size) ≡ true = ground arith in
        rw (
          here,
          pages,
          m.virt_low start (omega arith),
          m.virt_low (start + size) low,
          some_bytes,
          m.virt_low (start + size - 1) (omega arith),
          tables,
        )

    -- The block at `result` is the process's own: the page of each of its bytes was not mapped before,
    -- and is mapped for it; the block begins where the process's free pages began, which then begin
    -- behind its last page.
    pub record Owns (r : Allocated m) : Type 0 where
      pub at_start : r.result ≡ start
      pub backed :
          (a : ℕ)
          → r.result ≤ a
          → a < r.result + size
          → IsNew m present_writable_user t r.table (page_of a)
      pub moved :
          r.process_list
          ≡ set list current (record p { pages = some (start + 4096 * ((size + 4095) / 4096)) })

    granted-Owns :
        (on_page : start ≡ page_of start) (r : Allocated m)
        (mapped : MapResult (m.Table × m.Frames))
        → map_pages m (page_range m start (start + size - 1)) present_writable_user t s ≡ mapped
        → grant m list current p start (range_size m (page_range m start (start + size - 1))) mapped
          ≡ ok r
        → Owns r
    granted-Owns on_page r frame_allocation_failed e h = ground arith
    granted-Owns on_page r map_failed e h = ground arith
    granted-Owns on_page r (done (t', s')) e h = record {
      at_start = start_of;
      backed = backed;
      moved =
          ap (λ a. a.process_list) (sym given)
          ∙ ap (λ n. set list current (record p { pages = some n })) next;
    }
      where
        next :
            (start + range_size m (page_range m start (start + size - 1))) % 2 ^ 64
            ≡ start + 4096 * ((size + 4095) / 4096)
        next = omega (arith, block_size m start size pos on_page)

        given :
            record {
              process_list = set list current (record p {
                pages =
                    some ((start + range_size m (page_range m start (start + size - 1))) % 2 ^ 64);
              });
              table = t';
              frames = s';
              result = start;
            }
            ≡ r
        given = cc

        start_of : r.result ≡ start
        start_of = ap (λ a. a.result) (sym given)

        maps : MapsPages m present_writable_user (page_range m start (start + size - 1)) t r.table
        maps =
            map_pages_lem m present_writable_user _ t r.table s s'
              (e ∙ ap (λ a. done (a.table, s')) given)

        backed :
            (a : ℕ)
            → r.result ≤ a
            → a < r.result + size
            → IsNew m present_writable_user t r.table (page_of a)
        backed a from to =
            page_range-covers m (IsNew m present_writable_user t r.table) start (start + size - 1)
              maps.each a (omega (arith, start_of)) (omega (arith, start_of))

    -- Where `anon_allocate_syscall` returns for a process whose free pages begin on a page, and that
    -- asks for at least a byte and for no more than the lower half has room for behind that: it gets a block at that start,
    -- of which the page of each byte was not mapped before and is mapped for users; and its free
    -- pages begin behind the last page of the block.
    pub anon_allocate_syscall_lem :
        start ≡ page_of start
        → (r : Allocated m) → anon_allocate_syscall m size current list t s ≡ ok r
        → Owns r
    anon_allocate_syscall_lem on_page r e =
        granted-Owns on_page r
          (map_pages m (page_range m start (start + size - 1)) present_writable_user t s) refl
          (sym anon_allocate_syscall-map_pages ∙ e)

    -- Where no frame is left, and the locks are free, `anon_allocate_syscall` panics for a process that
    -- asks for at least a byte and for no more than the lower half has room for behind the start of
    -- its free pages.
    pub anon_allocate_syscall_exhausted :
        (m.allocate_frame s).0 ≡ none → anon_allocate_syscall m size current list t s ≡ panic
    anon_allocate_syscall_exhausted spent =
        anon_allocate_syscall-map_pages
        ∙ ap
            (λ l.
              grant m list current p start (range_size m (page_range m start (start + size - 1)))
                (map_pages m l present_writable_user t s))
            (page_range_lem m start (start + size - 1))
        ∙ ap (grant m list current p start (range_size m (page_range m start (start + size - 1))))
            (map_pages_exhausted m present_writable_user t s _ (page_of start) (omega arith) spent)

module _ (m : Mapper) (t : m.Table) (s : m.Frames) (list : List Process) (current : ℕ) (p : Process)
    (here : get_elem? list current ≡ some p) (start : ℕ) (pages : p.pages ≡ some start) (shared : ℕ)
    (tables : p.mapper ≡ some shared) where
  -- Of two calls by a process whose free pages begin on a page, with all that is asked for in the
  -- lower half, and each for at least a byte: where both return, the second gets a block behind the
  -- first one.
  anon_allocate_syscall_twice :
      (size size' : ℕ)
      → 0 < size
      → 0 < size'
      → start + size + 4096 + size' < 2 ^ 47
      → start ≡ page_of start
      → (r r' : Allocated m) → anon_allocate_syscall m size current list t s ≡ ok r
      → anon_allocate_syscall m size' current r.process_list r.table r.frames ≡ ok r'
      → r.result + size ≤ r'.result
  anon_allocate_syscall_twice size size' pos pos' low on_page r r' e e' =
      omega (arith, first.at_start, second.at_start)
    where
      next : ℕ
      next = start + 4096 * ((size + 4095) / 4096)

      first : Owns m t s list current p here start pages shared tables size pos (omega arith) r
      first =
          anon_allocate_syscall_lem m t s list current p here start pages shared tables size pos
            (omega arith) on_page r e

      moved : get_elem? r.process_list current ≡ some (record p { pages = some next })
      moved =
          ap (λ l. get_elem? l current) first.moved
          ∙ get_elem?-set_self list current (record p { pages = some next })
              (get_elem?-lt list current here)

      second :
          Owns m r.table r.frames r.process_list current
            (record p { pages = some next })
            moved
            next
            refl
            shared
            tables
            size'
            pos'
            (omega arith)
            r'
      second =
          anon_allocate_syscall_lem m r.table r.frames r.process_list current
            (record p { pages = some next }) moved next refl shared tables size' pos' (omega arith)
            (omega arith) r' e'
