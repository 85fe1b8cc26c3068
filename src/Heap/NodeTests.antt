-- ===== src/Heap/NodeTests.antt =====
-- The allocator in memory at concrete requests.
use bayos.Base.{ℕ, ◌+◌, ◌≡◌, refl, inl, Option, none, some, [], ◌∷◌, arith, Exec, ok, ◌⊎◌, panic}
use bayos.Base.Words.{write_bytes}
use bayos.Heap.{heap_start, heap_size, Layout, size_align, alloc_from_region, align_up}
use bayos.Heap.Node.{region}
use bayos.Heap.Fit.{IsLayout, IsPaddable, IsOversized}
use bayos.Heap.Nodes.{NodeLayout, Store, add_node, alloc_node, find_node, place_node, unlink}
use bayos.Heap.Runs.{
  max_nodes, Runs, boots, allocates, StandsFor, Runs-StandsFor, Runs-alloc_node, alloc_node-spares,
}
use bayos.Heap.Trace.{IsRequest}

-- The size in front of the pointer.
abbrev size_first : NodeLayout
size_first = record { size_at = 0; next_at = 8; fields = inl (refl, refl) }

abbrev after : Exec Store → Store
after (ok s) = s
after _ = record { head = none; mem = λ b. 0 }

unfoldable booted : Store
booted = after (add_node size_first heap_start heap_size (record { head = none; mem = λ b. 0 }))

abbrev vector : Layout
vector = record { size = 24; align = 4 }

vector-IsRequest : IsRequest vector
vector-IsRequest = record {
  is_paddable = record {
    is_align = record { exponent = 2; small = omega arith; power = omega arith };
    fits = omega arith;
  };
  room = omega arith;
}

booted-Runs : Runs size_first booted []
unfolding booted add_node align_up
booted-Runs = boots (λ b. 0) booted refl

abbrev answer_of : Exec (Option ℕ × Store) → Option ℕ × Store
answer_of (ok r) = r
answer_of _ = (none, record { head = none; mem = λ b. 0 })

unfoldable used : Store
used = (answer_of (alloc_node size_first max_nodes vector booted)).1

vector_runs : alloc_node size_first max_nodes vector booted ≡ ok (some heap_start, used)
unfolding used booted add_node align_up alloc_node max_nodes size_align find_node alloc_from_region
    place_node unlink write_bytes
vector_runs = refl

used-Runs : Runs size_first used (region heap_start 24 ∷ [])
unfolding size_align
used-Runs = allocates vector 24 8 heap_start used booted-Runs vector-IsRequest refl vector_runs

Runs-StandsFor_example : StandsFor size_first used (region heap_start 24 ∷ [])
Runs-StandsFor_example = Runs-StandsFor size_first used-Runs

vector-IsLayout : IsLayout vector
vector-IsLayout = record {
  is_align = record { exponent = 2; small = omega arith; power = omega arith };
  fits = omega arith;
}

Runs-alloc_node_example :
    (IsOversized vector × (alloc_node size_first max_nodes vector used ≡ panic))
    ⊎ (IsPaddable vector
        × ((answer : Option ℕ) × (s' : Store) × (alloc_node size_first max_nodes vector used
              ≡ ok (answer, s'))))
Runs-alloc_node_example = Runs-alloc_node size_first used-Runs vector vector-IsLayout (omega arith)

unfoldable used_twice : Store
used_twice = (answer_of (alloc_node size_first max_nodes vector used)).1

again_runs : alloc_node size_first max_nodes vector used ≡ ok (some (heap_start + 24), used_twice)
unfolding used_twice used booted add_node align_up alloc_node max_nodes size_align find_node
    alloc_from_region place_node unlink write_bytes
again_runs = refl

alloc_node-spares_example : used_twice.mem heap_start ≡ used.mem heap_start
alloc_node-spares_example =
    alloc_node-spares size_first [] [] (region heap_start 24) used-Runs vector vector-IsRequest
      (some (heap_start + 24)) again_runs heap_start (omega arith) (omega arith)
