-- ===== src/Heap/Unlink.antt =====
-- `unlink`: taking a node out of the chain writes the pointer in front of it and its own, and no more.
use bayos.Base.{ℕ, ◌+◌, ◌^◌, ◌≤◌, ◌<◌, ◌≡◌, refl, ap, ◌∙◌, ◌⊎◌, inl, inr, arith}
use bayos.Base.Words.{Memory, write_bytes, write_bytes-off, word-write_bytes, word-write_bytes_off}
use bayos.Heap.{node_size}
use bayos.Heap.Nodes.{
  NodeLayout, Store, Link, head_link, node_link, to_pointer, of_pointer, next_of, size_of, unlink,
}
use bayos.Heap.Chain.{OffNode, NodesApart}

module _ (l : NodeLayout) where
  -- The byte is none of the pointer in front of the node.
  abbrev pub OffLink : Link → ℕ → Type 0
  OffLink head_link b = Unit
  OffLink (node_link a) b = (b < a + l.next_at) ⊎ (a + l.next_at + 8 ≤ b)

  abbrev pub LinkApart : Link → ℕ → Type 0
  LinkApart head_link c = Unit
  LinkApart (node_link a) c = NodesApart a c

  abbrev pub HeadKept : Link → Store → Store → Type 0
  HeadKept head_link s s' = Unit
  HeadKept (node_link a) s s' = s'.head ≡ s.head

  -- What `unlink` leaves.
  pub record IsUnlinked (current : Link) (r : ℕ) (s s' : Store) : Type 0 where
    pub passed_on : next_of l s' current ≡ next_of l s (node_link r)
    pub size_kept : size_of l s'.mem r ≡ size_of l s.mem r
    pub bytes_kept : (b : ℕ) → OffLink current b → OffNode b r → s'.mem b ≡ s.mem b
    pub head_kept : HeadKept current s s'

  -- Both fields lie in the node, one behind the other.
  pub field_bounds :
      (l.next_at + 8 ≤ node_size)
      × (l.size_at + 8 ≤ node_size)
      × ((l.size_at + 8 ≤ l.next_at) ⊎ (l.next_at + 8 ≤ l.size_at))
  field_bounds = elim l.fields [
    | inl f ↦ (omega arith, omega arith, inl (omega arith))
    | inr f ↦ (omega arith, omega arith, inr (omega arith))
  ]

  pub off_field : (a b : ℕ) → OffNode b a → (b < a + l.next_at) ⊎ (a + l.next_at + 8 ≤ b)
  off_field a b (inl h) = inl (omega arith)
  off_field a b (inr h) = inr (omega (arith, field_bounds.0))

  -- A pointer that is written leaves the size of its own node, and of one apart.
  pub size-write_next :
      (mem : Memory) (a v : ℕ) → size_of l (write_bytes 8 mem (a + l.next_at) v) a ≡ size_of l mem a
  size-write_next mem a v =
      word-write_bytes_off 8 mem (a + l.next_at) v (a + l.size_at)
        (elim field_bounds.2 [ inl before ↦ inl (omega arith) | inr behind ↦ inr (omega arith) ])

  pub size-write_apart :
      (mem : Memory) (a c v : ℕ)
      → NodesApart a c
      → size_of l (write_bytes 8 mem (a + l.next_at) v) c ≡ size_of l mem c
  size-write_apart mem a c v apart =
      word-write_bytes_off 8 mem (a + l.next_at) v (c + l.size_at) (elim apart [
        | inl before ↦ inr (omega (arith, field_bounds.0))
        | inr behind ↦ inl (omega (arith, field_bounds.1))
      ])

  pub unlink-IsUnlinked :
      (current : Link) (r : ℕ) (s : Store)
      → LinkApart current r
      → (of_pointer (next_of l s (node_link r)) < 2 ^ 64)
      → to_pointer (of_pointer (next_of l s (node_link r))) ≡ next_of l s (node_link r)
      → IsUnlinked current r s (unlink l current r s)
  unfolding unlink
  unlink-IsUnlinked head_link r s apart small back = record {
    passed_on = refl;
    size_kept = size-write_next s.mem r 0;
    bytes_kept = λ b off out. write_bytes-off 8 s.mem (r + l.next_at) 0 b (off_field r b out);
    head_kept = tt;
  }
  unlink-IsUnlinked (node_link a) r s apart small back = record {
    passed_on = ap to_pointer (word-write_bytes mem2 (a + l.next_at) next small) ∙ back;
    size_kept =
        size-write_apart mem2 a r next apart
        ∙ size-write_apart mem1 a r 0 apart
        ∙ size-write_next s.mem r 0;
    bytes_kept = λ b off out.
        write_bytes-off 8 mem2 (a + l.next_at) next b off
        ∙ write_bytes-off 8 mem1 (a + l.next_at) 0 b off
        ∙ write_bytes-off 8 s.mem (r + l.next_at) 0 b (off_field r b out);
    head_kept = refl;
  }
    where
      next : ℕ
      next = of_pointer (next_of l s (node_link r))

      mem1 : Memory
      mem1 = write_bytes 8 s.mem (r + l.next_at) 0

      mem2 : Memory
      mem2 = write_bytes 8 mem1 (a + l.next_at) 0
