-- ===== src/Heap/Chain.antt =====
-- When the nodes in memory are those of a list of regions, and which writes leave them so.
use bayos.Base.{
  ℕ, ◌+◌, ◌^◌, ◌≤◌, ◌<◌, ◌≡◌, refl, ◌∙◌, ◌⊎◌, inl, inr, Option, none, some, List, [], ◌∷◌, arith,
  All,
}
use bayos.Base.Words.{Memory, word, word-same}
use bayos.Heap.{Region, node_size}
use bayos.Heap.Nodes.{NodeLayout, to_pointer, of_pointer, size_of}

-- The byte is none of the node at `a`.
abbrev pub OffNode : ℕ → ℕ → Type 0
OffNode b a = (b < a) ⊎ (a + node_size ≤ b)

abbrev pub NodesApart : ℕ → ℕ → Type 0
NodesApart a c = (a + node_size ≤ c) ⊎ (c + node_size ≤ a)

abbrev pub AllApart : List Region → Type 0
AllApart [] = Unit
AllApart (r ∷ rs) = All (λ q. NodesApart r.start_addr q.start_addr) rs × AllApart rs

-- A node's address is no null pointer, and the node ends below 2 ^ 64.
abbrev pub IsPlaced : Region → Type 0
IsPlaced r = (0 < r.start_addr) × (r.start_addr + r.size ≤ 2 ^ 64) × (node_size ≤ r.size)

-- The two memories agree on the node at `a`.
abbrev pub SameNode : Memory → Memory → ℕ → Type 0
SameNode mem mem' a = (b : ℕ) → a ≤ b → b < a + node_size → mem' b ≡ mem b

module _ (l : NodeLayout) where
  -- From the pointer on, the nodes in memory are those of the list.
  abbrev pub Chain : Memory → Option ℕ → List Region → Type 0
  Chain mem p [] = p ≡ none
  Chain mem p (r ∷ rs) =
      (p ≡ some r.start_addr)
      × (size_of l mem r.start_addr ≡ r.size)
      × Chain mem (to_pointer (word mem (r.start_addr + l.next_at))) rs

  pub size_of-same :
      (mem mem' : Memory) (a : ℕ) → SameNode mem mem' a → size_of l mem' a ≡ size_of l mem a
  size_of-same mem mem' a h =
      word-same mem mem' (a + l.size_at) (λ b from to. h b (omega arith) (inside b to l.fields))
    where
      inside :
          (b : ℕ)
          → b < a + l.size_at + 8
          → ((l.size_at ≡ 0) × (l.next_at ≡ 8)) ⊎ ((l.size_at ≡ 8) × (l.next_at ≡ 0))
          → b < a + node_size
      inside b to (inl f) = omega arith
      inside b to (inr f) = omega arith

  pub next-same :
      (mem mem' : Memory) (a : ℕ)
      → SameNode mem mem' a
      → word mem' (a + l.next_at) ≡ word mem (a + l.next_at)
  next-same mem mem' a h =
      word-same mem mem' (a + l.next_at) (λ b from to. h b (omega arith) (inside b to l.fields))
    where
      inside :
          (b : ℕ)
          → b < a + l.next_at + 8
          → ((l.size_at ≡ 0) × (l.next_at ≡ 8)) ⊎ ((l.size_at ≡ 8) × (l.next_at ≡ 0))
          → b < a + node_size
      inside b to (inl f) = omega arith
      inside b to (inr f) = omega arith

  -- A chain survives every write that spares its nodes.
  pub Chain-frame :
      (mem mem' : Memory) (p : Option ℕ) (rs : List Region)
      → All (λ r. SameNode mem mem' r.start_addr) rs
      → Chain mem p rs
      → Chain mem' p rs
  Chain-frame mem mem' p [] h c = c
  Chain-frame mem mem' p (r ∷ rs) h c = (
    c.0,
    size_of-same mem mem' r.start_addr h.0 ∙ c.1,
    Chain-frame mem mem' (to_pointer (word mem' (r.start_addr + l.next_at))) rs h.1
        (rw (next-same mem mem' r.start_addr h.0) c.2),
  )

  -- The pointer of a chain is a word.
  pub Chain-pointer :
      (mem : Memory) (p : Option ℕ) (rs : List Region)
      → All IsPlaced rs
      → Chain mem p rs
      → (of_pointer p < 2 ^ 64) × (to_pointer (of_pointer p) ≡ p)
  Chain-pointer mem p [] h c = rw c (omega arith, refl)
  Chain-pointer mem p (r ∷ rs) h c = rw c.0 (omega arith, ground arith)
