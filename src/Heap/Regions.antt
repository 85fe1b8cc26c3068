-- ===== src/Heap/Regions.antt =====
-- Regions of the heap that do not overlap: the invariant of the free list, and of the blocks that
-- were handed out beside it.
use bayos.Base.{ℕ, ◌+◌, ◌%◌, ◌≤◌, ◌≡◌, refl, ◌⊎◌, inl, inr, List, [], ◌∷◌, ◌++◌, arith, All}
use bayos.Heap.{Region, node_align, node_size}

-- The region lies in `[lo, hi)`, holds a `ListNode` and is aligned for it.
pub record IsRegion (lo hi : ℕ) (r : Region) : Type 0 where
  pub aligned : r.start_addr % node_align ≡ 0
  pub holds_node : node_size ≤ r.size
  pub above : lo ≤ r.start_addr
  pub below : r.start_addr + r.size ≤ hi

-- No address is in both.
abbrev pub Apart : Region → Region → Type 0
Apart r s = (r.start_addr + r.size ≤ s.start_addr) ⊎ (s.start_addr + s.size ≤ r.start_addr)

abbrev pub Inside : Region → Region → Type 0
Inside s r = (r.start_addr ≤ s.start_addr) × (s.start_addr + s.size ≤ r.start_addr + r.size)

abbrev pub PairwiseApart : List Region → Type 0
PairwiseApart [] = Unit
PairwiseApart (r ∷ rs) = All (Apart r) rs × PairwiseApart rs

-- The regions of a list are well formed and do not overlap.
pub record IsTiling (lo hi : ℕ) (rs : List Region) : Type 0 where
  pub each : All (IsRegion lo hi) rs
  pub apart : PairwiseApart rs

-- The number of bytes in a list of regions.
unfoldable pub total : List Region → ℕ
total [] = 0
total (r ∷ rs) = r.size + total rs

pub total-append_cons :
    (xs ys : List Region) (r : Region) → total (xs ++ r ∷ ys) ≡ r.size + total (xs ++ ys)
unfolding total
total-append_cons [] ys r = refl
total-append_cons (x ∷ xs) ys r = omega (arith, total-append_cons xs ys r)

Apart-symm : (r s : Region) → Apart r s → Apart s r
Apart-symm r s (inl h) = inr h
Apart-symm r s (inr h) = inl h

Apart-Inside : (b r s : Region) → Inside b r → Apart r s → Apart b s
Apart-Inside b r s i (inl h) = inl (omega arith)
Apart-Inside b r s i (inr h) = inr (omega arith)

pub All-Inside :
    (b r : Region) (rs : List Region) → Inside b r → All (Apart r) rs → All (Apart b) rs
All-Inside b r [] i h = tt
All-Inside b r (s ∷ rs) i h = (Apart-Inside b r s i h.0, All-Inside b r rs i h.1)

-- An element of a list can be moved to its front and back.
module _ {κ} (P : Region → Type κ) where
  pub All-take_out :
      (xs ys : List Region) (r : Region) → All P (xs ++ r ∷ ys) → P r × All P (xs ++ ys)
  All-take_out [] ys r h = h
  All-take_out (x ∷ xs) ys r h = let rest = All-take_out xs ys r h.1 in (rest.0, (h.0, rest.1))

  pub All-put_in :
      (xs ys : List Region) (r : Region) → P r → All P (xs ++ ys) → All P (xs ++ r ∷ ys)
  All-put_in [] ys r p h = (p, h)
  All-put_in (x ∷ xs) ys r p h = (h.0, All-put_in xs ys r p h.1)

PairwiseApart-take_out :
    (xs ys : List Region) (r : Region)
    → PairwiseApart (xs ++ r ∷ ys)
    → All (Apart r) (xs ++ ys) × PairwiseApart (xs ++ ys)
PairwiseApart-take_out [] ys r h = h
PairwiseApart-take_out (x ∷ xs) ys r h =
    let here = All-take_out (Apart x) xs ys r h.0 in
    let rest = PairwiseApart-take_out xs ys r h.1 in
    ((Apart-symm x r here.0, rest.0), (here.1, rest.1))

PairwiseApart-put_in :
    (xs ys : List Region) (r : Region)
    → All (Apart r) (xs ++ ys)
    → PairwiseApart (xs ++ ys)
    → PairwiseApart (xs ++ r ∷ ys)
PairwiseApart-put_in [] ys r a h = (a, h)
PairwiseApart-put_in (x ∷ xs) ys r a h =
    (All-put_in (Apart x) xs ys r (Apart-symm r x a.0) h.0, PairwiseApart-put_in xs ys r a.1 h.1)

module _ {lo hi : ℕ} where
  pub IsTiling-take_out :
      (xs ys : List Region) (r : Region)
      → IsTiling lo hi (xs ++ r ∷ ys)
      → IsRegion lo hi r × All (Apart r) (xs ++ ys) × IsTiling lo hi (xs ++ ys)
  IsTiling-take_out xs ys r t =
      let each = All-take_out (IsRegion lo hi) xs ys r t.each in
      let apart = PairwiseApart-take_out xs ys r t.apart in
      (each.0, apart.0, record { each = each.1; apart = apart.1 })

  pub IsTiling-put_in :
      (xs ys : List Region) (r : Region)
      → IsRegion lo hi r
      → All (Apart r) (xs ++ ys)
      → IsTiling lo hi (xs ++ ys)
      → IsTiling lo hi (xs ++ r ∷ ys)
  IsTiling-put_in xs ys r is a t = record {
    each = All-put_in (IsRegion lo hi) xs ys r is t.each;
    apart = PairwiseApart-put_in xs ys r a t.apart;
  }
