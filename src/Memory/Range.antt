-- ===== src/Memory/Range.antt =====
-- The frames that both allocators count through: each lies in a usable region, and none comes twice.
use bayos.Base.{
  ℕ, zero, suc, ◌+◌, ◌-◌, ◌/◌, ◌%◌, ◌≤◌, ◌<◌, ◌≡◌, ◌≢◌, ◌⊎◌, refl, ap, subst, inl, inr, true, some,
  List, [], ◌∷◌, ◌++◌, map, arith, All, All-append, get_elem?, Bool-cases,
}
use bayos.Memory.{MemoryRegion, is_usable, steps, step_by, frame_addresses, usable_frames}
use bayos.Memory.Bitmap.{Distinct}

-- A page address at which a page of the region starts.
abbrev StartsIn : ℕ → ℕ → ℕ → Type 0
StartsIn start end a = (start ≤ a) × (a < end) × (a % 4096 ≡ 0)

-- The two regions have no address in common.
abbrev pub Disjoint : MemoryRegion → MemoryRegion → Type 0
Disjoint r s = (r.end ≤ s.start) ⊎ (s.end ≤ r.start)

-- The regions of the boot loader's map start and end at page addresses and do not overlap.
abbrev pub IsMemoryMap : List MemoryRegion → Type 0
IsMemoryMap [] = Unit
IsMemoryMap (r ∷ rs) =
    (r.start % 4096 ≡ 0) × (r.end % 4096 ≡ 0) × All (Disjoint r) rs × IsMemoryMap rs

-- The page at `a` lies in a usable region of the map.
abbrev pub InUsable : List MemoryRegion → ℕ → Type 0
InUsable [] a = ⊥
InUsable (r ∷ rs) a = ((is_usable r ≡ true) × (r.start ≤ a) × (a + 4096 ≤ r.end)) ⊎ InUsable rs a

module _ {ℓ} {A : Type ℓ} where
  All-map {κ μ} :
      {P : A → Type κ} {Q : A → Type μ} (xs : List A) → ((x : A) → P x → Q x) → All P xs → All Q xs
  All-map [] f h = tt
  All-map (x ∷ xs) f h = (f x h.0, All-map xs f h.1)

steps-StartsIn :
    (n start lo end : ℕ)
    → n ≤ (end - start + 4095) / 4096
    → lo ≤ start
    → start % 4096 ≡ 0
    → All (StartsIn lo end) (steps n start)
unfolding steps
steps-StartsIn zero start lo end h le even = tt
steps-StartsIn (suc n) start lo end h le even = (
  (omega arith, omega arith, even),
  steps-StartsIn n (start + 4096) lo end (omega arith) (omega arith) (omega arith),
)

step_by-StartsIn : (start end : ℕ) → start % 4096 ≡ 0 → All (StartsIn start end) (step_by start end)
step_by-StartsIn start end even =
    steps-StartsIn ((end - start + 4095) / 4096) start start end (omega arith) (omega arith) even

-- Every frame that the allocators count through is a page of a usable region, from its first byte to
-- its last, if the regions of the map start and end at page addresses and do not overlap.
frame_addresses-InUsable :
    (regions : List MemoryRegion)
    → IsMemoryMap regions
    → All (InUsable regions) (frame_addresses regions)
unfolding frame_addresses
frame_addresses-InUsable [] m = tt
frame_addresses-InUsable (r ∷ regions) m =
    let later =
      All-map {Q = InUsable (r ∷ regions)} (frame_addresses regions) (λ a h. inr h)
        (frame_addresses-InUsable regions m.3) in
    elim (Bool-cases (is_usable r)) [
      | inl used ↦ rw used (
          All-append (InUsable (r ∷ regions)) (step_by r.start r.end) (frame_addresses regions)
            (All-map (step_by r.start r.end) (λ a h. inl (used, h.0, omega arith))
              (step_by-StartsIn r.start r.end m.0))
            later)
      | inr skipped ↦ rw skipped later
    ]

-- Every two elements of the list have different images.
abbrev PairwiseNe : {F : Type 0} → (ℕ → F) → List ℕ → Type 0
PairwiseNe frame_of [] = Unit
PairwiseNe frame_of (a ∷ as') = All (λ b. frame_of a ≢ frame_of b) as' × PairwiseNe frame_of as'

module _ {F : Type 0} (frame_of : ℕ → F) where
  All-get :
      (xs : List ℕ) (j : ℕ) (f : F) (P : F → Type 0)
      → All (λ b. P (frame_of b)) xs
      → get_elem? (map frame_of xs) j ≡ some f
      → P f
  All-get [] j f P h e = ground arith
  All-get (x ∷ xs) zero f P h e = subst P (cc) h.0
  All-get (x ∷ xs) (suc j) f P h e = All-get xs j f P h.1 e

  PairwiseNe-Distinct : (xs : List ℕ) → PairwiseNe frame_of xs → Distinct (map frame_of xs)
  PairwiseNe-Distinct [] p i j f e e' = ground arith
  PairwiseNe-Distinct (x ∷ xs) p zero zero f e e' = refl
  PairwiseNe-Distinct (x ∷ xs) p zero (suc j) f e e' =
      absurd (All-get xs j f (λ g. frame_of x ≢ g) p.0 e' (cc))
  PairwiseNe-Distinct (x ∷ xs) p (suc i) zero f e e' =
      absurd (All-get xs i f (λ g. frame_of x ≢ g) p.0 e (cc))
  PairwiseNe-Distinct (x ∷ xs) p (suc i) (suc j) f e e' =
      ap suc (PairwiseNe-Distinct xs p.1 i j f e e')

  PairwiseNe-append :
      (xs ys : List ℕ)
      → PairwiseNe frame_of xs
      → PairwiseNe frame_of ys
      → All (λ a. All (λ b. frame_of a ≢ frame_of b) ys) xs
      → PairwiseNe frame_of (xs ++ ys)
  PairwiseNe-append [] ys p q h = q
  PairwiseNe-append (x ∷ xs) ys p q h =
      (All-append (λ b. frame_of x ≢ frame_of b) xs ys p.0 h.0, PairwiseNe-append xs ys p.1 q h.1)

  module _
      (separates : (a b : ℕ) → a % 4096 ≡ 0 → b % 4096 ≡ 0 → frame_of a ≡ frame_of b → a ≡ b) where
    steps-PairwiseNe :
        (n start lo end : ℕ)
        → n ≤ (end - start + 4095) / 4096
        → start % 4096 ≡ 0
        → PairwiseNe frame_of (steps n start)
    unfolding steps
    steps-PairwiseNe zero start lo end h even = tt
    steps-PairwiseNe (suc n) start lo end h even = (
      All-map (steps n (start + 4096))
          (λ b s e. absurd (omega (arith, separates start b even s.2 e)))
          (steps-StartsIn n (start + 4096) (start + 4096) end (omega arith) (omega arith)
            (omega arith)),
      steps-PairwiseNe n (start + 4096) lo end (omega arith) (omega arith),
    )

    -- A page of one region is no page of the usable regions that do not overlap it.
    apart :
        (r : MemoryRegion) (a : ℕ) (regions : List MemoryRegion)
        → StartsIn r.start r.end a
        → All (Disjoint r) regions
        → IsMemoryMap regions
        → All (λ b. frame_of a ≢ frame_of b) (frame_addresses regions)
    unfolding frame_addresses
    apart r a [] s d m = tt
    apart r a (q ∷ regions) s d m =
        let later = apart r a regions s d.1 m.3 in
        elim (Bool-cases (is_usable q)) [
          | inl used ↦ rw used (
              All-append (λ b. frame_of a ≢ frame_of b) (step_by q.start q.end)
                (frame_addresses regions)
                (All-map (step_by q.start q.end)
                  (λ b t e. outside d.0 b t (separates a b s.2 t.2 e))
                  (step_by-StartsIn q.start q.end m.0))
                later)
          | inr skipped ↦ rw skipped later
        ]
      where
        outside : Disjoint r q → (b : ℕ) → StartsIn q.start q.end b → a ≡ b → ⊥
        outside d' b t e = omega arith

    frame_addresses-PairwiseNe :
        (regions : List MemoryRegion)
        → IsMemoryMap regions
        → PairwiseNe frame_of (frame_addresses regions)
    unfolding frame_addresses
    frame_addresses-PairwiseNe [] m = tt
    frame_addresses-PairwiseNe (r ∷ regions) m =
        let later = frame_addresses-PairwiseNe regions m.3 in
        elim (Bool-cases (is_usable r)) [
          | inl used ↦ rw used (
              PairwiseNe-append (step_by r.start r.end) (frame_addresses regions)
                (steps-PairwiseNe ((r.end - r.start + 4095) / 4096) r.start r.start r.end
                  (omega arith) m.0)
                later
                (All-map (step_by r.start r.end) (λ a s. apart r a regions s m.2 m.3)
                  (step_by-StartsIn r.start r.end m.0)))
          | inr skipped ↦ rw skipped later
        ]

    -- No usable frame comes twice, if the regions of the map start and end at page addresses and do
    -- not overlap, and addresses of different pages are in different frames.
    pub usable_frames-Distinct :
        (regions : List MemoryRegion)
        → IsMemoryMap regions
        → Distinct (usable_frames frame_of regions)
    unfolding usable_frames
    usable_frames-Distinct regions m =
        PairwiseNe-Distinct (frame_addresses regions) (frame_addresses-PairwiseNe regions m)
