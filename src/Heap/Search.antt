-- ===== src/Heap/Search.antt =====
-- `find_region`: the first region of the list that suits, taken out of it.
use bayos.Base.{
  ℕ, ◌+◌, ◌≤◌, ◌≡◌, refl, ap, inl, inr, Option, none, some, List, [], ◌∷◌, ◌++◌, All, Option-cases,
}
use bayos.Heap.{usize_mod, Region, FreeList, Found, alloc_from_region, find_region}
use bayos.Heap.Align.{IsAlign}
use bayos.Heap.Fit.{Suits, alloc_from_region-Suits}
use bayos.Heap.Regions.{IsRegion}

-- No block of the size and alignment can be cut from the region.
abbrev pub Unsuited : ℕ → ℕ → Region → Type 0
Unsuited size align region = (start : ℕ) → ¬ Suits region size align start

-- The list before and behind the region found; none before it suits.
pub record FirstFit (free : FreeList) (size align : ℕ) (found : Found) : Type 0 where
  pub before : List Region
  pub after : List Region
  pub whole : free ≡ before ++ found.region ∷ after
  pub others : found.rest ≡ before ++ after
  pub skipped : All (Unsuited size align) before
  pub suits : Suits found.region size align found.alloc_start
  pub searched : alloc_from_region found.region size align ≡ some found.alloc_start

-- The answers that `find_region` may give.
abbrev pub Answers : FreeList → ℕ → ℕ → Option Found → Type 0
Answers free size align none = All (Unsuited size align) free
Answers free size align (some found) = FirstFit free size align found

module _ (lo hi size align : ℕ) (is : IsAlign align) (room : hi + align ≤ usize_mod) where
  refused :
      (region : Region)
      → IsRegion lo hi region
      → alloc_from_region region size align ≡ none
      → Unsuited size align region
  refused region reg e start s =
      cc ((alloc_from_region-Suits lo hi region size align start is room reg).1 s)

  step :
      (region : Region) (next : FreeList) (answer : Option Found)
      → IsRegion lo hi region
      → alloc_from_region region size align ≡ none
      → Answers next size align answer
      → Answers (region ∷ next) size align (elim answer [
        | none ↦ none
        | some found ↦ some (record found { rest = region ∷ found.rest })
      ])
  step region next none reg e h = (refused region reg e, h)
  step region next (some found) reg e h = record {
    before = region ∷ h.before;
    after = h.after;
    whole = ap (λ t. region ∷ t) h.whole;
    others = ap (λ t. region ∷ t) h.others;
    skipped = (refused region reg e, h.skipped);
    suits = h.suits;
    searched = h.searched;
  }

  -- Over well-formed regions, `find_region` returns the first region that suits, with the first
  -- aligned address in it, and the list without that region, in order; it returns nothing exactly
  -- where no region of the list suits.
  pub find_region-Answers :
      (free : FreeList)
      → All (IsRegion lo hi) free
      → Answers free size align (find_region free size align)
  unfolding find_region
  find_region-Answers [] h = tt
  find_region-Answers (region ∷ next) h =
      elim (Option-cases (alloc_from_region region size align)) [
        | inl e ↦
            rw (e, find_region)
              (step region next (find_region next size align) h.0 e (find_region-Answers next h.1))
        | inr (a, e) ↦
            rw (e, find_region)
              (record {
                before = [];
                after = next;
                whole = refl;
                others = refl;
                skipped = tt;
                suits = (alloc_from_region-Suits lo hi region size align a is room h.0).0 e;
                searched = e;
              })
      ]
