-- ===== src/Paging/Loop.antt =====
-- The mapping loop: when it succeeds, exactly the pages of the range are newly mapped.
use bayos.Base.{
  ℕ, ◌+◌, ◌-◌, ◌*◌, ◌/◌, ◌%◌, ◌≤◌, ◌<◌, zero, suc, ◌≡◌, ◌≢◌, sym, ap, subst, ◌∙◌, inl, inr, none,
  some, List, [], ◌∷◌, arith, All, Option-cases,
}
use bayos.Memory.{steps}
use bayos.Paging.{Mapper, Flags, done, frame_allocation_failed, map_pages, page_range}

module _ (m : Mapper) (flags : Flags) where
  -- The page was not mapped, and is mapped now, with the flags.
  pub record IsNew (t t' : m.Table) (page : ℕ) : Type 0 where
    pub frame : m.Frame
    pub before : m.lookup t page ≡ none
    pub after : m.lookup t' page ≡ some (frame, flags)

  -- The pages of the list are newly mapped, and no other page is mapped otherwise than before.
  pub record MapsPages (pages : List ℕ) (t t' : m.Table) : Type 0 where
    pub each : All (IsNew t t') pages
    pub others : (q : ℕ) → All (λ page. q ≢ page) pages → m.lookup t' q ≡ m.lookup t q

  MapsPages-cons :
      (page : ℕ) (pages : List ℕ) (t t1 t' : m.Table) (f : m.Frame)
      → m.lookup t page ≡ none
      → m.lookup t1 page ≡ some (f, flags)
      → ((q : ℕ) → q ≢ page → m.lookup t1 q ≡ m.lookup t q)
      → MapsPages pages t1 t'
      → MapsPages (page ∷ pages) t t'
  MapsPages-cons page pages t t1 t' f free here kept rest = record {
    each = (first, earlier pages rest.each);
    others = λ q out. rest.others q out.1 ∙ kept q out.0;
  }
    where
      -- No page of the rest is the first one, which was mapped when they were not.
      differs : (q : ℕ) → IsNew t1 t' q → q ≢ page
      differs q new e =
          let there : m.lookup t1 page ≡ none = subst (λ a. m.lookup t1 a ≡ none) e new.before in
          ground arith

      earlier : (qs : List ℕ) → All (IsNew t1 t') qs → All (IsNew t t') qs
      earlier [] h = tt
      earlier (q ∷ qs) h = (
        record {
          frame = h.0.frame;
          before = sym (kept q (differs q h.0)) ∙ h.0.before;
          after = h.0.after;
        },
        earlier qs h.1,
      )

      apart : (qs : List ℕ) → All (IsNew t1 t') qs → All (λ q. page ≢ q) qs
      apart [] h = tt
      apart (q ∷ qs) h = ((λ e. differs q h.0 (sym e)), apart qs h.1)

      first : IsNew t t' page
      first = record {
        frame = f;
        before = free;
        after = rest.others page (apart pages rest.each) ∙ here;
      }

  -- Where the loop succeeds, every page of the range was not mapped before and is mapped with the
  -- flags, to the frame that it got, and every other page is as it was.
  pub map_pages_lem :
      (pages : List ℕ) (t t' : m.Table) (s s' : m.Frames)
      → map_pages m pages flags t s ≡ done (t', s')
      → MapsPages pages t t'
  unfolding map_pages
  map_pages_lem [] t t' s s' e =
      let same : t ≡ t' = cc in
      record { each = tt; others = λ q h. ap (λ u. m.lookup u q) (sym same) }
  map_pages_lem (page ∷ pages) t t' s s' e = elim (Option-cases (m.allocate_frame s).0) [
    | inl missing ↦ ground arith
    | inr (f, got) ↦ elim (Option-cases (m.map_to t page f flags (m.allocate_frame s).1)) [
      | inl failed ↦ ground arith
      | inr ((t1, s1), put) ↦
          let rest : map_pages m pages flags t1 s1 ≡ done (t', s') = ground arith in
          let new = m.mapped t page f flags (m.allocate_frame s).1 t1 s1 put in
          MapsPages-cons page pages t t1 t' f new.0 new.1
            (m.kept t page f flags (m.allocate_frame s).1 t1 s1 put)
            (map_pages_lem pages t1 t' s1 s' rest)
    ]
  ]

-- Where no frame is left, no page is mapped.
pub map_pages_exhausted :
    (m : Mapper) (flags : Flags) (t : m.Table) (s : m.Frames) (n start : ℕ)
    → 0 < n
    → (m.allocate_frame s).0 ≡ none
    → map_pages m (steps n start) flags t s ≡ frame_allocation_failed
unfolding map_pages steps
map_pages_exhausted m flags t s zero start pos spent = absurd (omega arith)
map_pages_exhausted m flags t s (suc n) start pos spent = ground arith

-- What holds of `n` addresses, a page apart, holds of each.
steps-at {κ} :
    (P : ℕ → Type κ) (n start : ℕ) → All P (steps n start) → (i : ℕ) → i < n → P (start + i * 4096)
unfolding steps
steps-at P zero start h i l = absurd (omega arith)
steps-at P (suc n) start h zero l = subst P (omega arith) h.0
steps-at P (suc n) start h (suc i) l =
    subst P (omega arith) (steps-at P n (start + 4096) h.1 i (omega arith))

-- The address of the page of an address.
abbrev pub page_of : ℕ → ℕ
page_of a = a - a % 4096

pub page_range_lem :
    (m : Mapper) (first last : ℕ)
    → page_range m first last ≡ steps ((page_of last + 4096 - page_of first) / 4096) (page_of first)
page_range_lem m first last =
    rw (m.range_inclusive_lem, m.containing_address_lem first, m.containing_address_lem last)

-- The range from `first` to `last` has the page of each address between.
pub page_range-covers {κ} :
    (m : Mapper) (P : ℕ → Type κ) (first last : ℕ)
    → All P (page_range m first last)
    → (a : ℕ) → first ≤ a
    → a ≤ last
    → P (page_of a)
page_range-covers m P first last h a from to = subst P (omega arith) (
    steps-at P ((page_of last + 4096 - page_of first) / 4096) (page_of first)
      (subst (All P) (page_range_lem m first last) h) ((page_of a - page_of first) / 4096)
      (omega arith))
