-- ===== src/Memory/Bitmap.antt =====
-- `BitmapAllocator`: what it hands out is what it had not handed out.
use bayos.Base.{
  ℕ, zero, suc, ◌<◌, ◌≡◌, ◌≢◌, ◌↔◌, refl, sym, ap, subst, ◌∙◌, inl, inr, Bool, true, false, Option,
  none, some, List, [], ◌∷◌, arith, length, get_elem?, set, length-set, get_elem?-set_self,
  get_elem?-lt, get_elem?-total, set_self, set-set, Bool-cases, Option-cases, ltb, Exec, ok, panic,
  hang, out_of_fuel, All,
}
use bayos.Memory.{
  BitVec, BitmapAllocator, first_false, find_index, usable_frames, set_bit, allocate_frame,
  deallocate_frame,
}

first_false-get :
    (bits : List Bool) {i : ℕ} → first_false bits ≡ some i → get_elem? bits i ≡ some false
first_false-get [] e = ground arith
first_false-get (false ∷ bits) {i} e =
    let first : 0 ≡ i = ground arith in
    subst (λ t. get_elem? (false ∷ bits) t ≡ some false) first refl
first_false-get (true ∷ bits) {i} e = elim (Option-cases (first_false bits)) [
  | inl n ↦ ground arith
  | inr (j, s) ↦
      let later : suc j ≡ i = ground arith in
      subst (λ t. get_elem? (true ∷ bits) t ≡ some false) later (first_false-get bits s)
]

first_false-All : (bits : List Bool) → first_false bits ≡ none → All (λ b. b ≡ true) bits
first_false-All [] e = tt
first_false-All (false ∷ bits) e = ground arith
first_false-All (true ∷ bits) e = (refl, first_false-All bits (ground arith))

-- No two places of the list hold the same frame.
abbrev pub Distinct : {F : Type 0} → List F → Type 0
Distinct {F} xs = (i j : ℕ) (f : F) → get_elem? xs i ≡ some f → get_elem? xs j ≡ some f → i ≡ j

-- The code compares frames by an equality test.
abbrev pub Decides : {F : Type 0} → (F → F → Bool) → Type 0
Decides {F} eq = (f g : F) → (eq f g ≡ true) ↔ (f ≡ g)

find_index-get :
    {F : Type 0} (eq : F → F → Bool) (f : F) (xs : List F) {i : ℕ}
    → Decides eq
    → find_index eq f xs ≡ some i
    → get_elem? xs i ≡ some f
find_index-get eq f [] d e = ground arith
find_index-get eq f (x ∷ xs) {i} d e = elim (Bool-cases (eq x f)) [
  | inl same ↦
      let first : 0 ≡ i = ground arith in
      subst (λ t. get_elem? (x ∷ xs) t ≡ some f) first (ap some ((d x f).0 same))
  | inr differ ↦ elim (Option-cases (find_index eq f xs)) [
    | inl n ↦ ground arith
    | inr (j, s) ↦
        let later : suc j ≡ i = ground arith in
        subst (λ t. get_elem? (x ∷ xs) t ≡ some f) later (find_index-get eq f xs d s)
  ]
]

find_index_total :
    {F : Type 0} (eq : F → F → Bool) (f : F) (xs : List F) (i : ℕ)
    → Decides eq
    → get_elem? xs i ≡ some f
    → (j : ℕ) × (find_index eq f xs ≡ some j)
find_index_total eq f [] i d e = ground arith
find_index_total eq f (x ∷ xs) zero d e = (0, rw ((d x f).1 (cc)))
find_index_total eq f (x ∷ xs) (suc i) d e =
    let (j, s) = find_index_total eq f xs i d e in
    elim (Bool-cases (eq x f)) [ inl same ↦ (0, rw same) | inr differ ↦ (suc j, rw (differ, s)) ]

module _ (v : BitVec) {F : Type 0} (frame_of : ℕ → F) where
  -- The bits of the allocator, and the frames that they stand for.
  abbrev pub taken : BitmapAllocator v → List Bool
  taken a = v.bits a.bitmap

  abbrev pub table : BitmapAllocator v → List F
  table a = usable_frames frame_of a.memory_map

  -- One bit for each usable frame.
  abbrev pub IsSound : BitmapAllocator v → Type 0
  IsSound a = length (taken a) ≡ length (table a)

  -- The frame's bit is set.
  abbrev pub Held : BitmapAllocator v → F → Type 0
  Held a f = (i : ℕ) × (get_elem? (table a) i ≡ some f) × (get_elem? (taken a) i ≡ some true)

  -- What a call leaves when it changes one bit.
  pub record Writes (a a' : BitmapAllocator v) (f : F) (old new : Bool) : Type 0 where
    pub index : ℕ
    pub stands_for : get_elem? (table a) index ≡ some f
    pub was : get_elem? (taken a) index ≡ some old
    pub bits : taken a' ≡ set (taken a) index new
    pub map_same : a'.memory_map ≡ a.memory_map

  set_bit-ok :
      (a : BitmapAllocator v) (i : ℕ) (b : Bool)
      → i < length (taken a)
      → set_bit v a.bitmap i b ≡ ok (v.put a.bitmap i b)
  set_bit-ok a i b h = let inside : ltb i (length (taken a)) ≡ true = ground arith in rw inside

  allocate_frame-some :
      (a : BitmapAllocator v) (i : ℕ)
      → IsSound a
      → first_false (taken a) ≡ some i
      → (f : F) × (a' : BitmapAllocator v) × (allocate_frame v frame_of a ≡ ok (some f, a'))
        × Writes a a' f false true
  unfolding allocate_frame
  allocate_frame-some a i s e =
      let was = first_false-get (taken a) e in
      let inside = get_elem?-lt (taken a) i was in
      let (f, stands) = get_elem?-total (table a) i (omega arith) in
      let a' = record a { bitmap = v.put a.bitmap i true } in
      (
        f,
        a',
        ground (arith, v.first_zero-bits a.bitmap, set_bit-ok a i true inside, stands),
        record {
          index = i;
          stands_for = stands;
          was = was;
          bits = v.bits-put a.bitmap i true inside;
          map_same = refl;
        },
      )

  allocate_frame-none :
      (a : BitmapAllocator v)
      → first_false (taken a) ≡ none
      → allocate_frame v frame_of a ≡ ok (none, a)
  unfolding allocate_frame
  allocate_frame-none a e = ground (arith, v.first_zero-bits a.bitmap)

  Writes-not-Held :
      (a a' : BitmapAllocator v) (f : F)
      → Distinct (table a)
      → Writes a a' f false true
      → ¬ Held a f
  Writes-not-Held a a' f d w (i, here, set_here) =
      let same : i ≡ w.index = d i w.index f here w.stands_for in
      let both : get_elem? (taken a) w.index ≡ some true =
        subst (λ t. get_elem? (taken a) t ≡ some true) same set_here in
      ground (arith, w.was)

  Writes-IsSound :
      (a a' : BitmapAllocator v) (f : F) (old new : Bool)
      → IsSound a
      → Writes a a' f old new
      → IsSound a'
  Writes-IsSound a a' f old new s w =
      ap length w.bits
      ∙ length-set (taken a) w.index new
      ∙ s
      ∙ ap (λ m. length (usable_frames frame_of m)) (sym w.map_same)

  -- What `allocate_frame` may answer.
  abbrev pub Allocated : BitmapAllocator v → Option F → BitmapAllocator v → Type 0
  Allocated a none a' = (a' ≡ a) × All (λ b. b ≡ true) (taken a)
  Allocated a (some f) a' = Writes a a' f false true × IsSound a' × (¬ Held a f) × Held a' f

  -- With one bit for each usable frame, and no frame twice among them, `allocate_frame` does not panic.
  -- It returns a frame that was not held, and changes the bit of that frame alone, which is held
  -- afterwards; or it returns nothing, changes nothing, and every bit was set.
  pub allocate_frame_lem :
      (a : BitmapAllocator v)
      → IsSound a
      → Distinct (table a)
      → (answer : Option F) × (a' : BitmapAllocator v) × (allocate_frame v frame_of a
          ≡ ok (answer, a'))
        × Allocated a answer a'
  allocate_frame_lem a s d = elim (Option-cases (first_false (taken a))) [
    | inl e ↦ (none, a, allocate_frame-none a e, (refl, first_false-All (taken a) e))
    | inr (i, e) ↦
        let (f, a', run, w) = allocate_frame-some a i s e in
        (
          some f,
          a',
          run,
          (
            w,
            Writes-IsSound a a' f false true s w,
            Writes-not-Held a a' f d w,
            (
              w.index,
              ap (λ m. get_elem? (usable_frames frame_of m) w.index) w.map_same ∙ w.stands_for,
              ap (λ l. get_elem? l w.index) w.bits
                  ∙ get_elem?-set_self (taken a) w.index true
                      (get_elem?-lt (taken a) w.index w.was),
            ),
          ),
        )
  ]

  -- The same as a predicate on the run.
  abbrev pub AllocResult : BitmapAllocator v → Exec (Option F × BitmapAllocator v) → Type 0
  AllocResult a (ok (answer, a')) = Allocated a answer a'
  AllocResult a panic = ⊥
  AllocResult a hang = ⊥
  AllocResult a out_of_fuel = ⊥

  pub allocate_frame-Result :
      (a : BitmapAllocator v)
      → IsSound a
      → Distinct (table a)
      → AllocResult a (allocate_frame v frame_of a)
  allocate_frame-Result a s d = let (answer, a', run, h) = allocate_frame_lem a s d in rw run h

  module _ (eq : F → F → Bool) (decides : Decides eq) where
    -- With one bit for each usable frame, and no frame twice among them, giving back a usable frame
    -- does not panic, clears its bit, and changes no other.
    deallocate_frame_lem :
        (a : BitmapAllocator v) (i : ℕ) (f : F)
        → IsSound a
        → Distinct (table a)
        → get_elem? (table a) i ≡ some f
        → (a' : BitmapAllocator v) × (deallocate_frame v frame_of eq f a ≡ ok a')
          × (taken a' ≡ set (taken a) i false)
          × (a'.memory_map ≡ a.memory_map)
    unfolding deallocate_frame
    deallocate_frame_lem a i f s d here =
        let (j, found) = find_index_total eq f (table a) i decides here in
        let same : j ≡ i = d j i f (find_index-get eq f (table a) decides found) here in
        let inside : i < length (taken a) = omega (arith, get_elem?-lt (table a) i here) in
        (
          record a { bitmap = v.put a.bitmap i false },
          rw (found ∙ ap some same) (rw (set_bit-ok a i false inside)),
          v.bits-put a.bitmap i false inside,
          refl,
        )

    -- Giving back a frame that is no usable frame panics.
    pub deallocate_frame_foreign :
        (a : BitmapAllocator v) (f : F)
        → ((i : ℕ) → get_elem? (table a) i ≢ some f)
        → deallocate_frame v frame_of eq f a ≡ panic
    unfolding deallocate_frame
    deallocate_frame_foreign a f foreign = elim (Option-cases (find_index eq f (table a))) [
      | inl n ↦ rw n
      | inr (j, found) ↦ absurd (foreign j (find_index-get eq f (table a) decides found))
    ]

    -- With one bit for each usable frame, and no frame twice among them, giving back the frame that
    -- was just handed out does not panic, and restores every bit.
    pub deallocate_frame-allocate_frame :
        (a a' : BitmapAllocator v) (f : F)
        → IsSound a
        → Distinct (table a)
        → allocate_frame v frame_of a ≡ ok (some f, a')
        → (a'' : BitmapAllocator v) × (deallocate_frame v frame_of eq f a' ≡ ok a'')
          × (taken a'' ≡ taken a)
    deallocate_frame-allocate_frame a a' f s d run =
        let (w, s', _, _) = subst (AllocResult a) run (allocate_frame-Result a s d) in
        let same : table a' ≡ table a = ap (usable_frames frame_of) w.map_same in
        let (a'', back, bits, _) =
          deallocate_frame_lem a' w.index f s' (rw same d) (rw same w.stands_for) in
        (
          a'',
          back,
          bits
              ∙ ap (λ l. set l w.index false) w.bits
              ∙ set-set (taken a) w.index true false
              ∙ set_self (taken a) w.index w.was,
        )
