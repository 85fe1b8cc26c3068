-- ===== src/Memory/Handover.antt =====
-- `BitmapAllocator::init` takes over from the boot allocator: both would hand out the same frames.
use bayos.Base.{
  ℕ, zero, suc, ◌+◌, ◌-◌, ◌^◌, ◌≤◌, ◌<◌, min, ◌≡◌, ◌⊎◌, refl, ap, ◌∙◌, inl, inr, Bool, true, false,
  Option, none, some, List, [], ◌∷◌, ◌++◌, arith, length, get_elem?, set, replicate, length-append,
  length-replicate, get_elem?-none, ltb, Exec, ok, panic, ◌>>=◌,
}
use bayos.Memory.{
  BitVec, BitmapAllocator, BootInfoFrameAllocator, first_false, usable_frames, frames, set_bit,
  mark, init, allocate_frame, boot_allocate_frame,
}

-- The first `n` bits are set, and the `k` behind them are clear.
abbrev prefix : ℕ → ℕ → List Bool
prefix n k = replicate n true ++ replicate k false

length-prefix : (n k : ℕ) → length (prefix n k) ≡ n + k
length-prefix n k = omega (
  arith,
  length-append (replicate n true) (replicate k false),
  length-replicate n true,
  length-replicate k false,
)

set-prefix : (n k : ℕ) → set (prefix n (suc k)) n true ≡ prefix (suc n) k
set-prefix zero k = refl
set-prefix (suc n) k = ap (λ t. true ∷ t) (set-prefix n k)

first_false-prefix : (n k : ℕ) → first_false (prefix n (suc k)) ≡ some n
first_false-prefix zero k = refl
first_false-prefix (suc n) k = rw (first_false-prefix n k)

first_false-full : (n : ℕ) → first_false (prefix n 0) ≡ none
first_false-full zero = refl
first_false-full (suc n) = rw (first_false-full n)

zero_or_suc : (n : ℕ) → (n ≡ 0) ⊎ ((k : ℕ) × (n ≡ suc k))
zero_or_suc zero = inl refl
zero_or_suc (suc n) = inr (n, refl)

module _ (v : BitVec) where
  -- One round of the loop sets the next bit.
  set_bit-prefix :
      (b : v.Bits) (n k : ℕ)
      → v.bits b ≡ prefix n (suc k)
      → (b' : v.Bits) × (set_bit v b n true ≡ ok b') × (v.bits b' ≡ prefix (suc n) k)
  set_bit-prefix b n k e =
      let inside : n < length (v.bits b) = omega (arith, ap length e, length-prefix n (suc k)) in
      let test : ltb n (length (v.bits b)) ≡ true = ground arith in
      (
        v.put b n true,
        rw test,
        v.bits-put b n true inside ∙ ap (λ l. set l n true) e ∙ set-prefix n k,
      )

  mark-prefix :
      (rounds n k : ℕ) (b : v.Bits)
      → rounds ≤ k
      → v.bits b ≡ prefix n k
      → (b' : v.Bits) × (mark v rounds n b ≡ ok b') × (v.bits b' ≡ prefix (n + rounds) (k - rounds))
  unfolding mark
  mark-prefix zero n k b h e = (
    b,
    refl,
    e
        ∙ ap (λ m. prefix m k) {y = n + 0} (omega arith)
        ∙ ap (prefix (n + 0)) {y = k - 0} (omega arith),
  )
  mark-prefix (suc rounds) n zero b h e = absurd (omega arith)
  mark-prefix (suc rounds) n (suc k) b h e =
      let (b1, step, e1) = set_bit-prefix b n k e in
      let e2 : v.bits b1 ≡ prefix (n + 1) k =
        e1 ∙ ap (λ m. prefix m k) {x = suc n} {y = n + 1} (omega arith) in
      let (b2, rest, e3) = mark-prefix rounds (n + 1) k b1 (omega arith) e2 in
      (
        b2,
        rw step rest,
        e3
            ∙ ap (λ m. prefix m (k - rounds)) {x = n + 1 + rounds} {y = n + suc rounds}
                (omega arith)
            ∙ ap (prefix (n + suc rounds)) {x = k - rounds} {y = suc k - suc rounds} (omega arith),
      )

  -- Once every bit is set, one more round panics.
  mark_panics :
      (rounds n k : ℕ) (b : v.Bits) → k < rounds → v.bits b ≡ prefix n k → mark v rounds n b ≡ panic
  unfolding mark
  mark_panics zero n k b h e = absurd (omega arith)
  mark_panics (suc rounds) n zero b h e =
      let outside : ltb n (length (v.bits b)) ≡ false =
        ground (arith, ap length e, length-prefix n 0) in
      rw outside
  mark_panics (suc rounds) n (suc k) b h e =
      let (b1, step, e1) = set_bit-prefix b n k e in
      rw step (
        mark_panics rounds (n + 1) k b1 (omega arith)
          (e1 ∙ ap (λ m. prefix m k) {x = suc n} {y = n + 1} (omega arith)))

  module _ {F : Type 0} (frame_of : ℕ → F) where
    -- The bitmap and the boot allocator agree on what is handed out: the first frames, as many as
    -- were asked for, or all.
    pub record Agrees (boot : BootInfoFrameAllocator) (a : BitmapAllocator v) : Type 0 where
      pub map_same : a.memory_map ≡ boot.memory_map
      pub left : ℕ
      pub used : ℕ
      pub counted : used + left ≡ frames frame_of boot
      pub reached : used ≡ min boot.next (frames frame_of boot)
      pub bits : v.bits a.bitmap ≡ prefix used left

    start :
        (old : BootInfoFrameAllocator)
        → v.bits (v.repeat false (frames frame_of old)) ≡ prefix 0 (frames frame_of old)
    start old = v.bits-repeat false (frames frame_of old)

    -- If the boot allocator handed out no more frames than there are, `init` sets the bits of those
    -- frames, which are the first, and no others.
    pub init-Agrees :
        (old : BootInfoFrameAllocator)
        → old.next ≤ frames frame_of old
        → (a : BitmapAllocator v) × (init v frame_of old ≡ ok a) × Agrees old a
    unfolding init
    init-Agrees old h =
        let (b, run, e) =
          mark-prefix old.next 0 (frames frame_of old) (v.repeat false (frames frame_of old)) h
            (start old) in
        (
          record { memory_map = old.memory_map; bitmap = b },
          rw run,
          record {
            map_same = refl;
            left = frames frame_of old - old.next;
            used = 0 + old.next;
            counted = omega arith;
            reached = omega arith;
            bits = e;
          },
        )

    -- If the boot allocator was asked for more frames than there are, `init` panics.
    init_panics :
        (old : BootInfoFrameAllocator)
        → frames frame_of old < old.next
        → init v frame_of old ≡ panic
    unfolding init
    init_panics old h = rw (
        mark_panics old.next 0 (frames frame_of old) (v.repeat false (frames frame_of old)) h
          (start old))

    step-none :
        (boot : BootInfoFrameAllocator) (a : BitmapAllocator v) (g : Agrees boot a)
        → g.left ≡ 0
        → (allocate_frame v frame_of a ≡ ok (none, a))
          × ((boot_allocate_frame frame_of boot).0 ≡ none)
    unfolding allocate_frame boot_allocate_frame frames
    step-none boot a g full =
        let e = g.bits ∙ ap (prefix g.used) full in
        (
          ground (arith, v.first_zero-bits a.bitmap, ap first_false e, first_false-full g.used),
          get_elem?-none (usable_frames frame_of boot.memory_map) boot.next
              (omega (arith, g.counted, g.reached)),
        )

    step-some :
        (boot : BootInfoFrameAllocator) (a : BitmapAllocator v) (g : Agrees boot a) (k : ℕ)
        → g.left ≡ suc k
        → (b : v.Bits) × (allocate_frame v frame_of a
            ≡ ok (
              (boot_allocate_frame frame_of boot).0,
              record { memory_map = a.memory_map; bitmap = b },
            ))
          × (v.bits b ≡ prefix (suc g.used) k)
    unfolding allocate_frame boot_allocate_frame frames
    step-some boot a g k more =
        let e = g.bits ∙ ap (prefix g.used) more in
        let (b, run, e') = set_bit-prefix a.bitmap g.used k e in
        let here : g.used ≡ boot.next = omega (arith, g.counted, g.reached) in
        let same : get_elem? (usable_frames frame_of a.memory_map) g.used
            ≡ get_elem? (usable_frames frame_of boot.memory_map) boot.next =
          ap (λ m. get_elem? (usable_frames frame_of m) g.used) g.map_same
          ∙ ap (get_elem? (usable_frames frame_of boot.memory_map)) here in
        (
          b,
          ground (
            arith,
            v.first_zero-bits a.bitmap,
            ap first_false e,
            first_false-prefix g.used k,
            run,
            same,
          ),
          e',
        )

    -- Where the two allocators agree, one call of each returns the same frame, or none, and they agree
    -- again. (The boot allocator's count must not wrap.)
    agree_step :
        (boot : BootInfoFrameAllocator) (a : BitmapAllocator v)
        → boot.next + 1 < 2 ^ 64
        → Agrees boot a
        → (a' : BitmapAllocator v) × (allocate_frame v frame_of a
            ≡ ok ((boot_allocate_frame frame_of boot).0, a'))
          × Agrees (boot_allocate_frame frame_of boot).1 a'
    unfolding boot_allocate_frame frames
    agree_step boot a room g = elim (zero_or_suc g.left) [
      | inl full ↦
          let (run, out) = step-none boot a g full in
          (
            a,
            rw out run,
            record {
              map_same = g.map_same;
              left = g.left;
              used = g.used;
              counted = g.counted;
              reached = omega (arith, g.counted, g.reached);
              bits = g.bits;
            },
          )
      | inr (k, more) ↦
          let (b, run, e) = step-some boot a g k more in
          (
            record { memory_map = a.memory_map; bitmap = b },
            run,
            record {
              map_same = g.map_same;
              left = k;
              used = suc g.used;
              counted = omega (arith, g.counted);
              reached = omega (arith, g.counted, g.reached);
              bits = e;
            },
          )
    ]

    -- The frames that `n` calls of the boot allocator return.
    pub boot_frames : ℕ → BootInfoFrameAllocator → List (Option F)
    boot_frames zero boot = []
    boot_frames (suc n) boot =
        let (frame, boot') = boot_allocate_frame frame_of boot in frame ∷ boot_frames n boot'

    -- The frames that `n` calls of the bitmap allocator return.
    pub bitmap_frames : ℕ → BitmapAllocator v → Exec (List (Option F))
    bitmap_frames zero a = ok []
    bitmap_frames (suc n) a = do
      (frame, a') ← allocate_frame v frame_of a
      rest ← bitmap_frames n a'
      ok (frame ∷ rest)

    agree_frames :
        (n : ℕ) (boot : BootInfoFrameAllocator) (a : BitmapAllocator v)
        → boot.next + n < 2 ^ 64
        → Agrees boot a
        → bitmap_frames n a ≡ ok (boot_frames n boot)
    unfolding bitmap_frames boot_frames boot_allocate_frame
    agree_frames zero boot a room g = refl
    agree_frames (suc n) boot a room g =
        let (a', run, g') = agree_step boot a (omega arith) g in
        ground
          (arith, run, agree_frames n (boot_allocate_frame frame_of boot).1 a' (omega arith) g')

    -- After a boot that handed out no more frames than there are, the bitmap allocator is set up
    -- without a panic, and any number of its calls, below the end of the number range, returns what
    -- as many further calls of the boot allocator would have returned, in the same order, to the end
    -- of the usable frames and beyond.
    pub bitmap_frames-init :
        (n : ℕ) (old : BootInfoFrameAllocator)
        → old.next ≤ frames frame_of old
        → old.next + n < 2 ^ 64
        → (init v frame_of old >>= bitmap_frames n) ≡ ok (boot_frames n old)
    bitmap_frames-init n old h room =
        let (a, run, g) = init-Agrees old h in rw run (agree_frames n old a room g)
