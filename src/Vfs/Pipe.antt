-- ===== src/Vfs/Pipe.antt =====
-- The pipe is a queue: what is read is what was written, in order, and none is lost.
use mathlib.Core.List.{append_assoc, append-nil}
use native.Mathlib.Decide.{ℕ_discrete}
use bayos.Base.{
  ℕ, zero, suc, ◌+◌, ◌≤◌, ◌<◌, ◌≡◌, ◌⊎◌, refl, sym, ap, subst, ◌∙◌, inl, inr, some, List, [], ◌∷◌,
  ◌++◌, arith, length, length-append, replicate, ok, panic,
}
use bayos.Vfs.{ArrayQueue, Got, write, read}

-- All that a list of arrivals writes.
abbrev pub concat : List (List ℕ) → List ℕ
concat [] = []
concat (bs ∷ arrivals) = bs ++ concat arrivals

List-cases : (xs : List ℕ) → (xs ≡ []) ⊎ ((b : ℕ) × (bs : List ℕ) × (xs ≡ b ∷ bs))
List-cases [] = inl refl
List-cases (b ∷ bs) = inr (b, bs, refl)

module _ (a : ArrayQueue) where
  -- What is written goes to the end of the pipe, if there is room for all of it.
  pub write_lem :
      (bs : List ℕ) (q : a.Queue)
      → length (a.items q) + length bs ≤ a.capacity q
      → (q' : a.Queue) × (write a bs q ≡ ok q')
        × (a.items q' ≡ a.items q ++ bs)
        × (a.capacity q' ≡ a.capacity q)
  unfolding write
  write_lem [] q room = (q, refl, sym (append-nil (a.items q)), refl)
  write_lem (b ∷ bs) q room =
      let (q1, one, items1, cap1) = a.push_room q b (omega arith) in
      let more = ap length items1 ∙ length-append (a.items q) (b ∷ []) in
      let (q2, run, items2, cap2) = write_lem bs q1 (omega (arith, more)) in
      (
        q2,
        rw one run,
        items2 ∙ ap (λ l. l ++ bs) items1 ∙ append_assoc (a.items q) (b ∷ []) bs,
        cap2 ∙ cap1,
      )

  -- A write of more bytes than there is room for, to a pipe within its capacity, panics.
  pub write_panics :
      (bs : List ℕ) (q : a.Queue)
      → length (a.items q) ≤ a.capacity q
      → a.capacity q < length (a.items q) + length bs
      → write a bs q ≡ panic
  unfolding write
  write_panics [] q fits over = absurd (omega arith)
  write_panics (b ∷ bs) q fits over = elim (ℕ_discrete (length (a.items q)) (a.capacity q)) [
    | yes full ↦ rw (a.push_full q b full)
    | no room ↦
        let (q1, one, items1, cap1) = a.push_room q b (omega arith) in
        let more = ap length items1 ∙ length-append (a.items q) (b ∷ []) in
        rw one (write_panics bs q1 (omega (arith, more)) (omega (arith, more)))
  ]

  -- The read ended with as many bytes as were asked for; with what is left in the pipe and what is
  -- still to come, they are all that was there and came, in order.
  pub record Reads (all : List ℕ) (size : ℕ) (got : Got a) : Type 0 where
    pub count : length got.bytes ≡ size
    pub in_order : got.bytes ++ (a.items got.queue ++ concat got.arrivals) ≡ all

  Reads-cons :
      (all : List ℕ) (size b : ℕ) (got : Got a)
      → Reads all size got
      → Reads (b ∷ all) (suc size) (record got { bytes = b ∷ got.bytes })
  Reads-cons all size b got r = record {
    count = ap suc r.count;
    in_order = ap (λ t. b ∷ t) r.in_order;
  }

  -- One round of the loop, by what the pipe holds once the arrivals are written.
  round_empty :
      (bs : List ℕ) (arrivals : List (List ℕ)) (size : ℕ) (q q' : a.Queue)
      → write a bs q ≡ ok q'
      → a.items q' ≡ []
      → read a (bs ∷ arrivals) (suc size) q ≡ read a arrivals (suc size) q'
  unfolding read
  round_empty bs arrivals size q q' run e = ground (arith, run, a.pop_empty q' e)

  round_first :
      (bs : List ℕ) (arrivals : List (List ℕ)) (size b : ℕ) (q q' q'' : a.Queue) (got : Got a)
      → write a bs q ≡ ok q'
      → a.pop q' ≡ some (b, q'')
      → read a arrivals size q'' ≡ ok got
      → read a (bs ∷ arrivals) (suc size) q ≡ ok (record got { bytes = b ∷ got.bytes })
  unfolding read
  round_first bs arrivals size b q q' q'' got run popped rest = ground (arith, run, popped, rest)

  quiet : (arrivals : List (List ℕ)) (m : ℕ) → concat (arrivals ++ replicate m []) ≡ concat arrivals
  quiet [] zero = refl
  quiet [] (suc m) = quiet [] m
  quiet (bs ∷ arrivals) m = ap (λ t. bs ++ t) (quiet arrivals m)

  read_zero :
      (arrivals : List (List ℕ)) (m : ℕ) (q : a.Queue)
      → (got : Got a) × (read a (arrivals ++ replicate m []) 0 q ≡ ok got)
        × Reads (a.items q ++ concat arrivals) 0 got
  unfolding read
  read_zero [] m q =
      (_, refl, record { count = refl; in_order = ap (λ t. a.items q ++ t) (quiet [] m) })
  read_zero (bs ∷ arrivals) m q = (
    _,
    refl,
    record { count = refl; in_order = ap (λ t. a.items q ++ t) (quiet (bs ∷ arrivals) m) },
  )

  read_rounds :
      (arrivals : List (List ℕ)) (m size : ℕ) (q : a.Queue)
      → size ≤ m
      → length (a.items q) + length (concat arrivals) ≤ a.capacity q
      → size ≤ length (a.items q) + length (concat arrivals)
      → (got : Got a) × (read a (arrivals ++ replicate m []) size q ≡ ok got)
        × Reads (a.items q ++ concat arrivals) size got
  unfolding write
  read_rounds arrivals m zero q enough fits full = read_zero arrivals m q
  read_rounds [] zero (suc size) q enough fits full = absurd (omega arith)
  read_rounds [] (suc m) (suc size) q enough fits full = elim (List-cases (a.items q)) [
    | inl e ↦ absurd (omega (arith, ap length e))
    | inr (b, bs, e) ↦
        let (q', popped, items, cap) = a.pop_first q b bs e in
        let (got, run, r) =
          read_rounds [] m size q' (omega arith) (omega (arith, ap length e, ap length items))
            (omega (arith, ap length e, ap length items)) in
        (
          _,
          round_first [] (replicate m []) size b q q q' got refl popped run,
          subst (λ l. Reads l (suc size) (record got { bytes = b ∷ got.bytes }))
              (ap (λ l. b ∷ (l ++ [])) items ∙ ap (λ l. l ++ []) (sym e))
              (Reads-cons (a.items q' ++ []) size b got r),
        )
  ]
  read_rounds (new ∷ arrivals) m (suc size) q enough fits full =
      let split = length-append new (concat arrivals) in
      let (q1, run1, items1, cap1) = write_lem new q (omega (arith, split)) in
      let more = ap length items1 ∙ length-append (a.items q) new in
      let whole : a.items q1 ++ concat arrivals ≡ a.items q ++ (new ++ concat arrivals) =
        ap (λ l. l ++ concat arrivals) items1 ∙ append_assoc (a.items q) new (concat arrivals) in
      elim (List-cases (a.items q1)) [
        | inl e ↦
            let (got, run, r) =
              read_rounds arrivals m (suc size) q1 enough (omega (arith, split, more))
                (omega (arith, split, more)) in
            (
              got,
              round_empty new (arrivals ++ replicate m []) size q q1 run1 e ∙ run,
              subst (λ l. Reads l (suc size) got) whole r,
            )
        | inr (b, bs, e) ↦
            let (q2, popped, items2, cap2) = a.pop_first q1 b bs e in
            let (got, run, r) =
              read_rounds arrivals m size q2 (omega arith)
                (omega (arith, split, more, ap length e, ap length items2))
                (omega (arith, split, more, ap length e, ap length items2)) in
            (
              _,
              round_first new (arrivals ++ replicate m []) size b q q1 q2 got run1 popped run,
              subst (λ l. Reads l (suc size) (record got { bytes = b ∷ got.bytes }))
                  (ap (λ l. b ∷ (l ++ concat arrivals)) items2
                    ∙ ap (λ l. l ++ concat arrivals) (sym e)
                    ∙ whole)
                  (Reads-cons (a.items q2 ++ concat arrivals) size b got r),
            )
      ]

  -- A read ends once enough was written: where the pipe has room for all that comes, and what it
  -- holds and what comes are enough bytes, it needs as many rounds after the last arrival as it reads
  -- bytes, at most. It gets the oldest bytes, in order, and loses none.
  pub read_lem :
      (arrivals : List (List ℕ)) (size : ℕ) (q : a.Queue)
      → length (a.items q) + length (concat arrivals) ≤ a.capacity q
      → size ≤ length (a.items q) + length (concat arrivals)
      → (got : Got a) × (read a (arrivals ++ replicate size []) size q ≡ ok got)
        × Reads (a.items q ++ concat arrivals) size got
  read_lem arrivals size q fits full = read_rounds arrivals size size q (omega arith) fits full
