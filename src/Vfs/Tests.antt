-- ===== src/Vfs/Tests.antt =====
-- The pipe over a bounded list.
use bayos.Base.{
  ℕ, ◌<◌, ◌≡◌, refl, ap, Option, none, some, List, [], ◌∷◌, ◌++◌, arith, length, replicate, ltb,
  if◌then◌else◌, ok,
}
use bayos.Vfs.{ArrayQueue, Got, write, read}
use bayos.Vfs.Pipe.{Reads, read_lem}

pub record Bounded : Type 0 where
  pub items : List ℕ
  pub capacity : ℕ

abbrev push : Bounded → ℕ → Option Bounded
push q b =
    if ltb (length q.items) q.capacity then some (record q { items = q.items ++ b ∷ [] }) else none

abbrev pop_items : ℕ → List ℕ → Option (ℕ × Bounded)
pop_items n [] = none
pop_items n (b ∷ bs) = some (b, record { items = bs; capacity = n })

abbrev pop : Bounded → Option (ℕ × Bounded)
pop q = pop_items q.capacity q.items

pub push_room :
    (q : Bounded) (b : ℕ)
    → length q.items < q.capacity
    → (q' : Bounded) × (push q b ≡ some q')
      × (q'.items ≡ q.items ++ b ∷ [])
      × (q'.capacity ≡ q.capacity)
push_room q b h = (record q { items = q.items ++ b ∷ [] }, ground arith, refl, refl)

pub push_full : (q : Bounded) (b : ℕ) → length q.items ≡ q.capacity → push q b ≡ none
push_full q b h = ground arith

pub pop_empty : (q : Bounded) → q.items ≡ [] → pop q ≡ none
pop_empty q e = ap (pop_items q.capacity) e

pub pop_first :
    (q : Bounded) (b : ℕ) (bs : List ℕ)
    → q.items ≡ b ∷ bs
    → (q' : Bounded) × (pop q ≡ some (b, q')) × (q'.items ≡ bs) × (q'.capacity ≡ q.capacity)
pop_first q b bs e =
    (record { items = bs; capacity = q.capacity }, ap (pop_items q.capacity) e, refl, refl)

abbrev pub bounded : ArrayQueue
bounded = record {
  Queue = Bounded;
  items = λ q. q.items;
  capacity = λ q. q.capacity;
  new = λ n. record { items = []; capacity = n };
  push = push;
  pop = pop;
  new_empty = λ n h. (refl, refl);
  push_room = push_room;
  push_full = push_full;
  pop_empty = pop_empty;
  pop_first = pop_first;
}

abbrev pub pipe : Bounded
pipe = record { items = b'h' ∷ []; capacity = 4 }

-- The second byte comes while the read waits.
read_runs :
    read bounded ([] ∷ [] ∷ (b'i' ∷ b'!' ∷ []) ∷ []) 2 pipe
    ≡ ok (record {
      bytes = b'h' ∷ b'i' ∷ [];
      queue = record { items = b'!' ∷ []; capacity = 4 };
      arrivals = [];
    })
unfolding read write
read_runs = refl

read_lem_example :
    (got : Got bounded) × (read bounded (([] ∷ (b'i' ∷ b'!' ∷ []) ∷ []) ++ replicate 2 []) 2 pipe
      ≡ ok got)
    × Reads bounded (b'h' ∷ b'i' ∷ b'!' ∷ []) 2 got
read_lem_example =
    read_lem bounded ([] ∷ (b'i' ∷ b'!' ∷ []) ∷ []) 2 pipe (omega arith) (omega arith)
