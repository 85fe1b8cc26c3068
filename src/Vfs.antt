-- ===== src/Vfs.antt =====
-- The pipe of kernel/src/vfs/pipe.rs, through which the keyboard's handler passes characters to the
-- `read` system call.
--
-- Not code of the kernel, and so a parameter: the queue of the crate crossbeam_queue, with what its
-- documentation says of it, in the record `ArrayQueue`.
pub mod Pipe
pub mod Tests
use bayos.Base.{
  ℕ, zero, suc, ◌+◌, ◌<◌, ◌≡◌, Option, none, some, List, [], ◌∷◌, ◌++◌, length, Exec, ok, panic,
  out_of_fuel, ◌>>=◌, ◌>>◌, expect,
}

-- A bounded queue: `items` are its elements, oldest first. `push` returns the element, here nothing,
-- where the queue is full.
pub record ArrayQueue : Type 1 where
  pub Queue : Type 0
  pub items : Queue → List ℕ
  pub capacity : Queue → ℕ
  pub new : ℕ → Queue
  pub push : Queue → ℕ → Option Queue
  pub pop : Queue → Option (ℕ × Queue)
  pub new_empty : (n : ℕ) → 0 < n → (items (new n) ≡ []) × (capacity (new n) ≡ n)
  pub push_room :
      (q : Queue) (b : ℕ)
      → length (items q) < capacity q
      → (q' : Queue) × (push q b ≡ some q')
        × (items q' ≡ items q ++ b ∷ [])
        × (capacity q' ≡ capacity q)
  pub push_full : (q : Queue) (b : ℕ) → length (items q) ≡ capacity q → push q b ≡ none
  pub pop_empty : (q : Queue) → items q ≡ [] → pop q ≡ none
  pub pop_first :
      (q : Queue) (b : ℕ) (bs : List ℕ)
      → items q ≡ b ∷ bs
      → (q' : Queue) × (pop q ≡ some (b, q')) × (items q' ≡ bs) × (capacity q' ≡ capacity q)

-- The bytes that `read` got, the queue, and the arrivals that are still to come.
pub record Got (a : ArrayQueue) : Type 0 where
  pub bytes : List ℕ
  pub queue : a.Queue
  pub arrivals : List (List ℕ)

module _ (a : ArrayQueue) where
  -- `Pipe::write`: `expect("Pipe is full")` panics.
  unfoldable pub write : List ℕ → a.Queue → Exec a.Queue
  write [] q = ok q
  write (b ∷ bs) q = do q' ← expect (a.push q b); write bs q'

  -- `Pipe::read` of `size` bytes. While it waits, interrupts write to the pipe: the first list of
  -- `arrivals` is what they write before the next call of `pop`. The loop goes on as long as `pop`
  -- finds nothing, so a run is over, unfinished, when the arrivals are used up.
  unfoldable pub read : List (List ℕ) → ℕ → a.Queue → Exec (Got a)
  read arrivals zero q = ok (record { bytes = []; queue = q; arrivals = arrivals })
  read [] (suc size) q = out_of_fuel
  read (bs ∷ arrivals) (suc size) q = do
    q' ← write bs q
    elim (a.pop q') [
      | none ↦ read arrivals (suc size) q'
      | some (c, q'') ↦ do got ← read arrivals size q''; ok (record got { bytes = c ∷ got.bytes })
    ]
