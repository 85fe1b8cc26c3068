-- ===== src/Base/Words.antt =====
-- Memory by the byte, and its words in little-endian order.
use Prim.Native.Nat.{ℕ, ◌+◌, ◌-◌, ◌*◌, ◌/◌, ◌%◌, ◌^◌, ◌≤◌, ◌<◌}
use mathlib.Core.Path.{◌≡◌, ap, ◌∙◌}
use mathlib.Core.Logic.{◌⊎◌, inl, inr}
use mathlib.Core.Bool.{true, ◌&&◌}
use native.Mathlib.Omega.{arith}
use bayos.Base.Tests.{ltb, leb, if◌then◌else◌}

abbrev pub Memory : Type 0
Memory = ℕ → ℕ

-- A read of 64 bits.
abbrev pub word : Memory → ℕ → ℕ
word mem a =
    mem a
    + mem (a + 1) * 2 ^ 8
    + mem (a + 2) * 2 ^ 16
    + mem (a + 3) * 2 ^ 24
    + mem (a + 4) * 2 ^ 32
    + mem (a + 5) * 2 ^ 40
    + mem (a + 6) * 2 ^ 48
    + mem (a + 7) * 2 ^ 56

-- The bytes of a value of `n` bytes.
abbrev pub byte_of : ℕ → ℕ → ℕ
byte_of v i = v / 256 ^ i % 256

-- A write of the `n` low bytes of a value.
unfoldable pub write_bytes : ℕ → Memory → ℕ → ℕ → Memory
write_bytes n mem a v b = if leb a b && ltb b (a + n) then byte_of v (b - a) else mem b

pub write_bytes-at :
    (n : ℕ) (mem : Memory) (a v i : ℕ) → i < n → write_bytes n mem a v (a + i) ≡ byte_of v i
unfolding write_bytes
write_bytes-at n mem a v i h =
    let low : leb a (a + i) ≡ true = ground arith in
    let high : ltb (a + i) (a + n) ≡ true = ground arith in
    let place : a + i - a ≡ i = omega arith in rw (low, high, place)

pub write_bytes-off :
    (n : ℕ) (mem : Memory) (a v b : ℕ) → (b < a) ⊎ (a + n ≤ b) → write_bytes n mem a v b ≡ mem b
unfolding write_bytes
write_bytes-off n mem a v b h = ground arith

-- A word that was written is read back.
pub word-write_bytes : (mem : Memory) (a v : ℕ) → v < 2 ^ 64 → word (write_bytes 8 mem a v) a ≡ v
word-write_bytes mem a v h =
    let first : write_bytes 8 mem a v a ≡ v % 256 =
      ap (write_bytes 8 mem a v) {x = a} {y = a + 0} (omega arith)
      ∙ write_bytes-at 8 mem a v 0 (omega arith)
      ∙ omega arith in
    omega (
      arith,
      first,
      write_bytes-at 8 mem a v 1 (omega arith),
      write_bytes-at 8 mem a v 2 (omega arith),
      write_bytes-at 8 mem a v 3 (omega arith),
      write_bytes-at 8 mem a v 4 (omega arith),
      write_bytes-at 8 mem a v 5 (omega arith),
      write_bytes-at 8 mem a v 6 (omega arith),
      write_bytes-at 8 mem a v 7 (omega arith),
    )

-- A write leaves a word that it does not overlap.
pub word-write_bytes_off :
    (n : ℕ) (mem : Memory) (a v b : ℕ)
    → (b + 8 ≤ a) ⊎ (a + n ≤ b)
    → word (write_bytes n mem a v) b ≡ word mem b
word-write_bytes_off n mem a v b h =
    let same0 =
      write_bytes-off n mem a v b
        (elim h [ inl below ↦ inl (omega arith) | inr above ↦ inr (omega arith) ]) in
    let same1 = write_bytes-off n mem a v (b + 1) (apart 1 (omega arith)) in
    let same2 = write_bytes-off n mem a v (b + 2) (apart 2 (omega arith)) in
    let same3 = write_bytes-off n mem a v (b + 3) (apart 3 (omega arith)) in
    let same4 = write_bytes-off n mem a v (b + 4) (apart 4 (omega arith)) in
    let same5 = write_bytes-off n mem a v (b + 5) (apart 5 (omega arith)) in
    let same6 = write_bytes-off n mem a v (b + 6) (apart 6 (omega arith)) in
    let same7 = write_bytes-off n mem a v (b + 7) (apart 7 (omega arith)) in
    omega (arith, same0, same1, same2, same3, same4, same5, same6, same7)
  where
    apart : (i : ℕ) → i < 8 → (b + i < a) ⊎ (a + n ≤ b + i)
    apart i l = elim h [ inl below ↦ inl (omega arith) | inr above ↦ inr (omega arith) ]

-- Two bytes that were written are the low half of the low half of the word there.
pub word-write_bytes_two :
    (mem : Memory) (a v : ℕ) → v < 2 ^ 16 → word (write_bytes 2 mem a v) a % 2 ^ 16 ≡ v
word-write_bytes_two mem a v h =
    let first : write_bytes 2 mem a v a ≡ v % 256 =
      ap (write_bytes 2 mem a v) {x = a} {y = a + 0} (omega arith)
      ∙ write_bytes-at 2 mem a v 0 (omega arith)
      ∙ omega arith in
    omega (arith, first, write_bytes-at 2 mem a v 1 (omega arith))

-- Where eight bytes agree, the words do.
pub word-same :
    (mem mem' : Memory) (a : ℕ)
    → ((b : ℕ) → a ≤ b → b < a + 8 → mem' b ≡ mem b)
    → word mem' a ≡ word mem a
word-same mem mem' a h = omega (
  arith,
  h a (omega arith) (omega arith),
  h (a + 1) (omega arith) (omega arith),
  h (a + 2) (omega arith) (omega arith),
  h (a + 3) (omega arith) (omega arith),
  h (a + 4) (omega arith) (omega arith),
  h (a + 5) (omega arith) (omega arith),
  h (a + 6) (omega arith) (omega arith),
  h (a + 7) (omega arith) (omega arith),
)
