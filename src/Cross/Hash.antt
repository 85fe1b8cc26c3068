-- ===== src/Cross/Hash.antt =====
-- The check sum of a file does not depend on how the buffer cuts it up.
use mathlib.Core.List.{append-nil}
use bayos.Base.{
  ℕ, zero, suc, ◌≤◌, ◌<◌, ◌≡◌, refl, sym, ap, ◌∙◌, List, [], ◌∷◌, ◌++◌, arith, length, take, drop,
  take-append-drop, length-drop,
}
use bayos.Cross.{Tools, hash_loop, sha256_of}

module _ (t : Tools) where
  -- What is left after a full buffer was hashed, and why one round is enough for the rest.
  rest_hashed :
      (size fuel : ℕ) (first rest bytes : List ℕ) (h : t.Hasher)
      → first ++ rest ≡ bytes
      → ((b : ℕ) (bs : List ℕ)
          → rest ≡ b ∷ bs
          → hash_loop t size fuel rest (t.update h first) ≡ t.update (t.update h first) rest)
      → hash_loop t size fuel rest (t.update h first) ≡ t.update h bytes
  unfolding hash_loop
  rest_hashed size zero first [] bytes h whole more =
      ap (t.update h) (sym (append-nil first) ∙ whole)
  rest_hashed size (suc fuel) first [] bytes h whole more =
      ap (t.update h) (sym (append-nil first) ∙ whole)
  rest_hashed size fuel first (b ∷ bs) bytes h whole more =
      more b bs refl ∙ t.update_append h first (b ∷ bs) ∙ ap (t.update h) whole

  -- The loop gets through all bytes of the file, if it may go around as often as the file has bytes.
  hash_loop_lem :
      (size fuel : ℕ) (bytes : List ℕ) (h : t.Hasher)
      → 0 < size
      → 0 < length bytes
      → length bytes ≤ fuel
      → hash_loop t size fuel bytes h ≡ t.update h bytes
  unfolding hash_loop
  hash_loop_lem size zero bytes h pos some_bytes enough = absurd (omega arith)
  hash_loop_lem size (suc fuel) [] h pos some_bytes enough = absurd (omega arith)
  hash_loop_lem size (suc fuel) (b ∷ bs) h pos some_bytes enough =
      let left = length-drop size (b ∷ bs) in
      rest_hashed size fuel (take size (b ∷ bs)) (drop size (b ∷ bs)) (b ∷ bs) h
        (take-append-drop size (b ∷ bs))
        (λ c cs e.
          hash_loop_lem size fuel (drop size (b ∷ bs)) (t.update h (take size (b ∷ bs))) pos
            (omega (arith, ap length e)) (omega (arith, left)))

  -- The check sum of a file that is not empty is that of its bytes, hashed at once.
  pub sha256_of_lem :
      (bytes : List ℕ) → 0 < length bytes → sha256_of t bytes ≡ t.finalize (t.update t.new bytes)
  unfolding sha256_of
  sha256_of_lem bytes some_bytes =
      ap t.finalize
        (hash_loop_lem 65536 (length bytes) bytes t.new (omega arith) some_bytes (omega arith))
