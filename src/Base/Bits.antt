-- ===== src/Base/Bits.antt =====
-- Laws of `bit_and` at a mask whose low bits are clear, as in `addr & !(align - 1)`.
use Prim.Native.Nat.{
  ℕ, zero, suc, ◌+◌, ◌*◌, ◌/◌, ◌%◌, ◌^◌, ◌≤◌, ◌<◌, min, bit_and, digits, bit_and-bitwise,
}
use mathlib.Core.Path.{◌≡◌, refl, sym, subst, ap, ◌∙◌}
use native.Mathlib.Nat.{pow-suc, one-le-pow}
use native.Mathlib.Omega.{arith}

-- The recursion that `bit_and` stands for, with `n` digits to go.
abbrev and_loop : ℕ → ℕ → ℕ → ℕ
and_loop n a b = digits (λ b'. zero) min n a b

-- `r` is the greatest multiple of `2 ^ k` that is at most `a`.
pub record RoundsDown (k a r : ℕ) : Type 0 where
  pub factor : ℕ
  pub multiple : r ≡ factor * 2 ^ k
  pub below : r ≤ a
  pub close : a < r + 2 ^ k

-- Every digit of a number of `w` digits is kept by `w` ones.
and_loop-ones : (w n a m : ℕ) → m + 1 ≡ 2 ^ w → a ≤ n → a < 2 ^ w → and_loop n a m ≡ a
and_loop-ones w zero zero m e h lt = refl
and_loop-ones w zero (suc a) m e h lt = absurd (omega arith)
and_loop-ones w (suc n) zero m e h lt = refl
and_loop-ones zero (suc n) (suc a) m e h lt = absurd (omega arith)
and_loop-ones (suc w) (suc n) (suc a) m e h lt =
    let p : 2 ^ suc w ≡ 2 ^ w * 2 = pow-suc 2 w in
    let rest : and_loop n (suc a / 2) (m / 2) ≡ suc a / 2 =
      and_loop-ones w n (suc a / 2) (m / 2) (omega arith) (omega arith) (omega arith) in
    omega arith

-- `w` ones above `k` zeros keep all but the lowest `k` digits.
and_loop-mask :
    (k w n a m : ℕ)
    → m + 2 ^ k ≡ 2 ^ w * 2 ^ k
    → a ≤ n
    → a < 2 ^ w * 2 ^ k
    → RoundsDown k a (and_loop n a m)
and_loop-mask zero w n a m e h lt =
    let same : and_loop n a m ≡ a = and_loop-ones w n a m (omega arith) h (omega arith) in
    record {
      factor = and_loop n a m;
      multiple = omega arith;
      below = omega arith;
      close = omega arith;
    }
and_loop-mask (suc k) w zero a m e h lt = record {
  factor = 0;
  multiple = omega arith;
  below = omega arith;
  close = omega (arith, one-le-pow (suc k) 2);
}
and_loop-mask (suc k) w (suc n) zero m e h lt = record {
  factor = 0;
  multiple = omega arith;
  below = omega arith;
  close = omega (arith, one-le-pow (suc k) 2);
}
and_loop-mask (suc k) w (suc n) (suc a) m e h lt =
    let p : 2 ^ suc k ≡ 2 ^ k * 2 = pow-suc 2 k in
    let q : 2 ^ w * 2 ^ suc k ≡ 2 ^ w * 2 ^ k * 2 = omega (arith, ap (λ (t : ℕ). 2 ^ w * t) p) in
    let even : m % 2 ≡ 0 = omega arith in
    let rest = and_loop-mask k w n (suc a / 2) (m / 2) (omega arith) (omega arith) (omega arith) in
    record {
      factor = rest.factor;
      multiple = omega (arith, rest.multiple, ap (λ (t : ℕ). rest.factor * t) p);
      below = omega (arith, rest.below);
      close = omega (arith, rest.close);
    }

-- The mask `m` is the complement of `2 ^ k - 1` in words of `w + k` bits.
pub bit_and-mask :
    (k w a m : ℕ) → m + 2 ^ k ≡ 2 ^ w * 2 ^ k → a < 2 ^ w * 2 ^ k → RoundsDown k a (bit_and a m)
bit_and-mask k w a m e lt =
    subst (RoundsDown k a) (sym (bit_and-bitwise a m)) (and_loop-mask k w a a m e (omega arith) lt)

pub pow_add : (w k : ℕ) → 2 ^ (w + k) ≡ 2 ^ w * 2 ^ k
pow_add w zero =
    let same : 2 ^ (w + 0) ≡ 2 ^ w = ap (λ t. 2 ^ t) (omega arith) in omega (arith, same)
pow_add w (suc k) =
    let next : 2 ^ (w + suc k) ≡ 2 ^ (w + k) * 2 =
      ap (λ t. 2 ^ t) (omega arith) ∙ pow-suc 2 (w + k) in
    omega (arith, next, pow_add w k, ap (λ (t : ℕ). 2 ^ w * t) (pow-suc 2 k))
