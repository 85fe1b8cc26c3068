-- ===== src/Heap/Align.antt =====
-- `align_up`: the mask computation rounds up to a multiple of a power of two.
use bayos.Base.{ℕ, ◌+◌, ◌-◌, ◌*◌, ◌%◌, ◌^◌, ◌≤◌, ◌<◌, ◌≡◌, sym, subst, ap, ◌∙◌, bit_and, ◌↔◌, arith}
use bayos.Base.Bits.{RoundsDown, bit_and-mask, pow_add}
use native.Mathlib.Nat.{one-le-pow}
use native.Mathlib.Decide.{dec_le}
use bayos.Heap.{usize_mod, align_up, not_usize}

-- An alignment is a power of two below the word size.
pub record IsAlign (align : ℕ) : Type 0 where
  pub exponent : ℕ
  pub small : exponent < 64
  pub power : align ≡ 2 ^ exponent

pub record IsMultiple (align addr : ℕ) : Type 0 where
  pub factor : ℕ
  pub exact : addr ≡ factor * align

-- `r` is the least multiple of `align` that is at least `addr`.
pub record RoundsUp (align addr r : ℕ) : Type 0 where
  pub multiple : IsMultiple align r
  pub above : addr ≤ r
  pub close : r < addr + align

align_up-RoundsUp_pow :
    (k addr : ℕ) → k < 64 → addr + 2 ^ k ≤ usize_mod → RoundsUp (2 ^ k) addr (align_up addr (2 ^ k))
unfolding align_up
align_up-RoundsUp_pow k addr small fits =
    let whole : 2 ^ (64 - k) * 2 ^ k ≡ usize_mod =
      sym (pow_add (64 - k) k) ∙ ap (λ t. 2 ^ t) {y = 64} (omega arith) in
    let pos : 1 ≤ 2 ^ k = one-le-pow k 2 (omega arith) in
    let raised = (addr + 2 ^ k + usize_mod - 1) % usize_mod in
    let mask = not_usize ((2 ^ k + usize_mod - 1) % usize_mod) in
    let down : RoundsDown k raised (bit_and raised mask) =
      bit_and-mask k (64 - k) raised mask (omega arith) (omega arith) in
    record {
      multiple = record { factor = down.factor; exact = down.multiple };
      above = omega (arith, down.close);
      close = omega (arith, down.below);
    }

-- For an alignment that is a power of two, and an address so far below the top of the address space
-- that nothing wraps, `align_up` returns the least multiple of the alignment at or above the address.
pub align_up-RoundsUp :
    (align addr : ℕ)
    → IsAlign align
    → addr + align ≤ usize_mod
    → RoundsUp align addr (align_up addr align)
align_up-RoundsUp align addr is fits =
    subst (λ a. RoundsUp a addr (align_up addr a)) (sym is.power)
      (align_up-RoundsUp_pow is.exponent addr is.small (omega (arith, is.power)))

-- Two multiples that are less than one step apart are equal.
factor-le : (align f g : ℕ) → f * align < g * align + align → f ≤ g
factor-le align f g h = elim (dec_le f g) [ yes le ↦ le | no gt ↦ grind arith ]

pub RoundsUp-unique : (align addr r s : ℕ) → RoundsUp align addr r → RoundsUp align addr s → r ≡ s
RoundsUp-unique align addr r s p q =
    let f = p.multiple.factor in
    let g = q.multiple.factor in
    let le : f ≤ g =
      factor-le align f g (omega (arith, p.multiple.exact, q.multiple.exact, p.close, q.above)) in
    let ge : g ≤ f =
      factor-le align g f (omega (arith, p.multiple.exact, q.multiple.exact, q.close, p.above)) in
    p.multiple.exact ∙ ap (λ (t : ℕ). t * align) (omega arith) ∙ sym q.multiple.exact

pub IsAlign-pos : (align : ℕ) → IsAlign align → 0 < align
IsAlign-pos align is = omega (arith, is.power, one-le-pow is.exponent 2)

-- An address that is a multiple of the alignment is its own rounding, and no other address is.
pub align_up_self :
    (align addr : ℕ)
    → IsAlign align
    → addr + align ≤ usize_mod
    → (align_up addr align ≡ addr) ↔ IsMultiple align addr
align_up_self align addr is fits = (
  λ e. subst (IsMultiple align) e (align_up-RoundsUp align addr is fits).multiple,
  λ m.
      RoundsUp-unique align addr (align_up addr align) addr (align_up-RoundsUp align addr is fits)
        (record { multiple = m; above = omega arith; close = omega (arith, IsAlign-pos align is) }),
)
