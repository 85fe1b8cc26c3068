-- ===== src/Apic/Entries.antt =====
-- The redirection entries of an I/O APIC after its round of the loop.
use native.Mathlib.Decide.{ℕ_discrete}
use bayos.Base.{
  ℕ, zero, suc, ◌+◌, ◌-◌, ◌*◌, ◌/◌, ◌%◌, ◌^◌, ◌≤◌, ◌<◌, ◌≡◌, ◌≢◌, refl, ◌∙◌, ◌⊎◌, inl, inr, false,
  ◌==◌, if◌then◌else◌, arith, ok,
}
use bayos.Machine.{store}
use bayos.Memory.Virtual.{get_virtual_address_lem}
use bayos.Apic.{IoApic, keyboard, as_u32, mask_irqs, init_io_apic}

store-other : (r : ℕ → ℕ) (i v j : ℕ) → i ≢ j → store r i v j ≡ r j
store-other r i v j ne = ground arith

-- A register outside the entries from `first` on, `n` of them, is left.
mask_irqs-off :
    (n first : ℕ) (r : ℕ → ℕ) (j : ℕ)
    → (j < 0x10 + first * 2) ⊎ (0x10 + (first + n) * 2 ≤ j)
    → mask_irqs n first r j ≡ r j
unfolding mask_irqs
mask_irqs-off zero first r j out = refl
mask_irqs-off (suc n) first r j (inl below) =
    mask_irqs-off n (first + 1) _ j (inl (omega arith)) ∙ ground arith
mask_irqs-off (suc n) first r j (inr above) =
    mask_irqs-off n (first + 1) _ j (inr (omega arith)) ∙ ground arith

-- Every entry of the loop is masked, and sent nowhere.
mask_irqs_lem :
    (n first : ℕ) (r : ℕ → ℕ) (i : ℕ)
    → first ≤ i
    → i < first + n
    → (mask_irqs n first r (0x10 + i * 2) ≡ 2 ^ 16) × (mask_irqs n first r (0x11 + i * 2) ≡ 0)
unfolding mask_irqs
mask_irqs_lem zero first r i from to = absurd (omega arith)
mask_irqs_lem (suc n) first r i from to = elim (ℕ_discrete first i) [
  | yes here ↦ (
    mask_irqs-off n (first + 1) _ (0x10 + i * 2) (inl (omega (arith, here))) ∙ ground (arith, here),
    mask_irqs-off n (first + 1) _ (0x11 + i * 2) (inl (omega (arith, here))) ∙ ground (arith, here),
  )
  | no later ↦ mask_irqs_lem n (first + 1) _ i (omega arith) (omega arith)
]

-- The entries that the version register tells of: the number of the last one.
abbrev pub last_entry : IoApic → ℕ
last_entry io = io.registers 1 / 2 ^ 16 % 2 ^ 8

-- The device can be reached, and has more than one entry.
pub record IsIoApic (phys_offset : ℕ) (io : IoApic) : Type 0 where
  pub mapped : 0 < phys_offset
  pub room : phys_offset + io.address + 16 < 2 ^ 64
  pub small : io.address + 16 < 2 ^ 32
  pub entries : 0 < last_entry io

-- The entry of the keyboard on the first I/O APIC.
abbrev pub IsKeyboard : IoApic → ℕ → Type 0
IsKeyboard io i = (io.global_system_interrupt_base ≡ 0) × (i ≡ 1)

-- What one round leaves of an I/O APIC with as many lines as the loop counts: one less than the number
-- of the last entry.
pub record IsRouted (local_apic_id : ℕ) (io io' : IoApic) : Type 0 where
  pub same_place :
      (io'.address ≡ io.address)
      × (io'.global_system_interrupt_base ≡ io.global_system_interrupt_base)
  pub masked :
      (i : ℕ) → i + 1 < last_entry io → ¬ IsKeyboard io i → io'.registers (0x10 + i * 2) ≡ 2 ^ 16
  pub left :
      (i : ℕ)
      → last_entry io ≤ i + 1
      → ¬ IsKeyboard io i
      → io'.registers (0x10 + i * 2) ≡ io.registers (0x10 + i * 2)
  pub keyboard_vector : io.global_system_interrupt_base ≡ 0 → io'.registers 0x12 ≡ as_u32 keyboard
  pub keyboard_target :
      io.global_system_interrupt_base ≡ 0 → io'.registers 0x13 ≡ local_apic_id * 2 ^ 24 % 2 ^ 32

-- The registers after the round.
abbrev routed : ℕ → IoApic → ℕ → ℕ
routed id io =
    let masked = mask_irqs (last_entry io - 1) 0 io.registers in
    if io.global_system_interrupt_base == 0
    then store (store masked 0x12 (as_u32 keyboard)) 0x13 (id * 2 ^ 24 % 2 ^ 32)
    else masked

routed-other :
    (id : ℕ) (io : IoApic) (i : ℕ)
    → ¬ IsKeyboard io i
    → routed id io (0x10 + i * 2) ≡ mask_irqs (last_entry io - 1) 0 io.registers (0x10 + i * 2)
routed-other id io i other = elim (ℕ_discrete io.global_system_interrupt_base 0) [
  | no later ↦ ground arith
  | yes first ↦
      let ne : 0x12 ≢ 0x10 + i * 2 = λ e. other (first, omega (arith, e)) in
      let odd : 0x13 ≢ 0x10 + i * 2 = omega arith in ground arith
]

pub init_io_apic_lem :
    (phys_offset local_apic_id : ℕ) (io : IoApic)
    → IsIoApic phys_offset io
    → (io' : IoApic) × (init_io_apic phys_offset local_apic_id io ≡ ok io')
      × IsRouted local_apic_id io io'
unfolding init_io_apic
init_io_apic_lem phys_offset id io is =
    let some_entries : (last_entry io == 0) ≡ false = ground (arith, is.entries) in
    let wide : (io.address + 16) % 2 ^ 32 ≡ io.address + 16 = omega (arith, is.small) in
    (
      record io { registers = routed id io },
      rw (
        get_virtual_address_lem phys_offset io.address is.mapped (omega (arith, is.room)),
        wide,
        get_virtual_address_lem phys_offset (io.address + 16) is.mapped (omega (arith, is.room)),
        some_entries,
      ),
      record {
        same_place = (refl, refl);
        masked = λ i h other.
            routed-other id io i other
            ∙ (mask_irqs_lem (last_entry io - 1) 0 io.registers i (omega arith) (omega arith)).0;
        left = λ i h other.
            routed-other id io i other
            ∙ mask_irqs-off (last_entry io - 1) 0 io.registers (0x10 + i * 2)
                (inr (omega (arith, is.entries)));
        keyboard_vector = λ first. ground (arith, first);
        keyboard_target = λ first. ground (arith, first);
      },
    )

-- A local APIC has its number in the high byte of the register, so the shift leaves nothing of it: the
-- keyboard's line always goes to the processor with the number 0.
keyboard_target_zero :
    (phys_offset local_apic_id : ℕ) (io : IoApic)
    → IsIoApic phys_offset io
    → io.global_system_interrupt_base ≡ 0
    → local_apic_id % 2 ^ 8 ≡ 0
    → (io' : IoApic) × (init_io_apic phys_offset local_apic_id io ≡ ok io')
      × (io'.registers 0x13 ≡ 0)
keyboard_target_zero phys_offset id io is first low =
    let (io', did, routes) = init_io_apic_lem phys_offset id io is in
    (io', did, routes.keyboard_target first ∙ omega arith)
