-- ===== src/Apic/Registers.antt =====
-- `init_apic` as a whole: it ends once the other timer has run out, and what it leaves.
use bayos.Base.{
  ℕ, zero, suc, ◌+◌, ◌-◌, ◌/◌, ◌%◌, ◌^◌, ◌<◌, ◌≡◌, refl, subst, false, Option, none, some, List, [],
  ◌∷◌, All, get_elem?, ◌==◌, if◌then◌else◌, Bool-cases, inl, inr, arith, ok,
}
use bayos.Machine.{store}
use bayos.Memory.Virtual.{get_virtual_address_lem}
use bayos.Vfs.{ArrayQueue}
use bayos.Apic.{
  timer, lapic_error, spurious, as_u32, IoApic, ApicInfo, Apic, with_bit, without_bit, out,
  disable_pic, init_lapic, wait_pit, set_up_timer, init_io_apics, init_apic,
}
use bayos.Apic.Entries.{IsIoApic, IsRouted, init_io_apic_lem}

-- The wait ends at the first read that finds the timer's output high.
wait_pit_lem :
    (pit : List ℕ) (i v : ℕ)
    → get_elem? pit i ≡ some v
    → v / 2 ^ 5 % 2 ≡ 1
    → (rest : List ℕ) × (wait_pit pit ≡ ok rest)
unfolding wait_pit
wait_pit_lem [] i v here high = ground arith
wait_pit_lem (w ∷ pit) zero v here high =
    let same : w ≡ v = ground arith in
    let done : (w / 2 ^ 5 % 2 == 0) ≡ false = ground (arith, same) in (pit, rw (done, wait_pit))
wait_pit_lem (w ∷ pit) (suc i) v here high = elim (Bool-cases (w / 2 ^ 5 % 2 == 0)) [
  | inr done ↦ (pit, rw (done, wait_pit))
  | inl low ↦ let (rest, run) = wait_pit_lem pit i v here high in (rest, rw (low, wait_pit) run)
]

-- The value that a port was written last.
abbrev pub last_write : ℕ → List (ℕ × ℕ) → Option ℕ
last_write port [] = none
last_write port ((p, v) ∷ ports) = if p == port then some v else last_write port ports

-- The I/O APICs that can be reached, each after its round.
abbrev pub AllRouted : ℕ → List IoApic → List IoApic → Type 0
AllRouted id [] [] = Unit
AllRouted id [] (io' ∷ ios') = ⊥
AllRouted id (io ∷ ios) [] = ⊥
AllRouted id (io ∷ ios) (io' ∷ ios') = IsRouted id io io' × AllRouted id ios ios'

init_io_apics_lem :
    (phys_offset id : ℕ) (ios : List IoApic)
    → All (IsIoApic phys_offset) ios
    → (ios' : List IoApic) × (init_io_apics phys_offset id ios ≡ ok ios') × AllRouted id ios ios'
unfolding init_io_apics
init_io_apics_lem phys_offset id [] h = ([], refl, tt)
init_io_apics_lem phys_offset id (io ∷ ios) h =
    let (io', one, routed) = init_io_apic_lem phys_offset id io h.0 in
    let (ios', rest, all) = init_io_apics_lem phys_offset id ios h.1 in
    (io' ∷ ios', rw (one, rest), (routed, all))

-- The local APIC's registers: its timer is periodic, with the ticks that were counted, its interrupts
-- and those of errors and of the spurious line go to their vectors, and its number is as it was.
pub record IsSetUp (count : ℕ) (before lapic : ℕ → ℕ) : Type 0 where
  pub timer_vector : lapic 200 ≡ as_u32 timer + 2 ^ 17
  pub divided : lapic 248 ≡ 3
  pub ticks : lapic 224 + count ≡ 0xffff_ffff
  pub error_vector : lapic 220 ≡ as_u32 lapic_error + 2 ^ 8
  pub spurious_vector : lapic 60 ≡ as_u32 spurious + 2 ^ 8
  pub number_kept : lapic 8 ≡ before 8

-- What `set_up_timer` writes to the ports, and the registers that it leaves.
abbrev timed_ports : (v w : ℕ) → List (ℕ × ℕ) → List (ℕ × ℕ)
timed_ports v w ports = out 0x61 (with_bit 0 (without_bit 0 w)) (
    out 0x61 (without_bit 0 w) (
      out 0x42 0x2e
        (out 0x42 0x9b (out 0x43 0b10110010 (out 0x61 (with_bit 0 (without_bit 1 v)) ports)))))

abbrev timed : ℕ → (ℕ → ℕ) → ℕ → ℕ
timed count r =
    store
      (store
        (store (store (store (store r 200 (with_bit 16 (r 200))) 224 0xffff_ffff) 200 0x10000) 200
          (as_u32 timer + 0x20000))
        248 3)
      224 (0xffff_ffff - count)

set_up_timer_lem :
    (v w count : ℕ) (pit : List ℕ) (i u : ℕ) (ports : List (ℕ × ℕ)) (before : ℕ → ℕ)
    → count < 2 ^ 32
    → get_elem? pit i ≡ some u
    → u / 2 ^ 5 % 2 ≡ 1
    → (ports' : List (ℕ × ℕ)) × (lapic : ℕ → ℕ) × (set_up_timer
          (v ∷ w ∷ pit)
          count
          ports
          (init_lapic before)
        ≡ ok (ports', lapic))
      × IsSetUp count before lapic
      × (last_write 0x21 ports' ≡ last_write 0x21 ports)
      × (last_write 0xa1 ports' ≡ last_write 0xa1 ports)
unfolding set_up_timer init_lapic
set_up_timer_lem v w count pit i u ports before small here high =
    let (rest, waits) = wait_pit_lem pit i u here high in
    (
      timed_ports v w ports,
      timed count (init_lapic before),
      rw waits,
      record {
        timer_vector = refl;
        divided = refl;
        ticks = omega arith;
        error_vector = refl;
        spurious_vector = refl;
        number_kept = refl;
      },
      refl,
      refl,
    )

module _ (a : ArrayQueue) where
  -- What `init_apic` leaves.
  pub record IsConfigured (count : ℕ) (hardware : ℕ → ℕ) (ios ios' : List IoApic) (s' : Apic a)
      : Type 0 where
    pub lapic : ℕ → ℕ
    pub has_lapic : s'.lapic ≡ some lapic
    pub set_up : IsSetUp count hardware lapic
    pub routed : AllRouted (hardware 8) ios ios'
    pub pics_masked :
        (last_write 0x21 s'.ports ≡ some 0xff) × (last_write 0xa1 s'.ports ≡ some 0xff)
    pub pipe : s'.pipe ≡ some (a.new 128)

  -- On a platform with APICs that can be reached, the I/O APICs with more than one entry each, where the port shows the other timer's end sooner or
  -- later, `init_apic` ends without a panic at its first call: the old controllers are masked, the
  -- local timer is periodic with the ticks counted, the vectors are those of `InterruptIndex`, every
  -- I/O APIC is set up, and there is a pipe for input.
  pub init_apic_lem :
      (info : ApicInfo) (phys_offset : ℕ) (hardware : ℕ → ℕ) (v w : ℕ) (pit : List ℕ)
      (count i u : ℕ) (ports : List (ℕ × ℕ))
      → 0 < phys_offset
      → phys_offset + info.local_apic_address < 2 ^ 64
      → All (IsIoApic phys_offset) info.io_apics
      → count < 2 ^ 32
      → get_elem? pit i ≡ some u
      → u / 2 ^ 5 % 2 ≡ 1
      → (s' : Apic a) × (ios' : List IoApic) × (init_apic a
            (some info)
            phys_offset
            hardware
            (v ∷ w ∷ pit)
            count
            (record { ports = ports; lapic = none; pipe = none })
          ≡ ok (s', ios'))
        × IsConfigured count hardware info.io_apics ios' s'
  unfolding init_apic disable_pic
  init_apic_lem info phys_offset hardware v w pit count i u ports pos room reach small here high =
      let (ports', lapic, timing, set_up, master, slave) =
        set_up_timer_lem v w count pit i u (disable_pic ports) hardware small here high in
      let (ios', routes, routed) = init_io_apics_lem phys_offset (lapic 8) info.io_apics reach in
      (
        record { ports = ports'; lapic = some lapic; pipe = some (a.new 128) },
        ios',
        rw (get_virtual_address_lem phys_offset info.local_apic_address pos room, timing, routes),
        record {
          lapic = lapic;
          has_lapic = refl;
          set_up = set_up;
          routed = subst (λ n. AllRouted n info.io_apics ios') set_up.number_kept routed;
          pics_masked = (master, slave);
          pipe = refl;
        },
      )
