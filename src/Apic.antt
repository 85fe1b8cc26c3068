-- ===== src/Apic.antt =====
-- The set-up of the interrupt controllers: `init_apic` and `send_eoi` of kernel/src/int.rs.
--
-- The devices are what the code reads and writes: the ports as the list of writes to them, last first,
-- the local APIC's registers by their index in the array of words, and the registers of an I/O APIC by
-- the number that `ioregsel` selects. What the devices answer is an argument: the values that reads of
-- port 0x61 give, in order, and the timer's count when it is read. Bits are set and cleared by
-- arithmetic. Interrupts are off until all this is done, so the lock of the registers is free.
--
-- Not code of the kernel: the queue of Vfs, and what the crate acpi found out about the platform.
pub mod Entries
pub mod Registers
pub mod Tests
use bayos.Base.{
  ℕ, zero, suc, ◌+◌, ◌-◌, ◌*◌, ◌/◌, ◌%◌, ◌^◌, ◌≡◌, Bool, true, false, Option, none, some, List, [],
  ◌∷◌, ◌==◌, if◌then◌else◌, Exec, ok, panic, out_of_fuel, ◌>>=◌, ◌>>◌, expect, assert,
}
use bayos.Machine.{store}
use bayos.Memory.Virtual.{get_virtual_address}
use bayos.Vfs.{ArrayQueue}

-- `InterruptIndex`, and its two conversions.
pub data InterruptIndex : Type 0 where
  timer keyboard lapic_error spurious : InterruptIndex

abbrev pub as_u8 : InterruptIndex → ℕ
as_u8 timer = 32
as_u8 keyboard = 33
as_u8 lapic_error = 34
as_u8 spurious = 0xff

abbrev pub as_u32 : InterruptIndex → ℕ
as_u32 i = as_u8 i

abbrev pub with_bit : ℕ → ℕ → ℕ
with_bit n x = if x / 2 ^ n % 2 == 1 then x else x + 2 ^ n

abbrev pub without_bit : ℕ → ℕ → ℕ
without_bit n x = if x / 2 ^ n % 2 == 1 then x - 2 ^ n else x

-- An I/O APIC of the platform, with the registers of the device.
pub record IoApic : Type 0 where
  pub address : ℕ
  pub global_system_interrupt_base : ℕ
  pub registers : ℕ → ℕ

-- `InterruptModel::Apic`
pub record ApicInfo : Type 0 where
  pub local_apic_address : ℕ
  pub io_apics : List IoApic

-- The ports, the registers behind `LAPIC` (`none` before it is set), and `INPUT_PIPE`.
pub record Apic (a : ArrayQueue) : Type 0 where
  pub ports : List (ℕ × ℕ)
  pub lapic : Option (ℕ → ℕ)
  pub pipe : Option a.Queue

abbrev pub out : ℕ → ℕ → List (ℕ × ℕ) → List (ℕ × ℕ)
out port value ports = (port, value) ∷ ports

-- The legacy controllers are moved out of the way, and all their lines are masked.
unfoldable pub disable_pic : List (ℕ × ℕ) → List (ℕ × ℕ)
disable_pic ports =
    let started = out 0xa0 0x11 (out 0x20 0x11 ports) in
    let moved = out 0xa1 0xf0 (out 0x21 0xf8 started) in
    let wired = out 0xa1 0x2 (out 0x21 0x4 moved) in
    let mode = out 0xa1 0x1 (out 0x21 0x1 wired) in out 0xa1 0xff (out 0x21 0xff mode)

-- The registers up to the one that divides the timer's clock.
unfoldable pub init_lapic : (ℕ → ℕ) → ℕ → ℕ
init_lapic r0 =
    let r1 = store r0 56 0xffff_ffff in
    let r2 = store r1 52 (with_bit 0 (r1 52 % 2 ^ 24)) in
    let r3 = store r2 200 0x10000 in
    let r4 = store r3 208 (4 * 2 ^ 8 + 2 ^ 16) in
    let r5 = store r4 212 0x10000 in
    let r6 = store r5 216 0x10000 in
    let r7 = store r6 32 0 in
    let r8 = store r7 220 (as_u32 lapic_error + 0x100) in
    let r9 = store r8 60 (with_bit 8 (as_u32 spurious)) in
    let r10 = store r9 200 (as_u32 timer) in store r10 248 3

-- One read of port 0x61.
abbrev pub read_pit : List ℕ → Exec (ℕ × List ℕ)
read_pit [] = out_of_fuel
read_pit (v ∷ pit) = ok (v, pit)

-- `while unsafe { pit_61.read() } & 0x20 == 0 {}`
unfoldable pub wait_pit : List ℕ → Exec (List ℕ)
wait_pit [] = out_of_fuel
wait_pit (v ∷ pit) = elim (v / 2 ^ 5 % 2 == 0) [ true ↦ wait_pit pit | false ↦ ok pit ]

-- The timer is measured against the other timer, for as long as that one runs, and then set to the
-- ticks that it counted; `count` is what `lapic[228]` gives. The read of port 0x60, for a delay, is left
-- out.
unfoldable pub set_up_timer :
    (pit : List ℕ) (count : ℕ) → List (ℕ × ℕ) → (ℕ → ℕ) → Exec (List (ℕ × ℕ) × (ℕ → ℕ))
set_up_timer pit count ports r = do
  (val, pit1) ← read_pit pit
  let ports1 =
      out 0x42 0x2e
        (out 0x42 0x9b (out 0x43 0b10110010 (out 0x61 (with_bit 0 (without_bit 1 val)) ports)))
  let r1 = store r 200 (with_bit 16 (r 200))
  let r2 = store r1 224 0xffff_ffff
  (again, pit2) ← read_pit pit1
  let stopped = without_bit 0 again
  let ports2 = out 0x61 (with_bit 0 stopped) (out 0x61 stopped ports1)
  pit3 ← wait_pit pit2
  let r3 = store r2 200 0x10000
  let ticks_in_10ms = 0xffff_ffff - count
  let r4 = store r3 200 (as_u32 timer + 0x20000)
  let r5 = store r4 248 3
  ok (ports2, store r5 224 ticks_in_10ms)

-- `for i in first..first + n`: both words of a redirection entry.
unfoldable pub mask_irqs : (n first : ℕ) → (ℕ → ℕ) → ℕ → ℕ
mask_irqs zero i r = r
mask_irqs (suc n) i r =
    mask_irqs n (i + 1) (store (store r (0x10 + i * 2) (2 ^ 16)) (0x11 + i * 2) 0)

-- One round of the loop over the I/O APICs. The difference is one of `u32`, so that 0 gives a number
-- that `try_into` refuses.
unfoldable pub init_io_apic : (phys_offset local_apic_id : ℕ) → IoApic → Exec IoApic
init_io_apic phys_offset local_apic_id io = do
  ioregsel ← expect (get_virtual_address phys_offset io.address)
  ioregwin ← expect (get_virtual_address phys_offset ((io.address + 16) % 2 ^ 32))
  let entries = io.registers 1 / 2 ^ 16 % 2 ^ 8
  num_of_irqs ← expect (if entries == 0 then none else some (entries - 1))
  let masked = mask_irqs num_of_irqs 0 io.registers
  let routed = store (store masked 0x12 (as_u32 keyboard)) 0x13 (local_apic_id * 2 ^ 24 % 2 ^ 32)
  ok (record io { registers = if io.global_system_interrupt_base == 0 then routed else masked })

unfoldable pub init_io_apics : (phys_offset local_apic_id : ℕ) → List IoApic → Exec (List IoApic)
init_io_apics phys_offset local_apic_id [] = ok []
init_io_apics phys_offset local_apic_id (io ∷ ios) = do
  io' ← init_io_apic phys_offset local_apic_id io
  ios' ← init_io_apics phys_offset local_apic_id ios
  ok (io' ∷ ios')

-- `LAPIC.init_once`: the registers that were set first stay.
abbrev pub mapped : Option (ℕ → ℕ) → (ℕ → ℕ) → ℕ → ℕ
mapped none hardware = hardware
mapped (some old) hardware = old

module _ (a : ArrayQueue) where
  -- `init_apic`, for the interrupt model of the platform (`none` is another one than the APIC), with
  -- the registers `hardware` that the local APIC has before.
  unfoldable pub init_apic :
      (interrupt_model : Option ApicInfo) (phys_offset : ℕ) (hardware : ℕ → ℕ) (pit : List ℕ)
      (count : ℕ)
      → Apic a
      → Exec (Apic a × List IoApic)
  init_apic interrupt_model phys_offset hardware pit count s = do
    let quiet = disable_pic s.ports
    apic ← expect interrupt_model
    local_apic_address ← expect (get_virtual_address phys_offset apic.local_apic_address)
    (ports, lapic) ← set_up_timer pit count quiet (init_lapic (mapped s.lapic hardware))
    io_apics ← init_io_apics phys_offset (lapic 8) apic.io_apics
    elim s.pipe [
      | some q ↦ panic
      | none ↦ ok (record { ports = ports; lapic = some lapic; pipe = some (a.new 128) }, io_apics)
    ]

  -- `send_eoi`
  unfoldable pub send_eoi : Apic a → Exec (Apic a)
  send_eoi s = do lapic ← expect s.lapic; ok (record s { lapic = some (store lapic 44 0) })
