-- ===== src/Apic/Tests.antt =====
-- A platform with one I/O APIC of 24 lines, and what its devices answer.
use bayos.Apic.{ApicInfo, IoApic, Apic, init_apic}
use bayos.Apic.Entries.{IsIoApic}
use bayos.Apic.Registers.{IsConfigured, init_apic_lem}
use bayos.Base.{
  ℕ, ◌+◌, ◌*◌, ◌^◌, ◌≡◌, refl, none, some, List, [], ◌∷◌, arith, ◌==◌, if◌then◌else◌, ok,
}
use bayos.Vfs.Tests.{bounded}

-- The version register tells of 24 entries, the last of which has the number 23.
abbrev lines : ℕ → ℕ
lines n = if n == 1 then 23 * 2 ^ 16 + 0x20 else 0

abbrev pub io_apic : IoApic
io_apic = record { address = 0xfec0_0000; global_system_interrupt_base = 0; registers = lines }

pub io_apic-IsIoApic : IsIoApic (2 ^ 40) io_apic
io_apic-IsIoApic = record {
  mapped = omega arith;
  room = omega arith;
  small = omega arith;
  entries = omega arith;
}

abbrev pub platform : ApicInfo
platform = record { local_apic_address = 0xfee0_0000; io_apics = io_apic ∷ [] }

abbrev pub hardware : ℕ → ℕ
hardware n = if n == 8 then 3 * 2 ^ 24 else 0

init_apic_lem_example :
    (s' : Apic bounded) × (ios' : List IoApic) × (init_apic bounded
        (some platform)
        (2 ^ 40)
        hardware
        (0x3 ∷ 0x1 ∷ 0 ∷ 0x21 ∷ [])
        1000
        (record { ports = []; lapic = none; pipe = none })
      ≡ ok (s', ios'))
    × IsConfigured bounded 1000 hardware (io_apic ∷ []) ios' s'
init_apic_lem_example =
    init_apic_lem bounded platform (2 ^ 40) hardware 0x3 0x1 (0 ∷ 0x21 ∷ []) 1000 1 0x21 []
      (omega arith) (omega arith) (io_apic-IsIoApic, tt) (omega arith) refl refl
