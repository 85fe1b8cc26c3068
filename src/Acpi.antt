-- ===== src/Acpi.antt =====
-- What the kernel does for the crate acpi, kernel/src/acpi.rs: regions of physical memory are mapped
-- already, and everything else is left to do, which is a panic.
--
-- The calls of the crate are the constructors of `Call`; those that panic have only their names here,
-- as no argument is looked at.
use bayos.Base.{
  ℕ, ◌+◌, ◌≤◌, ◌<◌, ◌^◌, ◌≡◌, refl, ap, ◌∙◌, some, arith, Exec, ok, panic, ◌>>=◌, expect,
}
use bayos.Memory.Virtual.{get_virtual_address, get_virtual_address_lem}

-- `PhysicalMapping`
pub record PhysicalMapping : Type 0 where
  pub physical_start : ℕ
  pub virtual_start : ℕ
  pub region_length : ℕ
  pub mapped_length : ℕ

-- `map_physical_region`
unfoldable pub map_physical_region : (phys_offset physical_address size : ℕ) → Exec PhysicalMapping
map_physical_region phys_offset physical_address size = do
  virtual_start ← expect (get_virtual_address phys_offset physical_address)
  ok (record {
    physical_start = physical_address;
    virtual_start = virtual_start;
    region_length = size;
    mapped_length = size;
  })

-- The calls of `Handler` but that one.
pub data Call : Type 0 where
  unmap_physical_region read_u8 read_u16 read_u32 read_u64 write_u8 write_u16 write_u32 write_u64
        read_io_u8 read_io_u16 read_io_u32 write_io_u8 write_io_u16 write_io_u32 read_pci_u8
        read_pci_u16 read_pci_u32 write_pci_u8 write_pci_u16 write_pci_u32 nanos_since_boot stall
        sleep create_mutex acquire release :
      Call

-- What they come to: `unmap_physical_region` does nothing, and the others are `todo!()`.
unfoldable pub answer : Call → Exec (Unit {0})
answer unmap_physical_region = ok tt
answer call = panic

-- The addresses of a mapping: the byte at `i` of the region is the byte of physical memory
-- at `i` from its start, where the kernel sees it.
record IsMapped (phys_offset physical_address size : ℕ) (m : PhysicalMapping) : Type 0 where
  pub start : m.physical_start ≡ physical_address
  pub whole : size ≤ m.mapped_length
  pub seen :
      (i : ℕ)
      → i < size
      → get_virtual_address phys_offset (m.physical_start + i) ≡ some (m.virtual_start + i)

-- A region of physical memory that the kernel's offset leaves below 2 ^ 64 is given addresses without a
-- panic: those at which the offset puts its bytes. That pages are mapped there is the bootloader's part.
map_physical_region_lem :
    (phys_offset physical_address size : ℕ)
    → 0 < phys_offset
    → phys_offset + physical_address + size < 2 ^ 64
    → (m : PhysicalMapping) × (map_physical_region phys_offset physical_address size ≡ ok m)
      × IsMapped phys_offset physical_address size m
unfolding map_physical_region
map_physical_region_lem phys_offset physical_address size pos room = (
  record {
    physical_start = physical_address;
    virtual_start = phys_offset + physical_address;
    region_length = size;
    mapped_length = size;
  },
  rw (get_virtual_address_lem phys_offset physical_address pos (omega (arith, room))),
  record {
    start = refl;
    whole = omega arith;
    seen = λ i h.
        get_virtual_address_lem phys_offset (physical_address + i) pos (omega (arith, room, h))
        ∙ ap some (omega arith);
  },
)
