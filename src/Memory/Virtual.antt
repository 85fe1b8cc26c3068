-- ===== src/Memory/Virtual.antt =====
-- Physical memory as the kernel sees it: kernel/src/memory.rs maps all of it at one offset.
use bayos.Base.{ℕ, ◌+◌, ◌%◌, ◌^◌, ◌<◌, ◌≡◌, Option, none, some, ◌==◌, if◌then◌else◌, arith}

-- `NonNull::new`
abbrev pub non_null : ℕ → Option ℕ
non_null p = if p == 0 then none else some p

-- `get_virtual_address`, before its `unwrap`: the sum is that of `wrapping_add`.
unfoldable pub get_virtual_address : (phys_offset physical_address : ℕ) → Option ℕ
get_virtual_address phys_offset physical_address =
    non_null ((phys_offset + physical_address) % 2 ^ 64)

-- Two physical addresses that the offset leaves below 2 ^ 64 are seen at two addresses, as far apart
-- as they are themselves.
pub get_virtual_address_lem :
    (phys_offset physical_address : ℕ)
    → 0 < phys_offset
    → phys_offset + physical_address < 2 ^ 64
    → get_virtual_address phys_offset physical_address ≡ some (phys_offset + physical_address)
unfolding get_virtual_address
get_virtual_address_lem phys_offset physical_address pos room = ground arith
