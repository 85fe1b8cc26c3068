-- ===== src/Gdt/Tests.antt =====
-- A table that counts its entries, and a register with the checks of the crate.
use bayos.Base.{
  ℕ, ◌+◌, ◌-◌, ◌*◌, ◌%◌, ◌^◌, ◌≤◌, ◌<◌, ◌≡◌, refl, Option, none, some, ◌&&◌, ◌==◌, leb,
  if◌then◌else◌, arith, ok,
}
use bayos.Gdt.{
  Descriptor, entries, privilege, DescriptorTable, Registers, StarRegister, gdt, syscall_init,
}
use bayos.Gdt.Table.{IsLoaded, selectors, gdt_lem, syscall_init_lem, IsInstalled}

-- How many entries are in use, and what stands at each.
abbrev Counted : Type 0
Counted = ℕ × (ℕ → Option Descriptor)

abbrev put : ℕ → Descriptor → (ℕ → Option Descriptor) → ℕ → Option Descriptor
put n d f i = if i == n then some d else f i

abbrev append : Counted → Descriptor → Option (ℕ × Counted)
append (n, f) d =
    if leb (n + entries d) 8 then some (n * 8 + privilege d, (n + entries d, put n d f)) else none

append_room :
    (t : Counted) (d : Descriptor)
    → t.0 + entries d ≤ 8
    → (t' : Counted) × (append t d ≡ some (t.0 * 8 + privilege d, t'))
      × (t'.0 ≡ t.0 + entries d)
      × (t'.1 t.0 ≡ some d)
      × ((i : ℕ) → i < t.0 → t'.1 i ≡ t.1 i)
append_room (n, f) d room =
    ((n + entries d, put n d f), ground arith, refl, ground arith, λ i h. ground arith)

abbrev counted : DescriptorTable
counted = record {
  Table = Counted;
  new = (1, λ i. none);
  used = λ t. t.0;
  descriptor = λ t. t.1;
  append = append;
  used_new = refl;
  append_room = append_room;
}

gdt_lem_example : (t : Counted) × (gdt counted ≡ ok (t, selectors)) × (t.0 ≡ 7) × IsLoaded counted t
gdt_lem_example = gdt_lem counted

abbrev star_write : (cs_sysret ss_sysret cs_syscall ss_syscall : ℕ) → Option ℕ
star_write cs_sysret ss_sysret cs_syscall ss_syscall =
    if cs_sysret == ss_sysret + 8
      && ss_syscall == cs_syscall + 8
      && ss_sysret % 4 == 3
      && ss_syscall % 4 == 0
    then some ((ss_sysret - 8) * 2 ^ 48 + cs_syscall * 2 ^ 32)
    else none

star_write_checked :
    (cs_sysret ss_sysret cs_syscall ss_syscall : ℕ)
    → cs_sysret ≡ ss_sysret + 8
    → ss_syscall ≡ cs_syscall + 8
    → ss_sysret % 4 ≡ 3
    → ss_syscall % 4 ≡ 0
    → 8 ≤ ss_sysret
    → star_write cs_sysret ss_sysret cs_syscall ss_syscall
      ≡ some ((ss_sysret - 8) * 2 ^ 48 + cs_syscall * 2 ^ 32)
star_write_checked c s k t e f g h room = ground (arith, e, f, g, h)

abbrev checked : StarRegister
checked = record { star_write = star_write; star_write_lem = star_write_checked }

abbrev reset : Registers ℕ
reset = record { efer = 0x500; lstar = 0; star = 0; fs_base = 0; frame_allocator = none }

syscall_init_lem_example :
    (regs' : Registers ℕ) × (syscall_init checked selectors 0x1000 5 reset ≡ ok regs')
    × IsInstalled 0x1000 5 reset regs'
syscall_init_lem_example = syscall_init_lem checked 0x1000 5 reset refl
