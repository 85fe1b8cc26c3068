-- ===== src/Spawn/Segment.antt =====
-- The bytes of a segment: those of the file, then zeros, and nothing else.
use bayos.Base.{ℕ, ◌+◌, ◌-◌, ◌%◌, ◌^◌, ◌≤◌, ◌<◌, ◌≡◌, ap, ◌⊎◌, arith}
use bayos.Base.Words.{Memory}
use bayos.Spawn.{Program, zero_bytes, copy_bytes, fill_segment}

-- What `fill_segment` leaves in memory.
pub record IsFilled (efi : ℕ) (p : Program) (mem mem' : Memory) : Type 0 where
  pub from_file :
      (i : ℕ) → i < p.p_filesz → i < p.p_memsz → mem' (p.p_vaddr + i) ≡ mem (efi + p.p_offset + i)
  pub zeros : (i : ℕ) → p.p_filesz ≤ i → i < p.p_memsz → mem' (p.p_vaddr + i) ≡ 0
  pub others : (a : ℕ) → (a < p.p_vaddr) ⊎ (p.p_vaddr + p.p_memsz ≤ a) → mem' a ≡ mem a

-- For a segment whose start in the image and whose end of file bytes in memory lie below 2 ^ 64:
-- byte by byte its memory is that of the file, as far as both go, and zero behind the file's bytes;
-- the rest of memory is as it was.
pub fill_segment-IsFilled :
    (efi : ℕ) (p : Program) (mem : Memory)
    → efi + p.p_offset < 2 ^ 64
    → p.p_vaddr + p.p_filesz < 2 ^ 64
    → IsFilled efi p mem (fill_segment efi p mem)
unfolding fill_segment zero_bytes copy_bytes
fill_segment-IsFilled efi p mem image room = record {
  from_file = λ i in_file in_memory. source i in_file in_memory;
  zeros = λ i past in_memory. ground arith;
  others = λ a outside. ground arith;
}
  where
    source :
        (i : ℕ)
        → i < p.p_filesz
        → i < p.p_memsz
        → fill_segment efi p mem (p.p_vaddr + i) ≡ mem (efi + p.p_offset + i)
    source i in_file in_memory =
        let place : (efi + p.p_offset) % 2 ^ 64 + (p.p_vaddr + i - p.p_vaddr)
            ≡ efi + p.p_offset + i =
          omega arith in
        let copied = ap mem place in ground (arith, copied)
