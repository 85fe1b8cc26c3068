-- ===== src/Spawn/Image.antt =====
-- The headers of a program as they lie in memory: kernel/src/elf.rs, where both structures are packed,
-- and the beginning of `add_user_process`, which reads them at their addresses.
use bayos.Base.{
  ℕ, zero, suc, ◌+◌, ◌*◌, ◌%◌, ◌^◌, ◌<◌, ◌≡◌, refl, ap, ◌∙◌, some, List, [], ◌∷◌, arith, get_elem?,
  All, length, Exec,
}
use bayos.Base.Words.{Memory, word, byte_of}
use bayos.Paging.{Mapper, MapResult}
use bayos.Sched.{SpinLock}
use bayos.Spawn.{Header, Program, Selectors, Kernel, add_user_process}

abbrev half : Memory → ℕ → ℕ
half mem a = mem a + mem (a + 1) * 2 ^ 8

abbrev double_word : Memory → ℕ → ℕ
double_word mem a = mem a + mem (a + 1) * 2 ^ 8 + mem (a + 2) * 2 ^ 16 + mem (a + 3) * 2 ^ 24

-- `*elf_header`
unfoldable pub read_header : Memory → ℕ → Header
read_header mem a = record {
  e_type = half mem (a + 16);
  e_machine = half mem (a + 18);
  e_version = double_word mem (a + 20);
  e_entry = word mem (a + 24);
  e_phoff = word mem (a + 32);
  e_shoff = word mem (a + 40);
  e_flags = double_word mem (a + 48);
  e_ehsize = half mem (a + 52);
  e_phentsize = half mem (a + 54);
  e_phnum = half mem (a + 56);
  e_shentsize = half mem (a + 58);
  e_shnum = half mem (a + 60);
  e_shstrndx = half mem (a + 62);
}

unfoldable pub read_program : Memory → ℕ → Program
read_program mem a = record {
  p_type = double_word mem a;
  p_flags = double_word mem (a + 4);
  p_offset = word mem (a + 8);
  p_vaddr = word mem (a + 16);
  p_paddr = word mem (a + 24);
  p_filesz = word mem (a + 32);
  p_memsz = word mem (a + 40);
  p_align = word mem (a + 48);
}

-- `from_raw_parts_mut`: `n` program headers, one after the other.
unfoldable pub read_programs : (n : ℕ) → Memory → ℕ → List Program
read_programs zero mem a = []
read_programs (suc n) mem a = read_program mem a ∷ read_programs n mem (a + 56)

-- `add_user_process`, with the headers read from the image at `efi`, all of them before the first
-- segment is copied: the segments are taken not to be copied over the program headers.
unfoldable pub load_image :
    (k : SpinLock) (m : Mapper) (g : Selectors) (efi flags mapper : ℕ)
    → Kernel k m
    → Exec (MapResult (Kernel k m))
load_image k m g efi flags mapper s =
    let elf_header = read_header s.mem efi in
    let elf_programs =
      read_programs elf_header.e_phnum s.mem ((efi + elf_header.e_phoff) % 2 ^ 64) in
    add_user_process k m g efi elf_header elf_programs flags mapper s

-- The bytes of a number, the lowest first.
abbrev bytes2 : ℕ → List ℕ → List ℕ
bytes2 v rest = byte_of v 0 ∷ byte_of v 1 ∷ rest

abbrev bytes4 : ℕ → List ℕ → List ℕ
bytes4 v rest = byte_of v 0 ∷ byte_of v 1 ∷ byte_of v 2 ∷ byte_of v 3 ∷ rest

abbrev bytes8 : ℕ → List ℕ → List ℕ
bytes8 v rest =
    byte_of v 0
    ∷ byte_of v 1
    ∷ byte_of v 2
    ∷ byte_of v 3
    ∷ byte_of v 4
    ∷ byte_of v 5
    ∷ byte_of v 6
    ∷ byte_of v 7
    ∷ rest

-- A program header as a file has it, and the part of the header behind its 16 bytes of identification.
abbrev pub program_bytes : Program → List ℕ → List ℕ
program_bytes p rest = bytes4 p.p_type (
    bytes4 p.p_flags (
      bytes8 p.p_offset (
        bytes8 p.p_vaddr
          (bytes8 p.p_paddr (bytes8 p.p_filesz (bytes8 p.p_memsz (bytes8 p.p_align (rest))))))))

abbrev pub header_bytes : Header → List ℕ → List ℕ
header_bytes h rest = bytes2 h.e_type (
    bytes2 h.e_machine (
      bytes4 h.e_version (
        bytes8 h.e_entry (
          bytes8 h.e_phoff (
            bytes8 h.e_shoff (
              bytes4 h.e_flags (
                bytes2 h.e_ehsize (
                  bytes2 h.e_phentsize (
                    bytes2 h.e_phnum (
                      bytes2 h.e_shentsize (bytes2 h.e_shnum (bytes2 h.e_shstrndx (rest)))))))))))))

abbrev pub programs_bytes : List Program → List ℕ
programs_bytes [] = []
programs_bytes (p ∷ ps) = program_bytes p (programs_bytes ps)

-- The bytes lie from the address `a + k` on.
pub record Holds (mem : Memory) (a k : ℕ) (bytes : List ℕ) : Type 0 where
  pub byte_at : (i b : ℕ) → get_elem? bytes i ≡ some b → mem (a + k + i) ≡ b

first : (mem : Memory) (a b : ℕ) → mem (a + 0) ≡ b → mem a ≡ b
first mem a b h = ap mem (omega arith) ∙ h

take2 :
    (mem : Memory) (a k v : ℕ) (rest : List ℕ)
    → v < 2 ^ 16
    → Holds mem a k (bytes2 v rest)
    → (half mem (a + k) ≡ v) × Holds mem a (k + 2) rest
take2 mem a k v rest small h = (
  omega (arith, first mem (a + k) _ (h.byte_at 0 _ refl), h.byte_at 1 _ refl),
  record { byte_at = λ i b e. ap mem (omega arith) ∙ h.byte_at (suc (suc i)) b e },
)

take4 :
    (mem : Memory) (a k v : ℕ) (rest : List ℕ)
    → v < 2 ^ 32
    → Holds mem a k (bytes4 v rest)
    → (double_word mem (a + k) ≡ v) × Holds mem a (k + 4) rest
take4 mem a k v rest small h = (
  omega (
    arith,
    first mem (a + k) _ (h.byte_at 0 _ refl),
    h.byte_at 1 _ refl,
    h.byte_at 2 _ refl,
    h.byte_at 3 _ refl,
  ),
  record { byte_at = λ i b e. ap mem (omega arith) ∙ h.byte_at (suc (suc (suc (suc i)))) b e },
)

take8 :
    (mem : Memory) (a k v : ℕ) (rest : List ℕ)
    → v < 2 ^ 64
    → Holds mem a k (bytes8 v rest)
    → (word mem (a + k) ≡ v) × Holds mem a (k + 8) rest
take8 mem a k v rest small h = (
  omega (
    arith,
    first mem (a + k) _ (h.byte_at 0 _ refl),
    h.byte_at 1 _ refl,
    h.byte_at 2 _ refl,
    h.byte_at 3 _ refl,
    h.byte_at 4 _ refl,
    h.byte_at 5 _ refl,
    h.byte_at 6 _ refl,
    h.byte_at 7 _ refl,
  ),
  record {
    byte_at = λ i b e.
        ap mem (omega arith) ∙ h.byte_at (suc (suc (suc (suc (suc (suc (suc (suc i)))))))) b e;
  },
)

-- The fields fit their types.
pub record FitsProgram (p : Program) : Type 0 where
  pub p_type : p.p_type < 2 ^ 32
  pub p_flags : p.p_flags < 2 ^ 32
  pub p_offset : p.p_offset < 2 ^ 64
  pub p_vaddr : p.p_vaddr < 2 ^ 64
  pub p_paddr : p.p_paddr < 2 ^ 64
  pub p_filesz : p.p_filesz < 2 ^ 64
  pub p_memsz : p.p_memsz < 2 ^ 64
  pub p_align : p.p_align < 2 ^ 64

-- The fields fit their types.
pub record FitsHeader (h : Header) : Type 0 where
  pub e_type : h.e_type < 2 ^ 16
  pub e_machine : h.e_machine < 2 ^ 16
  pub e_version : h.e_version < 2 ^ 32
  pub e_entry : h.e_entry < 2 ^ 64
  pub e_phoff : h.e_phoff < 2 ^ 64
  pub e_shoff : h.e_shoff < 2 ^ 64
  pub e_flags : h.e_flags < 2 ^ 32
  pub e_ehsize : h.e_ehsize < 2 ^ 16
  pub e_phentsize : h.e_phentsize < 2 ^ 16
  pub e_phnum : h.e_phnum < 2 ^ 16
  pub e_shentsize : h.e_shentsize < 2 ^ 16
  pub e_shnum : h.e_shnum < 2 ^ 16
  pub e_shstrndx : h.e_shstrndx < 2 ^ 16

read_program_lem :
    (mem : Memory) (a : ℕ) (p : Program) (rest : List ℕ)
    → FitsProgram p
    → Holds mem a 0 (program_bytes p rest)
    → (read_program mem a ≡ p) × Holds mem a 56 rest
unfolding read_program
read_program_lem mem a p rest fits h0 =
    let (e1, h1) = take4 mem a 0 p.p_type _ fits.p_type h0 in
    let (e2, h2) = take4 mem a 4 p.p_flags _ fits.p_flags h1 in
    let (e3, h3) = take8 mem a 8 p.p_offset _ fits.p_offset h2 in
    let (e4, h4) = take8 mem a 16 p.p_vaddr _ fits.p_vaddr h3 in
    let (e5, h5) = take8 mem a 24 p.p_paddr _ fits.p_paddr h4 in
    let (e6, h6) = take8 mem a 32 p.p_filesz _ fits.p_filesz h5 in
    let (e7, h7) = take8 mem a 40 p.p_memsz _ fits.p_memsz h6 in
    let (e8, h8) = take8 mem a 48 p.p_align _ fits.p_align h7 in
    let z : double_word mem a ≡ double_word mem (a + 0) = ap (double_word mem) (omega arith) in
    (cc, h8)

read_header_lem :
    (mem : Memory) (a : ℕ) (h : Header) (rest : List ℕ)
    → FitsHeader h
    → Holds mem a 16 (header_bytes h rest)
    → read_header mem a ≡ h
unfolding read_header
read_header_lem mem a h rest fits h0 =
    let (e1, h1) = take2 mem a 16 h.e_type _ fits.e_type h0 in
    let (e2, h2) = take2 mem a 18 h.e_machine _ fits.e_machine h1 in
    let (e3, h3) = take4 mem a 20 h.e_version _ fits.e_version h2 in
    let (e4, h4) = take8 mem a 24 h.e_entry _ fits.e_entry h3 in
    let (e5, h5) = take8 mem a 32 h.e_phoff _ fits.e_phoff h4 in
    let (e6, h6) = take8 mem a 40 h.e_shoff _ fits.e_shoff h5 in
    let (e7, h7) = take4 mem a 48 h.e_flags _ fits.e_flags h6 in
    let (e8, h8) = take2 mem a 52 h.e_ehsize _ fits.e_ehsize h7 in
    let (e9, h9) = take2 mem a 54 h.e_phentsize _ fits.e_phentsize h8 in
    let (e10, h10) = take2 mem a 56 h.e_phnum _ fits.e_phnum h9 in
    let (e11, h11) = take2 mem a 58 h.e_shentsize _ fits.e_shentsize h10 in
    let (e12, h12) = take2 mem a 60 h.e_shnum _ fits.e_shnum h11 in
    let (e13, h13) = take2 mem a 62 h.e_shstrndx _ fits.e_shstrndx h12 in cc

pub from_there :
    (mem : Memory) (a k : ℕ) (bytes : List ℕ) → Holds mem a k bytes → Holds mem (a + k) 0 bytes
from_there mem a k bytes h = record { byte_at = λ i b e. ap mem (omega arith) ∙ h.byte_at i b e }

read_programs_lem :
    (mem : Memory) (a : ℕ) (ps : List Program)
    → All FitsProgram ps
    → Holds mem a 0 (programs_bytes ps)
    → read_programs (length ps) mem a ≡ ps
unfolding read_programs
read_programs_lem mem a [] fits h = refl
read_programs_lem mem a (p ∷ ps) fits h =
    let (one, rest) = read_program_lem mem a p (programs_bytes ps) fits.0 h in
    let more =
      read_programs_lem mem (a + 56) ps fits.1 (from_there mem a 56 (programs_bytes ps) rest) in
    cc

-- The image of a program: its header stands behind the identification, and the program headers, as
-- many as it says, where it says.
pub record IsImage (mem : Memory) (efi : ℕ) (h : Header) (ps : List Program) : Type 0 where
  pub header_fits : FitsHeader h
  pub programs_fit : All FitsProgram ps
  pub count : h.e_phnum ≡ length ps
  pub room : efi + h.e_phoff < 2 ^ 64
  pub rest : List ℕ
  pub header : Holds mem efi 16 (header_bytes h rest)
  pub programs : Holds mem (efi + h.e_phoff) 0 (programs_bytes ps)

-- From the bytes of an image whose program headers begin below 2 ^ 64, the headers are read as they were written, if
-- their fields fit their types, and the process is loaded by them.
pub load_image_lem :
    (k : SpinLock) (m : Mapper) (g : Selectors) (efi flags mapper : ℕ) (h : Header)
    (ps : List Program) (s : Kernel k m)
    → IsImage s.mem efi h ps
    → load_image k m g efi flags mapper s ≡ add_user_process k m g efi h ps flags mapper s
unfolding load_image
load_image_lem k m g efi flags mapper h ps s image =
    let head = read_header_lem s.mem efi h image.rest image.header_fits image.header in
    let start : (efi + h.e_phoff) % 2 ^ 64 ≡ efi + h.e_phoff = omega (arith, image.room) in
    let body = read_programs_lem s.mem (efi + h.e_phoff) ps image.programs_fit image.programs in
    rw (load_image, head, image.count, start, body)
