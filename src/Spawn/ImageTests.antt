-- ===== src/Spawn/ImageTests.antt =====
-- The program of the other tests, with its headers in memory.
use bayos.Base.{
  ℕ, suc, ◌+◌, ◌-◌, ◌≡◌, refl, ap, ◌∙◌, Option, none, some, List, [], ◌∷◌, ◌++◌, arith, get_elem?,
  length, replicate,
}
use bayos.Base.Words.{Memory}
use bayos.Paging.Tests.{mapper}
use bayos.Sched.Tests.{flags}
use bayos.Spawn.{add_user_process}
use bayos.Spawn.Image.{
  Holds, from_there, header_bytes, programs_bytes, IsImage, load_image, load_image_lem,
}
use bayos.Spawn.Tests.{selectors, segment, header, kernel}

abbrev or_zero : Option ℕ → ℕ
or_zero none = 0
or_zero (some b) = b

-- The bytes at an address, and nothing else.
abbrev stored : ℕ → List ℕ → Memory
stored a bytes b = or_zero (get_elem? bytes (b - a))

get_elem?-append :
    (pre bytes : List ℕ) (i : ℕ) → get_elem? (pre ++ bytes) (length pre + i) ≡ get_elem? bytes i
get_elem?-append [] bytes i = ap (get_elem? bytes) (omega arith)
get_elem?-append (b ∷ pre) bytes i =
    ap (get_elem? (b ∷ (pre ++ bytes))) {x = suc (length pre) + i} {y = suc (length pre + i)}
      (omega arith)
    ∙ get_elem?-append pre bytes i

stored-Holds : (a : ℕ) (pre bytes : List ℕ) → Holds (stored a (pre ++ bytes)) a (length pre) bytes
stored-Holds a pre bytes = record {
  byte_at = λ i b e.
      ap (λ n. or_zero (get_elem? (pre ++ bytes) n)) {x = a + length pre + i - a}
        {y = length pre + i} (omega arith)
      ∙ ap or_zero (get_elem?-append pre bytes i ∙ e);
}

abbrev identification : List ℕ
identification = replicate 16 0

abbrev image : Memory
image = stored 0x10000 (identification ++ header_bytes header (programs_bytes (segment ∷ [])))

image-IsImage : IsImage image 0x10000 header (segment ∷ [])
image-IsImage = record {
  header_fits = record {
    e_type = omega arith;
    e_machine = omega arith;
    e_version = omega arith;
    e_entry = omega arith;
    e_phoff = omega arith;
    e_shoff = omega arith;
    e_flags = omega arith;
    e_ehsize = omega arith;
    e_phentsize = omega arith;
    e_phnum = omega arith;
    e_shentsize = omega arith;
    e_shnum = omega arith;
    e_shstrndx = omega arith;
  };
  programs_fit = (
    record {
      p_type = omega arith;
      p_flags = omega arith;
      p_offset = omega arith;
      p_vaddr = omega arith;
      p_paddr = omega arith;
      p_filesz = omega arith;
      p_memsz = omega arith;
      p_align = omega arith;
    },
    tt,
  );
  count = refl;
  room = omega arith;
  rest = programs_bytes (segment ∷ []);
  header =
      stored-Holds 0x10000 identification (header_bytes header (programs_bytes (segment ∷ [])));
  programs = from_there image 0x10000 64 (programs_bytes (segment ∷ [])) (
      stored-Holds 0x10000 (identification ++ header_bytes header [])
        (programs_bytes (segment ∷ [])));
}

load_image_lem_example :
    load_image flags mapper selectors 0x10000 2 0 (record kernel { mem = image })
    ≡ add_user_process flags mapper selectors 0x10000 header
        (segment ∷ [])
        2
        0
        (record kernel { mem = image })
load_image_lem_example =
    load_image_lem flags mapper selectors 0x10000 2 0 header (segment ∷ [])
      (record kernel { mem = image }) image-IsImage
