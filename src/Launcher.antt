-- ===== src/Launcher.antt =====
-- The program that starts the kernel in an emulator, src/main.rs.
--
-- Not code of the program, and so arguments: the lower case of a text, the paths that the build sets,
-- those of the firmware, and how the emulator ends. What is printed is not looked at. That the
-- firmware cannot be fetched or the emulator not be started is a panic, and left out.
mod Tests
use Prim.Native.String as Text
use Prim.Native.String.{String}
use text.Mathlib.Text.{◌==◌}
use text.Mathlib.TextEquality.{eq_iff}
use bayos.Base as Base
use bayos.Base.{
  ℕ, ◌≡◌, ◌≢◌, refl, Bool, true, false, ◌||◌, Option, none, some, List, [], ◌∷◌, ◌++◌,
  if◌then◌else◌, arith,
}

-- The paths of the images and of the firmware's two files.
pub record Paths : Type 0 where
  pub uefi_path : String
  pub bios_path : String
  pub code : String
  pub vars : String

-- What the argument of the command line asks for: an image, or an end with an exit code.
pub data Mode : Type 0 where
  boot : (uefi : Bool) → Mode
  exits : ℕ → Mode

-- The choice for an argument in lower case.
abbrev chosen : String → Mode
chosen s =
    if s == "uefi"
    then boot true
    else (if s == "bios"
        then boot false
        else (if s == "-h" || s == "--help" then exits 0 else exits 1))

-- `uefi`, for the first argument.
unfoldable pub mode : (to_lowercase : String → String) → Option String → Mode
mode to_lowercase none = exits 1
mode to_lowercase (some arg) = chosen (to_lowercase arg)

abbrev drive : String → List String
drive image = "-drive" ∷ Text.◌++◌ "format=raw,file=" image ∷ []

-- The arguments of the emulator.
unfoldable pub qemu_args : Paths → (uefi : Bool) → List String
qemu_args p true =
    "-monitor" ∷ "stdio" ∷ drive p.uefi_path
    ++ "-drive"
      ∷ Text.◌++◌ (Text.◌++◌ "if=pflash,format=raw,unit=0,file=" p.code) ",readonly=on"
      ∷ "-drive"
      ∷ Text.◌++◌ (Text.◌++◌ "if=pflash,format=raw,unit=1,file=" p.vars) ",snapshot=on"
      ∷ []
qemu_args p false = "-monitor" ∷ "stdio" ∷ drive p.bios_path

-- The last expression of `main`, for the exit code of the emulator, if it has one: 0x10 is success, and
-- 0x11 failure.
abbrev unwrap_or : Option ℕ → ℕ → ℕ
unwrap_or none n = n
unwrap_or (some m) n = m

unfoldable pub status_code : Option ℕ → ℕ
status_code code =
    let n = unwrap_or code 1 in if Base.◌==◌ n 0x10 then 0 else (if Base.◌==◌ n 0x11 then 1 else 2)

-- What is started, if anything, and the exit code of the program. A `;` ends the last expression of
-- `main`, so its value is dropped, and the program exits with 0.
pub record Launch : Type 0 where
  pub started : Option (List String)
  pub exit_code : ℕ

abbrev launched : Paths → (qemu : List String → Option ℕ) → Mode → Launch
launched p qemu (exits n) = record { started = none; exit_code = n }
launched p qemu (boot uefi) =
    let dropped = status_code (qemu (qemu_args p uefi)) in
    record { started = some (qemu_args p uefi); exit_code = 0 }

unfoldable pub main :
    (to_lowercase : String → String)
    → Paths
    → (qemu : List String → Option ℕ) → Option String
    → Launch
main to_lowercase p qemu arg = launched p qemu (mode to_lowercase arg)

-- Once the emulator is started, its end cannot be told from the program's exit code: it is 0, also
-- where the match on the emulator's code gives 1 or 2.
main-exit_code :
    (to_lowercase : String → String) (p : Paths) (qemu : List String → Option ℕ)
    (arg : Option String) (args : List String)
    → (main to_lowercase p qemu arg).started ≡ some args
    → (main to_lowercase p qemu arg).exit_code ≡ 0
unfolding main
main-exit_code to_lowercase p qemu arg args e = dropped (mode to_lowercase arg) e
  where
    dropped :
        (m : Mode) → (launched p qemu m).started ≡ some args → (launched p qemu m).exit_code ≡ 0
    dropped (exits n) e = cc
    dropped (boot uefi) e = refl
