-- ===== src/Launcher/Tests.antt =====
-- An emulator that fails, started for each argument.
use bayos.Base.{◌≡◌, refl, some, false}
use bayos.Launcher.{Paths, main, mode, qemu_args, status_code}

abbrev paths : Paths
paths = record {
  uefi_path = "uefi.img";
  bios_path = "bios.img";
  code = "code.fd";
  vars = "vars.fd";
}

bios_runs :
    main (λ s. s) paths (λ args. some 0x11) (some "bios")
    ≡ record { started = some (qemu_args paths false); exit_code = 0 }
unfolding main mode status_code
bios_runs = refl

failure_code : status_code (some 0x11) ≡ 1
unfolding status_code
failure_code = refl

bios_starts :
    (main (λ s. s) paths (λ args. some 0x11) (some "bios")).started ≡ some (qemu_args paths false)
unfolding main mode status_code
bios_starts = refl
