-- ===== src/Cross/FailedTests.antt =====
-- The three sources, with tarballs that are told apart by their first byte, and a patch for gcc that is
-- refused.
use Prim.Native.String.{String}
use mathlib.Core.List.{append_assoc}
use mathlib.Core.Option.{none-ne-some}
use text.Mathlib.Text as Text
use text.Mathlib.TextEquality.{eq_iff}
use bayos.Base.{
  ℕ, ◌≡◌, refl, sym, ap, ◌∙◌, Bool, true, false, Option, none, some, List, [], ◌∷◌, ◌++◌, ◌==◌, ltb,
  arith, length, if◌then◌else◌,
}
use bayos.Cross.{
  Source, gcc, binutils, mlibc, finished, chunk, Response, Tools, failed, put, Disk, hash_loop,
  sha256_of,
}
use bayos.Cross.Again.{IsBuildable}
use bayos.Cross.Build.{Action, build_actions, run_all, main}
use bayos.Cross.Failed.{IsRefused, main-failed_patch}
use bayos.Cross.Fetch.{IsServed}
use bayos.Cross.Hash.{sha256_of_lem}

abbrev summary : List ℕ → String
summary [] = ""
summary (b ∷ bytes) =
    if b == 1 then gcc.sha256 else (if b == 2 then binutils.sha256 else mlibc.sha256)

abbrev directory : String → String
directory sum =
    if Text.◌==◌ sum gcc.sha256
    then gcc.dir_name
    else (if Text.◌==◌ sum binutils.sha256 then binutils.dir_name else mlibc.dir_name)

abbrev toy : Tools
toy = record {
  Tree = List ℕ;
  Hasher = List ℕ;
  new = [];
  update = λ h bytes. h ++ bytes;
  finalize = summary;
  unpack = λ format bytes trees. (true, put (directory (summary bytes)) (some bytes) trees);
  patch = λ patch_file tree. (ltb 0 (length patch_file), tree);
  update_append = append_assoc;
}

sha256_of-summary : (bytes : List ℕ) → sha256_of toy bytes ≡ summary bytes
unfolding sha256_of hash_loop
sha256_of-summary [] = refl
sha256_of-summary (b ∷ bytes) = sha256_of_lem toy (b ∷ bytes) (omega arith)

unpacks_to :
    (src : Source) (bytes : List ℕ) (trees : String → Option (List ℕ))
    → directory src.sha256 ≡ src.dir_name
    → Text.◌==◌ (sha256_of toy bytes) src.sha256 ≡ true
    → toy.unpack src.format bytes trees ≡ (true, put src.dir_name (some bytes) trees)
unpacks_to src bytes trees its valid =
    let same : summary bytes ≡ src.sha256 =
      sym (sha256_of-summary bytes) ∙ (eq_iff (sha256_of toy bytes) src.sha256).0 valid in
    ap (λ name. (true, put name (some bytes) trees)) (ap directory same ∙ its)

abbrev answer : ℕ → Response
answer n = record { status = 200; body = chunk (n ∷ []) finished }

abbrev network : String → Option Response
network =
    put gcc.url (some (answer 1)) (put binutils.url (some (answer 2)) (λ url. some (answer 3)))

abbrev fresh : Disk toy
fresh = record {
  files = λ name. none;
  trees = λ name. none;
  patches = put "gcc" (some []) (λ name. none);
}

gcc-IsServed : IsServed toy network gcc
unfolding sha256_of hash_loop
gcc-IsServed = record {
  response = answer 1;
  answers = refl;
  success = refl;
  bytes = 1 ∷ [];
  complete = refl;
  valid = refl;
}

binutils-IsServed : IsServed toy network binutils
unfolding sha256_of hash_loop
binutils-IsServed = record {
  response = answer 2;
  answers = refl;
  success = refl;
  bytes = 2 ∷ [];
  complete = refl;
  valid = refl;
}

mlibc-IsServed : IsServed toy network mlibc
unfolding sha256_of hash_loop
mlibc-IsServed = record {
  response = answer 3;
  answers = refl;
  success = refl;
  bytes = 3 ∷ [];
  complete = refl;
  valid = refl;
}

gcc-IsRefused : IsRefused toy [] fresh gcc
gcc-IsRefused = record {
  new = refl;
  unpacks = λ bytes valid. (bytes, unpacks_to gcc bytes fresh.trees refl valid);
  has_patch = refl;
  refuses = λ raw. (raw, refl);
}

binutils-IsBuildable : IsBuildable toy fresh.patches binutils
binutils-IsBuildable = record {
  unpacks = λ bytes trees valid. (bytes, unpacks_to binutils bytes trees refl valid);
  patches = λ patch_file tree e. absurd (none-ne-some patch_file e);
}

mlibc-IsBuildable : IsBuildable toy fresh.patches mlibc
mlibc-IsBuildable = record {
  unpacks = λ bytes trees valid. (bytes, unpacks_to mlibc bytes trees refl valid);
  patches = λ patch_file tree e. absurd (none-ne-some patch_file e);
}

abbrev succeed : Action → Disk toy × ℕ → Bool × (Disk toy × ℕ)
succeed act world = (true, world)

main-failed_patch_example :
    (d1 d2 : Disk toy) × (raw tree : List ℕ) × (main toy succeed "/sysroot" "8" network (fresh, 0)
      ≡ failed (d1, 0))
    × (main toy succeed "/sysroot" "8" network (d1, 0)
        ≡ run_all succeed (build_actions "/sysroot" "8") (d2, 0))
    × (toy.patch [] raw ≡ (false, tree))
    × (d2.trees "gcc-15.2.0" ≡ some tree)
main-failed_patch_example =
    main-failed_patch toy succeed "/sysroot" "8" network network fresh 0 [] gcc-IsServed
      gcc-IsRefused binutils-IsServed mlibc-IsServed binutils-IsBuildable mlibc-IsBuildable
