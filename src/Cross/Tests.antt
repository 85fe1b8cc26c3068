-- ===== src/Cross/Tests.antt =====
-- A hasher that keeps the first byte, archives that are their own directories, and two sources.
use Prim.Native.String.{String}
use mathlib.Core.Option.{some-injective, none-ne-some}
use mathlib.Core.List.{append_assoc}
use bayos.Base.{
  ℕ, ◌≡◌, ◌⊎◌, refl, sym, ap, Bool, true, Option, none, some, List, [], ◌∷◌, ◌++◌, ◌==◌, ltb,
  length, if◌then◌else◌, All,
}
use bayos.Cross.{
  Source, ArchiveFormat, tar_xz, tar_gz, finished, chunk, Response, Tools, done, failed, put, Disk,
  hash_loop, sha256_of, fetch, sources,
}
use bayos.Cross.Again.{IsReady, IsBuildable, fetch_lem}
use bayos.Cross.Fetch.{IsServed}
use bayos.Cross.Build.{Action, build_actions, run_all, main}
use bayos.Cross.Order.{apart, IsVerified, main-cases}

-- The check sum tells whether the first byte is 7.
abbrev summary : List ℕ → String
summary [] = "empty"
summary (b ∷ bytes) = if b == 7 then "seven" else "other"

abbrev directory : ArchiveFormat → String
directory tar_xz = "a-1"
directory tar_gz = "b-2"

abbrev toy : Tools
toy = record {
  Tree = List ℕ;
  Hasher = List ℕ;
  new = [];
  update = λ h bytes. h ++ bytes;
  finalize = summary;
  unpack = λ format bytes trees. (true, put (directory format) (some bytes) trees);
  patch = λ patch_file tree. (ltb 0 (length patch_file), patch_file ++ tree);
  update_append = append_assoc;
}

abbrev a_source : Source
a_source = record {
  name = "a";
  url = "https://a";
  sha256 = "seven";
  dir_name = "a-1";
  format = tar_xz;
}

abbrev b_source : Source
b_source = record {
  name = "b";
  url = "https://b";
  sha256 = "seven";
  dir_name = "b-2";
  format = tar_gz;
}

abbrev answer : Response
answer = record { status = 200; body = chunk (7 ∷ []) (chunk (1 ∷ 2 ∷ []) finished) }

-- A tarball is damaged, and one source has a patch.
abbrev damaged : Disk toy
damaged = record {
  files = put "a.tar.xz" (some (3 ∷ [])) (λ name. none);
  trees = λ name. none;
  patches = put "b" (some (9 ∷ [])) (λ name. none);
}

a-IsServed : IsServed toy (λ url. some answer) a_source
unfolding sha256_of hash_loop
a-IsServed = record {
  response = answer;
  answers = refl;
  success = refl;
  bytes = 7 ∷ 1 ∷ 2 ∷ [];
  complete = refl;
  valid = refl;
}

b-IsServed : IsServed toy (λ url. some answer) b_source
unfolding sha256_of hash_loop
b-IsServed = record {
  response = answer;
  answers = refl;
  success = refl;
  bytes = 7 ∷ 1 ∷ 2 ∷ [];
  complete = refl;
  valid = refl;
}

a-IsBuildable : IsBuildable toy damaged.patches a_source
a-IsBuildable = record {
  unpacks = λ bytes trees valid. (bytes, refl);
  patches = λ patch_file tree e. absurd (none-ne-some patch_file e);
}

b_patched :
    (patch_file tree : List ℕ)
    → some (9 ∷ []) ≡ some patch_file
    → (tree' : List ℕ) × (toy.patch patch_file tree ≡ (true, tree'))
b_patched patch_file tree e =
    let same = some-injective (9 ∷ []) patch_file e in
    (patch_file ++ tree, ap (λ l. (ltb 0 (length l), patch_file ++ tree)) (sym same))

b-IsBuildable : IsBuildable toy damaged.patches b_source
b-IsBuildable = record { unpacks = λ bytes trees valid. (bytes, refl); patches = b_patched }

fetch_lem_example :
    (d' : Disk toy) × (fetch toy (λ url. some answer) (a_source ∷ b_source ∷ []) damaged ≡ done d')
    × All (IsReady toy damaged d') (a_source ∷ b_source ∷ [])
    × ((later : String → Option Response) → fetch toy later (a_source ∷ b_source ∷ []) d' ≡ done d')
fetch_lem_example =
    fetch_lem toy (λ url. some answer) (a_source ∷ b_source ∷ []) damaged
      ((apart "b.tar.gz" "a.tar.xz" refl, tt), (apart "b-2" "a-1" refl, tt), (tt, tt, tt))
      (a-IsServed, (b-IsServed, tt)) (a-IsBuildable, (b-IsBuildable, tt))

-- Every command succeeds, and leaves the world as it is.
abbrev succeed : Action → Disk toy × ℕ → Bool × (Disk toy × ℕ)
succeed act world = (true, world)

main-cases_example :
    ((d' : Disk toy) × All (IsVerified toy d') sources
      × (main toy succeed "/sysroot" "8" (λ url. some answer) (damaged, 0)
          ≡ run_all succeed (build_actions "/sysroot" "8") (d', 0)))
    ⊎ ((d' : Disk toy) × (main toy succeed "/sysroot" "8" (λ url. some answer) (damaged, 0)
          ≡ failed (d', 0)))
main-cases_example = main-cases toy succeed "/sysroot" "8" (λ url. some answer) damaged 0
