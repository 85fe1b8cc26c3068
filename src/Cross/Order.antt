-- ===== src/Cross/Order.antt =====
-- The build starts from sources whose check sums are right, and each of its steps after what it needs.
use Prim.Native.String as Text
use Prim.Native.String.{String}
use text.Mathlib.Text.{◌==◌}
use text.Mathlib.TextEquality.{eq_iff}
use bayos.Base.{
  ℕ, ◌≡◌, ◌≢◌, ◌⊎◌, inl, inr, refl, ap, ◌∙◌, Bool, true, false, ◌&&◌, ◌||◌, not, map, Option, none,
  some, List, [], ◌∷◌, All, Option-cases,
}
use bayos.Cross.{
  Source, tarball, sources, Response, Tools, Run, done, failed, put, Disk, opened, extract_archive,
  apply_patch, get_tree, fetch,
}
use bayos.Cross.Again.{Distinct}
use bayos.Cross.Build.{Action, create_dir_all, command, build_actions, run_all, main}
use bayos.Cross.Fetch.{is_valid, HasTarball, get_tarball-Ends}

abbrev contains : List String → String → Bool
contains [] x = false
contains (y ∷ ys) x = y == x || contains ys x

abbrev is_made : List String → Option String → Bool
is_made made none = true
is_made made (some dir) = contains made dir

abbrev is_tools : Option String → Bool
is_tools none = false
is_tools (some dir) = dir == "tools"

-- Each command runs in a directory of `made` or one that was made before it, installs to such a
-- directory, and uses the tools only when some were installed.
abbrev pub is_prepared : List String → (installed : Bool) → List Action → Bool
is_prepared made installed [] = true
is_prepared made installed (create_dir_all dir ∷ acts) = is_prepared (dir ∷ made) installed acts
is_prepared made installed (command c ∷ acts) =
    contains made c.current_dir
    && is_made made c.destdir
    && (installed || not c.with_tools)
    && is_prepared made (installed || is_tools c.destdir) acts

-- The directories of the sources, in the cache.
abbrev pub source_dirs : List String
source_dirs = map (λ (src : Source). Text.◌++◌ "cache/" src.dir_name) sources

-- The build is in order, whatever the sysroot and the number of jobs: every command runs in a source
-- directory or in one that the script has made, installs to a directory that it has made, and has the
-- tools in its path only after a command that installs tools.
build_actions-prepared :
    (sysroot_dir nproc : String)
    → is_prepared source_dirs false (build_actions sysroot_dir nproc) ≡ true
unfolding build_actions
build_actions-prepared sysroot_dir nproc = refl

Pair-cases :
    {A : Type 0} (r : Bool × A) → ((a : A) × (r ≡ (true, a))) ⊎ ((a : A) × (r ≡ (false, a)))
Pair-cases (true, a) = inl (a, refl)
Pair-cases (false, a) = inr (a, refl)

module _ (t : Tools) where
  -- The tarball of the source is in the cache, with valid bytes.
  pub record IsVerified (d : Disk t) (src : Source) : Type 0 where
    pub bytes : List ℕ
    pub there : d.files (tarball src) ≡ some bytes
    pub valid : is_valid t src bytes ≡ true

  -- A result is a disk with `P`, or a panic.
  abbrev Either : (Disk t → Type 0) → Run (Disk t) (Disk t) → Type 0
  Either P r = ((d' : Disk t) × (r ≡ done d') × P d') ⊎ ((d' : Disk t) × (r ≡ failed d'))

  abbrev SameFiles : Disk t → Disk t → Type 0
  SameFiles d d' = d'.files ≡ d.files

  extract_archive-files :
      (src : Source) (d : Disk t)
      → Either (SameFiles d) (extract_archive t (tarball src) src.format d)
  unfolding extract_archive opened
  extract_archive-files src d = elim (Option-cases (d.files (tarball src))) [
    | inl missing ↦ inr (d, rw (extract_archive, opened, missing))
    | inr (bytes, there) ↦ elim (Pair-cases (t.unpack src.format bytes d.trees)) [
      | inl (trees, e) ↦
          inl (record d { trees = trees }, rw (extract_archive, opened, there, e), refl)
      | inr (trees, e) ↦ inr (record d { trees = trees }, rw (extract_archive, opened, there, e))
    ]
  ]

  apply_patch-files :
      (patch_file : List ℕ) (dir : String) (d : Disk t)
      → Either (SameFiles d) (apply_patch t patch_file dir d)
  unfolding apply_patch
  apply_patch-files patch_file dir d = elim (Option-cases (d.trees dir)) [
    | inl missing ↦ inr (d, rw (apply_patch, missing))
    | inr (tree, there) ↦ elim (Pair-cases (t.patch patch_file tree)) [
      | inl (tree', e) ↦
          inl (record d { trees = put dir (some tree') d.trees }, rw (apply_patch, there, e), refl)
      | inr (tree', e) ↦
          inr (record d { trees = put dir (some tree') d.trees }, rw (apply_patch, there, e))
    ]
  ]

  -- Unpacking and patching leave the tarballs.
  get_tree-files : (src : Source) (d : Disk t) → Either (SameFiles d) (get_tree t src d)
  unfolding get_tree
  get_tree-files src d = elim (Option-cases (d.trees src.dir_name)) [
    | inr (tree, old) ↦ inl (d, rw (get_tree, old), refl)
    | inl new ↦ elim (extract_archive-files src d) [
      | inr (d1, run) ↦ inr (d1, rw (get_tree, new, run))
      | inl (d1, run, same) ↦ elim (Option-cases (d1.patches src.name)) [
        | inl unpatched ↦ inl (d1, rw (get_tree, new, run, unpatched), same)
        | inr (patch_file, p) ↦ elim (apply_patch-files patch_file src.dir_name d1) [
          | inr (d2, run2) ↦ inr (d2, rw (get_tree, new, run, p, run2))
          | inl (d2, run2, same2) ↦ inl (d2, rw (get_tree, new, run, p, run2), same2 ∙ same)
        ]
      ]
    ]
  ]

  -- The sources are verified, and the files of other names are as they were.
  record Verified (srcs : List Source) (before after : Disk t) : Type 0 where
    all : All (IsVerified after) srcs
    other_files :
        (name : String)
        → All (λ src. tarball src ≢ name) srcs
        → after.files name ≡ before.files name

  Verified-cons :
      (src : Source) (srcs : List Source) (d d1 d2 d' : Disk t)
      → All (λ other. tarball other ≢ tarball src) srcs
      → HasTarball t src d d1
      → SameFiles d1 d2
      → Verified srcs d2 d'
      → Verified (src ∷ srcs) d d'
  Verified-cons src srcs d d1 d2 d' apart file same rest =
      let there =
        rest.other_files (tarball src) apart ∙ ap (λ f. f (tarball src)) same ∙ file.there in
      record {
        all = (record { bytes = file.bytes; there = there; valid = file.valid }, rest.all);
        other_files = λ name away.
            rest.other_files name away.1 ∙ ap (λ f. f name) same ∙ file.other_files name away.0;
      }

  fetch-cases :
      (get : String → Option Response) (srcs : List Source) (d : Disk t)
      → Distinct t srcs
      → Either (Verified srcs d) (fetch t get srcs d)
  unfolding fetch
  fetch-cases get [] d apart = inl (d, refl, record { all = tt; other_files = λ name h. refl })
  fetch-cases get (src ∷ srcs) d apart = elim (get_tarball-Ends t get src d) [
    | inr (d1, run1, same) ↦ inr (d1, rw (fetch, run1))
    | inl (d1, run1, file) ↦ elim (get_tree-files src d1) [
      | inr (d2, run2) ↦ inr (d2, rw (fetch, run1, run2))
      | inl (d2, run2, same) ↦ elim (fetch-cases get srcs d2 apart.2) [
        | inr (d', run) ↦ inr (d', rw (fetch, run1, run2) run)
        | inl (d', run, rest) ↦ inl (
          d',
          rw (fetch, run1, run2) run,
          Verified-cons src srcs d d1 d2 d' apart.0 file same rest,
        )
      ]
    ]
  ]

pub apart : (x y : String) → (x == y) ≡ false → x ≢ y
apart x y differ e = cc (differ, (eq_iff x y).1 e)

-- The tarballs of the sources are apart, and so are their directories.
pub sources-Distinct : (t : Tools) → Distinct t sources
sources-Distinct t = (
  (apart "binutils.tar.xz" "gcc.tar.xz" refl, (apart "mlibc.tar.gz" "gcc.tar.xz" refl, tt)),
  (apart "binutils-2.46.0" "gcc-15.2.0" refl, (apart "mlibc-6.3.1" "gcc-15.2.0" refl, tt)),
  (
    (apart "mlibc.tar.gz" "binutils.tar.xz" refl, tt),
    (apart "mlibc-6.3.1" "binutils-2.46.0" refl, tt),
    (tt, tt, tt),
  ),
)

module _ (t : Tools) {W : Type 0} (perform : Action → Disk t × W → Bool × (Disk t × W)) where
  -- Whatever the cache holds, the network answers and the tools do: either every source has a tarball
  -- in the cache whose check sum is the one that the source gives, or whose source gives none yet, and
  -- the build starts from that disk; or the script panics before the first command of the build.
  pub main-cases :
      (sysroot_dir nproc : String) (get : String → Option Response) (d : Disk t) (w : W)
      → ((d' : Disk t) × All (IsVerified t d') sources
          × (main t perform sysroot_dir nproc get (d, w)
              ≡ run_all perform (build_actions sysroot_dir nproc) (d', w)))
        ⊎ ((d' : Disk t) × (main t perform sysroot_dir nproc get (d, w) ≡ failed (d', w)))
  unfolding main
  main-cases sysroot_dir nproc get d w = elim (fetch-cases t get sources d (sources-Distinct t)) [
    | inl (d', run, verified) ↦ inl (d', verified.all, rw (main, run))
    | inr (d', run) ↦ inr (d', rw (main, run))
  ]
