-- ===== src/Cross/Failed.antt =====
-- A run in which a patch does not apply, and the run after it.
use Prim.Native.String.{String}
use bayos.Base.{
  ℕ, ◌≡◌, refl, sym, ap, subst, ◌∙◌, Bool, true, false, Option, none, some, List, [], ◌∷◌, All,
}
use bayos.Cross.{
  Source, tarball, gcc, binutils, mlibc, sources, Response, Tools, done, failed, put, Disk,
  apply_patch, get_tree, fetch,
}
use bayos.Cross.Again.{IsBuildable, IsPresent, fetch_rounds, fetch-cons, extract_archive_lem}
use bayos.Cross.Build.{Action, build_actions, run_all, main}
use bayos.Cross.Fetch.{is_valid, IsServed, get_tarball_lem, put_self}
use bayos.Cross.Order.{sources-Distinct}

module _ (t : Tools) where
  -- A source that is not in the cache as a directory, whose valid tarballs unpack, and whose patch is
  -- refused.
  pub record IsRefused (patch_file : List ℕ) (d : Disk t) (src : Source) : Type 0 where
    pub new : d.trees src.dir_name ≡ none
    pub unpacks :
        (bytes : List ℕ)
        → is_valid t src bytes ≡ true
        → (raw : t.Tree) × (t.unpack src.format bytes d.trees
            ≡ (true, put src.dir_name (some raw) d.trees))
    pub has_patch : d.patches src.name ≡ some patch_file
    pub refuses : (raw : t.Tree) → (tree : t.Tree) × (t.patch patch_file raw ≡ (false, tree))

  -- What the run leaves: the source looks present, with what the refused patch made of its directory.
  record LeftBehind (patch_file : List ℕ) (src : Source) (before after : Disk t) : Type 0 where
    present : IsPresent t after src
    raw : t.Tree
    refused : t.patch patch_file raw ≡ (false, present.tree)
    same_patches : after.patches ≡ before.patches

  get_tree-refused :
      (patch_file : List ℕ) (src : Source) (bytes : List ℕ) (d : Disk t)
      → d.files (tarball src) ≡ some bytes
      → is_valid t src bytes ≡ true
      → IsRefused patch_file d src
      → (d' : Disk t) × (get_tree t src d ≡ failed d') × LeftBehind patch_file src d d'
  unfolding get_tree apply_patch
  get_tree-refused patch_file src bytes d there valid r =
      let (raw, unpacks) = r.unpacks bytes valid in
      let (tree, refused) = r.refuses raw in
      let run = extract_archive_lem t src bytes raw d there unpacks in
      let d1 = record d { trees = put src.dir_name (some raw) d.trees } in
      let has = put_self src.dir_name (some raw) d.trees in
      (
        record d { trees = put src.dir_name (some tree) d1.trees },
        rw (get_tree, r.new, run, r.has_patch, apply_patch, has, refused),
        record {
          present = record {
            bytes = bytes;
            there = there;
            valid = valid;
            tree = tree;
            extracted = put_self src.dir_name (some tree) d1.trees;
          };
          raw = raw;
          refused = refused;
          same_patches = refl;
        },
      )

  IsRefused-same :
      (patch_file : List ℕ) (src : Source) (d d1 : Disk t)
      → d1.trees ≡ d.trees
      → d1.patches ≡ d.patches
      → IsRefused patch_file d src
      → IsRefused patch_file d1 src
  IsRefused-same patch_file src d d1 trees patches r = record {
    new = ap (λ f. f src.dir_name) trees ∙ r.new;
    unpacks = λ bytes valid.
        subst
          (λ f.
            (raw : t.Tree) × (t.unpack src.format bytes f ≡ (true, put src.dir_name (some raw) f)))
          (sym trees) (r.unpacks bytes valid);
    has_patch = ap (λ f. f src.name) patches ∙ r.has_patch;
    refuses = r.refuses;
  }

  -- The first run stops at the source, and leaves it behind.
  fetch-refused :
      (get : String → Option Response) (patch_file : List ℕ) (src : Source) (srcs : List Source)
      (d : Disk t)
      → IsServed t get src
      → IsRefused patch_file d src
      → (d' : Disk t) × (fetch t get (src ∷ srcs) d ≡ failed d') × LeftBehind patch_file src d d'
  unfolding fetch
  fetch-refused get patch_file src srcs d served r =
      let (d1, run1, file) = get_tarball_lem t get src d served in
      let again = IsRefused-same patch_file src d d1 file.same_trees file.same_patches r in
      let (d', run2, left) =
        get_tree-refused patch_file src file.bytes d1 file.there file.valid again in
      (
        d',
        rw (fetch, run1, run2),
        record {
          present = left.present;
          raw = left.raw;
          refused = left.refused;
          same_patches = left.same_patches ∙ file.same_patches;
        },
      )

module _ (t : Tools) {W : Type 0} (perform : Action → Disk t × W → Bool × (Disk t × W)) where
  -- Where the patch for gcc is refused, which is the first source, and has no directory yet, a run of
  -- the script panics before the build. A second run, in which the other two sources are served and
  -- can be unpacked and patched, takes the directory of gcc for done, and goes on to the build, from a
  -- disk on which that directory is what the refused patch made of it.
  pub main-failed_patch :
      (sysroot_dir nproc : String) (get later : String → Option Response) (d : Disk t) (w : W)
      (patch_file : List ℕ)
      → IsServed t get gcc
      → IsRefused t patch_file d gcc
      → IsServed t later binutils
      → IsServed t later mlibc
      → IsBuildable t d.patches binutils
      → IsBuildable t d.patches mlibc
      → (d1 d2 : Disk t) × (raw tree : t.Tree) × (main t perform sysroot_dir nproc get (d, w)
          ≡ failed (d1, w))
        × (main t perform sysroot_dir nproc later (d1, w)
            ≡ run_all perform (build_actions sysroot_dir nproc) (d2, w))
        × (t.patch patch_file raw ≡ (false, tree))
        × (d2.trees "gcc-15.2.0" ≡ some tree)
  unfolding main
  main-failed_patch sysroot_dir nproc get later d w patch_file served refused later1 later2 builds1
        builds2 =
      let (d1, run1, left) =
        fetch-refused t get patch_file gcc (binutils ∷ mlibc ∷ []) d served refused in
      let distinct = sources-Distinct t in
      let buildable =
        subst (λ p. All (IsBuildable t p) (binutils ∷ mlibc ∷ [])) (sym left.same_patches)
          (builds1, (builds2, tt)) in
      let (d2, run2, ready, grown) =
        fetch_rounds t later (binutils ∷ mlibc ∷ []) d1 distinct.2 (later1, (later2, tt))
          buildable in
      let rest : fetch t later sources d1 ≡ done d2 =
        fetch-cons t later gcc (binutils ∷ mlibc ∷ []) d1 left.present ∙ run2 in
      (
        d1,
        d2,
        left.raw,
        left.present.tree,
        rw (main, run1),
        rw (main, rest),
        left.refused,
        grown.other_trees "gcc-15.2.0" distinct.1 ∙ left.present.extracted,
      )
