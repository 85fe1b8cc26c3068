-- ===== src/Cross/Again.antt =====
-- The loop over the sources: a first run that gets everything, and a run after another.
use Prim.Native.String.{String}
use bayos.Base.{
  ℕ, ◌≡◌, ◌≢◌, ◌⊎◌, inl, inr, refl, sym, ap, subst, ◌∙◌, Bool, true, Option, none, some, List, [],
  ◌∷◌, All, Option-cases,
}
use bayos.Cross.{
  Source, tarball, Response, Tools, done, put, Disk, opened, extract_archive, apply_patch,
  get_tarball, get_tree, fetch,
}
use bayos.Cross.Fetch.{
  is_valid, IsServed, HasTarball, get_tarball_lem, get_tarball_cached, put_self, put_other,
}

module _ (t : Tools) where
  -- A valid tarball of the source can be unpacked, to its directory, and the patch for it applies.
  pub record IsBuildable (patch_files : String → Option (List ℕ)) (src : Source) : Type 0 where
    pub unpacks :
        (bytes : List ℕ) (trees : String → Option t.Tree)
        → is_valid t src bytes ≡ true
        → (tree : t.Tree) × (t.unpack src.format bytes trees
            ≡ (true, put src.dir_name (some tree) trees))
    pub patches :
        (patch_file : List ℕ) (tree : t.Tree)
        → patch_files src.name ≡ some patch_file
        → (tree' : t.Tree) × (t.patch patch_file tree ≡ (true, tree'))

  -- What the script takes for done: the tarball is valid, and the directory is there, whatever is in it.
  pub record IsPresent (d : Disk t) (src : Source) : Type 0 where
    pub bytes : List ℕ
    pub there : d.files (tarball src) ≡ some bytes
    pub valid : is_valid t src bytes ≡ true
    pub tree : t.Tree
    pub extracted : d.trees src.dir_name ≡ some tree

  abbrev patched_tree : Option (List ℕ) → t.Tree → t.Tree
  patched_tree none tree = tree
  patched_tree (some patch_file) tree = (t.patch patch_file tree).1

  -- The directory is what these bytes unpack to, with the patch for the source, if there is one.
  pub record IsMade (patch_files : String → Option (List ℕ)) (src : Source) (bytes : List ℕ)
      (tree : t.Tree) : Type 0 where
    pub raw : t.Tree
    pub trees : String → Option t.Tree
    pub unpacked : t.unpack src.format bytes trees ≡ (true, put src.dir_name (some raw) trees)
    pub patched : tree ≡ patched_tree (patch_files src.name) raw

  -- The directory is the one that was there before, or it was not there, and is made of the bytes.
  abbrev Origin : Disk t → Source → List ℕ → t.Tree → Type 0
  Origin before src bytes tree =
      (before.trees src.dir_name ≡ some tree)
      ⊎ ((before.trees src.dir_name ≡ none) × IsMade before.patches src bytes tree)

  -- The source is present after a run, and where its directory comes from.
  pub record IsReady (before after : Disk t) (src : Source) : Type 0 where
    pub present : IsPresent after src
    pub origin :
        (before.trees src.dir_name ≡ some present.tree)
        ⊎ ((before.trees src.dir_name ≡ none)
            × IsMade before.patches src present.bytes present.tree)

  -- The directory is there, and nothing else has changed.
  record HasTree (src : Source) (bytes : List ℕ) (before after : Disk t) : Type 0 where
    tree : t.Tree
    there : after.trees src.dir_name ≡ some tree
    origin : Origin before src bytes tree
    other_trees : (dir : String) → src.dir_name ≢ dir → after.trees dir ≡ before.trees dir
    same_files : after.files ≡ before.files
    same_patches : after.patches ≡ before.patches

  pub extract_archive_lem :
      (src : Source) (bytes : List ℕ) (tree : t.Tree) (d : Disk t)
      → d.files (tarball src) ≡ some bytes
      → t.unpack src.format bytes d.trees ≡ (true, put src.dir_name (some tree) d.trees)
      → extract_archive t (tarball src) src.format d
        ≡ done (record d { trees = put src.dir_name (some tree) d.trees })
  unfolding extract_archive opened
  extract_archive_lem src bytes tree d there unpacks = rw (extract_archive, opened, there, unpacks)

  get_tree_lem :
      (src : Source) (bytes : List ℕ) (d : Disk t)
      → d.files (tarball src) ≡ some bytes
      → is_valid t src bytes ≡ true
      → IsBuildable d.patches src
      → (d' : Disk t) × (get_tree t src d ≡ done d') × HasTree src bytes d d'
  unfolding get_tree apply_patch
  get_tree_lem src bytes d there valid buildable = elim (Option-cases (d.trees src.dir_name)) [
    | inr (tree, old) ↦ (
      d,
      rw (get_tree, old),
      record {
        tree = tree;
        there = old;
        origin = inl old;
        other_trees = λ dir ne. refl;
        same_files = refl;
        same_patches = refl;
      },
    )
    | inl new ↦
        let (raw, unpacks) = buildable.unpacks bytes d.trees valid in
        let run = extract_archive_lem src bytes raw d there unpacks in
        let d1 = record d { trees = put src.dir_name (some raw) d.trees } in
        let has = put_self src.dir_name (some raw) d.trees in
        elim (Option-cases (d.patches src.name)) [
          | inl unpatched ↦ (
            d1,
            rw (get_tree, new, run, unpatched),
            record {
              tree = raw;
              there = has;
              origin = inr (
                new,
                record {
                  raw = raw;
                  trees = d.trees;
                  unpacked = unpacks;
                  patched = ap (λ o. patched_tree o raw) (sym unpatched);
                },
              );
              other_trees = λ dir ne. put_other src.dir_name dir (some raw) d.trees ne;
              same_files = refl;
              same_patches = refl;
            },
          )
          | inr (patch_file, p) ↦
              let (tree', applies) = buildable.patches patch_file raw p in
              (
                record d { trees = put src.dir_name (some tree') d1.trees },
                rw (get_tree, new, run, p, apply_patch, has, applies),
                record {
                  tree = tree';
                  there = put_self src.dir_name (some tree') d1.trees;
                  origin = inr (
                    new,
                    record {
                      raw = raw;
                      trees = d.trees;
                      unpacked = unpacks;
                      patched = sym (
                          ap (λ o. patched_tree o raw) p ∙ ap (λ (r : Bool × t.Tree). r.1) applies);
                    },
                  );
                  other_trees = λ dir ne.
                      put_other src.dir_name dir (some tree') d1.trees ne
                      ∙ put_other src.dir_name dir (some raw) d.trees ne;
                  same_files = refl;
                  same_patches = refl;
                },
              )
        ]
  ]

  -- A source that is present is left as it is, whatever the network answers.
  present_again :
      (get : String → Option Response) (src : Source) (d : Disk t)
      → IsPresent d src
      → (get_tarball t get src d ≡ done d) × (get_tree t src d ≡ done d)
  unfolding get_tree
  present_again get src d r =
      (get_tarball_cached t get src r.bytes d r.there ∙ rw r.valid, rw (get_tree, r.extracted))

  pub fetch-cons :
      (get : String → Option Response) (src : Source) (srcs : List Source) (d : Disk t)
      → IsPresent d src
      → fetch t get (src ∷ srcs) d ≡ fetch t get srcs d
  unfolding fetch
  fetch-cons get src srcs d present =
      let (tarball_done, tree_done) = present_again get src d present in
      rw (fetch, tarball_done, tree_done)

  -- Once every source is present, a run changes nothing, and asks nothing of the network.
  fetch-IsPresent :
      (get : String → Option Response) (srcs : List Source) (d : Disk t)
      → All (IsPresent d) srcs
      → fetch t get srcs d ≡ done d
  unfolding fetch
  fetch-IsPresent get [] d present = refl
  fetch-IsPresent get (src ∷ srcs) d present =
      fetch-cons get src srcs d present.0 ∙ fetch-IsPresent get srcs d present.1

  -- No two sources have the same tarball, or the same directory.
  abbrev pub Distinct : List Source → Type 0
  Distinct [] = Unit
  Distinct (src ∷ srcs) =
      All (λ other. tarball other ≢ tarball src) srcs
      × All (λ other. other.dir_name ≢ src.dir_name) srcs
      × Distinct srcs

  -- What a run over `srcs` keeps.
  pub record Grown (srcs : List Source) (before after : Disk t) : Type 0 where
    pub other_files :
        (name : String)
        → All (λ src. tarball src ≢ name) srcs
        → after.files name ≡ before.files name
    pub other_trees :
        (dir : String) → All (λ src. src.dir_name ≢ dir) srcs → after.trees dir ≡ before.trees dir
    pub same_patches : after.patches ≡ before.patches

  Grown-cons :
      (src : Source) (srcs : List Source) (bytes : List ℕ) (d d1 d2 d' : Disk t)
      → HasTarball t src d d1
      → HasTree src bytes d1 d2
      → Grown srcs d2 d'
      → Grown (src ∷ srcs) d d'
  Grown-cons src srcs bytes d d1 d2 d' file dir grown = record {
    other_files = λ name apart.
        grown.other_files name apart.1
        ∙ ap (λ f. f name) dir.same_files
        ∙ file.other_files name apart.0;
    other_trees = λ at apart.
        grown.other_trees at apart.1 ∙ dir.other_trees at apart.0 ∙ ap (λ f. f at) file.same_trees;
    same_patches = grown.same_patches ∙ dir.same_patches ∙ file.same_patches;
  }

  -- Where the directory of a source and the patches are as in `d`, it comes from where it did.
  Origin-same :
      (src : Source) (bytes : List ℕ) (tree : t.Tree) (d d1 : Disk t)
      → d1.trees src.dir_name ≡ d.trees src.dir_name
      → d1.patches ≡ d.patches
      → Origin d1 src bytes tree
      → Origin d src bytes tree
  Origin-same src bytes tree d d1 trees patches (inl old) = inl (sym trees ∙ old)
  Origin-same src bytes tree d d1 trees patches (inr (new, made)) =
      inr (sym trees ∙ new, subst (λ p. IsMade p src bytes tree) patches made)

  All-IsReady-same :
      (head : Source) (srcs : List Source) (d d1 d' : Disk t)
      → ((dir : String) → head.dir_name ≢ dir → d1.trees dir ≡ d.trees dir)
      → d1.patches ≡ d.patches
      → All (λ other. other.dir_name ≢ head.dir_name) srcs
      → All (IsReady d1 d') srcs
      → All (IsReady d d') srcs
  All-IsReady-same head [] d d1 d' trees patches apart ready = tt
  All-IsReady-same head (src ∷ srcs) d d1 d' trees patches apart ready = (
    record {
      present = ready.0.present;
      origin =
          Origin-same src ready.0.present.bytes ready.0.present.tree d d1
            (trees src.dir_name (λ e. apart.0 (sym e))) patches ready.0.origin;
    },
    All-IsReady-same head srcs d d1 d' trees patches apart.1 ready.1,
  )

  Grown-IsReady :
      (src : Source) (srcs : List Source) (d d1 d2 d' : Disk t)
      → All (λ other. tarball other ≢ tarball src) srcs
      → All (λ other. other.dir_name ≢ src.dir_name) srcs
      → (file : HasTarball t src d d1) → HasTree src file.bytes d1 d2
      → Grown srcs d2 d'
      → IsReady d d' src
  Grown-IsReady src srcs d d1 d2 d' apart dirs file dir grown = record {
    present = record {
      bytes = file.bytes;
      there =
          grown.other_files (tarball src) apart
          ∙ ap (λ f. f (tarball src)) dir.same_files
          ∙ file.there;
      valid = file.valid;
      tree = dir.tree;
      extracted = grown.other_trees src.dir_name dirs ∙ dir.there;
    };
    origin =
        Origin-same src file.bytes dir.tree d d1 (ap (λ f. f src.dir_name) file.same_trees)
          file.same_patches dir.origin;
  }

  pub fetch_rounds :
      (get : String → Option Response) (srcs : List Source) (d : Disk t)
      → Distinct srcs
      → All (IsServed t get) srcs
      → All (IsBuildable d.patches) srcs
      → (d' : Disk t) × (fetch t get srcs d ≡ done d') × All (IsReady d d') srcs × Grown srcs d d'
  unfolding fetch
  fetch_rounds get [] d apart served buildable = (
    d,
    refl,
    tt,
    record { other_files = λ name h. refl; other_trees = λ dir h. refl; same_patches = refl },
  )
  fetch_rounds get (src ∷ srcs) d apart served buildable =
      let (d1, run1, file) = get_tarball_lem t get src d served.0 in
      let here = subst (λ p. IsBuildable p src) (sym file.same_patches) buildable.0 in
      let (d2, run2, dir) = get_tree_lem src file.bytes d1 file.there file.valid here in
      let patches : d2.patches ≡ d.patches = dir.same_patches ∙ file.same_patches in
      let rest = subst (λ p. All (IsBuildable p) srcs) (sym patches) buildable.1 in
      let (d', run, ready, grown) = fetch_rounds get srcs d2 apart.2 served.1 rest in
      (
        d',
        rw (fetch, run1, run2) run,
        (
          Grown-IsReady src srcs d d1 d2 d' apart.0 apart.1 file dir grown,
          All-IsReady-same src srcs d d2 d'
              (λ at ne. dir.other_trees at ne ∙ ap (λ f. f at) file.same_trees) patches apart.1
              ready,
        ),
        Grown-cons src srcs file.bytes d d1 d2 d' file dir grown,
      )

  All-IsPresent :
      (srcs : List Source) (d d' : Disk t) → All (IsReady d d') srcs → All (IsPresent d') srcs
  All-IsPresent [] d d' ready = tt
  All-IsPresent (src ∷ srcs) d d' ready = (ready.0.present, All-IsPresent srcs d d' ready.1)

  -- From whatever tarballs a run before has left in the cache, damaged ones included: where every
  -- source is served, unpacks and takes its patch, the loop ends without a panic. Every source then has
  -- a valid tarball and a directory: what the tarball unpacks to, with its patch, if there was no
  -- directory before, and else the one that was there, whatever is in it. A second run, whatever the
  -- network answers then, ends at once with the same disk.
  pub fetch_lem :
      (get : String → Option Response) (srcs : List Source) (d : Disk t)
      → Distinct srcs
      → All (IsServed t get) srcs
      → All (IsBuildable d.patches) srcs
      → (d' : Disk t) × (fetch t get srcs d ≡ done d')
        × All (IsReady d d') srcs
        × ((later : String → Option Response) → fetch t later srcs d' ≡ done d')
  fetch_lem get srcs d apart served buildable =
      let (d', run, ready, grown) = fetch_rounds get srcs d apart served buildable in
      (d', run, ready, λ later. fetch-IsPresent later srcs d' (All-IsPresent srcs d d' ready))
