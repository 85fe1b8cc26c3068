-- ===== src/Cross/Fetch.antt =====
-- A tarball that is in the cache when the script goes on has the right check sum.
use Prim.Native.String.{String}
use mathlib.Core.Option.{some-injective, none-ne-some}
use mathlib.Core.List.{append_assoc, append-nil}
use text.Mathlib.Text.{◌==◌, starts_with}
use text.Mathlib.TextPositions.{eq_refl}
use text.Mathlib.TextEquality.{eq_iff}
use bayos.Base as Base
use bayos.Base.{
  ℕ, ◌≡◌, ◌≢◌, ◌⊎◌, inl, inr, refl, sym, ap, subst, ◌∙◌, Bool, true, false, ◌||◌, Option, none,
  some, List, [], ◌∷◌, ◌++◌, arith, if◌then◌else◌, Bool-cases, Option-cases,
}
use bayos.Cross.{
  Source, tarball, Body, finished, broken, chunk, Response, Tools, Run, done, failed, ◌>>=◌, put,
  Disk, put_file, remove_file, receive, download, sha256_of, opened, verify_sha256, assert_sha256,
  get_tarball,
}

pub put_self : {A : Type 0} (key : String) (a : A) (f : String → A) → put key a f key ≡ a
put_self key a f = rw (eq_refl key)

pub put_other :
    {A : Type 0} (key other : String) (a : A) (f : String → A)
    → key ≢ other
    → put key a f other ≡ f other
put_other key other a f ne = ground (arith, eq_iff key other)

-- The bytes of an answer that comes to its end.
abbrev pub prefixed : List ℕ → Option (List ℕ) → Option (List ℕ)
prefixed bytes none = none
prefixed bytes (some rest) = some (bytes ++ rest)

abbrev pub content : Body → Option (List ℕ)
content finished = some []
content broken = none
content (chunk [] rest) = some []
content (chunk (b ∷ bs) rest) = prefixed (b ∷ bs) (content rest)

module _ (t : Tools) where
  -- The bytes have the check sum of the source, or it has none yet.
  abbrev pub is_valid : Source → List ℕ → Bool
  is_valid src bytes = starts_with src.sha256 "REPLACE_WITH" || sha256_of t bytes == src.sha256

  receive-content :
      (body : Body) (dest : String) (so_far bytes : List ℕ) (d : Disk t)
      → content body ≡ some bytes
      → receive t body dest so_far d ≡ done (put_file t dest (so_far ++ bytes) d)
  unfolding receive
  receive-content finished dest so_far bytes d e =
      let empty : [] ≡ bytes = cc in
      ap (λ l. done (put_file t dest l d)) (sym (append-nil so_far) ∙ ap (λ l. so_far ++ l) empty)
  receive-content broken dest so_far bytes d e = cc
  receive-content (chunk [] rest) dest so_far bytes d e =
      let empty : [] ≡ bytes = cc in
      ap (λ l. done (put_file t dest l d)) (sym (append-nil so_far) ∙ ap (λ l. so_far ++ l) empty)
  receive-content (chunk (b ∷ bs) rest) dest so_far bytes d e = elim (Option-cases (content rest)) [
    | inl broke ↦ absurd (none-ne-some bytes (sym (ap (prefixed (b ∷ bs)) broke) ∙ e))
    | inr (more, there) ↦
        let whole =
          some-injective (b ∷ bs ++ more) bytes (sym (ap (prefixed (b ∷ bs)) there) ∙ e) in
        receive-content rest dest (so_far ++ b ∷ bs) more d there
        ∙ ap (λ l. done (put_file t dest l d))
            (append_assoc so_far (b ∷ bs) more ∙ ap (λ l. so_far ++ l) whole)
  ]

  -- However an answer ends, only the file has changed.
  receive-cases :
      (body : Body) (dest : String) (so_far : List ℕ) (d : Disk t)
      → ((bytes : List ℕ) × (receive t body dest so_far d ≡ done (put_file t dest bytes d)))
        ⊎ ((bytes : List ℕ) × (receive t body dest so_far d ≡ failed (put_file t dest bytes d)))
  unfolding receive
  receive-cases finished dest so_far d = inl (so_far, refl)
  receive-cases broken dest so_far d = inr (so_far, refl)
  receive-cases (chunk [] rest) dest so_far d = inl (so_far, refl)
  receive-cases (chunk (b ∷ bs) rest) dest so_far d = receive-cases rest dest (so_far ++ b ∷ bs) d

  -- With a file there, the check answers whether its bytes are valid.
  verify_sha256_lem :
      (src : Source) (path : String) (bytes : List ℕ) (d : Disk t)
      → d.files path ≡ some bytes
      → verify_sha256 t path src.sha256 d ≡ done (is_valid src bytes)
  unfolding verify_sha256 opened
  verify_sha256_lem src path bytes d e = elim (Bool-cases (starts_with src.sha256 "REPLACE_WITH")) [
    | inl placeholder ↦ rw placeholder
    | inr real ↦ rw (real, opened, e)
  ]

  assert_sha256_lem :
      (src : Source) (path : String) (bytes : List ℕ) (d : Disk t)
      → d.files path ≡ some bytes
      → assert_sha256 t path src.sha256 d ≡ (if is_valid src bytes then done d else failed d)
  unfolding assert_sha256 opened
  assert_sha256_lem src path bytes d e = rw (assert_sha256, opened, e)

  -- The tarball of the source is there, with valid bytes, and else only its file has changed.
  pub record HasTarball (src : Source) (before after : Disk t) : Type 0 where
    pub bytes : List ℕ
    pub there : after.files (tarball src) ≡ some bytes
    pub valid : is_valid src bytes ≡ true
    pub other_files : (name : String) → tarball src ≢ name → after.files name ≡ before.files name
    pub same_trees : after.trees ≡ before.trees
    pub same_patches : after.patches ≡ before.patches

  -- The source is served: its address answers 200, with valid bytes.
  pub record IsServed (get : String → Option Response) (src : Source) : Type 0 where
    pub response : Response
    pub answers : get src.url ≡ some response
    pub success : response.status ≡ 200
    pub bytes : List ℕ
    pub complete : content response.body ≡ some bytes
    pub valid : is_valid src bytes ≡ true

  download_served :
      (get : String → Option Response) (src : Source) (d : Disk t)
      → (s : IsServed get src)
      → download t (get src.url) (tarball src) d ≡ done (put_file t (tarball src) s.bytes d)
  unfolding download
  download_served get src d s =
      rw (s.answers, s.success)
        (receive-content s.response.body (tarball src) [] s.bytes d s.complete)

  fetched-HasTarball :
      (src : Source) (bytes : List ℕ) (d d1 : Disk t)
      → is_valid src bytes ≡ true
      → ((name : String) → tarball src ≢ name → d1.files name ≡ d.files name)
      → d1.trees ≡ d.trees
      → d1.patches ≡ d.patches
      → HasTarball src d (put_file t (tarball src) bytes d1)
  fetched-HasTarball src bytes d d1 valid others trees patches = record {
    bytes = bytes;
    there = put_self (tarball src) (some bytes) d1.files;
    valid = valid;
    other_files = λ name ne. put_other (tarball src) name (some bytes) d1.files ne ∙ others name ne;
    same_trees = trees;
    same_patches = patches;
  }

  -- What the script does for a file that is not there.
  abbrev refetch : (String → Option Response) → Source → Disk t → Run (Disk t) (Disk t)
  refetch get src d = do
    d1 ← download t (get src.url) (tarball src) d
    assert_sha256 t (tarball src) src.sha256 d1

  refetch_served :
      (get : String → Option Response) (src : Source) (d : Disk t) (s : IsServed get src)
      → refetch get src d ≡ done (put_file t (tarball src) s.bytes d)
  refetch_served get src d s =
      let d1 = put_file t (tarball src) s.bytes d in
      let sound =
        assert_sha256_lem src (tarball src) s.bytes d1
          (put_self (tarball src) (some s.bytes) d.files) in
      rw (download_served get src d s) (sound ∙ ap (λ v. if v then done d1 else failed d1) s.valid)

  -- What `get_tarball` comes to with the file in the cache.
  pub get_tarball_cached :
      (get : String → Option Response) (src : Source) (old : List ℕ) (d : Disk t)
      → d.files (tarball src) ≡ some old
      → get_tarball t get src d ≡ elim (is_valid src old) [
        | true ↦ done d
        | false ↦ refetch get src (remove_file t (tarball src) d)
      ]
  unfolding get_tarball
  get_tarball_cached get src old d e =
      rw (get_tarball, e, verify_sha256_lem src (tarball src) old d e)

  get_tarball_missing :
      (get : String → Option Response) (src : Source) (d : Disk t)
      → d.files (tarball src) ≡ none
      → get_tarball t get src d ≡ refetch get src d
  unfolding get_tarball
  get_tarball_missing get src d e = rw (get_tarball, e)

  -- From whatever the cache holds, a source that is served gets a valid tarball, without a panic.
  pub get_tarball_lem :
      (get : String → Option Response) (src : Source) (d : Disk t)
      → IsServed get src
      → (d' : Disk t) × (get_tarball t get src d ≡ done d') × HasTarball src d d'
  get_tarball_lem get src d s = elim (Option-cases (d.files (tarball src))) [
    | inl missing ↦ (
      put_file t (tarball src) s.bytes d,
      get_tarball_missing get src d missing ∙ refetch_served get src d s,
      fetched-HasTarball src s.bytes d d s.valid (λ name ne. refl) refl refl,
    )
    | inr (old, e) ↦ elim (Bool-cases (is_valid src old)) [
      | inl valid ↦ (
        d,
        get_tarball_cached get src old d e ∙ rw valid,
        record {
          bytes = old;
          there = e;
          valid = valid;
          other_files = λ name ne. refl;
          same_trees = refl;
          same_patches = refl;
        },
      )
      | inr bad ↦ (
        put_file t (tarball src) s.bytes (remove_file t (tarball src) d),
        get_tarball_cached get src old d e
            ∙ rw bad (refetch_served get src (remove_file t (tarball src) d) s),
        fetched-HasTarball src s.bytes d (remove_file t (tarball src) d) s.valid
            (λ name ne. put_other (tarball src) name none d.files ne) refl refl,
      )
    ]
  ]

  -- How a run ends: with a valid tarball, or with a panic after which nothing was unpacked.
  abbrev pub Ends : Source → Disk t → Run (Disk t) (Disk t) → Type 0
  Ends src d r =
      ((d' : Disk t) × (r ≡ done d') × HasTarball src d d')
      ⊎ ((d' : Disk t) × (r ≡ failed d') × (d'.trees ≡ d.trees))

  download-cases :
      (o : Option Response) (dest : String) (d : Disk t)
      → ((bytes : List ℕ) × (download t o dest d ≡ done (put_file t dest bytes d)))
        ⊎ ((d' : Disk t) × (download t o dest d ≡ failed d') × (d'.trees ≡ d.trees))
  unfolding download
  download-cases none dest d = inr (d, refl, refl)
  download-cases (some resp) dest d = elim (Bool-cases (Base.◌==◌ resp.status 200)) [
    | inr other ↦ inr (d, rw (download, other), refl)
    | inl success ↦ elim (receive-cases resp.body dest [] d) [
      | inl (bytes, run) ↦ inl (bytes, rw (download, success) run)
      | inr (bytes, run) ↦ inr (put_file t dest bytes d, rw (download, success) run, refl)
    ]
  ]

  refetch-Ends :
      (get : String → Option Response) (src : Source) (d d1 : Disk t)
      → ((name : String) → tarball src ≢ name → d1.files name ≡ d.files name)
      → d1.trees ≡ d.trees
      → d1.patches ≡ d.patches
      → Ends src d (refetch get src d1)
  refetch-Ends get src d d1 others trees patches =
      elim (download-cases (get src.url) (tarball src) d1) [
        | inr (d', run, same) ↦ inr (d', rw run, same ∙ trees)
        | inl (bytes, run) ↦
            let d2 = put_file t (tarball src) bytes d1 in
            let check =
              assert_sha256_lem src (tarball src) bytes d2
                (put_self (tarball src) (some bytes) d1.files) in
            elim (Bool-cases (is_valid src bytes)) [
              | inl valid ↦ inl (
                d2,
                rw run (check ∙ rw valid),
                fetched-HasTarball src bytes d d1 valid others trees patches,
              )
              | inr bad ↦ inr (d2, rw run (check ∙ rw bad), trees)
            ]
      ]

  -- Whatever the cache holds and the network answers, the script goes on with a valid tarball, or it
  -- panics with the source directories as they were.
  pub get_tarball-Ends :
      (get : String → Option Response) (src : Source) (d : Disk t)
      → Ends src d (get_tarball t get src d)
  get_tarball-Ends get src d = elim (Option-cases (d.files (tarball src))) [
    | inl missing ↦
        subst (Ends src d) (sym (get_tarball_missing get src d missing))
          (refetch-Ends get src d d (λ name ne. refl) refl refl)
    | inr (old, e) ↦ elim (Bool-cases (is_valid src old)) [
      | inl valid ↦ inl (
        d,
        get_tarball_cached get src old d e ∙ rw valid,
        record {
          bytes = old;
          there = e;
          valid = valid;
          other_files = λ name ne. refl;
          same_trees = refl;
          same_patches = refl;
        },
      )
      | inr bad ↦ subst (Ends src d) (sym (get_tarball_cached get src old d e ∙ rw bad)) (
          refetch-Ends get src d (remove_file t (tarball src) d)
            (λ name ne. put_other (tarball src) name none d.files ne) refl refl)
    ]
  ]
