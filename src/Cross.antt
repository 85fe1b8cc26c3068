-- ===== src/Cross.antt =====
-- The script that fetches the sources of the cross compiler, user/cross/build.rs: the tarballs in the
-- cache directory, their check sums, and the source directories that they are unpacked to and patched.
--
-- Not code of the script, and so parameters, in the record `Tools`: the hasher of the crate sha2, the
-- decoders with the crate tar, and the command `patch`. What the network answers is an argument. The
-- files of the cache are by their names, and a write to the disk does not fail. Unpacking and patching
-- are taken to change no file but those of the source directories.
pub mod Again
pub mod Build
pub mod Failed
pub mod Order
pub mod Fetch
pub mod Hash
mod FailedTests
mod Tests
use Prim.Native.String as Text
use Prim.Native.String.{String}
use text.Mathlib.Text.{◌==◌, starts_with}
use bayos.Base.{
  ℕ, zero, suc, ◌≡◌, Bool, true, false, ◌||◌, Option, none, some, List, [], ◌∷◌, ◌++◌, length,
  if◌then◌else◌, take, drop,
}
use bayos.Base as Base

pub data ArchiveFormat : Type 0 where
  tar_xz tar_gz : ArchiveFormat

pub record Source : Type 0 where
  pub name : String
  pub url : String
  pub sha256 : String
  pub dir_name : String
  pub format : ArchiveFormat

-- The entries of `SOURCES`, and `SOURCES`.
abbrev pub gcc : Source
gcc = record {
  name = "gcc";
  url = "https://ftp.fu-berlin.de/unix/languages/gcc/releases/gcc-15.2.0/gcc-15.2.0.tar.xz";
  sha256 = "438fd996826b0c82485a29da03a72d71d6e3541a83ec702df4271f6fe025d24e";
  dir_name = "gcc-15.2.0";
  format = tar_xz;
}

abbrev pub binutils : Source
binutils = record {
  name = "binutils";
  url = "https://ftp.fu-berlin.de/unix/gnu/binutils/binutils-2.46.0.tar.xz";
  sha256 = "d75a94f4d73e7a4086f7513e67e439e8fcdcbb726ffe63f4661744e6256b2cf2";
  dir_name = "binutils-2.46.0";
  format = tar_xz;
}

abbrev pub mlibc : Source
mlibc = record {
  name = "mlibc";
  url = "https://github.com/managarm/mlibc/archive/refs/tags/v6.3.1.tar.gz";
  sha256 = "9236025b32636b2e79cdd00b5914b5e89c3423da257c2db24253e0cac1679444";
  dir_name = "mlibc-6.3.1";
  format = tar_gz;
}

abbrev pub sources : List Source
sources = gcc ∷ binutils ∷ mlibc ∷ []

abbrev suffix : ArchiveFormat → String
suffix tar_xz = ".tar.xz"
suffix tar_gz = ".tar.gz"

-- The name of a source's tarball in the cache directory.
abbrev pub tarball : Source → String
tarball src = Text.◌++◌ src.name (suffix src.format)

-- What the reader of an answer gives: bytes for the buffer, the end, or an error.
pub data Body : Type 0 where
  finished broken : Body
  chunk : List ℕ → Body → Body

pub record Response : Type 0 where
  pub status : ℕ
  pub body : Body

pub record Tools : Type 1 where
  pub Tree : Type 0
  pub Hasher : Type 0
  pub new : Hasher
  pub update : Hasher → List ℕ → Hasher
  pub finalize : Hasher → String
  -- Whether the archive was unpacked, and the directories of the cache after that.
  pub unpack : ArchiveFormat → List ℕ → (String → Option Tree) → Bool × (String → Option Tree)
  -- Whether `patch` succeeded, and the directory after it.
  pub patch : List ℕ → Tree → Bool × Tree
  pub update_append : (h : Hasher) (xs ys : List ℕ) → update (update h xs) ys ≡ update h (xs ++ ys)

-- A part of the script ends with a result, or with a panic, which leaves the disk as it is then.
pub data Run (D R : Type 0) : Type 0 where
  done : R → Run D R
  failed : D → Run D R

infixl 5 ◌>>=◌
abbrev pub ◌>>=◌ : {D A B : Type 0} → Run D A → (A → Run D B) → Run D B
done a >>= f = f a
failed d >>= f = failed d

abbrev pub put : {A : Type 0} → String → A → (String → A) → String → A
put key a f other = if key == other then a else f other

module _ (t : Tools) where
  -- The files and the source directories of the cache, and the patches beside it.
  pub record Disk : Type 0 where
    pub files : String → Option (List ℕ)
    pub trees : String → Option t.Tree
    pub patches : String → Option (List ℕ)

  abbrev pub put_file : String → List ℕ → Disk → Disk
  put_file name bytes d = record d { files = put name (some bytes) d.files }

  abbrev pub remove_file : String → Disk → Disk
  remove_file name d = record d { files = put name none d.files }

  -- The loop of `download`; `so_far` is what was written.
  unfoldable pub receive : Body → String → List ℕ → Disk → Run Disk Disk
  receive finished dest so_far d = done (put_file dest so_far d)
  receive broken dest so_far d = failed (put_file dest so_far d)
  receive (chunk [] rest) dest so_far d = done (put_file dest so_far d)
  receive (chunk (b ∷ bs) rest) dest so_far d = receive rest dest (so_far ++ b ∷ bs) d

  -- `download`, for what the network answers.
  unfoldable pub download : Option Response → String → Disk → Run Disk Disk
  download none dest d = failed d
  download (some resp) dest d = elim (Base.◌==◌ resp.status 200) [
    | true ↦ receive resp.body dest [] d
    | false ↦ failed d
  ]

  -- The loop of `sha256_of`, with a buffer of `size` bytes, on fuel: a read fills the buffer, or gives
  -- the bytes that are left.
  unfoldable pub hash_loop : (size fuel : ℕ) → List ℕ → t.Hasher → t.Hasher
  hash_loop size zero bytes h = h
  hash_loop size (suc fuel) [] h = h
  hash_loop size (suc fuel) (b ∷ bs) h =
      hash_loop size fuel (drop size (b ∷ bs)) (t.update h (take size (b ∷ bs)))

  -- `sha256_of`, for the bytes of the file.
  unfoldable pub sha256_of : List ℕ → String
  sha256_of bytes = t.finalize (hash_loop 65536 (length bytes) bytes t.new)

  unfoldable pub opened : String → Disk → Run Disk (List ℕ)
  opened path d = elim (d.files path) [ none ↦ failed d | some bytes ↦ done bytes ]

  -- `verify_sha256`
  unfoldable pub verify_sha256 : String → String → Disk → Run Disk Bool
  verify_sha256 path expected d =
      if starts_with expected "REPLACE_WITH"
      then done true
      else do bytes ← opened path d; done (sha256_of bytes == expected)

  -- `assert_sha256`
  unfoldable pub assert_sha256 : String → String → Disk → Run Disk Disk
  assert_sha256 path expected d = do
    bytes ← opened path d
    if starts_with expected "REPLACE_WITH" || sha256_of bytes == expected then done d else failed d

  abbrev unpacked : Disk → Bool × (String → Option t.Tree) → Run Disk Disk
  unpacked d (true, trees) = done (record d { trees = trees })
  unpacked d (false, trees) = failed (record d { trees = trees })

  -- `extract_archive`, with `unpack_tar`.
  unfoldable pub extract_archive : String → ArchiveFormat → Disk → Run Disk Disk
  extract_archive path format d = do
    bytes ← opened path d
    unpacked d (t.unpack format bytes d.trees)

  abbrev patched : String → Disk → Bool × t.Tree → Run Disk Disk
  patched dir d (true, tree) = done (record d { trees = put dir (some tree) d.trees })
  patched dir d (false, tree) = failed (record d { trees = put dir (some tree) d.trees })

  -- `apply_patch`: the command cannot be run in a directory that is not there.
  unfoldable pub apply_patch : List ℕ → String → Disk → Run Disk Disk
  apply_patch patch_file dir d = elim (d.trees dir) [
    | none ↦ failed d
    | some tree ↦ patched dir d (t.patch patch_file tree)
  ]

  -- The source directory: as it is if it is there, or else unpacked and patched.
  unfoldable pub get_tree : Source → Disk → Run Disk Disk
  get_tree src d = elim (d.trees src.dir_name) [
    | some tree ↦ done d
    | none ↦ do
      d1 ← extract_archive (tarball src) src.format d
      elim (d1.patches src.name) [
        | some patch_file ↦ apply_patch patch_file src.dir_name d1
        | none ↦ done d1
      ]
  ]

  module _ (get : String → Option Response) where
    -- The tarball of a source: from the cache if its check sum is right, or else from the network.
    unfoldable pub get_tarball : Source → Disk → Run Disk Disk
    get_tarball src d = elim (d.files (tarball src)) [
      | some old ↦ do
        good ← verify_sha256 (tarball src) src.sha256 d
        elim good [
          | true ↦ done d
          | false ↦ do
            d1 ← download (get src.url) (tarball src) (remove_file (tarball src) d)
            assert_sha256 (tarball src) src.sha256 d1
        ]
      | none ↦ do
        d1 ← download (get src.url) (tarball src) d
        assert_sha256 (tarball src) src.sha256 d1
    ]

    -- The loop of `main`.
    unfoldable pub fetch : List Source → Disk → Run Disk Disk
    fetch [] d = done d
    fetch (src ∷ srcs) d = do d1 ← get_tarball src d; d2 ← get_tree src d1; fetch srcs d2
