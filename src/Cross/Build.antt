-- ===== src/Cross/Build.antt =====
-- The build that follows the fetch in user/cross/build.rs: the directories that are made and the
-- commands that are run, in order, each of which must succeed.
--
-- Not code of the script, and so an argument: what a command does, and whether it succeeds. The
-- directories are by their paths from the manifest's directory, and a command's environment is what
-- the script adds to it.
use Prim.Native.String as Text
use Prim.Native.String.{String}
use bayos.Base.{Bool, true, false, Option, none, some, List, [], ◌∷◌, ◌++◌}
use bayos.Cross.{Tools, Response, Run, done, failed, ◌>>=◌, Disk, sources, fetch}

-- `destdir` is `DESTDIR`, and `with_tools` whether the tools are first in `PATH`.
pub record Command : Type 0 where
  pub program : String
  pub args : List String
  pub current_dir : String
  pub destdir : Option String
  pub with_tools : Bool

pub data Action : Type 0 where
  create_dir_all : String → Action
  command : Command → Action

module _ (sysroot_dir nproc : String) where
  abbrev configure_binutils : Command
  configure_binutils = record {
    program = "../configure";
    args =
        "--target=x86_64-bayos"
        ∷ "--prefix=/usr"
        ∷ Text.◌++◌ "--with-sysroot=" sysroot_dir
        ∷ "--disable-werror"
        ∷ "--enable-default-execstack=no"
        ∷ [];
    current_dir = "cache/binutils-2.46.0/build";
    destdir = none;
    with_tools = false;
  }

  abbrev configure_gcc : Command
  configure_gcc = record {
    program = "../configure";
    args =
        "--target=x86_64-bayos"
        ∷ "--prefix=/usr"
        ∷ Text.◌++◌ "--with-sysroot=" sysroot_dir
        ∷ "--enable-languages=c,c++"
        ∷ "--enable-threads=posix"
        ∷ "--disable-multilib"
        ∷ "--enable-shared"
        ∷ "--enable-host-shared"
        ∷ [];
    current_dir = "cache/gcc-15.2.0/build";
    destdir = none;
    with_tools = true;
  }

  -- The headers of the library.
  abbrev install_headers : List Action
  install_headers =
      command (record {
        program = "meson";
        args =
            "setup" ∷ "--cross-file=mlibc-bayos.txt" ∷ "--prefix=/usr" ∷ "-Dheaders_only=true"
            ∷ "headers-build" ∷ [];
        current_dir = "cache/mlibc-6.3.1";
        destdir = none;
        with_tools = false;
      })
      ∷ command (record {
        program = "ninja";
        args = "-C" ∷ "headers-build" ∷ "install" ∷ [];
        current_dir = "cache/mlibc-6.3.1";
        destdir = some "sysroot";
        with_tools = false;
      })
      ∷ []

  abbrev build_binutils : List Action
  build_binutils =
      create_dir_all "cache/binutils-2.46.0/build"
      ∷ command configure_binutils
      ∷ command (record {
        program = "make";
        args = Text.◌++◌ "-j" nproc ∷ [];
        current_dir = "cache/binutils-2.46.0/build";
        destdir = none;
        with_tools = false;
      })
      ∷ command (record {
        program = "make";
        args = "install" ∷ [];
        current_dir = "cache/binutils-2.46.0/build";
        destdir = some "tools";
        with_tools = false;
      })
      ∷ []

  abbrev build_gcc : List Action
  build_gcc =
      create_dir_all "cache/gcc-15.2.0/build"
      ∷ command configure_gcc
      ∷ command (record {
        program = "make";
        args = Text.◌++◌ "-j" nproc ∷ "all-gcc" ∷ "all-target-libgcc" ∷ [];
        current_dir = "cache/gcc-15.2.0/build";
        destdir = none;
        with_tools = true;
      })
      ∷ command (record {
        program = "make";
        args = "install-gcc" ∷ "install-target-libgcc" ∷ [];
        current_dir = "cache/gcc-15.2.0/build";
        destdir = some "tools";
        with_tools = true;
      })
      ∷ []

  -- The library itself.
  abbrev build_mlibc : List Action
  build_mlibc =
      command (record {
        program = "meson";
        args =
            "setup" ∷ "--cross-file=mlibc-bayos.txt" ∷ "--prefix=/usr" ∷ "-Ddefault_library=static"
            ∷ "-Dno_headers=true" ∷ "build" ∷ [];
        current_dir = "cache/mlibc-6.3.1";
        destdir = none;
        with_tools = true;
      })
      ∷ command (record {
        program = "ninja";
        args = "-C" ∷ "build" ∷ "install" ∷ [];
        current_dir = "cache/mlibc-6.3.1";
        destdir = some "sysroot";
        with_tools = true;
      })
      ∷ []

  -- What `main` does after the fetch, in order.
  unfoldable pub build_actions : List Action
  build_actions =
      create_dir_all "sysroot"
      ∷ create_dir_all "tools"
      ∷ (install_headers ++ build_binutils ++ build_gcc ++ build_mlibc)

module _ {W : Type 0} (perform : Action → W → Bool × W) where
  abbrev after_action : Bool × W → Run W W
  after_action (true, w) = done w
  after_action (false, w) = failed w

  -- A command that cannot be run, or does not succeed, ends the script with a panic.
  unfoldable pub run_all : List Action → W → Run W W
  run_all [] w = done w
  run_all (act ∷ acts) w = do w' ← after_action (perform act w); run_all acts w'

-- `main`: the tarballs and the source directories, and then the build, on the disk and on what else the
-- commands change.
abbrev pub in_world : {D W : Type 0} → W → Run D D → Run (D × W) D
in_world w (done d) = done d
in_world w (failed d) = failed (d, w)

module _ (t : Tools) {W : Type 0} (perform : Action → Disk t × W → Bool × (Disk t × W)) where
  unfoldable pub main :
      (sysroot_dir nproc : String)
      → (String → Option Response)
      → Disk t × W
      → Run (Disk t × W) (Disk t × W)
  main sysroot_dir nproc get (d, w) = do
    d' ← in_world w (fetch t get sources d)
    run_all perform (build_actions sysroot_dir nproc) (d', w)
