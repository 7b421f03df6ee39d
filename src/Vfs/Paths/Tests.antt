-- ===== src/Vfs/Paths/Tests.antt =====
-- src/syscall/vfs.c: the path "l/../b" from "/d", with a file system whose names that begin with `l` are
-- symbolic links to "a".
use foreign_linux.Base.{
  ℕ, ◌≡◌, ◌≤◌, true, Option, none, some, List, [], ◌∷◌, arith, length, if◌then◌else◌, ◌==◌, All,
}
use mathlib.Core.List.{reverse}
use foreign_linux.Vfs.Mounts.{Mount, find_mountpoint}
use foreign_linux.Vfs.Paths.{
  Opened, opened, failed, link, World, enotdir, open_below, open_component, path_max,
  max_symlink_level, resolve_path, vfs_openat,
}
use foreign_linux.Vfs.Paths.Names.{join, IsProper}
use foreign_linux.Vfs.Paths.Leads.{from, Meets}
use foreign_linux.Vfs.Paths.Resolves.{IsShort, resolve_path_lem}
use foreign_linux.Vfs.Paths.Opens.{Ends, vfs_openat_lem}

abbrev root_mount : Mount
root_mount = record {
  id = 1;
  is_system = true;
  fs_id = 0;
  key = 1;
  win_path = [];
  mountpoint = b'/' ∷ [];
}

abbrev answer : List ℕ → Opened
answer [] = opened
answer (c ∷ cs) = if c == b'l' then link (b'a' ∷ []) else opened

abbrev small_world : World
small_world = record {
  root_id = 1;
  mounts = root_mount ∷ [];
  fs_open = λ fs_id. some (λ mp subpath. answer subpath);
}

abbrev target_of : Opened → List ℕ
target_of (link t) = t
target_of opened = []
target_of (failed e) = []

short_answer : (subpath target : List ℕ) → answer subpath ≡ link target → length target ≤ path_max
short_answer [] target e = ground arith
short_answer (c ∷ cs) target e = ground arith

short_below :
    (o : Option (Mount × List ℕ)) (target : List ℕ)
    → open_below small_world o enotdir enotdir ≡ link target
    → length target ≤ path_max
short_below none target e = ground arith
short_below (some (mp, subpath)) target e = short_answer subpath target e

small_world-IsShort : IsShort small_world path_max
unfolding open_component
small_world-IsShort realpath target e =
    short_below (find_mountpoint 1 (root_mount ∷ []) (reverse realpath)) target e

abbrev start : List (List ℕ)
start = (b'd' ∷ []) ∷ []

start-IsProper : All IsProper start
start-IsProper = (
  record {
    nonempty = λ e. ground arith;
    not_dot = λ e. ground arith;
    not_dots = λ e. ground arith;
    no_slash = (λ e. ground arith, tt);
  },
  tt,
)

abbrev pathname : List ℕ
pathname = b'l' ∷ b'/' ∷ b'.' ∷ b'.' ∷ b'/' ∷ b'b' ∷ []

resolve_path_lem_example :
    Meets small_world (from start pathname) 8 (resolve_path small_world (join start) pathname 8)
resolve_path_lem_example =
    resolve_path_lem small_world start pathname 8 small_world-IsShort start-IsProper

vfs_openat_lem_example :
    Ends small_world
      (λ fs_id mp subpath. answer subpath)
      (from start pathname)
      max_symlink_level
      (vfs_openat small_world (λ fs_id mp subpath. answer subpath) (some (join start)) pathname)
vfs_openat_lem_example =
    vfs_openat_lem small_world (λ fs_id mp subpath. answer subpath) start pathname
      small_world-IsShort start-IsProper
