-- ===== src/Vfs/Paths.antt =====
-- src/syscall/vfs.c: the resolution of paths. What the code writes to `realpath` is the list of its
-- bytes with the last one first, so that `realpath[-1]` is its head. The buffer is as long as needed.
pub mod Names
pub mod Rounds
pub mod Leads
pub mod Resolves
pub mod Opens
mod Tests
use foreign_linux.Base.{
  ℕ, zero, suc, ◌+◌, Bool, true, false, ◌||◌, Option, none, some, List, [], ◌∷◌, ◌++◌, ltb, ◌==◌,
  length, if◌then◌else◌,
}
use mathlib.Core.List.{reverse}
use foreign_linux.Vfs.Mounts.{Mount, slash, strip_prefix, find_mountpoint}

pub data Errno : Type 0 where
  enoent enotdir eloop ebadf : Errno
  other : ℕ → Errno

-- What `fs->open` answers: 0, a negative number, or 1 with the target of a symbolic link. No file
-- system answers another positive number, which `vfs_openat` would return.
pub data Opened : Type 0 where
  opened : Opened
  failed : Errno → Opened
  link : (target : List ℕ) → Opened

-- The file systems by their number, some of which have no `open`.
pub record World : Type 0 where
  pub root_id : ℕ
  pub mounts : List Mount
  pub fs_open : (fs_id : ℕ) → Option (Mount → (subpath : List ℕ) → Opened)

-- The real path and what is left of `symlink_remain`. `exhausted` is a lack of fuel.
pub data Resolved : Type 0 where
  resolved : (realpath : List ℕ) (symlink_remain : ℕ) → Resolved
  errno : Errno → Resolved
  exhausted : Resolved

abbrev pub dot : ℕ
dot = b'.'

-- `for (realpath--; *realpath != '/'; realpath--)`
pub remove_basename : List ℕ → List ℕ
remove_basename [] = []
remove_basename (c ∷ cs) = let rest = remove_basename cs in if c == slash then cs else rest

-- `if (realpath > realpath_start && realpath[-1] == '/') realpath--`
abbrev pub strip_slash : List ℕ → List ℕ
strip_slash [] = []
strip_slash (c ∷ cs) = if c == slash then cs else c ∷ cs

-- The component up to the next slash, and what the pointer stands on then.
pub take_component : List ℕ → List ℕ × List ℕ
take_component [] = ([], [])
take_component (c ∷ cs) =
    let rest = take_component cs in if c == slash then ([], c ∷ cs) else (c ∷ rest.0, rest.1)

-- One round of the loop: `component` is what `pathname` holds up to a slash or to the end.
pub data Round : Type 0 where
  skip parent : (pathname : List ℕ) → Round
  component : (name pathname : List ℕ) → Round

pub next_round : (pathname : List ℕ) → Round
unfolding take_component strip_prefix
next_round pathname = elim (strip_prefix (slash ∷ []) pathname) [
  | some rest ↦ skip rest
  | none ↦ elim (strip_prefix (dot ∷ slash ∷ []) pathname) [
    | some rest ↦ skip rest
    | none ↦ elim (strip_prefix (dot ∷ dot ∷ slash ∷ []) pathname) [
      | some rest ↦ parent rest
      | none ↦ component (take_component pathname).0 (take_component pathname).1
    ]
  ]
]

-- The last component, which may be "." or "..".
pub normalize : (realpath : List ℕ) → List ℕ
unfolding strip_prefix remove_basename
normalize realpath = elim (strip_prefix (dot ∷ slash ∷ []) realpath) [
  | some rest ↦ rest
  | none ↦ elim (strip_prefix (dot ∷ dot ∷ slash ∷ []) realpath) [
    | some rest ↦ (if ltb 1 (length rest) then remove_basename rest else rest)
    | none ↦ realpath
  ]
]

abbrev pub or_slash : List ℕ → List ℕ
or_slash [] = slash ∷ []
or_slash (c ∷ cs) = c ∷ cs

abbrev pub open_below : World → Option (Mount × List ℕ) → (no_mount no_open : Errno) → Opened
open_below w none no_mount no_open = failed no_mount
open_below w (some (mp, subpath)) no_mount no_open = elim (w.fs_open mp.fs_id) [
  | none ↦ failed no_open
  | some op ↦ op mp subpath
]

-- `find_mountpoint` and `fs->open` on what is written so far.
pub open_component : World → (realpath : List ℕ) → Opened
open_component w realpath =
    open_below w (find_mountpoint w.root_id w.mounts (reverse realpath)) enotdir enotdir

-- `dirpath` is written like a real path.
pub data Task : Type 0 where
  path : (dirpath pathname : List ℕ) → Task
  walk : (pathname realpath : List ℕ) → Task
  inner : (pathname realpath : List ℕ) → Task

-- `path` is `resolve_path`, `walk` its loop over `pathname`, and `inner` the loop that resolves a
-- component which a slash follows.
pub resolve : (fuel : ℕ) → World → Task → (symlink_remain : ℕ) → Resolved
unfolding next_round normalize open_component remove_basename
resolve zero w t k = exhausted
resolve (suc n) w (path dirpath []) k = errno enoent
resolve (suc n) w (path dirpath (c ∷ cs)) k = elim (c == slash) [
  | true ↦ resolve n w (walk cs []) k
  | false ↦ resolve n w (walk (c ∷ cs) (strip_slash dirpath)) k
]
resolve (suc n) w (walk [] realpath) k = resolved (or_slash realpath) k
resolve (suc n) w (walk (c ∷ cs) realpath) k = elim (next_round (c ∷ cs)) [
  | skip rest ↦ resolve n w (walk rest realpath) k
  | parent rest ↦ resolve n w (walk rest (remove_basename realpath)) k
  | component name [] ↦ resolved (or_slash (normalize (reverse name ++ slash ∷ realpath))) k
  | component name (d ∷ rest) ↦ resolve n w (inner rest (reverse name ++ slash ∷ realpath)) k
]
resolve (suc n) w (inner rest realpath) k = elim (open_component w realpath) [
  | opened ↦ resolve n w (walk rest realpath) k
  | failed e ↦ errno e
  | link target ↦ elim k [
    | zero ↦ errno eloop
    | suc k ↦ elim (resolve n w (path (remove_basename realpath) target) k) [
      | resolved realpath k ↦ resolve n w (inner rest (strip_slash realpath)) k
      | errno e ↦ errno e
      | exhausted ↦ exhausted
    ]
  ]
]

abbrev pub path_max : ℕ
path_max = 4096

abbrev pub max_symlink_level : ℕ
max_symlink_level = 8

-- Fuel for `k` links whose targets have at most `bound` bytes.
pub links : (bound k : ℕ) → ℕ
links bound zero = 0
links bound (suc k) = bound + 4 + links bound k

pub resolve_path : World → (dirpath pathname : List ℕ) → (symlink_remain : ℕ) → Resolved
unfolding resolve links
resolve_path w dirpath pathname k =
    resolve (length pathname + 2 + links path_max k) w (path dirpath pathname) k

abbrev pub is_absolute : List ℕ → Bool
is_absolute [] = false
is_absolute (c ∷ cs) = c == slash

abbrev pub or_empty : Option (List ℕ) → List ℕ
or_empty none = []
or_empty (some dirpath) = dirpath

-- `dir` is the path of the file `dirfd` or of `cwd`, or `none` where there is no such file.
pub resolve_pathat :
    World → (dir : Option (List ℕ)) → (pathname : List ℕ) → (symlink_remain : ℕ) → Resolved
unfolding resolve_path
resolve_pathat w dir pathname k = elim (is_absolute pathname) [
  | true ↦ resolve_path w (or_empty dir) pathname k
  | false ↦ elim dir [ none ↦ errno ebadf | some dirpath ↦ resolve_path w dirpath pathname k ]
]

-- What vfs_openat returns: `file` has the real path that is open.
pub data OpenResult : Type 0 where
  file : (realpath : List ℕ) → OpenResult
  errno : Errno → OpenResult
  exhausted : OpenResult

-- `fs->open` with the flags of the call, for the last component.
abbrev pub open_last :
    World → (opener : ℕ → Mount → (subpath : List ℕ) → Opened) → (realpath : List ℕ) → Opened
open_last w opener realpath = elim (find_mountpoint w.root_id w.mounts (reverse realpath)) [
  | none ↦ failed enoent
  | some (mp, subpath) ↦ opener mp.fs_id mp subpath
]

pub openat_loop :
    (fuel : ℕ) → World → (opener : ℕ → Mount → List ℕ → Opened) → Resolved → OpenResult
unfolding resolve_path remove_basename
openat_loop zero w opener r = exhausted
openat_loop (suc n) w opener exhausted = exhausted
openat_loop (suc n) w opener (errno e) = errno e
openat_loop (suc n) w opener (resolved realpath k) = elim (open_last w opener realpath) [
  | opened ↦ file realpath
  | failed e ↦ errno e
  | link target ↦ elim k [
    | zero ↦ errno eloop
    | suc k ↦ openat_loop n w opener (resolve_path w (remove_basename realpath) target k)
  ]
]

pub vfs_openat :
    World
    → (opener : ℕ → Mount → List ℕ → Opened) → (dir : Option (List ℕ)) → (pathname : List ℕ)
    → OpenResult
unfolding resolve_pathat openat_loop
vfs_openat w opener dir pathname =
    openat_loop (max_symlink_level + 1) w opener (resolve_pathat w dir pathname max_symlink_level)
