-- ===== src/Vfs/Mounts.antt =====
-- src/syscall/vfs.c: the mount points. They are the list that `mp_first` and the fields `next` chain.
-- No call gives a mount point back. The slots in use are those of the list, and those that a process
-- has taken before it ended because the path was mounted. A path is the list of its bytes.
pub mod Sorted
pub mod Lies
pub mod Longest
mod Tests
use foreign_linux.Base.{
  ℕ, zero, suc, ◌+◌, ◌-◌, Bool, true, false, ◌||◌, Option, none, some, List, [], ◌∷◌, ltb, ◌==◌,
  length, if◌then◌else◌,
}

pub record Mount : Type 0 where
  pub id : ℕ
  pub is_system : Bool
  pub fs_id : ℕ
  pub key : ℕ
  pub win_path : List ℕ
  pub mountpoint : List ℕ

pub record Shared : Type 0 where
  pub mounts : List Mount
  pub leaked : List ℕ
  pub max_key : ℕ

abbrev pub max_mount_points : ℕ
max_mount_points = 64

-- The sign of `strcmp`.
pub data Comparison : Type 0 where
  less equal greater : Comparison

unfoldable pub strcmp : List ℕ → List ℕ → Comparison
strcmp [] [] = equal
strcmp [] (b ∷ ys) = less
strcmp (a ∷ xs) [] = greater
strcmp (a ∷ xs) (b ∷ ys) =
    let rest = strcmp xs ys in if ltb a b then less else if ltb b a then greater else rest

pub is_used : ℕ → List Mount → Bool
is_used i [] = false
is_used i (m ∷ ms) = m.id == i || is_used i ms

abbrev pub is_leaked : ℕ → List ℕ → Bool
is_leaked i [] = false
is_leaked i (j ∷ js) = j == i || is_leaked i js

-- The first free slot from `i` on; `n` slots are left.
pub empty_slot_loop : (n i : ℕ) → Shared → Option ℕ
unfolding is_used
empty_slot_loop zero i s = none
empty_slot_loop (suc n) i s =
    let rest = empty_slot_loop n (suc i) s in
    if is_used i s.mounts || is_leaked i s.leaked then rest else some i

abbrev pub keep_first : Mount → Option (List Mount) → Option (List Mount)
keep_first m none = none
keep_first m (some ms) = some (m ∷ ms)

-- `none` is the end of the process, where a mount point has the same path.
pub insert_loop : Mount → List Mount → Option (List Mount)
unfolding strcmp
insert_loop new [] = some (new ∷ [])
insert_loop new (m ∷ ms) =
    let rest = insert_loop new ms in
    elim (strcmp new.mountpoint m.mountpoint) [
      | equal ↦ none
      | greater ↦ some (new ∷ m ∷ ms)
      | less ↦ keep_first m rest
    ]

-- The return value: 1 stands for `true`.
abbrev pub returned : (i : ℕ) → Mount → List Mount → ℕ
unfolding strcmp
returned i new [] = i
returned i new (m ∷ ms) =
    let rest = returned i new ms in
    elim (strcmp new.mountpoint m.mountpoint) [ less ↦ rest | greater ↦ 1 | equal ↦ 0 ]

pub data MountResult : Type 0 where
  mounted : Shared → (result : ℕ) → MountResult
  process_exit : Shared → MountResult
  full : MountResult

abbrev pub link_in : Shared → (i : ℕ) → Mount → Option (List Mount) → MountResult
unfolding returned
link_in s i new none = process_exit (record s { leaked = i ∷ s.leaked; max_key = s.max_key + 1 })
link_in s i new (some ms) =
    mounted (record s { mounts = ms; max_key = s.max_key + 1 }) (returned i new s.mounts)

abbrev pub new_mount :
    Shared → (i fs_id : ℕ) → (is_system : Bool) → (win_path mount_path : List ℕ) → Mount
new_mount s i fs_id is_system win_path mount_path = record {
  id = i;
  is_system = is_system;
  fs_id = fs_id;
  key = s.max_key + 1;
  win_path = win_path;
  mountpoint = mount_path;
}

-- A missing `win_path` is the empty one.
pub vfs_mount_unsafe :
    Shared → (fs_id : ℕ) → (is_system : Bool) → (win_path mount_path : List ℕ) → MountResult
unfolding empty_slot_loop insert_loop
vfs_mount_unsafe s fs_id is_system win_path mount_path =
    elim (empty_slot_loop (max_mount_points - 1) 1 s) [
      | none ↦ full
      | some i ↦
          let new = new_mount s i fs_id is_system win_path mount_path in
          link_in s i new (insert_loop new s.mounts)
    ]

unfoldable pub strip_prefix : (p s : List ℕ) → Option (List ℕ)
strip_prefix [] s = some s
strip_prefix (a ∷ xs) [] = none
strip_prefix (a ∷ xs) (b ∷ ys) = let rest = strip_prefix xs ys in if a == b then rest else none

abbrev pub slash : ℕ
slash = b'/'

abbrev pub ends_component : List ℕ → Bool
ends_component [] = true
ends_component (c ∷ cs) = c == slash

abbrev pub skip_slash : List ℕ → List ℕ
skip_slash [] = []
skip_slash (c ∷ cs) = if c == slash then cs else c ∷ cs

-- The path below a mount point, if the path lies there.
abbrev pub below : (root_id : ℕ) → Mount → (path : List ℕ) → Option (List ℕ)
unfolding strip_prefix
below root_id m path = elim (strip_prefix m.mountpoint path) [
  | none ↦ none
  | some subpath ↦
      (if m.id == root_id || ends_component subpath then some (skip_slash subpath) else none)
]

pub find_mountpoint : (root_id : ℕ) → List Mount → (path : List ℕ) → Option (Mount × List ℕ)
unfolding below
find_mountpoint root_id [] path = none
find_mountpoint root_id (m ∷ ms) path = elim (below root_id m path) [
  | some subpath ↦ some (m, subpath)
  | none ↦ find_mountpoint root_id ms path
]

pub vfs_get_mountpoint : (key : ℕ) → List Mount → Option Mount
vfs_get_mountpoint key [] = none
vfs_get_mountpoint key (m ∷ ms) =
    let rest = vfs_get_mountpoint key ms in if m.key == key then some m else rest
