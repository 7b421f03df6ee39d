-- ===== src/Vfs/Mounts/Tests.antt =====
-- src/syscall/vfs.c with the mount points "/dev" and "/".
use foreign_linux.Base.{ℕ, ◌≡◌, refl, true, false, none, some, List, [], ◌∷◌, arith, All}
use foreign_linux.Vfs.Mounts.{
  Mount, Shared, strcmp, is_used, empty_slot_loop, insert_loop, mounted, new_mount,
  vfs_mount_unsafe, find_mountpoint,
}
use foreign_linux.Vfs.Mounts.Lies.{Lies}
use foreign_linux.Vfs.Mounts.Sorted.{
  IsDescending, IsNumbered, IsMounted, vfs_mount_unsafe-IsMounted,
}
use foreign_linux.Vfs.Mounts.Longest.{Occurs, NoneLonger, find_mountpoint_lem}

abbrev mount : ℕ → List ℕ → Mount
mount id mountpoint = record {
  id = id;
  is_system = true;
  fs_id = 0;
  key = id;
  win_path = [];
  mountpoint = mountpoint;
}

abbrev root_path : List ℕ
root_path = b'/' ∷ []

abbrev dev_path : List ℕ
dev_path = b'/' ∷ b'd' ∷ b'e' ∷ b'v' ∷ []

abbrev home_path : List ℕ
home_path = b'/' ∷ b'h' ∷ []

abbrev two_mounts : List Mount
two_mounts = mount 2 dev_path ∷ mount 1 root_path ∷ []

two_mounts-IsDescending : IsDescending two_mounts
unfolding strcmp
two_mounts-IsDescending = ((refl, tt), (tt, tt))

two_mounts-IsNumbered : IsNumbered two_mounts
unfolding is_used
two_mounts-IsNumbered = (omega arith, refl, (omega arith, refl, tt))

abbrev shared : Shared
shared = record { mounts = two_mounts; leaked = 5 ∷ []; max_key = 2 }

abbrev more : Shared
more = record {
  mounts = new_mount shared 3 0 false [] home_path ∷ two_mounts;
  leaked = 5 ∷ [];
  max_key = 3;
}

home_mounted : vfs_mount_unsafe shared 0 false [] home_path ≡ mounted more 1
unfolding vfs_mount_unsafe empty_slot_loop insert_loop is_used strcmp
home_mounted = refl

vfs_mount_unsafe-IsMounted_example : IsMounted shared more home_path
vfs_mount_unsafe-IsMounted_example =
    vfs_mount_unsafe-IsMounted shared more 0 false [] home_path 1 two_mounts-IsDescending
      two_mounts-IsNumbered home_mounted

find_mountpoint_lem_example :
    ((m : Mount) (sub : List ℕ)
      → find_mountpoint 1 two_mounts dev_path ≡ some (m, sub)
      → Occurs m two_mounts × Lies 1 m dev_path sub × NoneLonger 1 dev_path m two_mounts)
    × (find_mountpoint 1 two_mounts dev_path ≡ none
        → All (λ n. (t : List ℕ) → ¬ Lies 1 n dev_path t) two_mounts)
find_mountpoint_lem_example = find_mountpoint_lem 1 two_mounts dev_path two_mounts-IsDescending
