-- ===== src/Vfs/Fork/Tests.antt =====
-- src/syscall/vfs.c: fork with the file 7 in two descriptors of three, and a sort by insertion.
use foreign_linux.Base.{ℕ, ◌≡◌, refl, true, false, List, [], ◌∷◌, arith, if◌then◌else◌, ◌==◌}
use mathlib.Core.List.{Permᴰ}
use foreign_linux.Vfs.Descriptors.{State, filed_of, empty_slot}
use foreign_linux.Vfs.Descriptors.Counting.{holders}
use foreign_linux.Vfs.Fork.{
  IsSorted, cmpfiled, index_loop, compare_slots, visits, vfs_fork, vfs_fork_lem,
}

abbrev forked : State
forked = record {
  filed = filed_of 7 true ∷ empty_slot ∷ filed_of 7 false ∷ [];
  ref = λ f. if 7 == f then 2 else 0;
  flags = λ f. 0;
  closed = [];
  umask = 18;
}

abbrev insert : (ℕ → ℕ → ℕ) → ℕ → List ℕ → List ℕ
insert compar x [] = x ∷ []
insert compar x (y ∷ ys) =
    let rest = insert compar x ys in if compar x y == 2 then y ∷ rest else x ∷ y ∷ ys

abbrev sort : (ℕ → ℕ → ℕ) → List ℕ → List ℕ
sort compar [] = []
sort compar (x ∷ xs) = insert compar x (sort compar xs)

sort-IsSorted :
    IsSorted (compare_slots forked) (0 ∷ 1 ∷ 2 ∷ []) (sort (compare_slots forked) (0 ∷ 1 ∷ 2 ∷ []))
unfolding cmpfiled compare_slots
sort-IsSorted = record {
  same_elements = Permᴰ.swap refl refl;
  in_order = ((λ e. ground arith, (λ e. ground arith, tt)), ((λ e. ground arith, tt), (tt, tt)));
}

vfs_fork_lem_example :
    (visits 7 (vfs_fork sort true forked).0
      ≡ (if true then (if holders 7 forked.filed == 0 then 0 else 1) else 0))
    × ((vfs_fork sort true forked).1 ≡ true)
unfolding index_loop compare_slots
vfs_fork_lem_example = vfs_fork_lem sort true forked 7 sort-IsSorted
