-- ===== src/Vfs/Descriptors/Tests.antt =====
-- src/syscall/vfs.c with three descriptors: the file 7 in the first, with close-on-exec, and in the last.
use foreign_linux.Base.{
  ℕ, ◌+◌, ◌≡◌, ◌≢◌, ◌<◌, refl, true, false, none, some, List, [], ◌∷◌, arith, if◌then◌else◌, length,
  ◌==◌,
}
use foreign_linux.Vfs.Descriptors.{
  Filed, State, ok, emfile, slot, filed_of, empty_slot, minus_one, free_slot, vfs_dup, sys_dup,
  sys_dup2, sys_close, vfs_reset,
}
use foreign_linux.Vfs.Descriptors.Counting.{holders, IsCounted, member}
use foreign_linux.Vfs.Descriptors.Slots.{IsLowest, free_slot_lem}
use foreign_linux.Vfs.Descriptors.Steps.{Reach, here, next, dups, closes, Reach-counted}
use foreign_linux.Vfs.Descriptors.Tables.{sys_dup2_lem, sys_dup_lem, vfs_reset_lem}

abbrev three : List Filed
three = filed_of 7 true ∷ empty_slot ∷ filed_of 7 false ∷ []

abbrev start : State
start = record {
  filed = three;
  ref = λ f. if 7 == f then 2 else 0;
  flags = λ f. 0;
  closed = [];
  umask = 18;
}

start-IsCounted : IsCounted (λ f. 0) start
unfolding holders
start-IsCounted = record { counted = λ f. ground arith; closed_last = λ f m. ground arith }

-- dup2(0, 1), and then close(0).
abbrev finish : State
finish = (sys_close (vfs_dup start 0 1 false).0 0).0

start-finish : Reach start finish
start-finish = next (next here (dups 0 1 false)) (closes 0)

Reach-counted_example :
    (finish.ref 7 ≡ holders 7 finish.filed + 0)
    × (member 7 finish.closed ≡ true → (fd : ℕ) → (slot finish fd).fd ≢ some 7)
Reach-counted_example =
    Reach-counted (λ f. 0) {s = start} {t = finish} start-IsCounted start-finish 7

free_slot_lem_example :
    ((i : ℕ) → free_slot three ≡ some i → IsLowest three i)
    × (free_slot three ≡ none → (j : ℕ) → j < length three → (slot start j).fd ≢ none)
free_slot_lem_example = free_slot_lem three

sys_dup2_lem_example :
    ((sys_dup2 start 0 2).1 ≡ ok 2)
    × (slot (sys_dup2 start 0 2).0 2 ≡ filed_of 7 false)
    × ((j : ℕ) → 2 ≢ j → slot (sys_dup2 start 0 2).0 j ≡ slot start j)
sys_dup2_lem_example = sys_dup2_lem start 0 2 7 refl (omega arith) (omega arith) (omega arith)

sys_dup_lem_example :
    (sys_dup2 start 0 minus_one ≡ sys_dup start 0)
    × ((i : ℕ)
        → free_slot three ≡ some i
        → ((sys_dup start 0).1 ≡ ok i)
          × IsLowest three i
          × (slot (sys_dup start 0).0 i ≡ filed_of 7 false)
          × ((j : ℕ) → i ≢ j → slot (sys_dup start 0).0 j ≡ slot start j))
    × (free_slot three ≡ none
        → ((sys_dup start 0).1 ≡ emfile) × ((sys_dup start 0).0.filed ≡ three))
sys_dup_lem_example = sys_dup_lem start 0 7 refl

vfs_reset_lem_example :
    (slot (vfs_reset start) 0).fd ≡ (if (slot start 0).cloexec then none else (slot start 0).fd)
vfs_reset_lem_example = vfs_reset_lem start 0 (omega arith)
