-- ===== src/Vfs/Fork.antt =====
-- src/syscall/vfs.c: fork sorts the indices of the table by the files in the slots, visits the files in
-- this order, and leaves out a file that is the same as the last one. `qsort` is a parameter.
mod Tests
use foreign_linux.Base.{
  ℕ, zero, suc, ◌+◌, ◌≤◌, ◌<◌, ◌≡◌, ◌≢◌, refl, Bool, true, false, Option, none, some, List, [], ◌∷◌,
  ◌++◌, length, get_or, append_assoc, length-append, sym, ap, ◌∙◌, arith, ltb, ◌==◌, if◌then◌else◌,
  Bool-cases, inl, inr, All,
}
use mathlib.Core.List.{Permᴰ}
use foreign_linux.Vfs.Descriptors.{Filed, State, slot, empty_slot}
use foreign_linux.Vfs.Descriptors.Counting.{holds, holders}

-- The result of `cmpfiled`: 2 for 1, 0 for -1, and 1 for 0. `NULL` is below each file.
pub cmpfiled : (filea fileb : Option ℕ) → ℕ
cmpfiled none none = 1
cmpfiled none (some g) = 0
cmpfiled (some f) none = 2
cmpfiled (some f) (some g) = if ltb g f then 2 else if ltb f g then 0 else 1

abbrev pub is_last : Option ℕ → ℕ → Bool
is_last none f = false
is_last (some g) f = g == f

-- The files whose `fork` operation is called, or whose lock is taken; also those of the two loops after
-- fork.
pub visit_loop : (last : Option ℕ) → (order : List (Option ℕ)) → List ℕ
visit_loop last [] = []
visit_loop last (none ∷ order) = visit_loop none order
visit_loop last (some f ∷ order) =
    let rest = visit_loop (some f) order in if is_last last f then rest else f ∷ rest

-- The first loop: the indices from `i` on.
pub index_loop : (n i : ℕ) → List ℕ
index_loop zero i = []
index_loop (suc n) i = i ∷ index_loop n (suc i)

-- What the indices lead to.
unfoldable pub files_at : State → List ℕ → List (Option ℕ)
files_at s [] = []
files_at s (i ∷ index) = (slot s i).fd ∷ files_at s index

abbrev pub compare_slots : State → ℕ → ℕ → ℕ
unfolding cmpfiled
compare_slots s a b = cmpfiled (slot s a).fd (slot s b).fd

-- `forked` is the answer of `console_fork`. The result is the files that are visited, and the return
-- value.
pub vfs_fork : ((ℕ → ℕ → ℕ) → List ℕ → List ℕ) → (forked : Bool) → State → List ℕ × Bool
unfolding visit_loop index_loop files_at compare_slots
vfs_fork qsort forked s =
    if forked
    then (
      visit_loop none (files_at s (qsort (compare_slots s) (index_loop (length s.filed) 0))),
      true,
    )
    else ([], false)

-- What `qsort` promises for an order: the elements stay the same, and none compares as greater than
-- one behind it.
abbrev pub InOrder : (ℕ → ℕ → ℕ) → List ℕ → Type 0
InOrder compar [] = Unit {0}
InOrder compar (x ∷ xs) = All (λ y. compar x y ≢ 2) xs × InOrder compar xs

pub record IsSorted (compar : ℕ → ℕ → ℕ) (xs ys : List ℕ) : Type 0 where
  pub same_elements : Permᴰ ys xs
  pub in_order : InOrder compar ys

-- Each element compares as not greater with all behind it.
abbrev pub IsOrdered : List (Option ℕ) → Type 0
IsOrdered [] = Unit {0}
IsOrdered (x ∷ xs) = All (λ y. cmpfiled x y ≢ 2) xs × IsOrdered xs

unfoldable pub occurrences : ℕ → List (Option ℕ) → ℕ
occurrences f [] = 0
occurrences f (x ∷ xs) = holds f x + occurrences f xs

unfoldable pub visits : ℕ → List ℕ → ℕ
visits f [] = 0
visits f (g ∷ gs) = (if g == f then 1 else 0) + visits f gs

abbrev pub at_most_one : ℕ → ℕ
at_most_one n = if n == 0 then 0 else 1

not_behind :
    (f g : ℕ) (xs : List (Option ℕ))
    → f < g
    → All (λ y. cmpfiled (some g) y ≢ 2) xs
    → occurrences f xs ≡ 0
unfolding cmpfiled occurrences
not_behind f g [] h a = refl
not_behind f g (none ∷ xs) h (p, a) = absurd (p refl)
not_behind f g (some x ∷ xs) h (p, a) = ground (arith, not_behind f g xs h a, p)

above : (g x : ℕ) → cmpfiled (some g) (some x) ≢ 2 → g ≢ x → g < x
unfolding cmpfiled
above g x p n = elim (Bool-cases (ltb x g)) [
  | inl e ↦ absurd (p (rw (e, cmpfiled) refl))
  | inr e ↦ ground (arith, e)
]

none_first : (xs : List (Option ℕ)) → All (λ y. cmpfiled none y ≢ 2) xs
unfolding cmpfiled
none_first [] = tt
none_first (none ∷ xs) = (λ e. ground arith, none_first xs)
none_first (some x ∷ xs) = (λ e. ground arith, none_first xs)

visit_loop_lem :
    (f : ℕ) (last : Option ℕ) (xs : List (Option ℕ))
    → IsOrdered (last ∷ xs)
    → visits f (visit_loop last xs) ≡ (if is_last last f then 0 else at_most_one (occurrences f xs))
unfolding visit_loop occurrences visits cmpfiled
visit_loop_lem f none [] s = refl
visit_loop_lem f (some g) [] s = ground arith
visit_loop_lem f none (none ∷ xs) (a, s) = ground (arith, visit_loop_lem f none xs s)
visit_loop_lem f (some g) (none ∷ xs) ((p, a), s) = absurd (p refl)
visit_loop_lem f none (some x ∷ xs) (a, s) = ground (arith, visit_loop_lem f (some x) xs s)
visit_loop_lem f (some g) (some x ∷ xs) ((p, a), (b, s)) =
    let ih = visit_loop_lem f (some x) xs (b, s) in
    elim (Bool-cases (g == x)) [
      | inl e ↦ rw (e, visit_loop) (ground (arith, ih, e))
      | inr e ↦
          let h : g < x = above g x p (ground (arith, e)) in
          rw (e, visit_loop)
            (elim (Bool-cases (g == f)) [
              | inl q ↦
                  let r : f < x = ground (arith, q, h) in
                  let z : occurrences f xs ≡ 0 = not_behind f x xs r b in
                  ground (arith, ih, q, r, z)
              | inr q ↦ ground (arith, ih, q)
            ])
    ]

files_at-Permᴰ :
    (s : State) (f : ℕ) {xs ys : List ℕ}
    → Permᴰ xs ys
    → occurrences f (files_at s xs) ≡ occurrences f (files_at s ys)
unfolding occurrences files_at
files_at-Permᴰ s f Permᴰ.nil = refl
files_at-Permᴰ s f (Permᴰ.cons {b} e p) = rw e (omega (arith, files_at-Permᴰ s f p))
files_at-Permᴰ s f (Permᴰ.swap e g) = rw (e, g) (omega arith)
files_at-Permᴰ s f (Permᴰ.trans p q) = files_at-Permᴰ s f p ∙ files_at-Permᴰ s f q

files_at-IsOrdered :
    (s : State) (xs : List ℕ) → InOrder (compare_slots s) xs → IsOrdered (files_at s xs)
unfolding files_at cmpfiled compare_slots
files_at-IsOrdered s [] o = tt
files_at-IsOrdered s (x ∷ xs) (a, o) = (behind xs a, files_at-IsOrdered s xs o)
  where
    behind :
        (ys : List ℕ)
        → All (λ y. compare_slots s x y ≢ 2) ys
        → All (λ y. cmpfiled (slot s x).fd y ≢ 2) (files_at s ys)
    behind [] a = tt
    behind (y ∷ ys) (n, a) = (n, behind ys a)

slot_behind :
    (front ds : List Filed) (d : Filed) → get_or (front ++ d ∷ ds) (length front) empty_slot ≡ d
slot_behind [] ds d = refl
slot_behind (x ∷ front) ds d = slot_behind front ds d

-- The slots from `i` on, one by one.
indices-holders :
    (s : State) (f i : ℕ) (front ds : List Filed)
    → s.filed ≡ front ++ ds
    → length front ≡ i
    → occurrences f (files_at s (index_loop (length ds) i)) ≡ holders f ds
unfolding index_loop files_at occurrences holders
indices-holders s f i front [] e l = refl
indices-holders s f i front (d ∷ ds) e l =
    let here : slot s i ≡ d = rw (e, ← l) (slot_behind front ds d) in
    let rest =
      indices-holders s f (suc i) (front ++ d ∷ []) ds (e ∙ sym (append_assoc front (d ∷ []) ds))
        (omega (arith, length-append front (d ∷ []), l)) in
    rw (here, rest) refl

-- If `qsort` sorts the indices of the table, then fork visits each file that a descriptor holds
-- exactly once, however many descriptors hold it, and no other file, and returns true; where
-- `console_fork` has failed it visits no file and returns false.
pub vfs_fork_lem :
    (qsort : (ℕ → ℕ → ℕ) → List ℕ → List ℕ) (forked : Bool) (s : State) (f : ℕ)
    → (let index = index_loop (length s.filed) 0 in
        IsSorted (compare_slots s) index (qsort (compare_slots s) index))
    → (visits f (vfs_fork qsort forked s).0
        ≡ (if forked then (if holders f s.filed == 0 then 0 else 1) else 0))
      × ((vfs_fork qsort forked s).1 ≡ forked)
unfolding vfs_fork visits
vfs_fork_lem qsort false s f h = (refl, refl)
vfs_fork_lem qsort true s f h =
    let index : List ℕ = index_loop (length s.filed) 0 in
    let order : List (Option ℕ) = files_at s (qsort (compare_slots s) index) in
    let c : occurrences f order ≡ holders f s.filed =
      files_at-Permᴰ s f h.same_elements ∙ indices-holders s f 0 [] s.filed refl refl in
    (
      rw (← c) (
          visit_loop_lem f none order
            (none_first order, files_at-IsOrdered s (qsort (compare_slots s) index) h.in_order)),
      refl,
    )
