-- ===== src/Vfs/Mounts/Longest.antt =====
-- src/syscall/vfs.c: the descending order makes the search find the longest mount point of a path.
use foreign_linux.Base.{
  ℕ, ◌≤◌, ◌<◌, ◌≡◌, ◌≢◌, ◌⊎◌, refl, Option, none, some, List, [], ◌∷◌, arith, length, Option-cases,
  inl, inr, All,
}
use foreign_linux.Vfs.Mounts.{Mount, strcmp, strip_prefix, below, find_mountpoint}
use foreign_linux.Vfs.Mounts.Lies.{Lies, below-Lies, Lies-below}
use foreign_linux.Vfs.Mounts.Sorted.{Above, IsDescending}

-- Of two paths that a third one begins with, the greater is the longer.
longer :
    (p q s : List ℕ)
    → strip_prefix p s ≢ none
    → strip_prefix q s ≢ none
    → Above p q
    → length q < length p
unfolding strcmp strip_prefix
longer [] [] s h k g = ground arith
longer [] (b ∷ q) s h k g = ground arith
longer (a ∷ p) [] s h k g = ground arith
longer (a ∷ p) (b ∷ q) [] h k g = ground arith
longer (a ∷ p) (b ∷ q) (c ∷ s) h k g = ground (arith, longer p q s)

-- The path lies below the mount point.
abbrev pub Holds : ℕ → List ℕ → Mount → Type 0
Holds root_id path m = below root_id m path ≢ none

Holds-strip_prefix :
    (root_id : ℕ) (path : List ℕ) (m : Mount)
    → Holds root_id path m
    → strip_prefix m.mountpoint path ≢ none
unfolding below
Holds-strip_prefix root_id path m h = λ e. h (rw (e, below) refl)

abbrev pub NotLonger : ℕ → List ℕ → Mount → Mount → Type 0
NotLonger root_id path m n =
    (below root_id n path ≡ none) ⊎ (length n.mountpoint ≤ length m.mountpoint)

not_longer :
    (root_id : ℕ) (path sub : List ℕ) (m : Mount) (ms : List Mount)
    → below root_id m path ≡ some sub
    → All (λ n. Above m.mountpoint n.mountpoint) ms
    → All (NotLonger root_id path m) ms
not_longer root_id path sub m [] e a = tt
not_longer root_id path sub m (n ∷ ms) e (g, a) = (
  (elim (Option-cases (below root_id n path)) [
    | inl f ↦ inl f
    | inr (t, f) ↦
        let h : Holds root_id path m = λ o. ground arith in
        let k : Holds root_id path n = λ o. ground arith in
        let l : length n.mountpoint < length m.mountpoint =
          longer m.mountpoint n.mountpoint path (Holds-strip_prefix root_id path m h)
            (Holds-strip_prefix root_id path n k) g in
        inr (omega (arith, l))
  ]),
  not_longer root_id path sub m ms e a,
)

pub data Occurs (m : Mount) : List Mount → Type 0 where
  here : {ms : List Mount} → Occurs m (m ∷ ms)
  there : {n : Mount} {ms : List Mount} → Occurs m ms → Occurs m (n ∷ ms)

-- A path and what the search finds for it.
Found : ℕ → List ℕ → List Mount → Option (Mount × List ℕ) → Type 0
Found root_id path ms none = All (λ n. below root_id n path ≡ none) ms
Found root_id path ms (some (m, sub)) =
    Occurs m ms × (below root_id m path ≡ some sub) × All (NotLonger root_id path m) ms

Found-behind :
    (root_id : ℕ) (path : List ℕ) (n : Mount) (ms : List Mount) (o : Option (Mount × List ℕ))
    → below root_id n path ≡ none
    → Found root_id path ms o
    → Found root_id path (n ∷ ms) o
unfolding Found
Found-behind root_id path n ms none e f = (e, f)
Found-behind root_id path n ms (some (m, sub)) e (o, b, a) = (there o, b, (inl e, a))

find_mountpoint-Found :
    (root_id : ℕ) (ms : List Mount) (path : List ℕ)
    → IsDescending ms
    → Found root_id path ms (find_mountpoint root_id ms path)
unfolding find_mountpoint Found
find_mountpoint-Found root_id [] path d = tt
find_mountpoint-Found root_id (m ∷ ms) path (a, d) = elim (Option-cases (below root_id m path)) [
  | inl e ↦
      rw (e, find_mountpoint)
        (Found-behind root_id path m ms (find_mountpoint root_id ms path) e
          (find_mountpoint-Found root_id ms path d))
  | inr (sub, e) ↦
      rw (e, find_mountpoint) (here, e, (inr (omega arith), not_longer root_id path sub m ms e a))
]

longest-Found :
    (root_id : ℕ) (ms : List Mount) (path : List ℕ)
    → IsDescending ms
    → (o : Option (Mount × List ℕ)) → find_mountpoint root_id ms path ≡ o
    → Found root_id path ms o
longest-Found root_id ms path d o e = rw e at (find_mountpoint-Found root_id ms path d)

below-none :
    (root_id : ℕ) (m : Mount) (path t : List ℕ)
    → below root_id m path ≡ none
    → ¬ Lies root_id m path t
below-none root_id m path t e l =
    let f : below root_id m path ≡ some t = Lies-below root_id m path t l in ground (arith, e, f)

-- Each mount point that the path lies below is no longer than the one given.
abbrev pub NoneLonger : ℕ → List ℕ → Mount → List Mount → Type 0
NoneLonger root_id path m ms =
    All (λ n. (t : List ℕ) → Lies root_id n path t → length n.mountpoint ≤ length m.mountpoint) ms

none_longer :
    (root_id : ℕ) (path : List ℕ) (m : Mount) (ms : List Mount)
    → All (NotLonger root_id path m) ms
    → NoneLonger root_id path m ms
none_longer root_id path m [] a = tt
none_longer root_id path m (n ∷ ms) (inl e, a) =
    (λ t l. absurd (below-none root_id n path t e l), none_longer root_id path m ms a)
none_longer root_id path m (n ∷ ms) (inr h, a) = (λ t l. h, none_longer root_id path m ms a)

none-Lies :
    (root_id : ℕ) (path : List ℕ) (ms : List Mount)
    → All (λ n. below root_id n path ≡ none) ms
    → All (λ n. (t : List ℕ) → ¬ Lies root_id n path t) ms
none-Lies root_id path [] a = tt
none-Lies root_id path (n ∷ ms) (e, a) =
    (λ t. below-none root_id n path t e, none-Lies root_id path ms a)

-- In a table whose paths descend, the search finds a mount point that the path lies below, with the
-- rest of the path, and no mount point that the path lies below has a longer path; where it finds
-- none, the path lies below no mount point. A path lies below a mount point if it is that of the
-- mount point or goes on behind it with a slash; below the root it may go on at once.
pub find_mountpoint_lem :
    (root_id : ℕ) (ms : List Mount) (path : List ℕ)
    → IsDescending ms
    → ((m : Mount) (sub : List ℕ)
        → find_mountpoint root_id ms path ≡ some (m, sub)
        → Occurs m ms × Lies root_id m path sub × NoneLonger root_id path m ms)
      × (find_mountpoint root_id ms path ≡ none
          → All (λ n. (t : List ℕ) → ¬ Lies root_id n path t) ms)
unfolding Found
find_mountpoint_lem root_id ms path d = (
  λ m sub e.
      let (o, b, a) = longest-Found root_id ms path d (some (m, sub)) e in
      (o, below-Lies root_id m path sub b, none_longer root_id path m ms a),
  λ e. none-Lies root_id path ms (longest-Found root_id ms path d none e),
)
