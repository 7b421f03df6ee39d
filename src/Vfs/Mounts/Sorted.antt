-- ===== src/Vfs/Mounts/Sorted.antt =====
-- src/syscall/vfs.c: mounting keeps the list descending, and the numbers of the mount points apart.
use foreign_linux.Base.{
  ℕ, zero, suc, ◌+◌, ◌≤◌, ◌<◌, ◌≡◌, ◌⊎◌, refl, ap, Bool, false, ◌||◌, Option, none, some, List, [],
  ◌∷◌, arith, ◌==◌, Option-cases, inl, inr, All,
}
use foreign_linux.Vfs.Mounts.{
  Mount, Shared, Comparison, less, equal, greater, strcmp, is_used, empty_slot_loop,
  max_mount_points, insert_loop, keep_first, MountResult, mounted, full, process_exit, new_mount,
  vfs_mount_unsafe,
}

Comparison-cases : (c : Comparison) → (c ≡ less) ⊎ (c ≡ equal) ⊎ (c ≡ greater)
Comparison-cases less = inl refl
Comparison-cases equal = inr (inl refl)
Comparison-cases greater = inr (inr refl)

-- The first path is the greater one.
abbrev pub Above : List ℕ → List ℕ → Type 0
Above p q = strcmp p q ≡ greater

Above-of_less : (p q : List ℕ) → strcmp p q ≡ less → Above q p
unfolding strcmp
Above-of_less [] [] e = ground arith
Above-of_less [] (b ∷ q) e = refl
Above-of_less (a ∷ p) [] e = ground arith
Above-of_less (a ∷ p) (b ∷ q) e = ground (arith, Above-of_less p q)

Above-trans : (p q r : List ℕ) → Above p q → Above q r → Above p r
unfolding strcmp
Above-trans [] [] r g h = ground arith
Above-trans [] (b ∷ q) r g h = ground arith
Above-trans (a ∷ p) q [] g h = refl
Above-trans (a ∷ p) [] (c ∷ r) g h = ground arith
Above-trans (a ∷ p) (b ∷ q) (c ∷ r) g h = ground (arith, Above-trans p q r)

-- Each path in the list is above those behind it.
abbrev pub IsDescending : List Mount → Type 0
IsDescending [] = Unit {0}
IsDescending (m ∷ ms) = All (λ n. Above m.mountpoint n.mountpoint) ms × IsDescending ms

-- Each mount point has its own number, from 1 on.
abbrev pub IsNumbered : List Mount → Type 0
IsNumbered [] = Unit {0}
IsNumbered (m ∷ ms) = (0 < m.id) × (is_used m.id ms ≡ false) × IsNumbered ms

-- The second list is the first one with a mount point more.
pub data Inserted (new : Mount) : List Mount → List Mount → Type 0 where
  at_front : {ms : List Mount} → Inserted new ms (new ∷ ms)
  behind : {m : Mount} {ms ns : List Mount} → Inserted new ms ns → Inserted new (m ∷ ms) (m ∷ ns)

All-Inserted :
    {new : Mount} {ms ns : List Mount} (P : Mount → Type 0)
    → Inserted new ms ns
    → P new
    → All P ms
    → All P ns
All-Inserted P at_front p a = (p, a)
All-Inserted P (behind i) p (q, a) = (q, All-Inserted P i p a)

is_used-Inserted :
    {new : Mount} {ms ns : List Mount} (j : ℕ)
    → Inserted new ms ns
    → is_used j ns ≡ (new.id == j || is_used j ms)
unfolding is_used
is_used-Inserted j at_front = refl
is_used-Inserted j (behind i) = ground (arith, is_used-Inserted j i)

IsNumbered-Inserted :
    {new : Mount} {ms ns : List Mount}
    → Inserted new ms ns
    → 0 < new.id
    → is_used new.id ms ≡ false
    → IsNumbered ms
    → IsNumbered ns
unfolding is_used
IsNumbered-Inserted at_front h u n = (h, u, n)
IsNumbered-Inserted (behind {m} i) h u (k, v, n) =
    (k, ground (arith, is_used-Inserted m.id i), IsNumbered-Inserted i h (ground arith) n)

All-Above :
    (p q : List ℕ) (ms : List Mount)
    → Above p q
    → All (λ n. Above q n.mountpoint) ms
    → All (λ n. Above p n.mountpoint) ms
All-Above p q [] h a = tt
All-Above p q (m ∷ ms) h (g, a) = (Above-trans p q m.mountpoint h g, All-Above p q ms h a)

-- What the loop makes of the list, if it does not end the process.
InsertedInto : Mount → List Mount → Option (List Mount) → Type 0
InsertedInto new ms none = Unit {0}
InsertedInto new ms (some ns) = Inserted new ms ns × IsDescending ns

InsertedInto-keep_first :
    (new m : Mount) (ms : List Mount) (o : Option (List Mount))
    → strcmp new.mountpoint m.mountpoint ≡ less
    → All (λ n. Above m.mountpoint n.mountpoint) ms
    → InsertedInto new ms o
    → InsertedInto new (m ∷ ms) (keep_first m o)
unfolding InsertedInto
InsertedInto-keep_first new m ms none e a i = tt
InsertedInto-keep_first new m ms (some ns) e a (i, d) = (
  behind i,
  (
    All-Inserted (λ n. Above m.mountpoint n.mountpoint) i
        (Above-of_less new.mountpoint m.mountpoint e) a,
    d,
  ),
)

insert_loop-InsertedInto :
    (new : Mount) (ms : List Mount) → IsDescending ms → InsertedInto new ms (insert_loop new ms)
unfolding insert_loop InsertedInto
insert_loop-InsertedInto new [] d = (at_front, (tt, tt))
insert_loop-InsertedInto new (m ∷ ms) (a, d) =
    elim (Comparison-cases (strcmp new.mountpoint m.mountpoint)) [
      | inl e ↦
          rw (e, insert_loop)
            (InsertedInto-keep_first new m ms (insert_loop new ms) e a
              (insert_loop-InsertedInto new ms d))
      | inr (inl e) ↦ rw (e, insert_loop) tt
      | inr (inr e) ↦
          rw (e, insert_loop)
            (at_front, ((e, All-Above new.mountpoint m.mountpoint ms e a), (a, d)))
    ]

empty_slot_loop_lem :
    (n i : ℕ) (s : Shared) (j : ℕ)
    → empty_slot_loop n i s ≡ some j
    → (i ≤ j) × (j < i + n) × (is_used j s.mounts ≡ false)
unfolding empty_slot_loop
empty_slot_loop_lem zero i s j e = ground arith
empty_slot_loop_lem (suc n) i s j e = ground (arith, empty_slot_loop_lem n (suc i) s j)

the_insertion :
    (new : Mount) (ms ns : List Mount)
    → IsDescending ms
    → insert_loop new ms ≡ some ns
    → InsertedInto new ms (some ns)
the_insertion new ms ns d o = rw o at (insert_loop-InsertedInto new ms d)

-- The table that a call leaves.
abbrev mounts_of : MountResult → List Mount
mounts_of (mounted t result) = t.mounts
mounts_of full = []
mounts_of (process_exit t) = []

same_mounts : {t u : Shared} {m n : ℕ} → mounted t m ≡ mounted u n → t.mounts ≡ u.mounts
same_mounts e = ap mounts_of e

-- The table after a call of vfs_mount_unsafe that returns.
pub record IsMounted (s t : Shared) (mount_path : List ℕ) : Type 0 where
  pub new : Mount
  pub inserted : Inserted new s.mounts t.mounts
  pub path : new.mountpoint ≡ mount_path
  pub in_table : (0 < new.id) × (new.id < max_mount_points)
  pub descending : IsDescending t.mounts
  pub numbered : IsNumbered t.mounts

-- Mounting on a table whose paths descend and whose numbers are different adds one mount point with
-- the path to it, in a slot of its own, and keeps the order and the numbers so.
pub vfs_mount_unsafe-IsMounted :
    (s t : Shared) (fs_id : ℕ) (is_system : Bool) (win_path mount_path : List ℕ) (result : ℕ)
    → IsDescending s.mounts
    → IsNumbered s.mounts
    → vfs_mount_unsafe s fs_id is_system win_path mount_path ≡ mounted t result
    → IsMounted s t mount_path
unfolding vfs_mount_unsafe InsertedInto
vfs_mount_unsafe-IsMounted s t fs_id is_system win_path mount_path result d n e =
    elim (Option-cases (empty_slot_loop 63 1 s)) [
      | inl f ↦
          absurd (let g : full ≡ mounted t result = rw (f, vfs_mount_unsafe) at e in ground arith)
      | inr (i, f) ↦
          let new : Mount = new_mount s i fs_id is_system win_path mount_path in
          let (low, high, unused) = empty_slot_loop_lem 63 1 s i f in
          elim (Option-cases (insert_loop new s.mounts)) [
            | inl o ↦ absurd (
                let g : process_exit (record s { leaked = i ∷ s.leaked; max_key = s.max_key + 1 })
                    ≡ mounted t result =
                  rw (f, vfs_mount_unsafe, o) at e in
                ground arith)
            | inr (ns, o) ↦
                let (inserted, descending) = the_insertion new s.mounts ns d o in
                let g : ns ≡ t.mounts = same_mounts (rw (f, vfs_mount_unsafe, o) at e) in
                record {
                  new = new;
                  inserted = rw g at inserted;
                  path = refl;
                  in_table = (omega (arith, low), omega (arith, high));
                  descending = rw g at descending;
                  numbered = rw g at (IsNumbered-Inserted inserted (omega (arith, low)) unused n);
                }
          ]
    ]
