-- ===== src/Vfs/Paths/Resolves.antt =====
-- src/syscall/vfs.c: path resolution ends, and follows the relation of names.
use foreign_linux.Base.{
  ℕ, zero, suc, ◌+◌, ◌≤◌, ◌≡◌, ◌≢◌, ◌⊎◌, refl, ap, List, [], ◌∷◌, ◌++◌, arith, ◌==◌, length,
  Bool-cases, inl, inr, All,
}
use mathlib.Core.List.{reverse}
use foreign_linux.Vfs.Mounts.{slash}
use foreign_linux.Vfs.Paths.{
  dot, Errno, eloop, Opened, opened, failed, link, World, open_component, Resolved, resolved, errno,
  exhausted, or_slash, Task, path, walk, inner, resolve, links, path_max, resolve_path, Round, skip,
  parent, component, next_round, normalize, remove_basename, strip_slash,
}
use foreign_linux.Vfs.Paths.Names.{
  LastName, one_dot, two_dots, proper, last_name, normalize-last, reverse-IsProper, split-ne-nil,
  split, join, pop, IsProper, remove_basename-join, strip_slash-join, strip_slash_done,
}
use foreign_linux.Vfs.Paths.Rounds.{RoundOf, next_round-RoundOf}
use foreign_linux.Vfs.Paths.Leads.{Goal, from, names, entered, Outcome, at, error, Leads, Meets}

links-le : (bound j k : ℕ) → j ≤ k → links bound j ≤ links bound k
unfolding links
links-le bound zero k h = omega arith
links-le bound (suc j) zero h = absurd (omega arith)
links-le bound (suc j) (suc k) h = omega (arith, links-le bound j k (omega arith))

pub data Phase : Type 0 where
  begins goes_on enters : Phase

abbrev pub task_of : Phase → List (List ℕ) → List ℕ → Task
task_of begins st p = path (join st) p
task_of goes_on st p = walk p (join st)
task_of enters st p = inner p (join st)

abbrev pub goal_of : Phase → List (List ℕ) → List ℕ → Goal
goal_of begins st p = from st p
goal_of goes_on st p = names st (split p)
goal_of enters st p = entered st (split p)

abbrev pub fuel_of : Phase → (bound : ℕ) → List ℕ → ℕ → ℕ
fuel_of begins bound p k = length p + 2 + links bound k
fuel_of goes_on bound p k = length p + 1 + links bound k
fuel_of enters bound p k = length p + 2 + links bound k

-- No link has a longer target: PATH_MAX bytes are read.
abbrev pub IsShort : World → (bound : ℕ) → Type 0
IsShort w bound =
    (realpath target : List ℕ) → open_component w realpath ≡ link target → length target ≤ bound

pub Opened-cases :
    (a : Opened) → (a ≡ opened) ⊎ ((e : Errno) × (a ≡ failed e)) ⊎ ((t : List ℕ) × (a ≡ link t))
Opened-cases opened = inl refl
Opened-cases (failed e) = inr (inl (e, refl))
Opened-cases (link t) = inr (inr (t, refl))

Resolved-cases :
    (r : Resolved)
    → ((real : List ℕ) × (j : ℕ) × (r ≡ resolved real j))
      ⊎ ((e : Errno) × (r ≡ errno e))
      ⊎ (r ≡ exhausted)
Resolved-cases (resolved real j) = inl (real, j, refl)
Resolved-cases (errno e) = inr (inl (e, refl))
Resolved-cases exhausted = inr (inr refl)

-- The cases of a round, of an opened component and of the target of a link.
abbrev walk_round : ℕ → World → List ℕ → ℕ → Round → Resolved
walk_round n w realpath k (skip rest) = resolve n w (walk rest realpath) k
walk_round n w realpath k (parent rest) = resolve n w (walk rest (remove_basename realpath)) k
walk_round n w realpath k (component name []) =
    resolved (or_slash (normalize (reverse name ++ slash ∷ realpath))) k
walk_round n w realpath k (component name (d ∷ rest)) =
    resolve n w (inner rest (reverse name ++ slash ∷ realpath)) k

abbrev after_target : ℕ → World → List ℕ → Resolved → Resolved
after_target n w p (resolved realpath j) = resolve n w (inner p (strip_slash realpath)) j
after_target n w p (errno e) = errno e
after_target n w p exhausted = exhausted

abbrev enter_link : ℕ → World → List ℕ → List ℕ → List ℕ → ℕ → Resolved
enter_link n w p realpath t zero = errno eloop
enter_link n w p realpath t (suc k) =
    after_target n w p (resolve n w (path (remove_basename realpath) t) k)

abbrev enter_opened : ℕ → World → List ℕ → List ℕ → ℕ → Opened → Resolved
enter_opened n w p realpath k opened = resolve n w (walk p realpath) k
enter_opened n w p realpath k (failed e) = errno e
enter_opened n w p realpath k (link t) = enter_link n w p realpath t k

pub All-pop : (st : List (List ℕ)) → All IsProper st → All IsProper (pop st)
All-pop [] a = tt
All-pop (name ∷ st) (p, a) = a

module _ (w : World) (bound : ℕ) (short : IsShort w bound) where
  -- A path that leads to the same places, with more links.
  Meets-map-le :
      (g h : Goal) (j k : ℕ) (r : Resolved)
      → j ≤ k
      → ((o : Outcome) → Leads w g j o → Leads w h k o)
      → Meets w g j r
      → Meets w h k r
  Meets-map-le g h j k (resolved real i) le f (st, e, a, l, p) =
      (st, e, a, omega (arith, l, le), f (at st i) p)
  Meets-map-le g h j k (errno e) le f p = f (error e) p
  Meets-map-le g h j k exhausted le f p = p

  Meets-map :
      (g h : Goal) (k : ℕ) (r : Resolved)
      → ((o : Outcome) → Leads w g k o → Leads w h k o)
      → Meets w g k r
      → Meets w h k r
  Meets-map g h k r f m = Meets-map-le g h k k r (omega arith) f m

  -- The theorem for the fuel `n`.
  abbrev Induction : ℕ → Type 0
  Induction n =
      (phase : Phase) (st : List (List ℕ)) (p : List ℕ) (k : ℕ)
      → All IsProper st
      → fuel_of phase bound p k ≤ n
      → Meets w (goal_of phase st p) k (resolve n w (task_of phase st p) k)

  last-Meets :
      (name : List ℕ) (l : LastName name) (st : List (List ℕ)) (k : ℕ)
      → All IsProper st
      → Meets w
          (names st (name ∷ []))
          k
          (resolved (or_slash (normalize (reverse name ++ slash ∷ join st))) k)
  last-Meets name one_dot st k a =
      (st, ap or_slash (normalize-last name one_dot st a), a, omega arith, Leads.same Leads.ends)
  last-Meets name two_dots st k a = (
    pop st,
    ap or_slash (normalize-last name two_dots st a),
    All-pop st a,
    omega arith,
    Leads.up Leads.ends,
  )
  last-Meets name (proper p) st k a = (
    reverse name ∷ st,
    ap or_slash (normalize-last name (proper p) st a),
    (reverse-IsProper name p, a),
    omega arith,
    Leads.last p,
  )

  walk-Meets :
      (n : ℕ)
      → Induction n
      → (st : List (List ℕ)) (s : List ℕ) (k : ℕ) → All IsProper st
      → length s + links bound k ≤ n
      → (r : Round) → RoundOf s r
      → Meets w (names st (split s)) k (walk_round n w (join st) k r)
  unfolding join
  walk-Meets n ih st s k a h (skip rest) (inl f, l) = rw f (
      Meets-map (names st (split rest)) (names st ([] ∷ split rest)) k
        (resolve n w (walk rest (join st)) k) (λ o m. Leads.empty_name m)
        (ih goes_on st rest k a (omega (arith, l, h))))
  walk-Meets n ih st s k a h (skip rest) (inr f, l) = rw f (
      Meets-map (names st (split rest)) (names st ((dot ∷ []) ∷ split rest)) k
        (resolve n w (walk rest (join st)) k) (λ o m. Leads.same m)
        (ih goes_on st rest k a (omega (arith, l, h))))
  walk-Meets n ih st s k a h (parent rest) (f, l) =
      rw (f, remove_basename-join st a)
        (Meets-map (names (pop st) (split rest)) (names st ((dot ∷ dot ∷ []) ∷ split rest)) k
          (resolve n w (walk rest (join (pop st))) k) (λ o m. Leads.up m)
          (ih goes_on (pop st) rest k (All-pop st a) (omega (arith, l, h))))
  walk-Meets n ih st s k a h (component name []) (f, m, o) =
      rw f (last-Meets name (last_name name m o) st k a)
  walk-Meets n ih st s k a h (component name (d ∷ rest)) (f, p, l) = rw f (
      Meets-map (entered (reverse name ∷ st) (split rest)) (names st (name ∷ split rest)) k
        (resolve n w (inner rest (join (reverse name ∷ st))) k)
        (λ o m. Leads.enter p (split-ne-nil rest) m)
        (ih enters (reverse name ∷ st) rest k (reverse-IsProper name p, a) (omega (arith, l, h))))

  -- What the call for the target of a link gives.
  target-Meets :
      (n : ℕ)
      → Induction n
      → (st : List (List ℕ)) (p t : List ℕ) (k : ℕ) → open_component w (join st) ≡ link t
      → length p + 1 + links bound (suc k) ≤ n
      → (r : Resolved) → Meets w (from (pop st) t) k r
      → Meets w (entered st (split p)) (suc k) (after_target n w p r)
  unfolding links
  target-Meets n ih st p t k e h (resolved real j) (to, f, a, l, m) =
      rw (f, strip_slash-join to a)
        (let le : links bound j ≤ links bound k = links-le bound j k l in
          Meets-map-le (entered to (split p)) (entered st (split p)) j (suc k)
            (resolve n w (inner p (join to)) j) (omega (arith, l)) (λ o q. Leads.follow e m q)
            (ih enters to p j a (omega (arith, h, le))))
  target-Meets n ih st p t k e h (errno x) m = Leads.broken e m
  target-Meets n ih st p t k e h exhausted m = m

  enter-Meets :
      (n : ℕ)
      → Induction n
      → (st : List (List ℕ)) (p : List ℕ) (k : ℕ) → All IsProper st
      → length p + 1 + links bound k ≤ n
      → (x : Opened) → open_component w (join st) ≡ x
      → Meets w (entered st (split p)) k (enter_opened n w p (join st) k x)
  unfolding links
  enter-Meets n ih st p k a h opened e =
      Meets-map (names st (split p)) (entered st (split p)) k (resolve n w (walk p (join st)) k)
        (λ o m. Leads.directory e m) (ih goes_on st p k a h)
  enter-Meets n ih st p k a h (failed x) e = Leads.refused e
  enter-Meets n ih st p zero a h (link t) e = Leads.too_many e
  enter-Meets n ih st p (suc k) a h (link t) e = rw (remove_basename-join st a) (
      target-Meets n ih st p t k e h (resolve n w (path (join (pop st)) t) k)
        (ih begins (pop st) t k (All-pop st a) (omega (arith, h, short (join st) t e))))

  resolve-Meets : (n : ℕ) → Induction n
  unfolding resolve links join split
  resolve-Meets zero begins st p k a h = absurd (omega arith)
  resolve-Meets zero goes_on st p k a h = absurd (omega arith)
  resolve-Meets zero enters st p k a h = absurd (omega arith)
  resolve-Meets (suc n) begins st [] k a h = Leads.empty
  resolve-Meets (suc n) begins st (c ∷ cs) k a h = elim (Bool-cases (c == slash)) [
    | inl e ↦
        let s : c ≡ slash = ground (arith, e) in
        let m : Meets w (names [] (split cs)) k (resolve n w (walk cs []) k) =
          resolve-Meets n goes_on [] cs k tt (omega (arith, h)) in
        rw (s, resolve)
          (Meets-map (names [] (split cs)) (from st (slash ∷ cs)) k (resolve n w (walk cs []) k)
            (λ o l. Leads.absolute l) m)
    | inr e ↦
        let s : c ≢ slash = ground (arith, e) in
        let m = resolve-Meets n goes_on st (c ∷ cs) k a (omega (arith, h)) in
        rw (e, resolve, strip_slash_done st a)
          (Meets-map (names st (split (c ∷ cs))) (from st (c ∷ cs)) k
            (resolve n w (walk (c ∷ cs) (join st)) k) (λ o l. Leads.relative s l) m)
  ]
  resolve-Meets (suc n) goes_on st [] k a h =
      (st, refl, a, omega arith, Leads.empty_name Leads.ends)
  resolve-Meets (suc n) goes_on st (c ∷ cs) k a h =
      walk-Meets n (resolve-Meets n) st (c ∷ cs) k a (omega (arith, h)) (next_round (c ∷ cs))
        (next_round-RoundOf (c ∷ cs) (λ e. ground arith))
  resolve-Meets (suc n) enters st p k a h =
      enter-Meets n (resolve-Meets n) st p k a (omega (arith, h)) (open_component w (join st)) refl

-- For each world whose links have at most PATH_MAX bytes, each directory with proper names and each
-- path, resolve_path returns: an error where the path leads to that error, or the real path of the
-- stack of proper names that it leads to, after at most the symbolic links that were left.
pub resolve_path_lem :
    (w : World) (st : List (List ℕ)) (pathname : List ℕ) (symlink_remain : ℕ)
    → IsShort w path_max
    → All IsProper st
    → Meets w (from st pathname) symlink_remain (resolve_path w (join st) pathname symlink_remain)
unfolding resolve_path
resolve_path_lem w st pathname k short a =
    resolve-Meets w path_max short (length pathname + 2 + links path_max k) begins st pathname k a
      (omega arith)
