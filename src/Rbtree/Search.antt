-- ===== src/Rbtree/Search.antt =====
-- src/lib/rbtree.c: the three searches, and a description of them on the keys in order.
use foreign_linux.Base.{
  ℕ, ◌≤◌, ◌<◌, ◌≡◌, refl, ◌∙◌, Bool, false, ◌||◌, Option, none, some, List, [], ◌∷◌, ◌++◌, arith,
  Bool-cases, inl, inr, ltb, ◌==◌, if◌then◌else◌, All,
}
use foreign_linux.Rbtree.{
  Tree, leaf, node, rb_find, rb_lower_bound, lower_bound_loop, rb_upper_bound, upper_bound_loop,
}
use foreign_linux.Rbtree.Order.{inorder, IsSorted, IsSorted-parts}

abbrev pub member : ℕ → List ℕ → Bool
member v [] = false
member v (x ∷ xs) = x == v || member v xs

-- The first key that is not below `v`, and the last one that is not above it.
unfoldable pub first_from : ℕ → List ℕ → Option ℕ
first_from v [] = none
first_from v (x ∷ xs) = let rest = first_from v xs in if ltb x v then rest else some x

abbrev pub or_else : Option ℕ → Option ℕ → Option ℕ
or_else none o = o
or_else (some x) o = some x

unfoldable pub last_upto : ℕ → List ℕ → Option ℕ
last_upto v [] = none
last_upto v (x ∷ xs) =
    let rest = or_else (last_upto v xs) (some x) in if ltb v x then none else rest

member-append : (v : ℕ) (L R : List ℕ) → member v (L ++ R) ≡ (member v L || member v R)
member-append v [] R = refl
member-append v (x ∷ L) R = ground (arith, member-append v L R)

not_below : (v k : ℕ) (xs : List ℕ) → All (λ y. k ≤ y) xs → v < k → member v xs ≡ false
not_below v k [] a h = refl
not_below v k (x ∷ xs) (p, a) h = ground (arith, not_below v k xs a h)

not_above : (v k : ℕ) (xs : List ℕ) → All (λ y. y ≤ k) xs → k < v → member v xs ≡ false
not_above v k [] a h = refl
not_above v k (x ∷ xs) (p, a) h = ground (arith, not_above v k xs a h)

-- In a sorted tree the search finds a key exactly if the tree has it.
pub rb_find_lem :
    (t : Tree) (value : ℕ)
    → IsSorted (inorder t)
    → rb_find t value ≡ (if member value (inorder t) then some value else none)
unfolding rb_find inorder
rb_find_lem leaf value s = refl
rb_find_lem (node c l k r) value s =
    let (a, b, sl, sr) = IsSorted-parts (inorder l) k (inorder r) s in
    ground (
      arith,
      member-append value (inorder l) (k ∷ inorder r),
      not_below value k (inorder r) b,
      not_above value k (inorder l) a,
      rb_find_lem l value sl,
      rb_find_lem r value sr,
    )

first_from-split :
    (v k : ℕ) (L R : List ℕ) → v < k → first_from v (L ++ k ∷ R) ≡ or_else (first_from v L) (some k)
unfolding first_from
first_from-split v k [] R h = ground arith
first_from-split v k (x ∷ L) R h = ground (arith, first_from-split v k L R h)

first_from-above :
    (v k : ℕ) (L R : List ℕ)
    → All (λ y. y ≤ k) L
    → k < v
    → first_from v (L ++ k ∷ R) ≡ first_from v R
unfolding first_from
first_from-above v k [] R a h = ground arith
first_from-above v k (x ∷ L) R (p, a) h = ground (arith, first_from-above v k L R a h)

first_from-equal :
    (v k : ℕ) (L R : List ℕ) → All (λ y. y ≤ k) L → k ≡ v → first_from v (L ++ k ∷ R) ≡ some k
unfolding first_from
first_from-equal v k [] R a h = ground arith
first_from-equal v k (x ∷ L) R (p, a) h = ground (arith, first_from-equal v k L R a h)

or_else_assoc : (a b c : Option ℕ) → or_else (or_else a b) c ≡ or_else a (or_else b c)
or_else_assoc none b c = refl
or_else_assoc (some x) b c = refl

lower_bound_loop_lem :
    (t : Tree) (v : ℕ) (candidate : Option ℕ)
    → IsSorted (inorder t)
    → lower_bound_loop t v candidate ≡ or_else (first_from v (inorder t)) candidate
unfolding lower_bound_loop inorder first_from
lower_bound_loop_lem leaf v candidate s = refl
lower_bound_loop_lem (node c l k r) v candidate s =
    let (a, b, sl, sr) = IsSorted-parts (inorder l) k (inorder r) s in
    elim (Bool-cases (ltb v k)) [
      | inl e ↦
          rw
            (
              e,
              first_from-split v k (inorder l) (inorder r) (ground arith),
              or_else_assoc (first_from v (inorder l)) (some k) candidate,
            )
            (lower_bound_loop_lem l v (some k) sl)
      | inr e ↦ elim (Bool-cases (ltb k v)) [
        | inl f ↦
            rw (e, f, first_from-above v k (inorder l) (inorder r) a (ground arith))
              (lower_bound_loop_lem r v candidate sr)
        | inr f ↦ rw (e, f, first_from-equal v k (inorder l) (inorder r) a (ground arith)) refl
      ]
    ]

last_upto-none : (v k : ℕ) (xs : List ℕ) → All (λ y. k ≤ y) xs → v < k → last_upto v xs ≡ none
unfolding last_upto
last_upto-none v k [] a h = refl
last_upto-none v k (x ∷ xs) (p, a) h = ground arith

-- Behind keys that are not above `v`.
last_upto-append :
    (v k : ℕ) (L R : List ℕ)
    → All (λ y. y ≤ k) L
    → k ≤ v
    → last_upto v (L ++ k ∷ R) ≡ or_else (last_upto v R) (some k)
unfolding last_upto
last_upto-append v k [] R a h = ground arith
last_upto-append v k (x ∷ L) R (p, a) h =
    let rest = last_upto-append v k L R a h in
    let e : ltb v x ≡ false = ground arith in
    rw (e, rest, or_else_assoc (last_upto v R) (some k) (some x)) refl

last_upto-split : (v k : ℕ) (L R : List ℕ) → v < k → last_upto v (L ++ k ∷ R) ≡ last_upto v L
unfolding last_upto
last_upto-split v k [] R h = ground arith
last_upto-split v k (x ∷ L) R h = rw (last_upto-split v k L R h) refl

-- Among equal keys the last one that is not above `v` is `v` itself.
last_upto-equal :
    (v : ℕ) (R : List ℕ) → All (λ y. v ≤ y) R → or_else (last_upto v R) (some v) ≡ some v
unfolding last_upto
last_upto-equal v [] a = refl
last_upto-equal v (x ∷ R) (p, a) = ground (arith, last_upto-equal v R a)

last_upto-nil : (v : ℕ) → last_upto v [] ≡ none
unfolding last_upto
last_upto-nil v = refl

upper_bound_loop_lem :
    (t : Tree) (v : ℕ) (candidate : Option ℕ)
    → IsSorted (inorder t)
    → upper_bound_loop t v candidate ≡ or_else (last_upto v (inorder t)) candidate
unfolding upper_bound_loop inorder
upper_bound_loop_lem leaf v candidate s = rw (last_upto-nil v) refl
upper_bound_loop_lem (node c l k r) v candidate s =
    let (a, b, sl, sr) = IsSorted-parts (inorder l) k (inorder r) s in
    elim (Bool-cases (ltb v k)) [
      | inl e ↦
          rw (e, last_upto-split v k (inorder l) (inorder r) (ground arith))
            (upper_bound_loop_lem l v candidate sl)
      | inr e ↦ elim (Bool-cases (ltb k v)) [
        | inl f ↦
            rw
              (
                e,
                f,
                last_upto-append v k (inorder l) (inorder r) a (ground arith),
                or_else_assoc (last_upto v (inorder r)) (some k) candidate,
              )
              (upper_bound_loop_lem r v (some k) sr)
        | inr f ↦
            let same : v ≡ k = ground arith in
            rw
              (
                e,
                f,
                last_upto-append v k (inorder l) (inorder r) a (ground arith),
                same,
                last_upto-equal k (inorder r) b,
              )
              refl
      ]
    ]

or_else-none : (o : Option ℕ) → or_else o none ≡ o
or_else-none none = refl
or_else-none (some x) = refl

-- In a sorted tree the lower bound of a value is the first key that is not below it, and the upper
-- bound the last key that is not above it.
pub rb_bounds_lem :
    (t : Tree) (value : ℕ)
    → IsSorted (inorder t)
    → (rb_lower_bound t value ≡ first_from value (inorder t))
      × (rb_upper_bound t value ≡ last_upto value (inorder t))
unfolding rb_lower_bound rb_upper_bound
rb_bounds_lem t value s = (
  lower_bound_loop_lem t value none s ∙ or_else-none (first_from value (inorder t)),
  upper_bound_loop_lem t value none s ∙ or_else-none (last_upto value (inorder t)),
)
